-- ===== src/Builders/Rounds.antt =====
-- The builders of program/src/instruction.rs that name a round, and ORE's addresses for them of
-- program/src/ore_api.rs and program/src/entropy_api.rs.
use evore_program.Prelude.{ℕ, true, false, List, [], ◌∷◌, ◌++◌, replicate, to_le_bytes}
use evore_program.OreApi.{Pubkey}
use evore_program.Runtime.{AccountInfo, Runtime, key_bytes}
use evore_program.State.{deployer_pda, strategy_deployer_pda, managed_miner_auth_pda}
use evore_program.Instruction.{Instructions, instruction_code}
use evore_program.Processor.Claims.{board_address, miner_address}
use evore_program.Processor.Automation.{default_key}
use evore_program.Builders.{Instruction, new_meta, readonly_meta}

module _ (rt : Runtime) where
  -- `round_pda(id).0`, `config_pda().0` and `automation_pda(authority).0`
  unfoldable pub round_address : ℕ → Pubkey
  round_address id =
      (rt.find_ore_address ((0x72 ∷ 0x6f ∷ 0x75 ∷ 0x6e ∷ 0x64 ∷ []) ∷ to_le_bytes 8 id ∷ [])).0

  unfoldable pub config_address : Pubkey
  config_address = (rt.find_ore_address ((0x63 ∷ 0x6f ∷ 0x6e ∷ 0x66 ∷ 0x69 ∷ 0x67 ∷ []) ∷ [])).0

  unfoldable pub automation_address : Pubkey → Pubkey
  automation_address authority =
      (rt.find_ore_address (
        (0x61 ∷ 0x75 ∷ 0x74 ∷ 0x6f ∷ 0x6d ∷ 0x61 ∷ 0x74 ∷ 0x69 ∷ 0x6f ∷ 0x6e ∷ [])
        ∷ key_bytes authority
        ∷ [])).0

  -- `entropy_api::var_pda(board_pda().0, 0).0`
  unfoldable pub entropy_var_address : Pubkey
  entropy_var_address =
      (rt.find_entropy_address
        ((0x76 ∷ 0x61 ∷ 0x72 ∷ []) ∷ key_bytes (board_address rt) ∷ to_le_bytes 8 0 ∷ [])).0

  unfoldable pub mm_checkpoint : (signer manager : Pubkey) → (round_id auth_id : ℕ) → Instruction
  mm_checkpoint signer manager round_id auth_id =
      let auth = managed_miner_auth_pda rt manager auth_id in
      record {
        accounts =
            new_meta signer true
            ∷ new_meta manager false
            ∷ new_meta auth.0 false
            ∷ new_meta (miner_address rt auth.0) false
            ∷ new_meta rt.treasury false
            ∷ new_meta (board_address rt) false
            ∷ new_meta (round_address round_id) false
            ∷ readonly_meta rt.system_id
            ∷ readonly_meta rt.ore_id
            ∷ [];
        bytes = instruction_code Instructions.mm_checkpoint ∷ to_le_bytes 8 auth_id ++ auth.1 ∷ [];
      }

  unfoldable pub mm_autocheckpoint :
      (signer manager : Pubkey) → (round_id auth_id : ℕ) → Instruction
  mm_autocheckpoint signer manager round_id auth_id =
      let auth = managed_miner_auth_pda rt manager auth_id in
      record {
        accounts =
            new_meta signer true
            ∷ new_meta manager false
            ∷ new_meta (deployer_pda rt manager).0 false
            ∷ new_meta auth.0 false
            ∷ new_meta (miner_address rt auth.0) false
            ∷ new_meta rt.treasury false
            ∷ new_meta (board_address rt) false
            ∷ new_meta (round_address round_id) false
            ∷ readonly_meta rt.system_id
            ∷ readonly_meta rt.ore_id
            ∷ [];
        bytes =
            instruction_code Instructions.mm_autocheckpoint ∷ to_le_bytes 8 auth_id ++ auth.1 ∷ [];
      }

  unfoldable pub mm_create_miner : (signer manager : Pubkey) → (auth_id : ℕ) → Instruction
  mm_create_miner signer manager auth_id =
      let auth = managed_miner_auth_pda rt manager auth_id in
      record {
        accounts =
            new_meta signer true
            ∷ new_meta manager false
            ∷ new_meta auth.0 false
            ∷ new_meta (automation_address auth.0) false
            ∷ new_meta (miner_address rt auth.0) false
            ∷ new_meta signer false
            ∷ readonly_meta default_key
            ∷ readonly_meta rt.system_id
            ∷ readonly_meta rt.ore_id
            ∷ [];
        bytes =
            instruction_code Instructions.mm_create_miner ∷ to_le_bytes 8 auth_id ++ auth.1 ∷ [];
      }

  unfoldable pub build_autodeploy_accounts :
      (signer manager : Pubkey) → (auth_id round_id : ℕ) → List AccountInfo
  build_autodeploy_accounts signer manager auth_id round_id =
      let auth = (managed_miner_auth_pda rt manager auth_id).0 in
      new_meta signer true
      ∷ new_meta manager false
      ∷ new_meta (deployer_pda rt manager).0 false
      ∷ new_meta auth false
      ∷ new_meta (miner_address rt auth) false
      ∷ new_meta rt.fee_collector false
      ∷ new_meta (automation_address auth) false
      ∷ new_meta config_address false
      ∷ new_meta (board_address rt) false
      ∷ new_meta (round_address round_id) false
      ∷ new_meta entropy_var_address false
      ∷ readonly_meta rt.ore_id
      ∷ readonly_meta rt.entropy_id
      ∷ readonly_meta rt.system_id
      ∷ []

  unfoldable pub mm_autodeploy :
      (signer manager : Pubkey) → (auth_id round_id amount squares_mask : ℕ) → Instruction
  mm_autodeploy signer manager auth_id round_id amount squares_mask = record {
    accounts = build_autodeploy_accounts signer manager auth_id round_id;
    bytes =
        instruction_code Instructions.mm_autodeploy ∷ to_le_bytes 8 auth_id
        ++ (to_le_bytes 8 amount ++ (to_le_bytes 4 squares_mask ++ replicate 4 0));
  }

  unfoldable pub build_full_autodeploy_accounts :
      (signer manager : Pubkey) → (auth_id round_id checkpoint_round_id : ℕ) → List AccountInfo
  build_full_autodeploy_accounts signer manager auth_id round_id checkpoint_round_id =
      let auth = (managed_miner_auth_pda rt manager auth_id).0 in
      new_meta signer true
      ∷ new_meta manager false
      ∷ new_meta (deployer_pda rt manager).0 false
      ∷ new_meta auth false
      ∷ new_meta (miner_address rt auth) false
      ∷ new_meta rt.fee_collector false
      ∷ new_meta (automation_address auth) false
      ∷ new_meta config_address false
      ∷ new_meta (board_address rt) false
      ∷ new_meta (round_address round_id) false
      ∷ new_meta (round_address checkpoint_round_id) false
      ∷ new_meta rt.treasury false
      ∷ new_meta entropy_var_address false
      ∷ readonly_meta rt.ore_id
      ∷ readonly_meta rt.entropy_id
      ∷ readonly_meta rt.system_id
      ∷ []

  unfoldable pub mm_full_autodeploy :
      (signer manager : Pubkey)
      → (auth_id round_id checkpoint_round_id amount squares_mask : ℕ) → Instruction
  mm_full_autodeploy signer manager auth_id round_id checkpoint_round_id amount squares_mask =
      record {
        accounts =
            build_full_autodeploy_accounts signer manager auth_id round_id checkpoint_round_id;
        bytes =
            instruction_code Instructions.mm_full_autodeploy ∷ to_le_bytes 8 auth_id
            ++ (to_le_bytes 8 amount ++ (to_le_bytes 4 squares_mask ++ replicate 4 0));
      }

  -- The round is always that of id 0.
  unfoldable pub mm_strat_autodeploy :
      (deploy_authority manager : Pubkey) → (auth_id amount squares_mask extra : ℕ) → Instruction
  mm_strat_autodeploy deploy_authority manager auth_id amount squares_mask extra =
      let auth = (managed_miner_auth_pda rt manager auth_id).0 in
      record {
        accounts =
            new_meta deploy_authority true
            ∷ new_meta manager false
            ∷ new_meta (strategy_deployer_pda rt manager).0 false
            ∷ new_meta auth false
            ∷ new_meta (miner_address rt auth) false
            ∷ new_meta rt.fee_collector false
            ∷ new_meta (automation_address auth) false
            ∷ new_meta config_address false
            ∷ new_meta (board_address rt) false
            ∷ new_meta (round_address 0) false
            ∷ new_meta entropy_var_address false
            ∷ readonly_meta rt.ore_id
            ∷ readonly_meta rt.entropy_id
            ∷ readonly_meta rt.system_id
            ∷ [];
        bytes =
            instruction_code Instructions.mm_strat_autodeploy ∷ to_le_bytes 8 auth_id
            ++ (to_le_bytes 8 amount ++ (to_le_bytes 4 squares_mask ++ to_le_bytes 4 extra));
      }

  -- The round is always that of id 0.
  unfoldable pub mm_strat_full_autodeploy :
      (deploy_authority manager : Pubkey) → (auth_id amount squares_mask extra : ℕ) → Instruction
  mm_strat_full_autodeploy deploy_authority manager auth_id amount squares_mask extra =
      let auth = (managed_miner_auth_pda rt manager auth_id).0 in
      record {
        accounts =
            new_meta deploy_authority true
            ∷ new_meta manager false
            ∷ new_meta (strategy_deployer_pda rt manager).0 false
            ∷ new_meta auth false
            ∷ new_meta (miner_address rt auth) false
            ∷ new_meta rt.fee_collector false
            ∷ new_meta (automation_address auth) false
            ∷ new_meta config_address false
            ∷ new_meta (board_address rt) false
            ∷ new_meta (round_address 0) false
            ∷ new_meta (round_address 0) false
            ∷ new_meta rt.treasury false
            ∷ new_meta entropy_var_address false
            ∷ readonly_meta rt.ore_id
            ∷ readonly_meta rt.entropy_id
            ∷ readonly_meta rt.system_id
            ∷ [];
        bytes =
            instruction_code Instructions.mm_strat_full_autodeploy ∷ to_le_bytes 8 auth_id
            ++ (to_le_bytes 8 amount ++ (to_le_bytes 4 squares_mask ++ to_le_bytes 4 extra));
      }
