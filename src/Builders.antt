-- ===== src/Builders.antt =====
-- program/src/instruction.rs: the instructions that clients build. An `AccountMeta` is here the reference
-- that the runtime passes on to the program for it.
pub mod Requests
pub mod Reach
pub mod Tokens
pub mod Rounds
pub mod RoundRequests
pub mod RoundReach
mod Tests
use evore_program.Prelude.{ℕ, Bool, true, false, List, [], ◌∷◌, ◌++◌, to_le_bytes}
use evore_program.OreApi.{Pubkey}
use evore_program.Runtime.{AccountInfo, Runtime}
use evore_program.State.{deployer_pda, strategy_deployer_pda, managed_miner_auth_pda}
use evore_program.Instruction.{Instructions, instruction_code}
use evore_program.Processor.Claims.{board_address, miner_address}
use evore_program.Processor.Automation.{default_key}

-- `AccountMeta::new` and `AccountMeta::new_readonly`, the latter never a signer here
abbrev pub new_meta : Pubkey → Bool → AccountInfo
new_meta key is_signer = record { key = key; is_signer = is_signer; is_writable = true }

abbrev pub readonly_meta : Pubkey → AccountInfo
readonly_meta key = record { key = key; is_signer = false; is_writable = false }

-- `Instruction`, its program the one of the runtime; `bytes` is `data`.
pub record Instruction : Type 0 where
  pub accounts : List AccountInfo
  pub bytes : List ℕ

module _ (rt : Runtime) where
  unfoldable pub create_manager : (signer manager : Pubkey) → Instruction
  create_manager signer manager = record {
    accounts = new_meta signer true ∷ new_meta manager true ∷ readonly_meta rt.system_id ∷ [];
    bytes = instruction_code Instructions.create_manager ∷ [];
  }

  unfoldable pub transfer_manager : (signer manager new_authority : Pubkey) → Instruction
  transfer_manager signer manager new_authority = record {
    accounts = new_meta signer true ∷ new_meta manager false ∷ readonly_meta new_authority ∷ [];
    bytes = instruction_code Instructions.transfer_manager ∷ [];
  }

  unfoldable pub mm_claim_sol : (signer manager : Pubkey) → (auth_id : ℕ) → Instruction
  mm_claim_sol signer manager auth_id =
      let auth = managed_miner_auth_pda rt manager auth_id in
      record {
        accounts =
            new_meta signer true
            ∷ new_meta manager false
            ∷ new_meta auth.0 false
            ∷ new_meta (board_address rt) false
            ∷ new_meta (miner_address rt auth.0) false
            ∷ readonly_meta rt.system_id
            ∷ readonly_meta rt.ore_id
            ∷ [];
        bytes = instruction_code Instructions.mm_claim_sol ∷ to_le_bytes 8 auth_id ++ auth.1 ∷ [];
      }

  unfoldable pub create_deployer :
      (signer manager deploy_authority : Pubkey)
      → (bps_fee flat_fee max_per_round : ℕ) → Instruction
  create_deployer signer manager deploy_authority bps_fee flat_fee max_per_round = record {
    accounts =
        new_meta signer true
        ∷ new_meta manager false
        ∷ new_meta (deployer_pda rt manager).0 false
        ∷ readonly_meta deploy_authority
        ∷ readonly_meta rt.system_id
        ∷ [];
    bytes =
        instruction_code Instructions.create_deployer ∷ to_le_bytes 8 bps_fee
        ++ (to_le_bytes 8 flat_fee ++ to_le_bytes 8 max_per_round);
  }

  unfoldable pub update_deployer :
      (signer manager new_deploy_authority : Pubkey)
      → (new_bps_fee new_flat_fee new_expected_bps_fee new_expected_flat_fee new_max_per_round : ℕ)
      → Instruction
  update_deployer signer manager new_deploy_authority new_bps_fee new_flat_fee new_expected_bps_fee
        new_expected_flat_fee new_max_per_round =
      record {
        accounts =
            new_meta signer true
            ∷ new_meta manager false
            ∷ new_meta (deployer_pda rt manager).0 false
            ∷ readonly_meta new_deploy_authority
            ∷ readonly_meta rt.system_id
            ∷ [];
        bytes =
            instruction_code Instructions.update_deployer ∷ to_le_bytes 8 new_bps_fee
            ++ (to_le_bytes 8 new_flat_fee
                ++ (to_le_bytes 8 new_expected_bps_fee
                    ++ (to_le_bytes 8 new_expected_flat_fee ++ to_le_bytes 8 new_max_per_round)));
      }

  unfoldable pub deposit_autodeploy_balance :
      (signer manager : Pubkey) → (auth_id amount : ℕ) → Instruction
  deposit_autodeploy_balance signer manager auth_id amount = record {
    accounts =
        new_meta signer true
        ∷ new_meta manager false
        ∷ new_meta (managed_miner_auth_pda rt manager auth_id).0 false
        ∷ readonly_meta rt.system_id
        ∷ [];
    bytes =
        instruction_code Instructions.deposit_autodeploy_balance ∷ to_le_bytes 8 auth_id
        ++ to_le_bytes 8 amount;
  }

  unfoldable pub recycle_sol : (signer manager : Pubkey) → (auth_id : ℕ) → Instruction
  recycle_sol signer manager auth_id =
      let auth = managed_miner_auth_pda rt manager auth_id in
      record {
        accounts =
            new_meta signer true
            ∷ new_meta manager false
            ∷ new_meta (deployer_pda rt manager).0 false
            ∷ new_meta auth.0 false
            ∷ new_meta (miner_address rt auth.0) false
            ∷ new_meta (board_address rt) false
            ∷ readonly_meta rt.system_id
            ∷ readonly_meta rt.ore_id
            ∷ [];
        bytes = instruction_code Instructions.recycle_sol ∷ to_le_bytes 8 auth_id;
      }

  unfoldable pub withdraw_autodeploy_balance :
      (signer manager : Pubkey) → (auth_id amount : ℕ) → Instruction
  withdraw_autodeploy_balance signer manager auth_id amount = record {
    accounts =
        new_meta signer true
        ∷ new_meta manager false
        ∷ new_meta (managed_miner_auth_pda rt manager auth_id).0 false
        ∷ readonly_meta rt.system_id
        ∷ [];
    bytes =
        instruction_code Instructions.withdraw_autodeploy_balance ∷ to_le_bytes 8 auth_id
        ++ to_le_bytes 8 amount;
  }

  unfoldable pub mm_strat_autocheckpoint :
      (signer manager : Pubkey) → (auth_id bump : ℕ) → Instruction
  mm_strat_autocheckpoint signer manager auth_id bump =
      let auth = managed_miner_auth_pda rt manager auth_id in
      record {
        accounts =
            new_meta signer true
            ∷ new_meta manager false
            ∷ new_meta (strategy_deployer_pda rt manager).0 false
            ∷ new_meta auth.0 false
            ∷ new_meta (miner_address rt auth.0) false
            ∷ readonly_meta rt.ore_id
            ∷ [];
        bytes =
            instruction_code Instructions.mm_strat_autocheckpoint ∷ to_le_bytes 8 auth_id
            ++ bump ∷ [];
      }

  unfoldable pub recycle_strat_sol : (signer manager : Pubkey) → (auth_id : ℕ) → Instruction
  recycle_strat_sol signer manager auth_id =
      let auth = managed_miner_auth_pda rt manager auth_id in
      record {
        accounts =
            new_meta signer true
            ∷ new_meta manager false
            ∷ new_meta (strategy_deployer_pda rt manager).0 false
            ∷ new_meta auth.0 false
            ∷ new_meta (miner_address rt auth.0) false
            ∷ new_meta (board_address rt) false
            ∷ readonly_meta rt.ore_id
            ∷ readonly_meta rt.system_id
            ∷ [];
        bytes = instruction_code Instructions.recycle_strat_sol ∷ to_le_bytes 8 auth_id;
      }
