-- ===== src/Builders/Tokens.antt =====
-- The builders of program/src/instruction.rs that name token accounts.
use evore_program.Prelude.{ℕ, true, false, [], ◌∷◌, ◌++◌, to_le_bytes}
use evore_program.OreApi.{Pubkey}
use evore_program.Runtime.{Runtime}
use evore_program.State.{managed_miner_auth_pda}
use evore_program.Instruction.{Instructions, instruction_code}
use evore_program.Processor.Claims.{board_address, miner_address}
use evore_program.Builders.{Instruction, new_meta, readonly_meta}

module _ (rt : Runtime) where
  -- `treasury_pda().0` of program/src/ore_api.rs
  unfoldable pub treasury_address : Pubkey
  treasury_address =
      (rt.find_ore_address ((0x74 ∷ 0x72 ∷ 0x65 ∷ 0x61 ∷ 0x73 ∷ 0x75 ∷ 0x72 ∷ 0x79 ∷ []) ∷ [])).0

  unfoldable pub mm_claim_ore : (signer manager : Pubkey) → (auth_id : ℕ) → Instruction
  mm_claim_ore signer manager auth_id =
      let auth = managed_miner_auth_pda rt manager auth_id in
      record {
        accounts =
            new_meta signer true
            ∷ new_meta manager false
            ∷ new_meta auth.0 false
            ∷ new_meta (board_address rt) false
            ∷ new_meta (miner_address rt auth.0) false
            ∷ new_meta rt.mint false
            ∷ new_meta (rt.associated_token_address auth.0 rt.mint) false
            ∷ new_meta (rt.associated_token_address signer rt.mint) false
            ∷ new_meta treasury_address false
            ∷ new_meta (rt.associated_token_address treasury_address rt.mint) false
            ∷ readonly_meta rt.system_id
            ∷ readonly_meta rt.spl_token_id
            ∷ readonly_meta rt.spl_ata_id
            ∷ readonly_meta rt.ore_id
            ∷ [];
        bytes = instruction_code Instructions.mm_claim_ore ∷ to_le_bytes 8 auth_id ++ auth.1 ∷ [];
      }

  unfoldable pub withdraw_tokens :
      (signer manager : Pubkey) → (auth_id : ℕ) → (mint : Pubkey) → Instruction
  withdraw_tokens signer manager auth_id mint =
      let auth = managed_miner_auth_pda rt manager auth_id in
      record {
        accounts =
            new_meta signer true
            ∷ readonly_meta manager
            ∷ new_meta auth.0 false
            ∷ new_meta (rt.associated_token_address auth.0 mint) false
            ∷ new_meta (rt.associated_token_address signer mint) false
            ∷ readonly_meta mint
            ∷ readonly_meta rt.system_id
            ∷ readonly_meta rt.spl_token_id
            ∷ readonly_meta rt.spl_ata_id
            ∷ [];
        bytes =
            instruction_code Instructions.withdraw_tokens ∷ to_le_bytes 8 auth_id ++ auth.1 ∷ [];
      }
