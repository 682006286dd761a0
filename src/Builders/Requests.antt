-- ===== src/Builders/Requests.antt =====
-- The instructions of program/src/instruction.rs that are built here, and the handlers that they are for.
use evore_program.Prelude.{ℕ, ◌<◌, ◌^◌, true, false}
use evore_program.OreApi.{Pubkey}
use evore_program.Runtime.{Runtime, M}
use evore_program.State.{deployer_pda, strategy_deployer_pda, managed_miner_auth_pda}
use evore_program.Processor.Manager.{process_create_manager, process_transfer_manager}
use evore_program.Processor.Deployer.{
  CreateDeployer, UpdateDeployer, process_create_deployer, process_update_deployer,
}
use evore_program.Processor.Balance.{
  process_deposit_autodeploy_balance, process_withdraw_autodeploy_balance,
}
use evore_program.Processor.Claims.{
  board_address, miner_address, process_claim_sol, process_mm_strat_autocheckpoint,
  process_recycle_strat_sol,
}
use evore_program.Processor.Tokens.{process_claim_ore, process_withdraw_tokens, process_recycle_sol}
use evore_program.Builders.{Instruction, new_meta, readonly_meta}

-- A builder with its arguments.
pub data Request : Type 0 where
  create_manager : (signer manager : Pubkey) → Request
  transfer_manager : (signer manager new_authority : Pubkey) → Request
  mm_claim_sol : (signer manager : Pubkey) (auth_id : ℕ) → Request
  create_deployer : (signer manager deploy_authority : Pubkey) (args : CreateDeployer) → Request
  update_deployer : (signer manager new_deploy_authority : Pubkey) (args : UpdateDeployer) → Request
  deposit : (signer manager : Pubkey) (auth_id amount : ℕ) → Request
  recycle_sol : (signer manager : Pubkey) (auth_id : ℕ) → Request
  withdraw : (signer manager : Pubkey) (auth_id amount : ℕ) → Request
  mm_strat_autocheckpoint : (signer manager : Pubkey) (auth_id bump : ℕ) → Request
  recycle_strat_sol : (signer manager : Pubkey) (auth_id : ℕ) → Request
  mm_claim_ore : (signer manager : Pubkey) (auth_id : ℕ) → Request
  withdraw_tokens : (signer manager : Pubkey) (auth_id : ℕ) (mint : Pubkey) → Request

abbrev pub IsU64 : ℕ → Type 0
IsU64 n = n < 256 ^ 8

-- The numbers of a request are of the builder's types.
abbrev pub IsSized : Request → Type 0
IsSized (Request.create_manager signer manager) = Unit
IsSized (Request.transfer_manager signer manager new_authority) = Unit
IsSized (Request.mm_claim_sol signer manager auth_id) = IsU64 auth_id
IsSized (Request.create_deployer signer manager deploy_authority args) =
    IsU64 args.bps_fee × IsU64 args.flat_fee × IsU64 args.max_per_round
IsSized (Request.update_deployer signer manager new_deploy_authority args) =
    IsU64 args.bps_fee
    × IsU64 args.flat_fee
    × IsU64 args.expected_bps_fee
    × IsU64 args.expected_flat_fee
    × IsU64 args.max_per_round
IsSized (Request.deposit signer manager auth_id amount) = IsU64 auth_id × IsU64 amount
IsSized (Request.recycle_sol signer manager auth_id) = IsU64 auth_id
IsSized (Request.withdraw signer manager auth_id amount) = IsU64 auth_id × IsU64 amount
IsSized (Request.mm_strat_autocheckpoint signer manager auth_id bump) = IsU64 auth_id
IsSized (Request.recycle_strat_sol signer manager auth_id) = IsU64 auth_id
IsSized (Request.mm_claim_ore signer manager auth_id) = IsU64 auth_id
IsSized (Request.withdraw_tokens signer manager auth_id mint) = IsU64 auth_id

module _ (rt : Runtime) where
  abbrev pub build : Request → Instruction
  build (Request.create_manager signer manager) =
      evore_program.Builders.create_manager rt signer manager
  build (Request.transfer_manager signer manager new_authority) =
      evore_program.Builders.transfer_manager rt signer manager new_authority
  build (Request.mm_claim_sol signer manager auth_id) =
      evore_program.Builders.mm_claim_sol rt signer manager auth_id
  build (Request.create_deployer signer manager deploy_authority args) =
      evore_program.Builders.create_deployer rt signer manager deploy_authority args.bps_fee
        args.flat_fee args.max_per_round
  build (Request.update_deployer signer manager new_deploy_authority args) =
      evore_program.Builders.update_deployer rt signer manager new_deploy_authority args.bps_fee
        args.flat_fee args.expected_bps_fee args.expected_flat_fee args.max_per_round
  build (Request.deposit signer manager auth_id amount) =
      evore_program.Builders.deposit_autodeploy_balance rt signer manager auth_id amount
  build (Request.recycle_sol signer manager auth_id) =
      evore_program.Builders.recycle_sol rt signer manager auth_id
  build (Request.withdraw signer manager auth_id amount) =
      evore_program.Builders.withdraw_autodeploy_balance rt signer manager auth_id amount
  build (Request.mm_strat_autocheckpoint signer manager auth_id bump) =
      evore_program.Builders.mm_strat_autocheckpoint rt signer manager auth_id bump
  build (Request.recycle_strat_sol signer manager auth_id) =
      evore_program.Builders.recycle_strat_sol rt signer manager auth_id
  build (Request.mm_claim_ore signer manager auth_id) =
      evore_program.Builders.Tokens.mm_claim_ore rt signer manager auth_id
  build (Request.withdraw_tokens signer manager auth_id mint) =
      evore_program.Builders.Tokens.withdraw_tokens rt signer manager auth_id mint

  -- The handler that a request is for, on the accounts by their roles and the arguments as given.
  abbrev pub requested : Request → M (Unit {0})
  requested (Request.create_manager signer manager) =
      process_create_manager rt (new_meta signer true) (new_meta manager true)
        (readonly_meta rt.system_id)
  requested (Request.transfer_manager signer manager new_authority) =
      process_transfer_manager rt (new_meta signer true) (new_meta manager false)
        (readonly_meta new_authority)
  requested (Request.mm_claim_sol signer manager auth_id) =
      process_claim_sol rt (new_meta signer true) (new_meta manager false)
        (new_meta (managed_miner_auth_pda rt manager auth_id).0 false)
        (new_meta (board_address rt) false) (readonly_meta rt.system_id) (readonly_meta rt.ore_id)
        auth_id (managed_miner_auth_pda rt manager auth_id).1
  requested (Request.create_deployer signer manager deploy_authority args) =
      process_create_deployer rt (new_meta signer true) (new_meta manager false)
        (new_meta (deployer_pda rt manager).0 false) (readonly_meta deploy_authority)
        (readonly_meta rt.system_id) args
  requested (Request.update_deployer signer manager new_deploy_authority args) =
      process_update_deployer rt (new_meta signer true) (new_meta manager false)
        (new_meta (deployer_pda rt manager).0 false) (readonly_meta new_deploy_authority) args
  requested (Request.deposit signer manager auth_id amount) =
      process_deposit_autodeploy_balance rt (new_meta signer true) (new_meta manager false)
        (new_meta (managed_miner_auth_pda rt manager auth_id).0 false) (readonly_meta rt.system_id)
        auth_id amount
  requested (Request.recycle_sol signer manager auth_id) =
      let auth = (managed_miner_auth_pda rt manager auth_id).0 in
      process_recycle_sol rt (new_meta signer true) (new_meta manager false)
        (new_meta (deployer_pda rt manager).0 false) (new_meta auth false)
        (new_meta (miner_address rt auth) false) (new_meta (board_address rt) false)
        (readonly_meta rt.system_id) (readonly_meta rt.ore_id) auth_id
  requested (Request.withdraw signer manager auth_id amount) =
      process_withdraw_autodeploy_balance rt (new_meta signer true) (new_meta manager false)
        (new_meta (managed_miner_auth_pda rt manager auth_id).0 false) (readonly_meta rt.system_id)
        auth_id amount
  requested (Request.mm_strat_autocheckpoint signer manager auth_id bump) =
      let auth = (managed_miner_auth_pda rt manager auth_id).0 in
      process_mm_strat_autocheckpoint rt (new_meta signer true) (new_meta manager false)
        (new_meta (strategy_deployer_pda rt manager).0 false) (new_meta auth false)
        (new_meta (miner_address rt auth) false) (readonly_meta rt.ore_id) auth_id bump
  requested (Request.recycle_strat_sol signer manager auth_id) =
      let auth = (managed_miner_auth_pda rt manager auth_id).0 in
      process_recycle_strat_sol rt (new_meta signer true) (new_meta manager false)
        (new_meta (strategy_deployer_pda rt manager).0 false) (new_meta auth false)
        (new_meta (miner_address rt auth) false) (new_meta (board_address rt) false)
        (readonly_meta rt.ore_id) (readonly_meta rt.system_id) auth_id
  requested (Request.mm_claim_ore signer manager auth_id) =
      let auth = managed_miner_auth_pda rt manager auth_id in
      process_claim_ore rt (new_meta signer true) (new_meta manager false) (new_meta auth.0 false)
        (new_meta (board_address rt) false) (new_meta rt.mint false)
        (new_meta (rt.associated_token_address auth.0 rt.mint) false)
        (new_meta (rt.associated_token_address signer rt.mint) false) (readonly_meta rt.system_id)
        (readonly_meta rt.spl_token_id) (readonly_meta rt.spl_ata_id) (readonly_meta rt.ore_id)
        auth_id auth.1
  requested (Request.withdraw_tokens signer manager auth_id mint) =
      let auth = managed_miner_auth_pda rt manager auth_id in
      process_withdraw_tokens rt (new_meta signer true) (readonly_meta manager)
        (new_meta auth.0 false) (new_meta (rt.associated_token_address auth.0 mint) false)
        (new_meta (rt.associated_token_address signer mint) false) (readonly_meta mint)
        (readonly_meta rt.system_id) (readonly_meta rt.spl_token_id) (readonly_meta rt.spl_ata_id)
        auth_id auth.1
