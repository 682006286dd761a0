-- ===== src/Entry/Dispatch.antt =====
-- The `match` of `process_instruction`, program/src/lib.rs: each instruction's handler on its accounts. A
-- list of another length than the handler destructures is `NotEnoughAccountKeys`.
use evore_program.Prelude.{List, [], ◌∷◌, ℕ}
use evore_program.Error.{not_enough_account_keys, err}
use evore_program.Runtime.{AccountInfo, Runtime, M, lift}
use evore_program.Instruction.{Instructions}
use evore_program.Processor.Manager.{process_create_manager, process_transfer_manager}
use evore_program.Processor.Deployer.{process_create_deployer, process_update_deployer}
use evore_program.Processor.StratDeployer.{
  process_create_strat_deployer, process_update_strat_deployer,
}
use evore_program.Processor.Balance.{
  process_deposit_autodeploy_balance, process_withdraw_autodeploy_balance,
}
use evore_program.Processor.Claims.{
  process_claim_sol, process_checkpoint, process_mm_autocheckpoint, process_mm_strat_autocheckpoint,
  process_recycle_strat_sol,
}
use evore_program.Processor.Tokens.{
  process_claim_ore, process_withdraw_tokens, process_mm_create_miner, process_recycle_sol,
}
use evore_program.Processor.Autodeploy.{process_mm_autodeploy}
use evore_program.Processor.StratAutodeploy.{process_mm_strat_autodeploy}
use evore_program.Processor.FullAutodeploy.{
  process_mm_full_autodeploy, process_mm_strat_full_autodeploy,
}
use evore_program.Processor.MmDeploy.{process_mm_deploy}
use evore_program.Entry.Handlers.{
  auth_id_of, bump_of, amount_of, squares_mask_of, strat_args_of, mm_deploy_args_of,
  create_deployer_of, update_deployer_of, create_strat_deployer_of, update_strat_deployer_of,
  autodeploy_accounts, strat_accounts, deploy_accounts,
}

module _ (rt : Runtime) where
  unfoldable pub run : Instructions → List AccountInfo → List ℕ → M (Unit {0})
  run Instructions.create_manager (signer ∷ manager ∷ system ∷ []) args =
      process_create_manager rt signer manager system
  run Instructions.transfer_manager (signer ∷ manager ∷ new_authority ∷ []) args =
      process_transfer_manager rt signer manager new_authority
  run Instructions.mm_deploy
        (signer ∷ manager ∷ auth ∷ miner ∷ collector ∷ automation ∷ _config ∷ board ∷ round
          ∷ _entropy_var ∷ ore ∷ entropy ∷ system ∷ [])
        args =
      process_mm_deploy rt
        (deploy_accounts signer manager auth miner collector automation board round ore entropy
          system)
        (mm_deploy_args_of args)
  run Instructions.mm_checkpoint
        (signer ∷ manager ∷ auth ∷ _miner ∷ _treasury ∷ _board ∷ round ∷ system ∷ ore ∷ []) args =
      process_checkpoint rt signer manager auth round system ore (auth_id_of args) (bump_of args)
  run Instructions.mm_claim_sol (signer ∷ manager ∷ auth ∷ board ∷ _miner ∷ system ∷ ore ∷ [])
        args =
      process_claim_sol rt signer manager auth board system ore (auth_id_of args) (bump_of args)
  run Instructions.mm_claim_ore
        (signer ∷ manager ∷ auth ∷ board ∷ _miner ∷ mint ∷ recipient ∷ signer_recipient ∷ _treasury
          ∷ _treasury_tokens ∷ system ∷ spl ∷ spl_ata ∷ ore ∷ [])
        args =
      process_claim_ore rt signer manager auth board mint recipient signer_recipient system spl
        spl_ata ore (auth_id_of args) (bump_of args)
  run Instructions.create_deployer (signer ∷ manager ∷ deployer ∷ deploy_authority ∷ system ∷ [])
        args =
      process_create_deployer rt signer manager deployer deploy_authority system
        (create_deployer_of args)
  run Instructions.update_deployer
        (signer ∷ manager ∷ deployer ∷ new_deploy_authority ∷ _system ∷ []) args =
      process_update_deployer rt signer manager deployer new_deploy_authority
        (update_deployer_of args)
  run Instructions.mm_autodeploy
        (signer ∷ manager ∷ deployer ∷ auth ∷ miner ∷ collector ∷ _automation ∷ _config ∷ board
          ∷ round ∷ _entropy_var ∷ ore ∷ entropy ∷ system ∷ [])
        args =
      process_mm_autodeploy rt
        (autodeploy_accounts signer manager deployer auth miner collector board round ore entropy
          system)
        (auth_id_of args) (amount_of args) (squares_mask_of args)
  run Instructions.deposit_autodeploy_balance (signer ∷ manager ∷ auth ∷ system ∷ []) args =
      process_deposit_autodeploy_balance rt signer manager auth system (auth_id_of args)
        (amount_of args)
  run Instructions.recycle_sol
        (signer ∷ manager ∷ deployer ∷ auth ∷ miner ∷ board ∷ system ∷ ore ∷ []) args =
      process_recycle_sol rt signer manager deployer auth miner board system ore (auth_id_of args)
  run Instructions.withdraw_autodeploy_balance (signer ∷ manager ∷ auth ∷ system ∷ []) args =
      process_withdraw_autodeploy_balance rt signer manager auth system (auth_id_of args)
        (amount_of args)
  run Instructions.mm_autocheckpoint
        (signer ∷ manager ∷ deployer ∷ auth ∷ miner ∷ _treasury ∷ _board ∷ _round ∷ system ∷ ore
          ∷ [])
        args =
      process_mm_autocheckpoint rt signer manager deployer auth miner system ore (auth_id_of args)
        (bump_of args)
  run Instructions.mm_full_autodeploy
        (signer ∷ manager ∷ deployer ∷ auth ∷ miner ∷ collector ∷ _automation ∷ _config ∷ board
          ∷ round ∷ _checkpoint_round ∷ _treasury ∷ _entropy_var ∷ ore ∷ entropy ∷ system ∷ [])
        args =
      process_mm_full_autodeploy rt
        (autodeploy_accounts signer manager deployer auth miner collector board round ore entropy
          system)
        (auth_id_of args) (amount_of args) (squares_mask_of args)
  run Instructions.mm_create_miner
        (signer ∷ manager ∷ auth ∷ _automation ∷ _miner ∷ executor_1 ∷ executor_2 ∷ system ∷ ore
          ∷ [])
        args =
      process_mm_create_miner rt signer manager auth executor_1 executor_2 system ore
        (auth_id_of args) (bump_of args)
  run Instructions.withdraw_tokens
        (signer ∷ manager ∷ auth ∷ source ∷ destination ∷ mint ∷ system ∷ spl ∷ spl_ata ∷ []) args =
      process_withdraw_tokens rt signer manager auth source destination mint system spl spl_ata
        (auth_id_of args) (bump_of args)
  run Instructions.create_strat_deployer
        (signer ∷ manager ∷ deployer ∷ deploy_authority ∷ system ∷ []) args =
      process_create_strat_deployer rt signer manager deployer deploy_authority system
        (create_strat_deployer_of args)
  run Instructions.update_strat_deployer
        (signer ∷ manager ∷ deployer ∷ new_deploy_authority ∷ _system ∷ []) args =
      process_update_strat_deployer rt signer manager deployer new_deploy_authority
        (update_strat_deployer_of args)
  run Instructions.mm_strat_autodeploy
        (signer ∷ manager ∷ deployer ∷ auth ∷ miner ∷ collector ∷ automation ∷ _config ∷ board
          ∷ round ∷ _entropy_var ∷ ore ∷ entropy ∷ system ∷ [])
        args =
      process_mm_strat_autodeploy rt
        (strat_accounts signer manager deployer auth miner collector automation board round ore
          entropy system)
        (auth_id_of args) (strat_args_of args)
  run Instructions.mm_strat_full_autodeploy
        (signer ∷ manager ∷ deployer ∷ auth ∷ miner ∷ collector ∷ automation ∷ _config ∷ board
          ∷ round ∷ _checkpoint_round ∷ _treasury ∷ _entropy_var ∷ ore ∷ entropy ∷ system ∷ [])
        args =
      process_mm_strat_full_autodeploy rt
        (strat_accounts signer manager deployer auth miner collector automation board round ore
          entropy system)
        (auth_id_of args) (strat_args_of args)
  run Instructions.mm_strat_autocheckpoint (signer ∷ manager ∷ deployer ∷ auth ∷ miner ∷ ore ∷ [])
        args =
      process_mm_strat_autocheckpoint rt signer manager deployer auth miner ore (auth_id_of args)
        (bump_of args)
  run Instructions.recycle_strat_sol
        (signer ∷ manager ∷ deployer ∷ auth ∷ miner ∷ board ∷ ore ∷ system ∷ []) args =
      process_recycle_strat_sol rt signer manager deployer auth miner board ore system
        (auth_id_of args)
  run _ _ _ = lift (err not_enough_account_keys)
