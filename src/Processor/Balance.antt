-- ===== src/Processor/Balance.antt =====
-- process_deposit_autodeploy_balance.rs and process_withdraw_autodeploy_balance.rs of
-- program/src/processor.
pub mod Deposit
pub mod Withdraw
use evore_program.Prelude.{ℕ, List, [], ◌∷◌, ◌++◌, ◌-◌, ◌==◌, not, ltb}
use evore_program.Error.{
  evore, manager_not_initialized, not_authorized, incorrect_program_id, invalid_pda,
  insufficient_autodeploy_balance,
}
use evore_program.Runtime.{
  AccountInfo, Runtime, Tx, M, ◌>>=◌, ◌>>◌, reject_if, account, invoke, transfer,
}
use evore_program.State.{Manager, managed_miner_auth_pda, managed_miner_auth_seeds}
use evore_program.Processor.Fees.{auth_pda_rent}
use evore_program.Processor.Loads.{◌!=◌, require_data, require_signer, load_manager}

module _ (rt : Runtime) where
  unfoldable pub process_deposit_autodeploy_balance :
      (signer manager_info managed_miner_auth_info system_program_info : AccountInfo)
      → (auth_id amount : ℕ) → M (Unit {0})
  process_deposit_autodeploy_balance signer manager_info managed_miner_auth_info system_program_info
        auth_id amount =
      do
        require_signer signer
        reject_if (system_program_info.key != rt.system_id) incorrect_program_id
        require_data manager_info (evore manager_not_initialized)
        manager ← load_manager rt manager_info
        reject_if (manager.authority != signer.key) (evore not_authorized)
        let pda = managed_miner_auth_pda rt manager_info.key auth_id
        reject_if (pda.0 != managed_miner_auth_info.key) (evore invalid_pda)
        invoke rt (transfer signer.key managed_miner_auth_info.key amount) []

  unfoldable pub process_withdraw_autodeploy_balance :
      (signer manager_info managed_miner_auth_info system_program_info : AccountInfo)
      → (auth_id amount : ℕ) → M (Unit {0})
  process_withdraw_autodeploy_balance signer manager_info managed_miner_auth_info
        system_program_info auth_id amount =
      do
        require_signer signer
        reject_if (system_program_info.key != rt.system_id) incorrect_program_id
        require_data manager_info (evore manager_not_initialized)
        manager ← load_manager rt manager_info
        reject_if (manager.authority != signer.key) (evore not_authorized)
        let pda = managed_miner_auth_pda rt manager_info.key auth_id
        reject_if (pda.0 != managed_miner_auth_info.key) (evore invalid_pda)
        source ← account managed_miner_auth_info
        reject_if (ltb (source.lamports - auth_pda_rent) amount)
            (evore insufficient_autodeploy_balance)
        invoke rt (transfer managed_miner_auth_info.key signer.key amount)
            (managed_miner_auth_seeds manager_info.key auth_id ++ (pda.1 ∷ []) ∷ [])
