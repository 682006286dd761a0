-- ===== src/Processor/Manager.antt =====
-- process_create_manager.rs and process_transfer_manager.rs of program/src/processor.
pub mod Authority
use evore_program.Prelude.{ℕ, List, [], ◌∷◌, not, ◌+◌, ◌==◌}
use evore_program.Error.{
  ProgramError, evore, manager_not_initialized, not_authorized, incorrect_program_id,
  invalid_account_data, account_already_initialized,
}
use evore_program.Runtime.{
  AccountInfo, Account, Runtime, Tx, M, ◌>>=◌, ◌>>◌, lift, reject_if, account, is_empty_data,
  write_bytes, invoke, create_rent_exempt, key_bytes,
}
use evore_program.Runtime.Bytes.{write_at}
use evore_program.State.{Manager, manager_of_bytes, manager_size, manager_discriminator}
use evore_program.Processor.Loads.{◌!=◌, require_data, require_signer, load_manager}

module _ (rt : Runtime) where
  unfoldable pub process_create_manager :
      (signer managed_miner_account_info system_program : AccountInfo) → M (Unit {0})
  process_create_manager signer managed_miner_account_info system_program = do
    require_signer signer
    reject_if (not managed_miner_account_info.is_writable) invalid_account_data
    a ← account managed_miner_account_info
    reject_if (not (is_empty_data a.bytes)) account_already_initialized
    reject_if (system_program.key != rt.system_id) incorrect_program_id
    invoke rt
        (create_rent_exempt signer.key managed_miner_account_info.key (8 + manager_size)
          rt.evore_id)
        []
    created ← account managed_miner_account_info
    write_bytes managed_miner_account_info (write_at 0 (manager_discriminator ∷ []) created.bytes)
    b ← account managed_miner_account_info
    _ ← lift (rt.as_account_mut rt.evore_id manager_discriminator manager_size b)
    write_bytes managed_miner_account_info (write_at 8 (key_bytes signer.key) b.bytes)

  unfoldable pub process_transfer_manager :
      (signer manager_account_info new_authority_info : AccountInfo) → M (Unit {0})
  process_transfer_manager signer manager_account_info new_authority_info = do
    require_signer signer
    require_data manager_account_info (evore manager_not_initialized)
    a ← account manager_account_info
    bytes ← lift (rt.as_account_mut rt.evore_id manager_discriminator manager_size a)
    let manager = manager_of_bytes bytes
    reject_if (manager.authority != signer.key) (evore not_authorized)
    write_bytes manager_account_info (write_at 8 (key_bytes new_authority_info.key) a.bytes)
