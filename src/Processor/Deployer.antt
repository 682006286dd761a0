-- ===== src/Processor/Deployer.antt =====
-- process_create_deployer.rs and process_update_deployer.rs of program/src/processor. The handlers
-- take their decoded arguments.
pub mod Fields
pub mod Update
use evore_program.Prelude.{
  ℕ, Bool, List, [], ◌∷◌, ◌++◌, not, ◌&&◌, ◌+◌, ◌==◌, to_le_bytes, if◌then◌else◌,
}
use evore_program.Error.{
  ProgramError, evore, manager_not_initialized, not_authorized, incorrect_program_id,
  deployer_already_initialized, deployer_not_initialized, invalid_pda,
}
use evore_program.OreApi.{Pubkey}
use evore_program.Runtime.{
  AccountInfo, Account, Runtime, Tx, M, ◌>>=◌, ◌>>◌, lift, reject_if, account, is_empty_data,
  write_bytes, invoke, create_account, key_bytes,
}
use evore_program.Runtime.Bytes.{write_at}
use evore_program.State.{
  Manager, Deployer, deployer_of_bytes, deployer_to_bytes, deployer_size, deployer_discriminator,
  deployer_pda, deployer_seeds,
}
use evore_program.Processor.Loads.{◌!=◌, require_data, require_signer, load_manager, load_deployer}

pub record CreateDeployer : Type 0 where
  pub bps_fee : ℕ
  pub flat_fee : ℕ
  pub max_per_round : ℕ

pub record UpdateDeployer : Type 0 where
  pub bps_fee : ℕ
  pub flat_fee : ℕ
  pub expected_bps_fee : ℕ
  pub expected_flat_fee : ℕ
  pub max_per_round : ℕ

-- The deployer that a manager creates: the actual fees start at the expected ones.
unfoldable pub new_deployer : (manager deploy_authority : Pubkey) → CreateDeployer → Deployer
new_deployer manager deploy_authority args = record {
  manager_key = manager;
  deploy_authority = deploy_authority;
  bps_fee = args.bps_fee;
  flat_fee = args.flat_fee;
  expected_bps_fee = args.bps_fee;
  expected_flat_fee = args.flat_fee;
  max_per_round = args.max_per_round;
}

-- The writes that the manager's authority may make, in the source's order.
unfoldable pub manager_writes : Pubkey → UpdateDeployer → List ℕ → List ℕ
manager_writes new_authority args bytes = write_at 104 (to_le_bytes 8 args.max_per_round) (
    write_at 96 (to_le_bytes 8 args.expected_flat_fee) (
      write_at 88 (to_le_bytes 8 args.expected_bps_fee)
        (write_at 40 (key_bytes new_authority) bytes)))

-- The writes that the deploy authority may make.
unfoldable pub deploy_authority_writes : Pubkey → UpdateDeployer → List ℕ → List ℕ
deploy_authority_writes new_authority args bytes =
    write_at 80 (to_le_bytes 8 args.flat_fee)
      (write_at 72 (to_le_bytes 8 args.bps_fee) (write_at 40 (key_bytes new_authority) bytes))

-- Both groups of writes, each if its signer signed.
unfoldable pub update_bytes :
    (is_manager_authority is_deploy_authority : Bool) → Pubkey → UpdateDeployer → List ℕ → List ℕ
update_bytes is_manager_authority is_deploy_authority new_authority args bytes =
    let managed = if is_manager_authority then manager_writes new_authority args bytes else bytes in
    if is_deploy_authority then deploy_authority_writes new_authority args managed else managed

module _ (rt : Runtime) where
  unfoldable pub process_create_deployer :
      (signer manager_info deployer_info deploy_authority_info system_program_info : AccountInfo)
      → CreateDeployer
      → M (Unit {0})
  process_create_deployer signer manager_info deployer_info deploy_authority_info
        system_program_info args =
      do
        require_signer signer
        reject_if (system_program_info.key != rt.system_id) incorrect_program_id
        require_data manager_info (evore manager_not_initialized)
        manager ← load_manager rt manager_info
        reject_if (manager.authority != signer.key) (evore not_authorized)
        a ← account deployer_info
        reject_if (not (is_empty_data a.bytes)) (evore deployer_already_initialized)
        let pda = deployer_pda rt manager_info.key
        reject_if (pda.0 != deployer_info.key) (evore invalid_pda)
        invoke rt
            (create_account signer.key deployer_info.key (rt.minimum_balance (8 + deployer_size))
              (8 + deployer_size) rt.evore_id)
            (deployer_seeds manager_info.key ++ (pda.1 ∷ []) ∷ [])
        created ← account deployer_info
        let deployer = new_deployer manager_info.key deploy_authority_info.key args
        write_bytes deployer_info (
            write_at 8 (deployer_to_bytes deployer)
              (write_at 0 (to_le_bytes 8 deployer_discriminator) created.bytes))

  unfoldable pub process_update_deployer :
      (signer manager_info deployer_info new_deploy_authority_info : AccountInfo)
      → UpdateDeployer
      → M (Unit {0})
  process_update_deployer signer manager_info deployer_info new_deploy_authority_info args = do
    require_signer signer
    require_data manager_info (evore manager_not_initialized)
    manager ← load_manager rt manager_info
    require_data deployer_info (evore deployer_not_initialized)
    reject_if ((deployer_pda rt manager_info.key).0 != deployer_info.key) (evore invalid_pda)
    deployer ← load_deployer rt deployer_info
    let is_manager_authority = manager.authority == signer.key
    let is_deploy_authority = deployer.deploy_authority == signer.key
    reject_if (not is_manager_authority && not is_deploy_authority) (evore not_authorized)
    a ← account deployer_info
    write_bytes deployer_info (
        update_bytes is_manager_authority is_deploy_authority new_deploy_authority_info.key args
          a.bytes)
