-- ===== src/Processor/StratDeployer.antt =====
-- process_create_strat_deployer.rs and process_update_strat_deployer.rs of program/src/processor: a
-- deployer that carries a strategy. The handlers take their decoded arguments.
pub mod Terms
pub mod Update
pub mod Create
use evore_program.Prelude.{
  ℕ, Bool, List, [], ◌∷◌, ◌++◌, not, ◌&&◌, ◌+◌, ◌==◌, to_le_bytes, if◌then◌else◌, replicate,
}
use evore_program.Error.{
  evore, manager_not_initialized, not_authorized, incorrect_program_id, already_initialized,
  strat_deployer_not_initialized, invalid_pda,
}
use evore_program.OreApi.{Pubkey}
use evore_program.Validation.{check_strategy}
use evore_program.Runtime.{
  AccountInfo, Runtime, M, ◌>>=◌, ◌>>◌, lift, reject_if, account, is_empty_data, write_bytes,
  invoke, create_account, key_bytes,
}
use evore_program.Runtime.Bytes.{write_at}
use evore_program.State.{
  StrategyDeployer, strategy_deployer_to_bytes, strategy_deployer_size,
  strategy_deployer_discriminator, strategy_deployer_pda, strategy_deployer_seeds,
}
use evore_program.Processor.Loads.{
  ◌!=◌, require_data, require_signer, load_manager, load_strategy_deployer, when,
}

pub record CreateStratDeployer : Type 0 where
  pub bps_fee : ℕ
  pub flat_fee : ℕ
  pub max_per_round : ℕ
  pub strategy_type : ℕ
  pub strategy_data : List ℕ

pub record UpdateStratDeployer : Type 0 where
  pub bps_fee : ℕ
  pub flat_fee : ℕ
  pub expected_bps_fee : ℕ
  pub expected_flat_fee : ℕ
  pub max_per_round : ℕ
  pub strategy_type : ℕ
  pub strategy_data : List ℕ

-- The strategy deployer that a manager creates: the actual fees start at the expected ones.
unfoldable pub new_strat_deployer :
    (manager deploy_authority : Pubkey) → CreateStratDeployer → StrategyDeployer
new_strat_deployer manager deploy_authority args = record {
  manager_key = manager;
  deploy_authority = deploy_authority;
  bps_fee = args.bps_fee;
  flat_fee = args.flat_fee;
  expected_bps_fee = args.bps_fee;
  expected_flat_fee = args.flat_fee;
  max_per_round = args.max_per_round;
  strategy_type = args.strategy_type;
  strategy_data = args.strategy_data;
}

-- The writes that the manager's authority may make, in the source's order.
unfoldable pub strat_manager_writes : Pubkey → UpdateStratDeployer → List ℕ → List ℕ
strat_manager_writes new_authority args bytes =
    let terms = write_at 104 (to_le_bytes 8 args.max_per_round) (
      write_at 96 (to_le_bytes 8 args.expected_flat_fee) (
        write_at 88 (to_le_bytes 8 args.expected_bps_fee)
          (write_at 40 (key_bytes new_authority) bytes))) in
    write_at 113 args.strategy_data (write_at 112 (args.strategy_type ∷ []) terms)

-- The writes that the deploy authority may make.
unfoldable pub strat_deploy_authority_writes : Pubkey → UpdateStratDeployer → List ℕ → List ℕ
strat_deploy_authority_writes new_authority args bytes =
    write_at 80 (to_le_bytes 8 args.flat_fee)
      (write_at 72 (to_le_bytes 8 args.bps_fee) (write_at 40 (key_bytes new_authority) bytes))

-- Both groups of writes, each if its signer signed.
unfoldable pub strat_update_bytes :
    (is_manager_authority is_deploy_authority : Bool)
    → Pubkey
    → UpdateStratDeployer
    → List ℕ
    → List ℕ
strat_update_bytes is_manager_authority is_deploy_authority new_authority args bytes =
    let managed =
      if is_manager_authority then strat_manager_writes new_authority args bytes else bytes in
    if is_deploy_authority
    then strat_deploy_authority_writes new_authority args managed
    else managed

module _ (rt : Runtime) where
  unfoldable pub process_create_strat_deployer :
      (signer manager_info strat_deployer_info deploy_authority_info
        system_program_info : AccountInfo)
      → CreateStratDeployer
      → M (Unit {0})
  process_create_strat_deployer signer manager_info strat_deployer_info deploy_authority_info
        system_program_info args =
      do
        require_signer signer
        reject_if (system_program_info.key != rt.system_id) incorrect_program_id
        require_data manager_info (evore manager_not_initialized)
        manager ← load_manager rt manager_info
        reject_if (manager.authority != signer.key) (evore not_authorized)
        a ← account strat_deployer_info
        reject_if (not (is_empty_data a.bytes)) (evore already_initialized)
        lift (check_strategy args.strategy_type args.strategy_data)
        let pda = strategy_deployer_pda rt manager_info.key
        reject_if (pda.0 != strat_deployer_info.key) (evore invalid_pda)
        invoke rt
            (create_account signer.key strat_deployer_info.key
              (rt.minimum_balance (8 + strategy_deployer_size)) (8 + strategy_deployer_size)
              rt.evore_id)
            (strategy_deployer_seeds manager_info.key ++ (pda.1 ∷ []) ∷ [])
        created ← account strat_deployer_info
        write_bytes strat_deployer_info (
            write_at 8
              (strategy_deployer_to_bytes
                (new_strat_deployer manager_info.key deploy_authority_info.key args))
              (write_at 0 (to_le_bytes 8 strategy_deployer_discriminator) created.bytes))

  unfoldable pub process_update_strat_deployer :
      (signer manager_info strat_deployer_info new_deploy_authority_info : AccountInfo)
      → UpdateStratDeployer
      → M (Unit {0})
  process_update_strat_deployer signer manager_info strat_deployer_info new_deploy_authority_info
        args =
      do
        require_signer signer
        require_data manager_info (evore manager_not_initialized)
        manager ← load_manager rt manager_info
        require_data strat_deployer_info (evore strat_deployer_not_initialized)
        reject_if ((strategy_deployer_pda rt manager_info.key).0 != strat_deployer_info.key)
            (evore invalid_pda)
        strat_deployer ← load_strategy_deployer rt strat_deployer_info
        let is_manager_authority = manager.authority == signer.key
        let is_deploy_authority = strat_deployer.deploy_authority == signer.key
        reject_if (not is_manager_authority && not is_deploy_authority) (evore not_authorized)
        when is_manager_authority (lift (check_strategy args.strategy_type args.strategy_data))
        a ← account strat_deployer_info
        write_bytes strat_deployer_info (
            strat_update_bytes is_manager_authority is_deploy_authority
              new_deploy_authority_info.key args a.bytes)
