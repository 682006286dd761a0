-- ===== src/Processor/StratAutodeploy.antt =====
-- process_mm_strat_autodeploy.rs of program/src/processor: the deploy authority of a strategy deployer
-- deploys what the strategy makes of the arguments, from the manager's own balance. Its steps serve
-- process_mm_strat_full_autodeploy.rs too.
pub mod Authorized
pub mod Spends
pub mod Calls
pub mod Funded
use evore_program.Prelude.{
  ℕ, Bool, true, false, List, [], ◌∷◌, ◌++◌, ◌+◌, ◌-◌, ◌==◌, not, ltb, leb, sat_add64,
  if◌then◌else◌,
}
use evore_program.Error.{
  evore, external, incorrect_program_id, invalid_fee_collector, manager_not_initialized,
  strat_deployer_not_initialized, invalid_pda, invalid_deploy_authority, unexpected_fee,
  end_slot_reached, insufficient_autodeploy_balance, ok, err,
}
use evore_program.OreApi.{Pubkey, Clock, Board, round_of_bytes, miner_size}
use evore_program.Runtime.{
  AccountInfo, Runtime, M, ◌>>=◌, ◌>>◌, pure, lift, reject_if, account, is_empty_data, invoke,
  ore_deploy, Seeds,
}
use evore_program.State.{
  StrategyDeployer, strategy_deployer_pda, managed_miner_auth_pda, managed_miner_auth_seeds,
}
use evore_program.MmDeploy.Batch.{DeploymentBatch}
use evore_program.StrategyDispatch.{StrategyResult, dispatch_strategy}
use evore_program.Processor.Fees.{is_unexpected, deployer_fee, required_balance, auth_pda_rent}
use evore_program.Processor.Loads.{
  current_slot, ◌!=◌, require_data, require_signer, load_manager, load_strategy_deployer,
  load_board, load_round, reborrow,
}
use evore_program.Processor.Rounds.{check_max_per_round, is_already_deployed, pay_fees}
use evore_program.Processor.Automation.{automation_size, deploy_with_automation}

-- The accounts, under the source's names; those that are only passed on are left out.
pub record StratAccounts : Type 0 where
  pub signer : AccountInfo
  pub manager : AccountInfo
  pub strat_deployer : AccountInfo
  pub managed_miner_auth : AccountInfo
  pub ore_miner : AccountInfo
  pub fee_collector : AccountInfo
  pub automation : AccountInfo
  pub board : AccountInfo
  pub round : AccountInfo
  pub ore_program : AccountInfo
  pub entropy_program : AccountInfo
  pub system_program : AccountInfo

-- The instruction's arguments after the auth id.
pub record StratArgs : Type 0 where
  pub amount : ℕ
  pub squares_mask : ℕ
  pub extra : ℕ

-- `required_balance` with the automation's rent
unfoldable pub strat_required_balance : (total_to_deploy miner_rent fee automation_rent : ℕ) → ℕ
strat_required_balance total_to_deploy miner_rent fee automation_rent =
    sat_add64 (required_balance total_to_deploy miner_rent fee) automation_rent

-- The deposit: the balance without the rents.
unfoldable pub strat_deposit : (lamports automation_rent miner_rent : ℕ) → ℕ
strat_deposit lamports automation_rent miner_rent =
    lamports - auth_pda_rent - automation_rent - miner_rent

module _ (rt : Runtime) where
  -- The guards on the signer, the programs and the fee collector.
  unfoldable pub check_programs :
      (signer fee_collector ore_program entropy_program system_program : AccountInfo) → M (Unit {0})
  check_programs signer fee_collector ore_program entropy_program system_program = do
    require_signer signer
    reject_if (ore_program.key != rt.ore_id) incorrect_program_id
    reject_if (system_program.key != rt.system_id) incorrect_program_id
    reject_if (entropy_program.key != rt.entropy_id) incorrect_program_id
    reject_if (fee_collector.key != rt.fee_collector) (evore invalid_fee_collector)

  -- The manager's strategy deployer.
  unfoldable pub load_strat : StratAccounts → M StrategyDeployer
  load_strat accounts = do
    require_data accounts.manager (evore manager_not_initialized)
    _manager ← load_manager rt accounts.manager
    require_data accounts.strat_deployer (evore strat_deployer_not_initialized)
    reject_if ((strategy_deployer_pda rt accounts.manager.key).0 != accounts.strat_deployer.key)
        (evore invalid_pda)
    load_strategy_deployer rt accounts.strat_deployer

  -- The deploy authority signs, and the fees are not above those expected.
  unfoldable pub check_terms : AccountInfo → StrategyDeployer → M (Unit {0})
  check_terms signer d = do
    reject_if (d.deploy_authority != signer.key) (evore invalid_deploy_authority)
    reject_if (is_unexpected d.expected_bps_fee d.bps_fee) (evore unexpected_fee)
    reject_if (is_unexpected d.expected_flat_fee d.flat_fee) (evore unexpected_fee)

  unfoldable pub check_managed_miner_auth :
      (manager managed_miner_auth : AccountInfo) → (auth_id : ℕ) → M (Unit {0})
  check_managed_miner_auth manager managed_miner_auth auth_id =
      reject_if ((managed_miner_auth_pda rt manager.key auth_id).0 != managed_miner_auth.key)
        (evore invalid_pda)

  -- The seeds with the bump that was found.
  abbrev pub found_seeds : (manager : Pubkey) → (auth_id : ℕ) → Seeds
  found_seeds manager auth_id =
      managed_miner_auth_seeds manager auth_id
      ++ ((managed_miner_auth_pda rt manager auth_id).1 ∷ []) ∷ []

  -- `automation_rent`
  unfoldable pub automation_rent_if : Bool → ℕ
  automation_rent_if needs_automation =
      if needs_automation then rt.default_minimum_balance (8 + automation_size) else 0

  -- The check of the balance; it yields the rent of a miner that is not there yet.
  unfoldable pub require_balance :
      (ore_miner managed_miner_auth : AccountInfo) → (total_to_deploy fee automation_rent : ℕ) → M ℕ
  require_balance ore_miner managed_miner_auth total_to_deploy fee automation_rent = do
    miner ← account ore_miner
    let miner_rent =
        if is_empty_data miner.bytes then rt.default_minimum_balance (8 + miner_size) else 0
    source ← account managed_miner_auth
    reject_if
        (ltb source.lamports
          (strat_required_balance total_to_deploy miner_rent fee automation_rent))
        (evore insufficient_autodeploy_balance)
    pure miner_rent

  -- `batches[0]`, which panics where there is none
  unfoldable pub deploy_first :
      (managed_miner_auth : Pubkey)
      → Seeds
      → (round_info : AccountInfo) → List DeploymentBatch
      → M (Unit {0})
  deploy_first managed_miner_auth seeds round_info [] = lift (err (external 0))
  deploy_first managed_miner_auth seeds round_info (b ∷ bs) = do
    round ← reborrow round_of_bytes round_info
    invoke rt (ore_deploy managed_miner_auth b.amount round.id b.squares) seeds

  -- The deployments of a strategy's result.
  unfoldable pub deploy_result :
      StratAccounts → Seeds → StrategyResult → (miner_rent : ℕ) → M (Unit {0})
  deploy_result accounts seeds result miner_rent = do
    source ← account accounts.managed_miner_auth
    if result.needs_automation
        then deploy_with_automation rt accounts.managed_miner_auth.key seeds accounts.automation
            accounts.round
            (strat_deposit source.lamports (automation_rent_if result.needs_automation) miner_rent)
            result.batches
        else deploy_first accounts.managed_miner_auth.key seeds accounts.round result.batches

  -- `deployer_fee` of a strategy's result
  abbrev pub strat_fee : StrategyDeployer → StrategyResult → ℕ
  strat_fee d result = deployer_fee result.total_to_deploy d.bps_fee d.flat_fee

  -- The limit of the round, then the balance; it yields the rent of a new miner.
  unfoldable pub check_limits : StratAccounts → StrategyDeployer → Board → StrategyResult → M ℕ
  check_limits accounts d board result = do
    check_max_per_round rt d.max_per_round result.total_to_deploy accounts.ore_miner board
    require_balance accounts.ore_miner accounts.managed_miner_auth result.total_to_deploy
        (strat_fee d result) (automation_rent_if result.needs_automation)

  -- The fees of a first deployment, then the deployments.
  unfoldable pub pay_and_deploy :
      StratAccounts
      → (auth_id : ℕ) → StrategyDeployer
      → StrategyResult
      → (already : Bool) → (miner_rent : ℕ) → M (Unit {0})
  pay_and_deploy accounts auth_id d result already miner_rent = do
    pay_fees rt accounts.managed_miner_auth.key accounts.fee_collector.key accounts.signer.key
        (found_seeds accounts.manager.key auth_id) (not already) (strat_fee d result)
    deploy_result accounts (found_seeds accounts.manager.key auth_id) result miner_rent

  unfoldable pub process_mm_strat_autodeploy :
      StratAccounts → (auth_id : ℕ) → StratArgs → M (Unit {0})
  process_mm_strat_autodeploy accounts auth_id args = do
    check_programs accounts.signer accounts.fee_collector accounts.ore_program
        accounts.entropy_program accounts.system_program
    strat_deployer ← load_strat accounts
    slot ← current_slot
    board ← load_board rt accounts.board
    reject_if (leb board.end_slot slot) (evore end_slot_reached)
    round ← load_round rt accounts.round
    result ← lift (
        dispatch_strategy strat_deployer.strategy_type strat_deployer.strategy_data args.amount
          args.squares_mask args.extra board round (record { slot = slot }))
    check_terms accounts.signer strat_deployer
    check_managed_miner_auth accounts.manager accounts.managed_miner_auth auth_id
    miner_rent ← check_limits accounts strat_deployer board result
    already ← is_already_deployed rt accounts.ore_miner board
    pay_and_deploy accounts auth_id strat_deployer result already miner_rent
