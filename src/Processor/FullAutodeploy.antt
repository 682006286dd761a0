-- ===== src/Processor/FullAutodeploy.antt =====
-- process_mm_full_autodeploy.rs and process_mm_strat_full_autodeploy.rs of program/src/processor: one
-- instruction that settles the miner's last round, claims its rewards, and deploys.
pub mod Settles
pub mod Calls
pub mod StratCalls
use evore_program.Prelude.{
  ℕ, Bool, List, [], ◌∷◌, ◌++◌, ◌+◌, ◌==◌, not, ltb, leb, sat_mul64, if◌then◌else◌,
}
use evore_program.Error.{
  evore, invalid_account_data, end_slot_reached, no_deployments, insufficient_autodeploy_balance,
}
use evore_program.State.{Deployer, StrategyDeployer}
use evore_program.OreApi.{Board, Clock, board_of_bytes, round_of_bytes, miner_size}
use evore_program.Runtime.{
  AccountInfo, Runtime, M, ◌>>=◌, ◌>>◌, pure, lift, reject_if, account, is_empty_data, invoke,
  ore_deploy, ore_checkpoint, Seeds,
}
use evore_program.StrategyDispatch.{squares_of_mask, dispatch_strategy}
use evore_program.MmDeploy.Batch.{count_squares}
use evore_program.Processor.Fees.{deployer_fee, required_balance}
use evore_program.Processor.Loads.{
  when, current_slot, require_data, load_board, load_round, load_miner, reborrow,
}
use evore_program.Processor.Rounds.{check_max_per_round, pay_fees}
use evore_program.Processor.Claims.{claim_rewards}
use evore_program.Processor.Autodeploy.{AutodeployAccounts, check_accounts}
use evore_program.Processor.StratAutodeploy.{
  StratAccounts, StratArgs, check_programs, load_strat, check_terms, check_managed_miner_auth,
  found_seeds, check_limits, pay_and_deploy,
}

module _ (rt : Runtime) where
  -- The checkpoint of the miner's last round where it is due, then the claim of its rewards. It yields
  -- whether the miner had deployed in the board's round before.
  unfoldable pub settle_miner :
      (managed_miner_auth ore_miner : AccountInfo) → Board → Seeds → M Bool
  settle_miner managed_miner_auth ore_miner board seeds = do
    require_data ore_miner invalid_account_data
    miner ← load_miner rt ore_miner
    when (ltb miner.checkpoint_id miner.round_id)
        (invoke rt (ore_checkpoint managed_miner_auth.key miner.round_id) seeds)
    claim_rewards rt managed_miner_auth ore_miner seeds
    pure (miner.round_id == board.round_id)

  -- The balance covers the deployment and its fee.
  unfoldable pub require_deploy_balance :
      (ore_miner managed_miner_auth : AccountInfo) → (total_to_deploy fee : ℕ) → M (Unit {0})
  require_deploy_balance ore_miner managed_miner_auth total_to_deploy fee = do
    miner ← account ore_miner
    let miner_rent =
        if is_empty_data miner.bytes then rt.default_minimum_balance (8 + miner_size) else 0
    source ← account managed_miner_auth
    reject_if (ltb source.lamports (required_balance total_to_deploy miner_rent fee))
        (evore insufficient_autodeploy_balance)

  -- The deployment of a full autodeploy, on the accounts as the settlement leaves them.
  unfoldable pub deploy_settled :
      AutodeployAccounts
      → (auth_id : ℕ) → Deployer
      → (already : Bool) → (amount squares_mask : ℕ) → M (Unit {0})
  deploy_settled accounts auth_id deployer already amount squares_mask = do
    let squares = squares_of_mask squares_mask 25 0
    reject_if (count_squares squares == 0) (evore no_deployments)
    let total_to_deploy = sat_mul64 amount (count_squares squares)
    reject_if (total_to_deploy == 0) (evore no_deployments)
    board_now ← reborrow board_of_bytes accounts.board
    check_max_per_round rt deployer.max_per_round total_to_deploy accounts.ore_miner board_now
    let fee = deployer_fee total_to_deploy deployer.bps_fee deployer.flat_fee
    require_deploy_balance accounts.ore_miner accounts.managed_miner_auth total_to_deploy fee
    pay_fees rt accounts.managed_miner_auth.key accounts.fee_collector.key accounts.signer.key
        (found_seeds rt accounts.manager.key auth_id) (not already) fee
    round ← reborrow round_of_bytes accounts.round
    invoke rt (ore_deploy accounts.managed_miner_auth.key amount round.id squares)
        (found_seeds rt accounts.manager.key auth_id)

  unfoldable pub process_mm_full_autodeploy :
      AutodeployAccounts → (auth_id amount squares_mask : ℕ) → M (Unit {0})
  process_mm_full_autodeploy accounts auth_id amount squares_mask = do
    deployer ← check_accounts rt accounts auth_id
    _round ← load_round rt accounts.round
    board ← load_board rt accounts.board
    slot ← current_slot
    reject_if (leb board.end_slot slot) (evore end_slot_reached)
    already ←
        settle_miner accounts.managed_miner_auth accounts.ore_miner board
          (found_seeds rt accounts.manager.key auth_id)
    deploy_settled accounts auth_id deployer already amount squares_mask

  -- The deployment of a full strategy autodeploy; the clock is the one read at first.
  unfoldable pub deploy_strat_settled :
      StratAccounts
      → (auth_id : ℕ) → StrategyDeployer
      → (already : Bool) → StratArgs
      → Clock
      → M (Unit {0})
  deploy_strat_settled accounts auth_id strat_deployer already args clock = do
    board_now ← reborrow board_of_bytes accounts.board
    round_now ← reborrow round_of_bytes accounts.round
    result ← lift (
        dispatch_strategy strat_deployer.strategy_type strat_deployer.strategy_data args.amount
          args.squares_mask args.extra board_now round_now clock)
    miner_rent ← check_limits rt accounts strat_deployer board_now result
    pay_and_deploy rt accounts auth_id strat_deployer result already miner_rent

  unfoldable pub process_mm_strat_full_autodeploy :
      StratAccounts → (auth_id : ℕ) → StratArgs → M (Unit {0})
  process_mm_strat_full_autodeploy accounts auth_id args = do
    check_programs rt accounts.signer accounts.fee_collector accounts.ore_program
        accounts.entropy_program accounts.system_program
    strat_deployer ← load_strat rt accounts
    check_terms rt accounts.signer strat_deployer
    check_managed_miner_auth rt accounts.manager accounts.managed_miner_auth auth_id
    slot ← current_slot
    board ← load_board rt accounts.board
    reject_if (leb board.end_slot slot) (evore end_slot_reached)
    _round ← load_round rt accounts.round
    already ←
        settle_miner accounts.managed_miner_auth accounts.ore_miner board
          (found_seeds rt accounts.manager.key auth_id)
    deploy_strat_settled accounts auth_id strat_deployer already args (record { slot = slot })
