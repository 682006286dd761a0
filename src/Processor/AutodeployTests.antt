-- ===== src/Processor/AutodeployTests.antt =====
-- Runs of the strategy autodeploys, and the theorems about them there.
use evore_program.Prelude.{
  ℕ, ◌+◌, ◌-◌, ◌≤◌, ◌<◌, ◌≡◌, ◌≢◌, refl, Bool-cases, inl, inr, arith, true, false, not, List, [],
  ◌∷◌, ◌++◌, ◌==◌, replicate, to_le_bytes, set, from_le_bytes, slice, leb, if◌then◌else◌, u64_max,
}
use evore_program.Error.{ok}
use evore_program.OreApi.{round_of_bytes, miner_of_bytes, u64s_at}
use evore_program.Runtime.{Tx, update, ore_deploy, ore_automate, invoke, record_call}
use evore_program.State.{StrategyDeployer, strategy_deployer_to_bytes}
use evore_program.Processor.Bank.{bank, bank-AsAccountReads, bank-TransfersMove}
use evore_program.Processor.Sample.{read_account, account_info, data_account, ledger, start}
use evore_program.Processor.StratTests.{strat_deployer}
use evore_program.Validation.{StrategyType, strategy_try_from}
use evore_program.StrategyDispatch.{StrategyResult}
use evore_program.StrategyDispatch.Covers.{budget}
use evore_program.MmDeploy.Batch.{DeploymentBatch, single, count_squares}
use evore_program.MmDeploy.Batch.Cost.{total_cost, AllPositive}
use mathlib.Core.List.{Perm}
use evore_program.OreApi.{checkpoint_fee}
use evore_program.Processor.Rounds.Reads.{board_at, round_at, rent_of_miner, is_deployed}
use evore_program.Processor.StratDeployer.Terms.{strat_deployer_at}
use evore_program.Processor.StratAutodeploy.Calls.{
  IsStratAuthorized, strategy_result, mm_strat_autodeploy-calls,
}
use evore_program.Processor.StratAutodeploy.Spends.{IsSpent, IsWithinLimits, deposit_at}
use evore_program.Processor.StratAutodeploy.Funded.{mm_strat_autodeploy-funded}
use evore_program.Processor.Automation.{sort_by_amount, last_amount, insert_by_amount}
use evore_program.Processor.Automation.Deployed.{deployed}
use evore_program.Processor.Automation.Lasts.{sort_by_amount-lasts}
use evore_program.Processor.StratAutodeploy.{StratAccounts, StratArgs, process_mm_strat_autodeploy}

-- A dynamic split of half of each pool, on the squares 0 and 1.
abbrev pub half_deployer : StrategyDeployer
half_deployer = record strat_deployer {
  strategy_type = 4;
  strategy_data = to_le_bytes 8 5000 ++ to_le_bytes 8 3 ++ replicate 48 0;
}

abbrev pub half_bytes : List ℕ
half_bytes = 102 ∷ replicate 7 0 ++ strategy_deployer_to_bytes half_deployer

-- The round 7 with pools of 2000 and 1000.
abbrev pub pools_bytes : List ℕ
pools_bytes =
    109 ∷ replicate 7 0
    ++ to_le_bytes 8 7
    ++ to_le_bytes 8 2000
    ++ to_le_bytes 8 1000
    ++ replicate 536 0

-- A miner that has a deployment in round 7.
abbrev pub miner_bytes : List ℕ
miner_bytes = 103 ∷ replicate 7 0 ++ replicate 504 0 ++ to_le_bytes 8 7 ++ replicate 24 0

abbrev half_start : Tx
half_start = record start {
  ledger =
      update
        (update (update ledger 2 (data_account 100 half_bytes)) 81 (data_account 101 pools_bytes))
        82 (data_account 101 miner_bytes);
}

abbrev pub half_accounts : StratAccounts
half_accounts = record {
  signer = account_info 60 true;
  manager = account_info 51 false;
  strat_deployer = account_info 2 false;
  managed_miner_auth = account_info 3 false;
  ore_miner = account_info 82 false;
  fee_collector = account_info 103 false;
  automation = account_info 83 false;
  board = account_info 80 false;
  round = account_info 81 false;
  ore_program = account_info 101 false;
  entropy_program = account_info 102 false;
  system_program = account_info 0 false;
}

abbrev pub half_args : StratArgs
half_args = record { amount = 100000; squares_mask = 0; extra = 0 }

abbrev half_done : Tx
half_done = record half_start {
  calls =
      ore_automate 3 2000 17383040 3 0 0 2
      ∷ ore_deploy 3 1000 7 (set (replicate 25 false) 1 true)
      ∷ ore_deploy 3 2000 7 (set (replicate 25 false) 0 true)
      ∷ [];
}

half_runs :
    process_mm_strat_autodeploy bank half_accounts 5 half_args half_start ≡ ok (tt, half_done)
unfolding process_mm_strat_autodeploy evore_program.Processor.StratAutodeploy.check_programs
    evore_program.Processor.StratAutodeploy.load_strat evore_program.Processor.Loads.load
    read_account to_le_bytes evore_program.State.strategy_deployer_pda strategy_deployer_to_bytes
    evore_program.OreApi.board_of_bytes from_le_bytes slice
    evore_program.StrategyDispatch.dispatch_strategy evore_program.Validation.strategy_try_from
    evore_program.State.strategy_deployer_of_bytes evore_program.Validation.validate_strategy_data
    evore_program.Validation.field evore_program.StrategyDispatch.dispatch
    evore_program.StrategyDispatch.finish evore_program.StrategyDispatch.dsp_from
    evore_program.StrategyDispatch.dsp_amount evore_program.Prelude.sat_add64
    evore_program.Prelude.bit evore_program.Processor.StratAutodeploy.check_terms
    evore_program.Processor.StratAutodeploy.check_managed_miner_auth
    evore_program.State.managed_miner_auth_pda evore_program.Processor.StratAutodeploy.check_limits
    evore_program.Processor.Rounds.check_max_per_round
    evore_program.Processor.Rounds.deployed_this_round round_of_bytes u64s_at miner_of_bytes
    evore_program.Processor.Fees.sum_u64 evore_program.Processor.StratAutodeploy.require_balance
    evore_program.Processor.StratAutodeploy.strat_required_balance
    evore_program.Processor.Fees.required_balance evore_program.Processor.Fees.deployer_fee
    evore_program.Prelude.sat_mul64 evore_program.Processor.StratAutodeploy.automation_rent_if
    evore_program.Processor.Rounds.is_already_deployed
    evore_program.Processor.StratAutodeploy.pay_and_deploy evore_program.Processor.Rounds.pay_fees
    evore_program.Processor.StratAutodeploy.deploy_result
    evore_program.Processor.Automation.deploy_with_automation
    evore_program.Processor.Automation.open_automation
    evore_program.Processor.Automation.deploy_batches
    evore_program.Processor.Automation.close_automation
    evore_program.Processor.Automation.sort_by_amount
    evore_program.Processor.Automation.insert_by_amount
    evore_program.Processor.Automation.last_amount
    evore_program.Processor.StratAutodeploy.strat_deposit evore_program.MmDeploy.Batch.single invoke
    record_call
half_runs = refl

mm_strat_autodeploy-calls_example :
    IsStratAuthorized bank half_accounts 5 (strat_deployer_at half_start 2)
    × (1148 < (board_at half_start 80).end_slot)
    × ((result : StrategyResult) × (strategy_result half_start
            (strat_deployer_at half_start 2)
            half_args
            (board_at half_start 80)
            (round_at half_start 81)
          ≡ ok result)
        × IsWithinLimits bank half_accounts bank-AsAccountReads
            (strat_deployer_at half_start 2)
            (board_at half_start 80)
            result
            half_start
        × IsSpent bank half_accounts
            (strat_deployer_at half_start 2)
            result
            5
            (not (is_deployed bank bank-AsAccountReads half_start 82 (board_at half_start 80)))
            (rent_of_miner bank half_start 82)
            half_start
            half_done)
mm_strat_autodeploy-calls_example =
    mm_strat_autodeploy-calls bank bank-AsAccountReads half_accounts 5 half_args half_start
      half_runs

mm_strat_autodeploy-funded_example :
    (ty : StrategyType) × (result : StrategyResult) × (spent : IsSpent bank half_accounts
      (strat_deployer_at half_start 2)
      result
      5
      (not (is_deployed bank bank-AsAccountReads half_start 82 (board_at half_start 80)))
      (rent_of_miner bank half_start 82)
      half_start
      half_done)
    × (strategy_try_from (strat_deployer_at half_start 2).strategy_type ≡ ok ty)
    × (strategy_result half_start
          (strat_deployer_at half_start 2)
          half_args
          (board_at half_start 80)
          (round_at half_start 81)
        ≡ ok result)
    × (deployed half_done.calls ≡ 0 + total_cost result.batches)
    × (total_cost result.batches ≡ result.total_to_deploy)
    × (total_cost result.batches ≤ budget ty 100000 0)
    × (total_cost result.batches + checkpoint_fee
        ≤ deposit_at bank half_accounts spent.after_fees result (rent_of_miner bank half_start 82))
mm_strat_autodeploy-funded_example =
    mm_strat_autodeploy-funded bank bank-AsAccountReads bank-TransfersMove half_accounts 5 half_args
      half_start half_done (omega arith) (omega arith) (ground arith) (ground arith) half_runs

abbrev two_batches : List DeploymentBatch
two_batches = single 2000 0 ∷ single 1000 1 ∷ []

two_sorted : sort_by_amount two_batches ≡ (single 1000 1 ∷ []) ++ single 2000 0 ∷ []
unfolding sort_by_amount insert_by_amount single
two_sorted = refl

two_positive : AllPositive two_batches
unfolding single count_squares
two_positive = (omega arith, (omega arith, tt))

two_cost : total_cost two_batches ≤ 5000
unfolding single count_squares
two_cost = omega arith

sort_by_amount-lasts_example :
    Perm (single 1000 1 ∷ single 2000 0 ∷ []) two_batches
    × ((single 2000 0).amount ≤ last_amount (sort_by_amount two_batches))
    × (total_cost (single 1000 1 ∷ []) + last_amount (sort_by_amount two_batches) ≤ 5000)
sort_by_amount-lasts_example =
    sort_by_amount-lasts two_batches (single 1000 1 ∷ []) (single 2000 0) [] 5000 two_positive
      two_cost two_sorted
