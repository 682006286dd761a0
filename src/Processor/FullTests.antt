-- ===== src/Processor/FullTests.antt =====
-- Runs of the full autodeploys, and the theorems about them there.
use evore_program.Prelude.{
  Bool, ℕ, ◌+◌, ◌≤◌, ◌<◌, ◌≡◌, ◌⊎◌, refl, true, false, not, List, [], ◌∷◌, ◌++◌, ◌==◌, replicate,
  to_le_bytes, set, from_le_bytes, slice, sat_add64,
}
use evore_program.Error.{ok}
use evore_program.OreApi.{round_of_bytes, miner_of_bytes, u64s_at}
use evore_program.Runtime.{
  Tx, update, ore_deploy, ore_automate, ore_checkpoint, ore_claim_sol, invoke, record_call,
}
use evore_program.State.{strategy_deployer_to_bytes}
use evore_program.StrategyDispatch.{StrategyResult, dispatch_strategy, squares_of_mask}
use evore_program.Processor.Reads.{deployer_at}
use evore_program.Processor.Fees.{required_balance}
use evore_program.Processor.Sample.{
  sample, read_account, sample-AsAccountReads, account_info, data_account, ledger, start,
}
use evore_program.Processor.AutodeployTests.{half_bytes, half_accounts, half_args, pools_bytes}
use evore_program.Processor.Rounds.{pay_fees}
use evore_program.Processor.StratAutodeploy.{found_seeds}
use evore_program.Processor.Rounds.Reads.{
  board_at, round_at, miner_at, rent_of_miner, amount_this_round,
}
use evore_program.Processor.Rounds.Fees.{fee_calls}
use evore_program.Processor.Autodeploy.{AutodeployAccounts}
use evore_program.Processor.Autodeploy.Authorized.{IsAuthorized}
use evore_program.Processor.StratDeployer.Terms.{strat_deployer_at}
use evore_program.Processor.StratAutodeploy.Calls.{IsStratAuthorized}
use evore_program.Processor.StratAutodeploy.Spends.{IsSpent, IsWithinLimits}
use evore_program.Processor.FullAutodeploy.{
  process_mm_full_autodeploy, process_mm_strat_full_autodeploy,
}
use evore_program.Processor.FullAutodeploy.Settles.{IsSettled}
use evore_program.Processor.FullAutodeploy.StratCalls.{mm_strat_full_autodeploy-calls}
use evore_program.Processor.FullAutodeploy.Calls.{mm_full_autodeploy-calls, full_total, full_fee}

-- A miner in round 7 that is to be checkpointed, with 900 lamports to claim.
abbrev due_bytes : List ℕ
due_bytes =
    103 ∷ replicate 7 0
    ++ replicate 480 0
    ++ to_le_bytes 8 900
    ++ replicate 16 0
    ++ to_le_bytes 8 7
    ++ replicate 24 0

abbrev strat_due : Tx
strat_due = record start {
  ledger =
      update
        (update (update ledger 2 (data_account 100 half_bytes)) 81 (data_account 101 pools_bytes))
        82 (data_account 101 due_bytes);
}

abbrev strat_settled : Tx
strat_settled = record strat_due {
  calls =
      ore_checkpoint 3 7
      ∷ ore_claim_sol 3
      ∷ ore_automate 3 2000 17383040 3 0 0 2
      ∷ ore_deploy 3 1000 7 (set (replicate 25 false) 1 true)
      ∷ ore_deploy 3 2000 7 (set (replicate 25 false) 0 true)
      ∷ [];
}

strat_full_runs :
    process_mm_strat_full_autodeploy sample half_accounts 5 half_args strat_due
    ≡ ok (tt, strat_settled)
unfolding process_mm_strat_full_autodeploy
    evore_program.Processor.FullAutodeploy.deploy_strat_settled
    evore_program.Processor.FullAutodeploy.settle_miner evore_program.Processor.Claims.claim_rewards
    evore_program.Processor.StratAutodeploy.check_programs
    evore_program.Processor.StratAutodeploy.load_strat evore_program.Processor.Loads.load
    read_account to_le_bytes evore_program.State.strategy_deployer_pda strategy_deployer_to_bytes
    evore_program.OreApi.board_of_bytes from_le_bytes slice
    evore_program.StrategyDispatch.dispatch_strategy evore_program.Validation.strategy_try_from
    evore_program.State.strategy_deployer_of_bytes evore_program.Validation.validate_strategy_data
    evore_program.Validation.field evore_program.StrategyDispatch.dispatch
    evore_program.StrategyDispatch.finish evore_program.StrategyDispatch.dsp_from
    evore_program.StrategyDispatch.dsp_amount evore_program.Prelude.sat_add64
    evore_program.Prelude.bit evore_program.Processor.StratAutodeploy.check_terms
    evore_program.Processor.StratAutodeploy.check_managed_miner_auth
    evore_program.State.managed_miner_auth_pda evore_program.Processor.StratAutodeploy.check_limits
    evore_program.Processor.Rounds.check_max_per_round
    evore_program.Processor.Rounds.deployed_this_round round_of_bytes u64s_at miner_of_bytes
    evore_program.Processor.Fees.sum_u64 evore_program.Processor.StratAutodeploy.require_balance
    evore_program.Processor.StratAutodeploy.strat_required_balance
    evore_program.Processor.Fees.required_balance evore_program.Processor.Fees.deployer_fee
    evore_program.Prelude.sat_mul64 evore_program.Processor.StratAutodeploy.automation_rent_if
    evore_program.Processor.Rounds.is_already_deployed
    evore_program.Processor.StratAutodeploy.pay_and_deploy evore_program.Processor.Rounds.pay_fees
    evore_program.Processor.StratAutodeploy.deploy_result
    evore_program.Processor.Automation.deploy_with_automation
    evore_program.Processor.Automation.open_automation
    evore_program.Processor.Automation.deploy_batches
    evore_program.Processor.Automation.close_automation
    evore_program.Processor.Automation.sort_by_amount
    evore_program.Processor.Automation.insert_by_amount
    evore_program.Processor.Automation.last_amount
    evore_program.Processor.StratAutodeploy.strat_deposit evore_program.MmDeploy.Batch.single invoke
    record_call
strat_full_runs = refl

mm_strat_full_autodeploy-calls_example :
    IsStratAuthorized sample half_accounts 5 (strat_deployer_at strat_due 2)
    × (1148 < (board_at strat_due 80).end_slot)
    × ((settled : Tx) × IsSettled sample sample-AsAccountReads
          (account_info 3 false)
          (account_info 82 false)
          (found_seeds sample 51 5)
          strat_due
          settled
        × ((result : StrategyResult) × (dispatch_strategy
                (strat_deployer_at strat_due 2).strategy_type
                (strat_deployer_at strat_due 2).strategy_data
                100000
                0
                0
                (board_at settled 80)
                (round_at settled 81)
                (record { slot = 1148 })
              ≡ ok result)
            × IsWithinLimits sample half_accounts sample-AsAccountReads
                (strat_deployer_at strat_due 2)
                (board_at settled 80)
                result
                settled
            × IsSpent sample half_accounts
                (strat_deployer_at strat_due 2)
                result
                5
                (not (
                  (miner_at sample sample-AsAccountReads strat_due 82).round_id
                  == (board_at strat_due 80).round_id))
                (rent_of_miner sample settled 82)
                settled
                strat_settled))
mm_strat_full_autodeploy-calls_example =
    mm_strat_full_autodeploy-calls sample sample-AsAccountReads half_accounts 5 half_args strat_due
      strat_full_runs

abbrev full_accounts : AutodeployAccounts
full_accounts = record {
  signer = account_info 60 true;
  manager = account_info 51 false;
  deployer = account_info 2 false;
  managed_miner_auth = account_info 3 false;
  ore_miner = account_info 82 false;
  fee_collector = account_info 103 false;
  board = account_info 80 false;
  round = account_info 81 false;
  ore_program = account_info 101 false;
  entropy_program = account_info 102 false;
  system_program = account_info 0 false;
}

abbrev due : Tx
due = record start { ledger = update ledger 82 (data_account 101 due_bytes) }

abbrev settled_and_deployed : Tx
settled_and_deployed = record due {
  calls = ore_checkpoint 3 7 ∷ ore_claim_sol 3 ∷ ore_deploy 3 100 7 (squares_of_mask 7 25 0) ∷ [];
}

full_runs :
    process_mm_full_autodeploy sample full_accounts 5 100 7 due ≡ ok (tt, settled_and_deployed)
unfolding process_mm_full_autodeploy evore_program.Processor.FullAutodeploy.deploy_settled
    evore_program.Processor.FullAutodeploy.settle_miner
    evore_program.Processor.FullAutodeploy.require_deploy_balance
    evore_program.Processor.Claims.claim_rewards evore_program.Processor.Autodeploy.check_accounts
    evore_program.State.deployer_pda evore_program.State.deployer_to_bytes
    evore_program.State.deployer_of_bytes evore_program.State.manager_of_bytes
    evore_program.StrategyDispatch.squares_of_mask evore_program.MmDeploy.Batch.count_squares
    evore_program.Processor.StratAutodeploy.check_programs
    evore_program.Processor.StratAutodeploy.load_strat evore_program.Processor.Loads.load
    read_account to_le_bytes evore_program.State.strategy_deployer_pda strategy_deployer_to_bytes
    evore_program.OreApi.board_of_bytes from_le_bytes slice
    evore_program.StrategyDispatch.dispatch_strategy evore_program.Validation.strategy_try_from
    evore_program.State.strategy_deployer_of_bytes evore_program.Validation.validate_strategy_data
    evore_program.Validation.field evore_program.StrategyDispatch.dispatch
    evore_program.StrategyDispatch.finish evore_program.StrategyDispatch.dsp_from
    evore_program.StrategyDispatch.dsp_amount evore_program.Prelude.sat_add64
    evore_program.Prelude.bit evore_program.Processor.StratAutodeploy.check_terms
    evore_program.Processor.StratAutodeploy.check_managed_miner_auth
    evore_program.State.managed_miner_auth_pda evore_program.Processor.StratAutodeploy.check_limits
    evore_program.Processor.Rounds.check_max_per_round
    evore_program.Processor.Rounds.deployed_this_round round_of_bytes u64s_at miner_of_bytes
    evore_program.Processor.Fees.sum_u64 evore_program.Processor.StratAutodeploy.require_balance
    evore_program.Processor.StratAutodeploy.strat_required_balance
    evore_program.Processor.Fees.required_balance evore_program.Processor.Fees.deployer_fee
    evore_program.Prelude.sat_mul64 evore_program.Processor.StratAutodeploy.automation_rent_if
    evore_program.Processor.Rounds.is_already_deployed
    evore_program.Processor.StratAutodeploy.pay_and_deploy evore_program.Processor.Rounds.pay_fees
    evore_program.Processor.StratAutodeploy.deploy_result
    evore_program.Processor.Automation.deploy_with_automation
    evore_program.Processor.Automation.open_automation
    evore_program.Processor.Automation.deploy_batches
    evore_program.Processor.Automation.close_automation
    evore_program.Processor.Automation.sort_by_amount
    evore_program.Processor.Automation.insert_by_amount
    evore_program.Processor.Automation.last_amount
    evore_program.Processor.StratAutodeploy.strat_deposit evore_program.MmDeploy.Batch.single invoke
    record_call
full_runs = refl

mm_full_autodeploy-calls_example :
    IsAuthorized sample sample-AsAccountReads full_accounts due 5 (deployer_at due 2)
    × (1148 < (board_at due 80).end_slot)
    × (0 < full_total sample sample-AsAccountReads full_accounts 5 100 7 due)
    × ((settled paid : Tx) × IsSettled sample sample-AsAccountReads
          (account_info 3 false)
          (account_info 82 false)
          (found_seeds sample 51 5)
          due
          settled
        × (((deployer_at due 2).max_per_round ≡ 0)
            ⊎ (sat_add64
                  (amount_this_round sample sample-AsAccountReads settled 82 (board_at settled 80))
                  (full_total sample sample-AsAccountReads full_accounts 5 100 7 due)
                ≤ (deployer_at due 2).max_per_round))
        × (required_balance
              (full_total sample sample-AsAccountReads full_accounts 5 100 7 due)
              (rent_of_miner sample settled 82)
              (full_fee sample sample-AsAccountReads full_accounts 5 100 7 due)
            ≤ (settled.ledger 3).lamports)
        × (pay_fees sample 3 103 60
              (found_seeds sample 51 5)
              (not (
                (miner_at sample sample-AsAccountReads due 82).round_id
                == (board_at due 80).round_id))
              (full_fee sample sample-AsAccountReads full_accounts 5 100 7 due)
              settled
            ≡ ok (tt, paid))
        × (invoke sample
              (ore_deploy 3 100 (round_at paid 81).id (squares_of_mask 7 25 0))
              (found_seeds sample 51 5)
              paid
            ≡ ok (tt, settled_and_deployed))
        × (settled_and_deployed.calls
            ≡ settled.calls
              ++ (fee_calls 3 103 60
                    (not (
                      (miner_at sample sample-AsAccountReads due 82).round_id
                      == (board_at due 80).round_id))
                    (full_fee sample sample-AsAccountReads full_accounts 5 100 7 due)
                  ++ ore_deploy 3 100 (round_at paid 81).id (squares_of_mask 7 25 0) ∷ [])))
mm_full_autodeploy-calls_example =
    mm_full_autodeploy-calls sample sample-AsAccountReads full_accounts 5 100 7 due full_runs
