-- ===== src/Processor/DeployTests.antt =====
-- Runs of the manager's deployments, and the theorems about them there.
use evore_program.Prelude.{
  ℕ, ◌+◌, ◌≤◌, ◌<◌, ◌≡◌, ◌⊎◌, refl, arith, true, false, not, Bool, some, List, [], ◌∷◌, ◌++◌,
  replicate, to_le_bytes, set, from_le_bytes, slice,
}
use mathlib.Core.List.{Perm}
use evore_program.Error.{ok}
use evore_program.Runtime.{Tx, Call, update, ore_deploy, ore_automate, invoke, record_call}
use evore_program.OreApi.{round_of_bytes, miner_of_bytes, u64s_at}
use evore_program.Instruction.{
  DeployStrategy, MmDeployArgs, new_mm_deploy, get_strategy, get_allow_multi_deploy,
}
use evore_program.Instruction.RoundTrip.{get_strategy-new_mm_deploy}
use evore_program.MmDeploy.Batch.{DeploymentBatch, single}
use evore_program.MmDeploy.Batch.Cost.{total_cost}
use evore_program.State.{strategy_deployer_to_bytes}
use evore_program.Processor.Bank.{bank, bank-AsAccountReads, bank-TransfersMove}
use evore_program.Processor.Sample.{read_account, account_info, data_account, ledger, start}
use evore_program.Processor.AutodeployTests.{miner_bytes}
use evore_program.Processor.Claims.{bumped_seeds}
use evore_program.Processor.Rounds.Reads.{board_at, round_at, is_deployed}
use evore_program.Processor.Automation.{sort_by_amount, last_amount}
use evore_program.Processor.Automation.Calls.{automation_calls}
use evore_program.Processor.MmDeploy.{
  MmDeployAccounts, calculate_deployments, is_too_early, process_mm_deploy,
}
use evore_program.Processor.MmDeploy.Calls.{IsManaged, IsDeployed, mm_deploy-calls}
use evore_program.Processor.MmDeploy.Lasts.{mm_deploy-lasts}

abbrev by_hand : DeployStrategy
by_hand = DeployStrategy.manual (2000 ∷ 1000 ∷ replicate 23 0)

abbrev by_hand_args : MmDeployArgs
by_hand_args = new_mm_deploy 5 9 true by_hand

by_hand_parses : get_strategy by_hand_args ≡ some by_hand
by_hand_parses = (get_strategy-new_mm_deploy 5 9 true by_hand (ground arith) (omega arith)).0

abbrev deploy_accounts : MmDeployAccounts
deploy_accounts = record {
  signer = account_info 50 true;
  manager = account_info 51 false;
  managed_miner_auth = account_info 4 false;
  ore_miner = account_info 82 false;
  fee_collector = account_info 103 false;
  automation = account_info 83 false;
  board = account_info 80 false;
  round = account_info 81 false;
  ore_program = account_info 101 false;
  entropy_program = account_info 102 false;
  system_program = account_info 0 false;
}

-- The miner has a deployment in the round.
abbrev again : Tx
again = record start { ledger = update ledger 82 (data_account 101 miner_bytes) }

abbrev deployed_again : Tx
deployed_again = record again {
  calls =
      ore_automate 4 2000 17383040 4 0 0 2
      ∷ ore_deploy 4 1000 7 (set (replicate 25 false) 1 true)
      ∷ ore_deploy 4 2000 7 (set (replicate 25 false) 0 true)
      ∷ [];
}

mm_deploy_runs : process_mm_deploy bank deploy_accounts by_hand_args again ≡ ok (tt, deployed_again)
unfolding process_mm_deploy evore_program.Instruction.new_mm_deploy
    evore_program.Instruction.strategy_to_bytes evore_program.Instruction.write_u64s
    evore_program.Runtime.Bytes.write_at evore_program.Instruction.get_strategy
    evore_program.Instruction.parse_strategy evore_program.Instruction.get_allow_multi_deploy
    evore_program.Processor.MmDeploy.is_too_early evore_program.Processor.MmDeploy.check_manager
    evore_program.Processor.MmDeploy.calculate_deployments
    evore_program.MmDeploy.Calculate.calculate_manual_deployments
    evore_program.MmDeploy.Batch.batches_from evore_program.MmDeploy.Batch.saturating_total
    evore_program.Processor.MmDeploy.fund_and_deploy evore_program.Processor.MmDeploy.top_up
    evore_program.Processor.MmDeploy.mm_required_balance
    evore_program.Processor.Claims.created_address evore_program.State.manager_of_bytes
    evore_program.Processor.StratAutodeploy.check_programs
    evore_program.Processor.StratAutodeploy.load_strat evore_program.Processor.Loads.load
    read_account to_le_bytes evore_program.State.strategy_deployer_pda strategy_deployer_to_bytes
    evore_program.OreApi.board_of_bytes from_le_bytes slice
    evore_program.StrategyDispatch.dispatch_strategy evore_program.Validation.strategy_try_from
    evore_program.State.strategy_deployer_of_bytes evore_program.Validation.validate_strategy_data
    evore_program.Validation.field evore_program.StrategyDispatch.dispatch
    evore_program.StrategyDispatch.finish evore_program.StrategyDispatch.dsp_from
    evore_program.StrategyDispatch.dsp_amount evore_program.Prelude.sat_add64
    evore_program.Prelude.bit evore_program.Processor.StratAutodeploy.check_terms
    evore_program.Processor.StratAutodeploy.check_managed_miner_auth
    evore_program.State.managed_miner_auth_pda evore_program.Processor.StratAutodeploy.check_limits
    evore_program.Processor.Rounds.check_max_per_round
    evore_program.Processor.Rounds.deployed_this_round round_of_bytes u64s_at miner_of_bytes
    evore_program.Processor.Fees.sum_u64 evore_program.Processor.StratAutodeploy.require_balance
    evore_program.Processor.StratAutodeploy.strat_required_balance
    evore_program.Processor.Fees.required_balance evore_program.Processor.Fees.deployer_fee
    evore_program.Prelude.sat_mul64 evore_program.Processor.StratAutodeploy.automation_rent_if
    evore_program.Processor.Rounds.is_already_deployed
    evore_program.Processor.StratAutodeploy.pay_and_deploy evore_program.Processor.Rounds.pay_fees
    evore_program.Processor.StratAutodeploy.deploy_result
    evore_program.Processor.Automation.deploy_with_automation
    evore_program.Processor.Automation.open_automation
    evore_program.Processor.Automation.deploy_batches
    evore_program.Processor.Automation.close_automation
    evore_program.Processor.Automation.sort_by_amount
    evore_program.Processor.Automation.insert_by_amount
    evore_program.Processor.Automation.last_amount
    evore_program.Processor.StratAutodeploy.strat_deposit evore_program.MmDeploy.Batch.single invoke
    record_call
mm_deploy_runs = refl

mm_deploy-calls_example :
    (strategy : DeployStrategy) × (get_strategy by_hand_args ≡ some strategy)
    × (1148 < (board_at again 80).end_slot)
    × (is_too_early strategy (board_at again 80).end_slot 1148 ≡ false)
    × IsManaged bank deploy_accounts again
    × (bank.create_program_address (bumped_seeds bank 51 (from_le_bytes by_hand_args.auth_id) 9)
        ≡ some 4)
    × ((get_allow_multi_deploy by_hand_args ≡ true)
        ⊎ (is_deployed bank bank-AsAccountReads again 82 (board_at again 80) ≡ false))
    × (0 < (calculate_deployments strategy (round_at again 81).deployed).1)
    × IsDeployed bank deploy_accounts
        (bumped_seeds bank 51 (from_le_bytes by_hand_args.auth_id) 9)
        (not (is_deployed bank bank-AsAccountReads again 82 (board_at again 80)))
        (calculate_deployments strategy (round_at again 81).deployed).0
        (calculate_deployments strategy (round_at again 81).deployed).1
        again
        deployed_again
unfolding new_mm_deploy
mm_deploy-calls_example =
    mm_deploy-calls bank deploy_accounts bank-AsAccountReads again by_hand_args mm_deploy_runs

by_hand_sorted :
    sort_by_amount (calculate_deployments by_hand (round_at again 81).deployed).0
    ≡ (single 1000 1 ∷ []) ++ single 2000 0 ∷ []
unfolding calculate_deployments evore_program.MmDeploy.Calculate.calculate_manual_deployments
    evore_program.MmDeploy.Batch.batches_from single sort_by_amount
    evore_program.Processor.Automation.insert_by_amount
by_hand_sorted = refl

mm_deploy-lasts_example :
    (deposit : ℕ) × (earlier : List Call) × (round_ids : List ℕ) × (still_open : Bool)
    × (deployed_again.calls
        ≡ earlier
          ++ automation_calls 4 round_ids deposit
              (calculate_deployments by_hand (round_at again 81).deployed).0
              still_open)
    × Perm
        (single 1000 1 ∷ single 2000 0 ∷ [])
        (calculate_deployments by_hand (round_at again 81).deployed).0
    × ((single 2000 0).amount
        ≤ last_amount
            (sort_by_amount (calculate_deployments by_hand (round_at again 81).deployed).0))
    × (total_cost (single 1000 1 ∷ [])
          + last_amount
              (sort_by_amount (calculate_deployments by_hand (round_at again 81).deployed).0)
        ≤ deposit)
mm_deploy-lasts_example =
    mm_deploy-lasts bank bank-TransfersMove deploy_accounts bank-AsAccountReads by_hand_args again
      deployed_again by_hand (single 1000 1 ∷ []) (single 2000 0) [] (ground arith) by_hand_parses
      (ground arith) (ground arith) (ground arith) (omega arith) by_hand_sorted mm_deploy_runs
