-- ===== src/Processor/Tests.antt =====
-- Runs of the handlers on the sample runtime, and the theorems about them there.
use evore_program.Prelude.{
  ℕ, ◌+◌, ◌≤◌, ◌<◌, ◌≡◌, ◌⊎◌, arith, true, false, [], ◌∷◌, ◌++◌, ◌==◌, replicate, to_le_bytes,
  from_le_bytes, refl, slice, bit, ltb, sat_mul64, sat_add64,
}
use evore_program.Error.{ok}
use evore_program.OreApi.{checkpoint_fee, board_of_bytes, miner_of_bytes, round_of_bytes, u64s_at}
use evore_program.Runtime.{
  transfer, ore_deploy, Tx, key_bytes, written, update, after_call, invoke, record_call,
}
use evore_program.Runtime.Bytes.{write_at}
use evore_program.State.{
  deployer_to_bytes, deployer_pda, managed_miner_auth_pda, manager_of_bytes, deployer_of_bytes,
}
use evore_program.Processor.Reads.{manager_at, deployer_at}
use evore_program.Processor.Loads.{load}
use evore_program.MmDeploy.Batch.{count_squares}
use evore_program.StrategyDispatch.{squares_of_mask}
use evore_program.Processor.Autodeploy.{AutodeployAccounts, process_mm_autodeploy, check_accounts}
use evore_program.Processor.Rounds.{
  check_max_per_round, deployed_this_round, is_already_deployed, pay_fees,
}
use evore_program.Processor.Rounds.Reads.{amount_this_round, board_at, rent_of_miner}
use evore_program.Processor.Rounds.Fees.{fee_calls}
use evore_program.Processor.Autodeploy.Authorized.{IsAuthorized}
use evore_program.Processor.Autodeploy.Calls.{mm_autodeploy-calls, total_to_deploy, fee, first}
use evore_program.Processor.Manager.{process_transfer_manager}
use evore_program.Processor.Manager.Authority.{transfer_manager-authority}
use evore_program.Processor.Deployer.{UpdateDeployer, process_update_deployer, update_bytes}
use evore_program.Processor.Deployer.Fields.{Fits, updated}
use evore_program.Processor.Deployer.Update.{update_deployer-updated}
use evore_program.Processor.Fees.{
  auth_pda_rent, deploy_fee, required_balance, deployer_fee, sum_u64,
}
use evore_program.Processor.Fees.Bounds.{required_balance-covers}
use evore_program.Processor.Balance.Deposit.{deposit-authorized}
use evore_program.Processor.Balance.{
  process_deposit_autodeploy_balance, process_withdraw_autodeploy_balance,
}
use evore_program.Processor.Balance.Withdraw.{withdraw-authorized}
use evore_program.Processor.Sample.{
  read_account, sample, sample-AsAccountReads, account_info, manager_bytes, deployer_bytes, ledger,
  start,
}

abbrev handed_on : Tx
handed_on = written start 51 (write_at 8 (key_bytes 70) manager_bytes)

transfer_runs :
    process_transfer_manager sample
      (account_info 50 true)
      (account_info 51 false)
      (account_info 70 false)
      start
    ≡ ok (tt, handed_on)
unfolding process_transfer_manager read_account to_le_bytes manager_of_bytes from_le_bytes slice
transfer_runs = refl

transfer_manager-authority_example :
    (true ≡ true)
    × ((manager_at start 51).authority ≡ 50)
    × ((manager_at handed_on 51).authority ≡ 70)
    × (handed_on.ledger ≡ update ledger 51 (handed_on.ledger 51))
    × (handed_on.calls ≡ [])
transfer_manager-authority_example =
    transfer_manager-authority sample sample-AsAccountReads (account_info 50 true)
      (account_info 51 false) (account_info 70 false) start (omega arith) transfer_runs

abbrev paid_out : Tx
paid_out = after_call (transfer 3 50 1000) start ledger

withdraw_runs :
    process_withdraw_autodeploy_balance sample
      (account_info 50 true)
      (account_info 51 false)
      (account_info 3 false)
      (account_info 0 false)
      5
      1000
      start
    ≡ ok (tt, paid_out)
unfolding process_withdraw_autodeploy_balance load read_account to_le_bytes manager_of_bytes
    from_le_bytes slice managed_miner_auth_pda invoke record_call
withdraw_runs = refl

withdraw-authorized_example :
    (true ≡ true)
    × ((manager_at start 51).authority ≡ 50)
    × ((managed_miner_auth_pda sample 51 5).0 ≡ 3)
    × (◌≡◌ {A = ℕ} 1000 0 ⊎ (auth_pda_rent + 1000 ≤ 20000000))
    × (paid_out.calls ≡ transfer 3 50 1000 ∷ [])
withdraw-authorized_example =
    withdraw-authorized sample sample-AsAccountReads (account_info 50 true) (account_info 51 false)
      (account_info 3 false) (account_info 0 false) 5 1000 start withdraw_runs

abbrev paid_in : Tx
paid_in = after_call (transfer 50 3 1000) start ledger

deposit_runs :
    process_deposit_autodeploy_balance sample
      (account_info 50 true)
      (account_info 51 false)
      (account_info 3 false)
      (account_info 0 false)
      5
      1000
      start
    ≡ ok (tt, paid_in)
unfolding process_deposit_autodeploy_balance load read_account to_le_bytes manager_of_bytes
    from_le_bytes slice managed_miner_auth_pda invoke record_call
deposit_runs = refl

deposit-authorized_example :
    (true ≡ true)
    × ((manager_at start 51).authority ≡ 50)
    × ((managed_miner_auth_pda sample 51 5).0 ≡ 3)
    × (paid_in.calls ≡ transfer 50 3 1000 ∷ [])
deposit-authorized_example =
    deposit-authorized sample sample-AsAccountReads (account_info 50 true) (account_info 51 false)
      (account_info 3 false) (account_info 0 false) 5 1000 start deposit_runs

abbrev args : UpdateDeployer
args = record {
  bps_fee = 150;
  flat_fee = 4000;
  expected_bps_fee = 0;
  expected_flat_fee = 0;
  max_per_round = 0;
}

-- The deploy authority updates.
abbrev repriced : Tx
repriced = written start 2 (update_bytes false true 60 args deployer_bytes)

update_runs :
    process_update_deployer sample
      (account_info 60 true)
      (account_info 51 false)
      (account_info 2 false)
      (account_info 60 false)
      args
      start
    ≡ ok (tt, repriced)
unfolding process_update_deployer load read_account to_le_bytes deployer_pda deployer_to_bytes
    manager_of_bytes from_le_bytes slice deployer_of_bytes
update_runs = refl

args-Fits : Fits 60 args
args-Fits = record {
  key = omega arith;
  bps_fee = omega arith;
  flat_fee = omega arith;
  expected_bps_fee = omega arith;
  expected_flat_fee = omega arith;
  max_per_round = omega arith;
}

update_deployer-updated_example :
    let is_manager = (manager_at start 51).authority == 60 in
    let is_deploy = (deployer_at start 2).deploy_authority == 60 in
    (true ≡ true)
    × ((is_manager ≡ true) ⊎ (is_deploy ≡ true))
    × ((deployer_pda sample 51).0 ≡ 2)
    × (deployer_at repriced 2 ≡ updated is_manager is_deploy 60 args (deployer_at start 2))
    × (repriced.ledger ≡ update ledger 2 (repriced.ledger 2))
    × (repriced.calls ≡ [])
update_deployer-updated_example =
    update_deployer-updated sample sample-AsAccountReads (account_info 60 true)
      (account_info 51 false) (account_info 2 false) (account_info 60 false) args start args-Fits
      update_runs

covered : ltb 20000000 (required_balance 300 0 5003) ≡ false
unfolding required_balance sat_add64
covered = refl

required_balance-covers_example :
    auth_pda_rent + checkpoint_fee + 300 + 0 + 5003 + deploy_fee ≤ 20000000
required_balance-covers_example = required_balance-covers 300 0 5003 20000000 (omega arith) covered

abbrev accounts : AutodeployAccounts
accounts = record {
  signer = account_info 60 true;
  manager = account_info 51 false;
  deployer = account_info 2 false;
  managed_miner_auth = account_info 3 false;
  ore_miner = account_info 82 false;
  fee_collector = account_info 103 false;
  board = account_info 80 false;
  round = account_info 81 false;
  ore_program = account_info 101 false;
  entropy_program = account_info 102 false;
  system_program = account_info 0 false;
}

-- 100 lamports on each of the first three squares, with both fees.
abbrev deployed : Tx
deployed = record start {
  calls =
      transfer 3 103 1000
      ∷ transfer 3 60 5003
      ∷ ore_deploy 3 100 7 (true ∷ true ∷ true ∷ replicate 22 false)
      ∷ [];
}

autodeploy_runs : process_mm_autodeploy sample accounts 5 100 7 start ≡ ok (tt, deployed)
unfolding process_mm_autodeploy check_accounts load read_account to_le_bytes deployer_pda
    deployer_to_bytes deployer_of_bytes from_le_bytes slice managed_miner_auth_pda board_of_bytes
    count_squares squares_of_mask bit sat_mul64 check_max_per_round deployed_this_round
    miner_of_bytes round_of_bytes u64s_at sat_add64 is_already_deployed pay_fees deployer_fee
    required_balance sum_u64 invoke record_call manager_of_bytes
autodeploy_runs = refl

mm_autodeploy-calls_example :
    IsAuthorized sample sample-AsAccountReads accounts start 5 (deployer_at start 2)
    × (1148 < (board_at start 80).end_slot)
    × (0 < total_to_deploy sample sample-AsAccountReads accounts 5 100 7 start)
    × (((deployer_at start 2).max_per_round ≡ 0)
        ⊎ (sat_add64
              (amount_this_round sample sample-AsAccountReads start 82 (board_at start 80))
              (total_to_deploy sample sample-AsAccountReads accounts 5 100 7 start)
            ≤ (deployer_at start 2).max_per_round))
    × (required_balance
          (total_to_deploy sample sample-AsAccountReads accounts 5 100 7 start)
          (rent_of_miner sample start 82)
          (fee sample sample-AsAccountReads accounts 5 100 7 start)
        ≤ 20000000)
    × ((round_id : ℕ) × (deployed.calls
          ≡ fee_calls 3 103 60
              (first sample sample-AsAccountReads accounts 5 100 7 start)
              (fee sample sample-AsAccountReads accounts 5 100 7 start)
            ++ ore_deploy 3 100 round_id (squares_of_mask 7 25 0) ∷ []))
mm_autodeploy-calls_example =
    mm_autodeploy-calls sample sample-AsAccountReads accounts 5 100 7 start autodeploy_runs
