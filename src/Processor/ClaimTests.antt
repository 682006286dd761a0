-- ===== src/Processor/ClaimTests.antt =====
-- Runs of the checkpoints and claims, and the theorems about them there.
use evore_program.Prelude.{
  ℕ, ◌≡◌, refl, some, true, false, List, [], ◌∷◌, ◌++◌, drop, replicate, to_le_bytes, from_le_bytes,
  slice,
}
use evore_program.Error.{ok}
use evore_program.OreApi.{round_of_bytes, miner_of_bytes, u64s_at}
use evore_program.Runtime.{
  Tx, Ledger, update, transfer, ore_checkpoint, ore_claim_sol, invoke, record_call,
}
use evore_program.State.{
  managed_miner_auth_seeds, deployer_pda, managed_miner_auth_pda, strategy_deployer_pda,
  manager_of_bytes, deployer_of_bytes, strategy_deployer_of_bytes, deployer_to_bytes,
  strategy_deployer_to_bytes,
}
use evore_program.Processor.Loads.{load}
use evore_program.Processor.Reads.{manager_at, deployer_at}
use evore_program.Processor.Sample.{
  sample, read_account, sample-AsAccountReads, account_info, data_account, ledger, start,
}
use evore_program.Processor.StratTests.{strat_start}
use evore_program.Processor.StratDeployer.Terms.{strat_deployer_at}
use evore_program.Processor.Claims.{
  board_address, miner_address, bumped_seeds, created_address, claim_rewards, process_claim_sol,
  process_checkpoint, process_mm_autocheckpoint, process_mm_strat_autocheckpoint,
  process_recycle_strat_sol,
}
use evore_program.Processor.Claims.Calls.{claim_sol-calls, checkpoint-calls}
use evore_program.Processor.Claims.Executor.{
  mm_autocheckpoint-calls, mm_strat_autocheckpoint-unchanged, IsClaimed, recycle_strat_sol-calls,
}

-- A miner in round 7 with 900 lamports to claim.
abbrev miner_bytes : List ℕ
miner_bytes =
    103 ∷ replicate 7 0
    ++ replicate 480 0
    ++ to_le_bytes 8 900
    ++ replicate 16 0
    ++ to_le_bytes 8 7
    ++ replicate 24 0

abbrev mined : Tx
mined = record start { ledger = update ledger 202 (data_account 101 miner_bytes) }

abbrev strat_mined : Tx
strat_mined = record strat_start {
  ledger = update strat_start.ledger 202 (data_account 101 miner_bytes);
}

abbrev claimed : Tx
claimed = record start { calls = ore_claim_sol 4 ∷ transfer 4 50 20000000 ∷ [] }

claim_sol_runs :
    process_claim_sol sample
      (account_info 50 true)
      (account_info 51 false)
      (account_info 4 false)
      (account_info 201 false)
      (account_info 0 false)
      (account_info 101 false)
      5
      9
      start
    ≡ ok (tt, claimed)
unfolding process_claim_sol load read_account to_le_bytes manager_of_bytes from_le_bytes slice
    board_address created_address invoke record_call
claim_sol_runs = refl

claim_sol-calls_example :
    (true ≡ true)
    × ((manager_at start 51).authority ≡ 50)
    × (sample.create_program_address (bumped_seeds sample 51 5 9) ≡ some 4)
    × ((after : Ledger) × (sample.invoke_signed
            (ore_claim_sol 4)
            (bumped_seeds sample 51 5 9)
            ledger
          ≡ ok after)
        × (claimed.calls ≡ ore_claim_sol 4 ∷ transfer 4 50 (after 4).lamports ∷ []))
claim_sol-calls_example =
    claim_sol-calls sample sample-AsAccountReads start (account_info 50 true)
      (account_info 51 false) (account_info 4 false) (account_info 201 false) (account_info 0 false)
      (account_info 101 false) 5 9 claim_sol_runs

abbrev settled : Tx
settled = record start { calls = ore_checkpoint 4 7 ∷ [] }

checkpoint_runs :
    process_checkpoint sample
      (account_info 50 true)
      (account_info 51 false)
      (account_info 4 false)
      (account_info 81 false)
      (account_info 0 false)
      (account_info 101 false)
      5
      9
      start
    ≡ ok (tt, settled)
unfolding process_checkpoint load read_account to_le_bytes manager_of_bytes from_le_bytes slice
    round_of_bytes u64s_at created_address invoke record_call
checkpoint_runs = refl

checkpoint-calls_example :
    (true ≡ true)
    × ((manager_at start 51).authority ≡ 50)
    × (sample.create_program_address (bumped_seeds sample 51 5 9) ≡ some 4)
    × (settled.calls ≡ ore_checkpoint 4 (round_of_bytes (drop 8 (ledger 81).bytes)).id ∷ [])
checkpoint-calls_example =
    checkpoint-calls sample sample-AsAccountReads start (account_info 50 true)
      (account_info 51 false) (account_info 4 false) (account_info 81 false) (account_info 0 false)
      (account_info 101 false) 5 9 checkpoint_runs

abbrev auto_settled : Tx
auto_settled = record mined { calls = ore_checkpoint 4 7 ∷ [] }

autocheckpoint_runs :
    process_mm_autocheckpoint sample
      (account_info 60 true)
      (account_info 51 false)
      (account_info 2 false)
      (account_info 4 false)
      (account_info 202 false)
      (account_info 0 false)
      (account_info 101 false)
      5
      9
      mined
    ≡ ok (tt, auto_settled)
unfolding process_mm_autocheckpoint load read_account to_le_bytes manager_of_bytes deployer_pda
    deployer_to_bytes deployer_of_bytes from_le_bytes slice miner_of_bytes u64s_at created_address
    invoke record_call
autocheckpoint_runs = refl

mm_autocheckpoint-calls_example :
    (true ≡ true)
    × ((deployer_pda sample 51).0 ≡ 2)
    × ((deployer_at mined 2).deploy_authority ≡ 60)
    × (sample.create_program_address (bumped_seeds sample 51 5 9) ≡ some 4)
    × (auto_settled.calls
        ≡ ore_checkpoint 4 (miner_of_bytes (drop 8 (mined.ledger 202).bytes)).round_id ∷ [])
mm_autocheckpoint-calls_example =
    mm_autocheckpoint-calls sample sample-AsAccountReads mined (account_info 60 true)
      (account_info 51 false) (account_info 2 false) (account_info 4 false) (account_info 202 false)
      (account_info 0 false) (account_info 101 false) 5 9 autocheckpoint_runs

strat_autocheckpoint_runs :
    process_mm_strat_autocheckpoint sample
      (account_info 60 true)
      (account_info 51 false)
      (account_info 2 false)
      (account_info 4 false)
      (account_info 202 false)
      (account_info 101 false)
      5
      9
      strat_mined
    ≡ ok (tt, strat_mined)
unfolding process_mm_strat_autocheckpoint load read_account to_le_bytes manager_of_bytes
    strategy_deployer_pda strategy_deployer_to_bytes strategy_deployer_of_bytes from_le_bytes slice
    miner_of_bytes u64s_at created_address miner_address
strat_autocheckpoint_runs = refl

mm_strat_autocheckpoint-unchanged_example :
    (true ≡ true)
    × ((strat_deployer_at strat_mined 2).deploy_authority ≡ 60)
    × (strat_mined ≡ strat_mined)
mm_strat_autocheckpoint-unchanged_example =
    mm_strat_autocheckpoint-unchanged sample sample-AsAccountReads strat_mined
      (account_info 60 true) (account_info 51 false) (account_info 2 false) (account_info 4 false)
      (account_info 202 false) (account_info 101 false) 5 9 strat_autocheckpoint_runs

abbrev recycled : Tx
recycled = record strat_mined { calls = ore_claim_sol 3 ∷ [] }

recycle_strat_runs :
    process_recycle_strat_sol sample
      (account_info 60 true)
      (account_info 51 false)
      (account_info 2 false)
      (account_info 3 false)
      (account_info 202 false)
      (account_info 201 false)
      (account_info 101 false)
      (account_info 0 false)
      5
      strat_mined
    ≡ ok (tt, recycled)
unfolding process_recycle_strat_sol load read_account to_le_bytes manager_of_bytes
    strategy_deployer_pda strategy_deployer_to_bytes strategy_deployer_of_bytes from_le_bytes slice
    miner_of_bytes u64s_at managed_miner_auth_pda miner_address board_address claim_rewards invoke
    record_call
recycle_strat_runs = refl

recycle_strat_sol-calls_example :
    (true ≡ true)
    × ((strategy_deployer_pda sample 51).0 ≡ 2)
    × ((strat_deployer_at strat_mined 2).deploy_authority ≡ 60)
    × ((managed_miner_auth_pda sample 51 5).0 ≡ 3)
    × (miner_address sample 3 ≡ 202)
    × IsClaimed sample
        (account_info 3 false)
        (account_info 202 false)
        (managed_miner_auth_seeds 51 5 ++ ((managed_miner_auth_pda sample 51 5).1 ∷ []) ∷ [])
        strat_mined
        recycled
recycle_strat_sol-calls_example =
    recycle_strat_sol-calls sample sample-AsAccountReads strat_mined (account_info 60 true)
      (account_info 51 false) (account_info 2 false) (account_info 3 false) (account_info 202 false)
      (account_info 201 false) (account_info 101 false) (account_info 0 false) 5 recycle_strat_runs
