-- ===== src/Processor/StratTests.antt =====
-- Runs of the handlers on strategy deployers, and the theorems about them there.
use evore_program.Prelude.{
  arith, ℕ, ◌≡◌, ◌⊎◌, refl, true, false, List, [], ◌∷◌, ◌++◌, ◌==◌, replicate, to_le_bytes,
  from_le_bytes, slice,
}
use evore_program.Error.{ok}
use evore_program.Validation.{check_strategy, strategy_try_from, validate_strategy_data, field}
use evore_program.Runtime.{
  Account, Tx, written, update, after_call, create_account, is_empty_data, invoke, record_call,
}
use evore_program.Runtime.Bytes.{write_at}
use evore_program.State.{
  StrategyDeployer, strategy_deployer_pda, strategy_deployer_to_bytes, strategy_deployer_of_bytes,
  manager_of_bytes,
}
use evore_program.Processor.Loads.{load}
use evore_program.Processor.Reads.{manager_at}
use evore_program.Processor.Sample.{
  sample, read_account, sample-AsAccountReads, sample-CreatesSpace, account_info, data_account,
  ledger, start,
}
use evore_program.Processor.StratDeployer.{
  CreateStratDeployer, new_strat_deployer, process_create_strat_deployer, UpdateStratDeployer,
  process_update_strat_deployer, strat_update_bytes,
}
use evore_program.Processor.StratDeployer.Terms.{strat_deployer_at, IsChecked, SameTerms}
use evore_program.Processor.StratDeployer.Create.{create_strat_deployer-IsChecked}
use evore_program.Processor.StratDeployer.Update.{update_strat_deployer-terms}

-- Half of the first squares' pools, as a dynamic split.
abbrev strategy : List ℕ
strategy = to_le_bytes 8 5000 ++ to_le_bytes 8 3 ++ replicate 48 0

abbrev pub strat_deployer : StrategyDeployer
strat_deployer = record {
  manager_key = 51;
  deploy_authority = 60;
  bps_fee = 100;
  flat_fee = 5000;
  expected_bps_fee = 200;
  expected_flat_fee = 5000;
  max_per_round = 1000000;
  strategy_type = 3;
  strategy_data = replicate 64 0;
}

abbrev pub strat_bytes : List ℕ
strat_bytes = 102 ∷ replicate 7 0 ++ strategy_deployer_to_bytes strat_deployer

-- The strategy deployer stands at the address with two seeds.
abbrev pub strat_start : Tx
strat_start = record start { ledger = update ledger 2 (data_account 100 strat_bytes) }

abbrev new_strategy : UpdateStratDeployer
new_strategy = record {
  bps_fee = 0;
  flat_fee = 0;
  expected_bps_fee = 300;
  expected_flat_fee = 100;
  max_per_round = 5000;
  strategy_type = 4;
  strategy_data = strategy;
}

abbrev restrategised : Tx
restrategised = written strat_start 2 (strat_update_bytes true false 60 new_strategy strat_bytes)

update_strat_runs :
    process_update_strat_deployer sample
      (account_info 50 true)
      (account_info 51 false)
      (account_info 2 false)
      (account_info 60 false)
      new_strategy
      strat_start
    ≡ ok (tt, restrategised)
unfolding process_update_strat_deployer load read_account to_le_bytes strategy_deployer_pda
    strategy_deployer_to_bytes manager_of_bytes from_le_bytes slice check_strategy strategy_try_from
    validate_strategy_data field strategy_deployer_of_bytes
update_strat_runs = refl

update_strat_deployer-terms_example :
    let is_manager = (manager_at strat_start 51).authority == 50 in
    let is_deploy = (strat_deployer_at strat_start 2).deploy_authority == 50 in
    (true ≡ true)
    × ((is_manager ≡ true) ⊎ (is_deploy ≡ true))
    × ((strategy_deployer_pda sample 51).0 ≡ 2)
    × (((is_manager ≡ true) × IsChecked (strat_deployer_at restrategised 2))
        ⊎ ((is_manager ≡ false)
            × SameTerms (strat_deployer_at restrategised 2) (strat_deployer_at strat_start 2)))
    × (restrategised.ledger ≡ update strat_start.ledger 2 (restrategised.ledger 2))
    × (restrategised.calls ≡ [])
unfolding to_le_bytes
update_strat_deployer-terms_example =
    update_strat_deployer-terms sample sample-AsAccountReads (account_info 50 true)
      (account_info 51 false) (account_info 2 false) (account_info 60 false) new_strategy
      strat_start refl update_strat_runs

abbrev first_strategy : CreateStratDeployer
first_strategy = record {
  bps_fee = 200;
  flat_fee = 5000;
  max_per_round = 1000000;
  strategy_type = 4;
  strategy_data = strategy;
}

abbrev space : Account
space = record { lamports = 2171520; owner = 100; bytes = replicate 184 0 }

abbrev nothing_there : Tx
nothing_there = record start { ledger = update ledger 2 (data_account 0 []) }

abbrev created_account : Tx
created_account =
    written
      (after_call (create_account 50 2 2171520 184 100) nothing_there
        (update nothing_there.ledger 2 space))
      2
      (write_at 8 (strategy_deployer_to_bytes (new_strat_deployer 51 60 first_strategy))
        (write_at 0 (to_le_bytes 8 102) (replicate 184 0)))

create_strat_runs :
    process_create_strat_deployer sample
      (account_info 50 true)
      (account_info 51 false)
      (account_info 2 false)
      (account_info 60 false)
      (account_info 0 false)
      first_strategy
      nothing_there
    ≡ ok (tt, created_account)
unfolding process_create_strat_deployer load read_account to_le_bytes manager_of_bytes from_le_bytes
    slice check_strategy strategy_try_from validate_strategy_data field strategy_deployer_pda invoke
    record_call
create_strat_runs = refl

create_strat_deployer-IsChecked_example :
    (true ≡ true)
    × ((manager_at nothing_there 51).authority ≡ 50)
    × ((strategy_deployer_pda sample 51).0 ≡ 2)
    × (is_empty_data (nothing_there.ledger 2).bytes ≡ true)
    × IsChecked (strat_deployer_at created_account 2)
unfolding to_le_bytes
create_strat_deployer-IsChecked_example =
    create_strat_deployer-IsChecked sample sample-AsAccountReads sample-CreatesSpace
      (account_info 50 true) (account_info 51 false) (account_info 2 false) (account_info 60 false)
      (account_info 0 false) first_strategy nothing_there (omega arith) refl create_strat_runs
