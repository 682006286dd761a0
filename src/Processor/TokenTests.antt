-- ===== src/Processor/TokenTests.antt =====
-- Runs of the token handlers, and the theorems about them there.
use evore_program.Prelude.{
  ℕ, ◌+◌, length, ◌≡◌, refl, true, [], ◌∷◌, ◌++◌, replicate, to_le_bytes, from_le_bytes, slice, ltb,
}
use evore_program.Error.{ProgramError, invalid_account_data, ok, err}
use evore_program.Runtime.{
  Tx, update, transfer, ore_automate, ore_claim_ore, create_token_account, token_transfer,
  is_empty_data, invoke, record_call,
}
use evore_program.State.{deployer_size, deployer_pda, manager_of_bytes, deployer_to_bytes}
use evore_program.Processor.Loads.{load, when}
use evore_program.Processor.Rounds.Fees.{calls_when}
use evore_program.Processor.Automation.{default_key}
use evore_program.Processor.Claims.{bumped_seeds, board_address, created_address}
use evore_program.Processor.Sample.{
  sample, read_account, sample-AsAccountReads, sample-AccountDataReads, account_info, data_account,
  ledger, start,
}
use evore_program.Processor.Tokens.{
  token_amount, ensure_token_account, require_owner, total_required, process_withdraw_tokens,
  process_claim_ore, process_mm_create_miner, process_recycle_sol,
}
use evore_program.Processor.Tokens.Ensured.{IsOwner, IsEnsured}
use evore_program.Processor.Tokens.Calls.{withdraw_tokens-calls, claim_ore-calls}
use evore_program.Processor.Tokens.Miner.{create_miner-calls, recycle_sol-fails}

-- The token account 90 of the manager's address 4 holds 7000; the signer's, 91, is not there yet.
abbrev with_tokens : Tx
with_tokens = record start {
  ledger =
      update ledger 90 (data_account 104 (replicate 64 0 ++ to_le_bytes 8 7000 ++ replicate 93 0));
}

abbrev withdrawn : Tx
withdrawn = record with_tokens {
  calls = create_token_account 50 50 91 95 ∷ token_transfer 4 90 91 7000 ∷ [];
}

withdraw_tokens_runs :
    process_withdraw_tokens sample
      (account_info 50 true)
      (account_info 51 true)
      (account_info 4 true)
      (account_info 90 true)
      (account_info 91 true)
      (account_info 95 true)
      (account_info 0 true)
      (account_info 104 true)
      (account_info 105 true)
      5
      9
      with_tokens
    ≡ ok (tt, withdrawn)
unfolding process_withdraw_tokens token_amount ensure_token_account require_owner load read_account
    to_le_bytes manager_of_bytes from_le_bytes slice created_address invoke record_call
withdraw_tokens_runs = refl

withdraw_tokens-calls_example :
    (true ≡ true)
    × IsOwner sample with_tokens
        (account_info 50 true)
        (account_info 51 true)
        (account_info 4 true)
        5
        9
    × ((amount : ℕ) × (ready : Tx) × (sample.as_token_account 4 95 90 (with_tokens.ledger 90)
          ≡ ok amount)
        × IsEnsured sample with_tokens 50 50 95 (account_info 91 true) ready
        × (invoke sample (token_transfer 4 90 91 amount) (bumped_seeds sample 51 5 9) ready
            ≡ ok (tt, withdrawn))
        × (withdrawn.calls
            ≡ calls_when
                (is_empty_data (with_tokens.ledger 91).bytes)
                (create_token_account 50 50 91 95)
              ++ token_transfer 4 90 91 amount ∷ []))
withdraw_tokens-calls_example =
    withdraw_tokens-calls sample sample-AsAccountReads (account_info 50 true) (account_info 51 true)
      (account_info 4 true) (account_info 95 true) (account_info 90 true) (account_info 91 true)
      (account_info 0 true) (account_info 104 true) (account_info 105 true) 5 9 with_tokens
      withdraw_tokens_runs

abbrev claimed_ore : Tx
claimed_ore = record with_tokens {
  calls = ore_claim_ore 4 ∷ create_token_account 50 50 91 95 ∷ token_transfer 4 90 91 7000 ∷ [];
}

claim_ore_runs :
    process_claim_ore sample
      (account_info 50 true)
      (account_info 51 true)
      (account_info 4 true)
      (account_info 201 true)
      (account_info 95 true)
      (account_info 90 true)
      (account_info 91 true)
      (account_info 0 true)
      (account_info 104 true)
      (account_info 105 true)
      (account_info 101 true)
      5
      9
      with_tokens
    ≡ ok (tt, claimed_ore)
unfolding process_claim_ore token_amount ensure_token_account require_owner load read_account
    to_le_bytes manager_of_bytes from_le_bytes slice created_address board_address invoke
    record_call
claim_ore_runs = refl

claim_ore-calls_example :
    (true ≡ true)
    × IsOwner sample with_tokens
        (account_info 50 true)
        (account_info 51 true)
        (account_info 4 true)
        5
        9
    × ((received claimed settled : Tx) × (amount : ℕ) × IsEnsured sample with_tokens 50 4 95
          (account_info 90 true)
          received
        × (invoke sample (ore_claim_ore 4) (bumped_seeds sample 51 5 9) received ≡ ok (tt, claimed))
        × IsEnsured sample claimed 50 50 95 (account_info 91 true) settled
        × (invoke sample (token_transfer 4 90 91 amount) (bumped_seeds sample 51 5 9) settled
            ≡ ok (tt, claimed_ore))
        × (claimed.calls
            ≡ calls_when
                (is_empty_data (with_tokens.ledger 90).bytes)
                (create_token_account 50 4 90 95)
              ++ ore_claim_ore 4 ∷ [])
        × (sample.as_token_account 4 95 90 (settled.ledger 90) ≡ ok amount)
        × (claimed_ore.calls
            ≡ claimed.calls
              ++ (calls_when
                    (is_empty_data (claimed.ledger 91).bytes)
                    (create_token_account 50 50 91 95)
                  ++ token_transfer 4 90 91 amount ∷ [])))
claim_ore-calls_example =
    claim_ore-calls sample sample-AsAccountReads (account_info 50 true) (account_info 51 true)
      (account_info 4 true) (account_info 95 true) (account_info 90 true) (account_info 91 true)
      (account_info 0 true) (account_info 104 true) (account_info 105 true) 5 9 with_tokens
      (account_info 201 true) (account_info 90 true) (account_info 101 true) claim_ore_runs

abbrev miner_made : Tx
miner_made = record start {
  calls =
      transfer 50 4 6413200
      ∷ ore_automate 4 0 0 50 0 0 0
      ∷ ore_automate 4 0 0 0 0 0 0
      ∷ transfer 4 50 20000000
      ∷ [];
}

create_miner_runs :
    process_mm_create_miner sample
      (account_info 50 true)
      (account_info 51 true)
      (account_info 4 true)
      (account_info 50 true)
      (account_info 0 true)
      (account_info 0 true)
      (account_info 101 true)
      5
      9
      start
    ≡ ok (tt, miner_made)
unfolding process_mm_create_miner total_required require_owner load read_account to_le_bytes
    manager_of_bytes from_le_bytes slice created_address invoke record_call
create_miner_runs = refl

create_miner-calls_example :
    (true ≡ true)
    × IsOwner sample start (account_info 50 true) (account_info 51 true) (account_info 4 true) 5 9
    × (◌≡◌ {A = ℕ} 50 50)
    × ((funded opened closed : Tx) × (invoke sample (transfer 50 4 (total_required sample)) [] start
          ≡ ok (tt, funded))
        × (invoke sample (ore_automate 4 0 0 50 0 0 0) (bumped_seeds sample 51 5 9) funded
            ≡ ok (tt, opened))
        × (invoke sample (ore_automate 4 0 0 default_key 0 0 0) (bumped_seeds sample 51 5 9) opened
            ≡ ok (tt, closed))
        × (when
              (ltb 0 (closed.ledger 4).lamports)
              (invoke sample
                (transfer 4 50 (closed.ledger 4).lamports)
                (bumped_seeds sample 51 5 9))
              closed
            ≡ ok (tt, miner_made))
        × (miner_made.calls
            ≡ transfer 50 4 (total_required sample)
              ∷ ore_automate 4 0 0 50 0 0 0
              ∷ ore_automate 4 0 0 default_key 0 0 0
              ∷ calls_when
                  (ltb 0 (closed.ledger 4).lamports)
                  (transfer 4 50 (closed.ledger 4).lamports)))
create_miner-calls_example =
    create_miner-calls sample sample-AsAccountReads start (account_info 50 true)
      (account_info 51 true) (account_info 4 true) (account_info 50 true) (account_info 0 true)
      (account_info 0 true) (account_info 101 true) 5 9 create_miner_runs

abbrev with_rewards : Tx
with_rewards = record start {
  ledger =
      update ledger 202
        (data_account 101 (103 ∷ replicate 487 0 ++ to_le_bytes 8 900 ++ replicate 48 0));
}

recycle_sol_runs :
    process_recycle_sol sample
      (account_info 60 true)
      (account_info 51 true)
      (account_info 2 true)
      (account_info 3 true)
      (account_info 202 true)
      (account_info 201 true)
      (account_info 0 true)
      (account_info 101 true)
      5
      with_rewards
    ≡ err invalid_account_data
unfolding process_recycle_sol load read_account to_le_bytes manager_of_bytes deployer_to_bytes
    deployer_pda from_le_bytes slice board_address
recycle_sol_runs = refl

created_size : length (with_rewards.ledger 2).bytes ≡ 8 + deployer_size
unfolding deployer_to_bytes to_le_bytes
created_size = refl

recycle_sol-fails_example :
    (e : ProgramError) × (process_recycle_sol sample
        (account_info 60 true)
        (account_info 51 true)
        (account_info 2 true)
        (account_info 3 true)
        (account_info 202 true)
        (account_info 201 true)
        (account_info 0 true)
        (account_info 101 true)
        5
        with_rewards
      ≡ err e)
recycle_sol-fails_example =
    recycle_sol-fails sample sample-AsAccountReads with_rewards (account_info 60 true)
      (account_info 51 true) (account_info 2 true) (account_info 3 true) (account_info 202 true)
      (account_info 201 true) (account_info 0 true) (account_info 101 true) 5
      sample-AccountDataReads created_size
