-- ===== src/Entry/Tests.antt =====
-- Runs of the entry point.
use evore_program.Prelude.{
  ℕ, ◌≡◌, ◌≢◌, ◌⊎◌, refl, true, List, [], ◌∷◌, ◌++◌, to_le_bytes, from_le_bytes, slice,
}
use evore_program.Error.{incorrect_program_id, invalid_instruction_data, err, ok}
use evore_program.Runtime.{AccountInfo, Tx, transfer, invoke, record_call}
use evore_program.State.{manager_of_bytes, managed_miner_auth_pda}
use evore_program.Instruction.{Instructions, instruction_code}
use evore_program.Processor.Sample.{sample, read_account, account_info, start}
use evore_program.Processor.Balance.{process_deposit_autodeploy_balance}
use evore_program.Processor.{load}
use evore_program.Entry.{
  instruction_in, instruction_try_from, decoded, read_arguments, handled, process_instruction,
}
use evore_program.Entry.Handlers.{args_size}
use evore_program.Entry.Dispatch.{run}
use evore_program.Entry.Reaches.{HasNoInstruction, process_instruction-dispatches}

-- A deposit of 700 for the auth id 5.
abbrev deposit_accounts : List AccountInfo
deposit_accounts =
    account_info 50 true ∷ account_info 51 true ∷ account_info 3 true ∷ account_info 0 true ∷ []

abbrev deposit_bytes : List ℕ
deposit_bytes = to_le_bytes 8 5 ++ to_le_bytes 8 700

abbrev deposited : Tx
deposited = record start { calls = transfer 50 3 700 ∷ [] }

deposit_runs :
    process_instruction sample 100 deposit_accounts (8 ∷ deposit_bytes) start ≡ ok (tt, deposited)
unfolding process_instruction decoded instruction_try_from instruction_in instruction_code handled
    read_arguments args_size run process_deposit_autodeploy_balance load read_account to_le_bytes
    from_le_bytes slice manager_of_bytes managed_miner_auth_pda invoke record_call
deposit_runs = refl

process_instruction-dispatches_example :
    ((◌≢◌ {A = ℕ} 100 100)
      × (process_instruction sample 100 deposit_accounts (8 ∷ deposit_bytes) start
          ≡ err incorrect_program_id))
    ⊎ (((i : Instructions) × (rest : List ℕ) × (◌≡◌ {A = ℕ} 100 100)
          × (8 ∷ deposit_bytes ≡ instruction_code i ∷ rest)
          × (process_instruction sample 100 deposit_accounts (8 ∷ deposit_bytes) start
              ≡ handled sample i deposit_accounts rest start))
        ⊎ ((◌≡◌ {A = ℕ} 100 100)
            × HasNoInstruction (8 ∷ deposit_bytes)
            × (process_instruction sample 100 deposit_accounts (8 ∷ deposit_bytes) start
                ≡ err invalid_instruction_data)))
process_instruction-dispatches_example =
    process_instruction-dispatches sample 100 deposit_accounts (8 ∷ deposit_bytes) start
