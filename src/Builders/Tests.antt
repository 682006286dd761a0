-- ===== src/Builders/Tests.antt =====
-- Instructions as they are built and run.
use evore_program.Prelude.{
  ◌≡◌, refl, arith, [], ◌∷◌, ◌++◌, replicate, to_le_bytes, from_le_bytes, slice,
}
use evore_program.Error.{ok}
use evore_program.Runtime.{transfer, invoke, record_call}
use evore_program.State.{manager_of_bytes, managed_miner_auth_pda}
use evore_program.Instruction.{instruction_code}
use evore_program.Processor.Sample.{sample, read_account, start, sample-DataReads}
use evore_program.Processor.Balance.{process_deposit_autodeploy_balance}
use evore_program.Processor.{load}
use evore_program.Entry.{
  instruction_in, instruction_try_from, decoded, read_arguments, handled, process_instruction,
}
use evore_program.Entry.Handlers.{args_size}
use evore_program.Entry.Dispatch.{run}
use evore_program.Builders.{deposit_autodeploy_balance}
use evore_program.Builders.Requests.{Request, build, requested}
use evore_program.Builders.Reach.{built-requested}
use evore_program.Builders.Rounds.{mm_autodeploy}
use evore_program.Builders.RoundRequests.{RoundRequest, build_round, requested_round}
use evore_program.Builders.RoundReach.{built_round-requested}

abbrev deposit_700 : Request
deposit_700 = Request.deposit 50 51 5 700

deposit_700_bytes :
    (build sample deposit_700).bytes ≡ 8 ∷ 5 ∷ replicate 7 0 ++ 188 ∷ 2 ∷ replicate 6 0
unfolding deposit_autodeploy_balance instruction_code to_le_bytes
deposit_700_bytes = refl

deposit_700_runs :
    process_instruction sample 100
      (build sample deposit_700).accounts
      (build sample deposit_700).bytes
      start
    ≡ ok (tt, record start { calls = transfer 50 3 700 ∷ [] })
unfolding deposit_autodeploy_balance process_instruction decoded instruction_try_from instruction_in
    instruction_code handled read_arguments args_size run process_deposit_autodeploy_balance load
    read_account to_le_bytes from_le_bytes slice manager_of_bytes managed_miner_auth_pda invoke
    record_call
deposit_700_runs = refl

built-requested_example :
    process_instruction sample 100
      (build sample deposit_700).accounts
      (build sample deposit_700).bytes
      start
    ≡ requested sample deposit_700 start
built-requested_example =
    built-requested sample start sample-DataReads deposit_700 (omega arith, omega arith)

-- 400 on the squares 0 and 2 in round 7
abbrev autodeploy_400 : RoundRequest
autodeploy_400 = RoundRequest.mm_autodeploy 60 51 5 7 400 5

autodeploy_400_bytes :
    (build_round sample autodeploy_400).bytes
    ≡ 7 ∷ 5 ∷ replicate 7 0 ++ 144 ∷ 1 ∷ replicate 6 0 ++ 5 ∷ replicate 7 0
unfolding mm_autodeploy instruction_code to_le_bytes
autodeploy_400_bytes = refl

built_round-requested_example :
    process_instruction sample 100
      (build_round sample autodeploy_400).accounts
      (build_round sample autodeploy_400).bytes
      start
    ≡ requested_round sample autodeploy_400 start
built_round-requested_example =
    built_round-requested sample start sample-DataReads autodeploy_400
      (omega arith, omega arith, omega arith)
