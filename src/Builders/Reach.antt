-- ===== src/Builders/Reach.antt =====
-- What the program does with the instructions that clients build.
use evore_program.Prelude.{
  ℕ, ◌≡◌, ◌∙◌, refl, ap, List, [], ◌∷◌, ◌++◌, slice, to_le_bytes, from_le_bytes,
}
use evore_program.Error.{ok}
use evore_program.OreApi.{u64_at}
use evore_program.Runtime.{AccountInfo, Runtime, Tx, DataReads}
use evore_program.Runtime.Bytes.{from_le_bytes-to_le_bytes}
use evore_program.State.{managed_miner_auth_pda}
use evore_program.Instruction.{Instructions, instruction_code}
use evore_program.Entry.{handled, read_arguments, process_instruction, dispatched}
use evore_program.Entry.Handlers.{args_size, create_deployer_of, update_deployer_of}
use evore_program.Entry.Dispatch.{run}
use evore_program.Entry.Reaches.{process_instruction-here, decoded-code}
use evore_program.Builders.{
  create_manager, transfer_manager, mm_claim_sol, create_deployer, update_deployer,
  deposit_autodeploy_balance, recycle_sol, withdraw_autodeploy_balance, mm_strat_autocheckpoint,
  recycle_strat_sol,
}
use evore_program.Builders.Tokens.{mm_claim_ore, withdraw_tokens}
use evore_program.Builders.Requests.{Request, IsU64, IsSized, build, requested}

-- A number that is written is read back.
pub u64_at-written : (x : ℕ) → IsU64 x → u64_at (to_le_bytes 8 x) 0 ≡ x
unfolding to_le_bytes from_le_bytes slice
u64_at-written x small = from_le_bytes-to_le_bytes 8 x small

module _ (rt : Runtime) (s : Tx) where
  handled-read :
      (accounts : List AccountInfo) (i : Instructions) (bytes args : List ℕ)
      → read_arguments rt i bytes ≡ ok args
      → handled rt i accounts bytes s ≡ run rt i accounts args s
  unfolding handled run
  handled-read accounts i bytes args read = rw (read, handled) refl

  pub built-runs :
      (accounts : List AccountInfo) (i : Instructions) (bytes args : List ℕ)
      → read_arguments rt i bytes ≡ ok args
      → process_instruction rt rt.evore_id accounts (instruction_code i ∷ bytes) s
        ≡ run rt i accounts args s
  built-runs accounts i bytes args read =
      process_instruction-here rt rt.evore_id accounts (instruction_code i ∷ bytes) s refl
      ∙ ap (dispatched rt accounts s) (decoded-code i bytes)
      ∙ handled-read accounts i bytes args read

  module _ (reads : DataReads rt) where
    -- With a runtime that passes on arguments of their size, and numbers that are of the builder's types:
    -- the program does with each of these built instructions what the handler that it is for does with
    -- the accounts that the builder names and the arguments that it was given.
    pub built-requested :
        (r : Request)
        → IsSized r
        → process_instruction rt rt.evore_id (build rt r).accounts (build rt r).bytes s
          ≡ requested rt r s
    unfolding mm_claim_ore withdraw_tokens create_manager transfer_manager mm_claim_sol
        create_deployer update_deployer deposit_autodeploy_balance recycle_sol
        withdraw_autodeploy_balance mm_strat_autocheckpoint recycle_strat_sol read_arguments
        args_size run create_deployer_of update_deployer_of to_le_bytes slice instruction_code
    built-requested (Request.create_manager signer manager) sized =
        built-runs _ Instructions.create_manager [] [] refl
    built-requested (Request.transfer_manager signer manager new_authority) sized =
        built-runs _ Instructions.transfer_manager [] [] refl
    built-requested (Request.mm_claim_sol signer manager auth_id) sized =
        let e1 = u64_at-written auth_id sized in
        let bytes = to_le_bytes 8 auth_id ++ (managed_miner_auth_pda rt manager auth_id).1 ∷ [] in
        built-runs _ Instructions.mm_claim_sol bytes bytes (reads 9 bytes refl) ∙ cc
    built-requested (Request.create_deployer signer manager deploy_authority args) (h1, h2, h3) =
        let e1 = u64_at-written args.bps_fee h1 in
        let e2 = u64_at-written args.flat_fee h2 in
        let e3 = u64_at-written args.max_per_round h3 in
        let bytes =
          to_le_bytes 8 args.bps_fee
          ++ (to_le_bytes 8 args.flat_fee ++ to_le_bytes 8 args.max_per_round) in
        built-runs _ Instructions.create_deployer bytes bytes (reads 24 bytes refl) ∙ cc
    built-requested (Request.update_deployer signer manager new_deploy_authority args)
          (h1, h2, h3, h4, h5) =
        let e1 = u64_at-written args.bps_fee h1 in
        let e2 = u64_at-written args.flat_fee h2 in
        let e3 = u64_at-written args.expected_bps_fee h3 in
        let e4 = u64_at-written args.expected_flat_fee h4 in
        let e5 = u64_at-written args.max_per_round h5 in
        let bytes =
          to_le_bytes 8 args.bps_fee
          ++ (to_le_bytes 8 args.flat_fee
              ++ (to_le_bytes 8 args.expected_bps_fee
                  ++ (to_le_bytes 8 args.expected_flat_fee ++ to_le_bytes 8 args.max_per_round))) in
        built-runs _ Instructions.update_deployer bytes bytes (reads 40 bytes refl) ∙ cc
    built-requested (Request.deposit signer manager auth_id amount) (h1, h2) =
        let e1 = u64_at-written auth_id h1 in
        let e2 = u64_at-written amount h2 in
        let bytes = to_le_bytes 8 auth_id ++ to_le_bytes 8 amount in
        built-runs _ Instructions.deposit_autodeploy_balance bytes bytes (reads 16 bytes refl) ∙ cc
    built-requested (Request.withdraw signer manager auth_id amount) (h1, h2) =
        let e1 = u64_at-written auth_id h1 in
        let e2 = u64_at-written amount h2 in
        let bytes = to_le_bytes 8 auth_id ++ to_le_bytes 8 amount in
        built-runs _ Instructions.withdraw_autodeploy_balance bytes bytes (reads 16 bytes refl) ∙ cc
    built-requested (Request.recycle_sol signer manager auth_id) sized =
        let e1 = u64_at-written auth_id sized in
        let bytes = to_le_bytes 8 auth_id in
        built-runs _ Instructions.recycle_sol bytes bytes (reads 8 bytes refl) ∙ cc
    built-requested (Request.recycle_strat_sol signer manager auth_id) sized =
        let e1 = u64_at-written auth_id sized in
        let bytes = to_le_bytes 8 auth_id in
        built-runs _ Instructions.recycle_strat_sol bytes bytes (reads 8 bytes refl) ∙ cc
    built-requested (Request.mm_strat_autocheckpoint signer manager auth_id bump) sized =
        let e1 = u64_at-written auth_id sized in
        let bytes = to_le_bytes 8 auth_id ++ bump ∷ [] in
        built-runs _ Instructions.mm_strat_autocheckpoint bytes bytes (reads 9 bytes refl) ∙ cc
    built-requested (Request.mm_claim_ore signer manager auth_id) sized =
        let e1 = u64_at-written auth_id sized in
        let bytes = to_le_bytes 8 auth_id ++ (managed_miner_auth_pda rt manager auth_id).1 ∷ [] in
        built-runs _ Instructions.mm_claim_ore bytes bytes (reads 9 bytes refl) ∙ cc
    built-requested (Request.withdraw_tokens signer manager auth_id mint) sized =
        let e1 = u64_at-written auth_id sized in
        let bytes = to_le_bytes 8 auth_id ++ (managed_miner_auth_pda rt manager auth_id).1 ∷ [] in
        built-runs _ Instructions.withdraw_tokens bytes bytes (reads 9 bytes refl) ∙ cc
