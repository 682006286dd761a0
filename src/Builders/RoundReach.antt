-- ===== src/Builders/RoundReach.antt =====
-- What the program does with the built instructions that name a round.
use evore_program.Prelude.{
  ℕ, ◌≡◌, ◌∙◌, refl, [], ◌∷◌, ◌++◌, slice, replicate, to_le_bytes, from_le_bytes,
}
use evore_program.Runtime.{Runtime, Tx, DataReads}
use evore_program.Runtime.Bytes.{from_le_bytes-to_le_bytes}
use evore_program.State.{managed_miner_auth_pda}
use evore_program.Instruction.{Instructions, instruction_code}
use evore_program.Entry.{read_arguments, process_instruction}
use evore_program.Entry.Handlers.{args_size, strat_args_of}
use evore_program.Entry.Dispatch.{run}
use evore_program.Builders.Reach.{u64_at-written, built-runs}
use evore_program.Builders.Rounds.{
  mm_checkpoint, mm_autocheckpoint, mm_create_miner, build_autodeploy_accounts, mm_autodeploy,
  build_full_autodeploy_accounts, mm_full_autodeploy, mm_strat_autodeploy, mm_strat_full_autodeploy,
}
use evore_program.Builders.RoundRequests.{
  RoundRequest, IsU32, IsSizedRound, build_round, requested_round,
}

u32_at-written : (x : ℕ) → IsU32 x → from_le_bytes (to_le_bytes 4 x) ≡ x
u32_at-written x small = from_le_bytes-to_le_bytes 4 x small

module _ (rt : Runtime) (s : Tx) (reads : DataReads rt) where
  -- With a runtime that passes on arguments of their size, and numbers that are of the builder's types:
  -- the program does with each of these built instructions what the handler that it is for does with
  -- the arguments that the builder was given and the accounts by their roles: of the round that was
  -- given, but for a strategy's autodeploys of the round of id 0.
  pub built_round-requested :
      (r : RoundRequest)
      → IsSizedRound r
      → process_instruction rt rt.evore_id (build_round rt r).accounts (build_round rt r).bytes s
        ≡ requested_round rt r s
  unfolding mm_checkpoint mm_autocheckpoint mm_create_miner build_autodeploy_accounts mm_autodeploy
      build_full_autodeploy_accounts mm_full_autodeploy mm_strat_autodeploy mm_strat_full_autodeploy
      read_arguments args_size run strat_args_of to_le_bytes slice instruction_code
  built_round-requested (RoundRequest.mm_checkpoint signer manager round_id auth_id) sized =
      let e1 = u64_at-written auth_id sized in
      let bytes = to_le_bytes 8 auth_id ++ (managed_miner_auth_pda rt manager auth_id).1 ∷ [] in
      built-runs rt s _ Instructions.mm_checkpoint bytes bytes (reads 9 bytes refl) ∙ cc
  built_round-requested (RoundRequest.mm_autocheckpoint signer manager round_id auth_id) sized =
      let e1 = u64_at-written auth_id sized in
      let bytes = to_le_bytes 8 auth_id ++ (managed_miner_auth_pda rt manager auth_id).1 ∷ [] in
      built-runs rt s _ Instructions.mm_autocheckpoint bytes bytes (reads 9 bytes refl) ∙ cc
  built_round-requested (RoundRequest.mm_create_miner signer manager auth_id) sized =
      let e1 = u64_at-written auth_id sized in
      let bytes = to_le_bytes 8 auth_id ++ (managed_miner_auth_pda rt manager auth_id).1 ∷ [] in
      built-runs rt s _ Instructions.mm_create_miner bytes bytes (reads 9 bytes refl) ∙ cc
  built_round-requested
        (RoundRequest.mm_autodeploy signer manager auth_id round_id amount squares_mask)
        (h1, h2, h3) =
      let e1 = u64_at-written auth_id h1 in
      let e2 = u64_at-written amount h2 in
      let e3 = u32_at-written squares_mask h3 in
      let bytes =
        to_le_bytes 8 auth_id
        ++ (to_le_bytes 8 amount ++ (to_le_bytes 4 squares_mask ++ replicate 4 0)) in
      built-runs rt s _ Instructions.mm_autodeploy bytes bytes (reads 24 bytes refl) ∙ cc
  built_round-requested
        (RoundRequest.mm_full_autodeploy signer manager auth_id round_id checkpoint_round_id amount
          squares_mask)
        (h1, h2, h3) =
      let e1 = u64_at-written auth_id h1 in
      let e2 = u64_at-written amount h2 in
      let e3 = u32_at-written squares_mask h3 in
      let bytes =
        to_le_bytes 8 auth_id
        ++ (to_le_bytes 8 amount ++ (to_le_bytes 4 squares_mask ++ replicate 4 0)) in
      built-runs rt s _ Instructions.mm_full_autodeploy bytes bytes (reads 24 bytes refl) ∙ cc
  built_round-requested (RoundRequest.mm_strat_autodeploy deploy_authority manager auth_id args)
        (h1, h2, h3, h4) =
      let e1 = u64_at-written auth_id h1 in
      let e2 = u64_at-written args.amount h2 in
      let e3 = u32_at-written args.squares_mask h3 in
      let e4 = u32_at-written args.extra h4 in
      let bytes =
        to_le_bytes 8 auth_id
        ++ (to_le_bytes 8 args.amount
            ++ (to_le_bytes 4 args.squares_mask ++ to_le_bytes 4 args.extra)) in
      built-runs rt s _ Instructions.mm_strat_autodeploy bytes bytes (reads 24 bytes refl) ∙ cc
  built_round-requested
        (RoundRequest.mm_strat_full_autodeploy deploy_authority manager auth_id args)
        (h1, h2, h3, h4) =
      let e1 = u64_at-written auth_id h1 in
      let e2 = u64_at-written args.amount h2 in
      let e3 = u32_at-written args.squares_mask h3 in
      let e4 = u32_at-written args.extra h4 in
      let bytes =
        to_le_bytes 8 auth_id
        ++ (to_le_bytes 8 args.amount
            ++ (to_le_bytes 4 args.squares_mask ++ to_le_bytes 4 args.extra)) in
      built-runs rt s _ Instructions.mm_strat_full_autodeploy bytes bytes (reads 24 bytes refl) ∙ cc
