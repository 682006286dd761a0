-- ===== src/Processor/FullAutodeploy/StratCalls.antt =====
-- What a full strategy autodeploy that succeeds has checked, and the calls it makes.
use evore_program.Prelude.{ℕ, ◌<◌, ◌≡◌, arith, true, false, not, leb, ◌==◌}
use evore_program.Error.{evore, end_slot_reached, ok}
use evore_program.OreApi.{
  board_of_bytes, board_size, board_discriminator, round_of_bytes, round_size, round_discriminator,
}
use evore_program.Runtime.{Runtime, AsAccountReads, Tx}
use evore_program.Runtime.Chain.{reject_if-ok, >>=-ok, read-ok, lift-ok}
use evore_program.State.{strategy_deployer_pda, managed_miner_auth_pda}
use evore_program.StrategyDispatch.{StrategyResult, dispatch_strategy}
use evore_program.Processor.Reads.{load-ok}
use evore_program.Processor.Rounds.Reads.{miner_at, board_at, round_at, rent_of_miner}
use evore_program.Processor.StratDeployer.Terms.{strat_deployer_at}
use evore_program.Processor.StratAutodeploy.{
  StratAccounts, StratArgs, check_programs, load_strat, check_terms, check_managed_miner_auth,
  check_limits, found_seeds,
}
use evore_program.Processor.StratAutodeploy.Authorized.{
  IsWithinTerms, check_programs-ok, load_strat-ok, check_terms-ok, check_managed_miner_auth-ok,
}
use evore_program.Processor.StratAutodeploy.Spends.{
  IsSpent, IsWithinLimits, check_limits-ok, pay_and_deploy-IsSpent,
}
use evore_program.Processor.StratAutodeploy.Calls.{IsStratAuthorized}
use evore_program.Processor.FullAutodeploy.{
  settle_miner, process_mm_strat_full_autodeploy, deploy_strat_settled,
}
use evore_program.Processor.FullAutodeploy.Settles.{IsSettled, settle_miner-ok}

module _ (rt : Runtime) (reads : AsAccountReads rt) (accounts : StratAccounts) (auth_id : ℕ)
    (args : StratArgs) (s : Tx) where
  open accounts use {signer, managed_miner_auth, ore_miner, board, round}

  -- With a runtime that reads accounts as steel does: a full strategy autodeploy that succeeds was
  -- authorized and came before the end of the round. It first settles the miner: ORE's checkpoint of
  -- the miner's own last round if that is due, and ORE's claim to the manager's own address if there
  -- are rewards. On the accounts as the settlement leaves them, it deploys the result of the stored
  -- strategy within the limits, and pays the fees only if the miner had no deployment in the round
  -- before the settlement. If the result needs an automation it opens one, deploys each batch in the
  -- round that is then current, and closes it exactly if its account still has data after them; else
  -- it deploys the first batch in the round that is then current.
  pub mm_strat_full_autodeploy-calls :
      {t : Tx}
      → process_mm_strat_full_autodeploy rt accounts auth_id args s ≡ ok (tt, t)
      → let d = strat_deployer_at s accounts.strat_deployer.key in
        let miner = miner_at rt reads s ore_miner.key in
        IsStratAuthorized rt accounts auth_id d
        × (s.slot < (board_at s board.key).end_slot)
        × ((settled : Tx) × IsSettled rt reads managed_miner_auth ore_miner
              (found_seeds rt accounts.manager.key auth_id)
              s
              settled
            × ((result : StrategyResult) × (dispatch_strategy d.strategy_type d.strategy_data
                    args.amount args.squares_mask args.extra
                    (board_at settled board.key)
                    (round_at settled round.key)
                    (record { slot = s.slot })
                  ≡ ok result)
                × IsWithinLimits rt accounts reads d (board_at settled board.key) result settled
                × IsSpent rt accounts d result auth_id
                    (not (miner.round_id == (board_at s board.key).round_id))
                    (rent_of_miner rt settled ore_miner.key)
                    settled
                    t))
  unfolding process_mm_strat_full_autodeploy deploy_strat_settled
  mm_strat_full_autodeploy-calls {t} h =
      let d = strat_deployer_at s accounts.strat_deployer.key in
      let b = board_at s board.key in
      let ((sig, col), g1) =
        read-ok {P = (signer.is_signer ≡ true) × (accounts.fee_collector.key ≡ rt.fee_collector)}
          (check_programs rt signer accounts.fee_collector accounts.ore_program
            accounts.entropy_program accounts.system_program)
          tt _ s
          (λ u _ e.
            check_programs-ok rt s signer accounts.fee_collector accounts.ore_program
              accounts.entropy_program accounts.system_program {u = u} e)
          h in
      let (own, g2) =
        read-ok
          {P = (strategy_deployer_pda rt accounts.manager.key).0 ≡ accounts.strat_deployer.key}
          (load_strat rt accounts) d _ s (λ _ _ e. load_strat-ok rt s reads accounts e) g1 in
      let (terms, g3) =
        read-ok {P = IsWithinTerms signer d} (check_terms rt signer d) tt _ s
          (λ u _ e. check_terms-ok rt s signer d {u = u} e) g2 in
      let (auth, h1) =
        read-ok
          {P = (managed_miner_auth_pda rt accounts.manager.key auth_id).0 ≡ managed_miner_auth.key}
          (check_managed_miner_auth rt accounts.manager managed_miner_auth auth_id) tt _ s
          (λ u _ e.
            check_managed_miner_auth-ok rt s accounts.manager managed_miner_auth auth_id {u = u} e)
          g3 in
      let (_, h5) =
        load-ok s rt reads rt.ore_id board_discriminator board_size board_of_bytes board _ h1 in
      let (live, h6) = reject_if-ok (leb b.end_slot s.slot) (evore end_slot_reached) _ s h5 in
      let (_, h7) =
        load-ok s rt reads rt.ore_id round_discriminator round_size round_of_bytes round _ h6 in
      let (already, s1, e, h8) =
        >>=-ok
          (settle_miner rt managed_miner_auth ore_miner b
            (found_seeds rt accounts.manager.key auth_id))
          _ s h7 in
      let (ea, settles) = settle_miner-ok rt reads managed_miner_auth ore_miner _ s b e in
      let b1 = board_at s1 board.key in
      let (result, dispatched, h9) =
        lift-ok
          (dispatch_strategy d.strategy_type d.strategy_data args.amount args.squares_mask
            args.extra b1 (round_at s1 round.key) (record { slot = s.slot }))
          _ s1 h8 in
      let (limits, h10) =
        read-ok {P = IsWithinLimits rt accounts reads d b1 result s1}
          (check_limits rt accounts d b1 result) (rent_of_miner rt s1 ore_miner.key) _ s1
          (λ _ _ e. check_limits-ok rt accounts reads d b1 result s1 e) h9 in
      (
        record {
          signed = sig;
          collector = col;
          terms = terms;
          strat_address = own;
          auth_address = auth;
        },
        before s.slot b.end_slot live,
        (
          s1,
          settles,
          (
            result,
            dispatched,
            limits,
            rw (← ea) (
                pay_and_deploy-IsSpent rt accounts auth_id d result already
                  (rent_of_miner rt s1 ore_miner.key) s1 h10),
          ),
        ),
      )
    where
      before : (slot end : ℕ) → leb end slot ≡ false → slot < end
      before slot end h = ground arith
