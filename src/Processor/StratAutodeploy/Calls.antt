-- ===== src/Processor/StratAutodeploy/Calls.antt =====
-- What a strategy autodeploy that succeeds has checked, and the calls it makes.
use evore_program.Prelude.{ℕ, ◌<◌, ◌≡◌, arith, true, false, not, leb}
use evore_program.Error.{evore, end_slot_reached, ok, Result}
use evore_program.OreApi.{
  Board, board_of_bytes, board_size, board_discriminator, Round, round_of_bytes, round_size,
  round_discriminator,
}
use evore_program.Runtime.{Runtime, AsAccountReads, Tx}
use evore_program.Runtime.Chain.{reject_if-ok, read-ok, lift-ok}
use evore_program.State.{StrategyDeployer, strategy_deployer_pda, managed_miner_auth_pda}
use evore_program.StrategyDispatch.{StrategyResult, dispatch_strategy}
use evore_program.Processor.Reads.{load-ok}
use evore_program.Processor.Rounds.{is_already_deployed}
use evore_program.Processor.Rounds.Reads.{
  is_deployed, is_already_deployed-ok, board_at, round_at, rent_of_miner,
}
use evore_program.Processor.StratDeployer.Terms.{strat_deployer_at}
use evore_program.Processor.StratAutodeploy.{
  StratAccounts, StratArgs, check_programs, load_strat, check_terms, check_managed_miner_auth,
  check_limits, process_mm_strat_autodeploy,
}
use evore_program.Processor.StratAutodeploy.Authorized.{
  IsWithinTerms, check_programs-ok, load_strat-ok, check_terms-ok, check_managed_miner_auth-ok,
}
use evore_program.Processor.StratAutodeploy.Spends.{
  IsSpent, IsWithinLimits, check_limits-ok, pay_and_deploy-IsSpent,
}

-- The signer is the deploy authority of the manager's strategy deployer, within its terms, and the
-- addresses are the manager's own.
pub record IsStratAuthorized (rt : Runtime) (accounts : StratAccounts) (auth_id : ℕ)
    (d : StrategyDeployer) : Type 0 where
  pub signed : accounts.signer.is_signer ≡ true
  pub collector : accounts.fee_collector.key ≡ rt.fee_collector
  pub terms : IsWithinTerms accounts.signer d
  pub strat_address :
      (strategy_deployer_pda rt accounts.manager.key).0 ≡ accounts.strat_deployer.key
  pub auth_address :
      (managed_miner_auth_pda rt accounts.manager.key auth_id).0 ≡ accounts.managed_miner_auth.key

-- What the strategy makes of the arguments on a board and a round.
abbrev pub strategy_result :
    Tx → StrategyDeployer → StratArgs → Board → Round → Result StrategyResult
strategy_result s d args board round =
    dispatch_strategy d.strategy_type d.strategy_data args.amount args.squares_mask args.extra board
      round (record { slot = s.slot })

module _ (rt : Runtime) (reads : AsAccountReads rt) (accounts : StratAccounts) (auth_id : ℕ)
    (args : StratArgs) (s : Tx) where
  open accounts use {signer, managed_miner_auth, ore_miner, board, round}

  -- With a runtime that reads accounts as steel does: a strategy autodeploy that succeeds was
  -- authorized, came before the end of the round, and deploys the result of the strategy stored in
  -- the manager's strategy deployer. It keeps within the deployer's limit for the round (if it sets
  -- one), finds the whole required balance, the automation's rent included, at the manager's own
  -- address, and makes exactly these calls: the fees, if it is the miner's first deployment in the
  -- round, and then the result's deployments. If the result needs an automation these are its
  -- opening, each batch in the round that is then current, and its closing exactly if its account
  -- still has data after them; else they are the first batch in the round that is then current.
  pub mm_strat_autodeploy-calls :
      {t : Tx}
      → process_mm_strat_autodeploy rt accounts auth_id args s ≡ ok (tt, t)
      → let d = strat_deployer_at s accounts.strat_deployer.key in
        IsStratAuthorized rt accounts auth_id d
        × (s.slot < (board_at s board.key).end_slot)
        × ((result : StrategyResult) × (strategy_result s d args
                (board_at s board.key)
                (round_at s round.key)
              ≡ ok result)
            × IsWithinLimits rt accounts reads d (board_at s board.key) result s
            × IsSpent rt accounts d result auth_id
                (not (is_deployed rt reads s ore_miner.key (board_at s board.key)))
                (rent_of_miner rt s ore_miner.key)
                s
                t)
  unfolding process_mm_strat_autodeploy
  mm_strat_autodeploy-calls {t} h =
      let d = strat_deployer_at s accounts.strat_deployer.key in
      let b = board_at s board.key in
      let ((sig, col), h1) =
        read-ok {P = (signer.is_signer ≡ true) × (accounts.fee_collector.key ≡ rt.fee_collector)}
          (check_programs rt signer accounts.fee_collector accounts.ore_program
            accounts.entropy_program accounts.system_program)
          tt _ s
          (λ u _ e.
            check_programs-ok rt s signer accounts.fee_collector accounts.ore_program
              accounts.entropy_program accounts.system_program {u = u} e)
          h in
      let (own, h2) =
        read-ok
          {P = (strategy_deployer_pda rt accounts.manager.key).0 ≡ accounts.strat_deployer.key}
          (load_strat rt accounts) d _ s (λ _ _ e. load_strat-ok rt s reads accounts e) h1 in
      let (_, h3) =
        load-ok s rt reads rt.ore_id board_discriminator board_size board_of_bytes board _ h2 in
      let (live, h4) = reject_if-ok (leb b.end_slot s.slot) (evore end_slot_reached) _ s h3 in
      let (_, h5) =
        load-ok s rt reads rt.ore_id round_discriminator round_size round_of_bytes round _ h4 in
      let (result, dispatched, h6) =
        lift-ok (strategy_result s d args b (round_at s round.key)) _ s h5 in
      let (terms, h7) =
        read-ok {P = IsWithinTerms signer d} (check_terms rt signer d) tt _ s
          (λ u _ e. check_terms-ok rt s signer d {u = u} e) h6 in
      let (auth, h8) =
        read-ok
          {P = (managed_miner_auth_pda rt accounts.manager.key auth_id).0 ≡ managed_miner_auth.key}
          (check_managed_miner_auth rt accounts.manager managed_miner_auth auth_id) tt _ s
          (λ u _ e.
            check_managed_miner_auth-ok rt s accounts.manager managed_miner_auth auth_id {u = u} e)
          h7 in
      let (limits, h9) =
        read-ok {P = IsWithinLimits rt accounts reads d b result s}
          (check_limits rt accounts d b result) (rent_of_miner rt s ore_miner.key) _ s
          (λ _ _ e. check_limits-ok rt accounts reads d b result s e) h8 in
      let (_, h10) =
        read-ok {P = Unit {0}} (is_already_deployed rt ore_miner b)
          (is_deployed rt reads s ore_miner.key b) _ s
          (λ _ _ e. let (eb, es) = is_already_deployed-ok rt reads s ore_miner b e in (eb, es, tt))
          h9 in
      (
        record {
          signed = sig;
          collector = col;
          terms = terms;
          strat_address = own;
          auth_address = auth;
        },
        before s.slot b.end_slot live,
        (
          result,
          dispatched,
          limits,
          pay_and_deploy-IsSpent rt accounts auth_id d result
              (is_deployed rt reads s ore_miner.key b) (rent_of_miner rt s ore_miner.key) s h10,
        ),
      )
    where
      before : (slot end : ℕ) → leb end slot ≡ false → slot < end
      before slot end h = ground arith
