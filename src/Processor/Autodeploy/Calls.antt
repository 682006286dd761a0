-- ===== src/Processor/Autodeploy/Calls.antt =====
-- What an autodeploy that succeeds has checked, and the calls it makes.
use evore_program.Prelude.{
  ℕ, ◌≤◌, ◌<◌, ◌≡◌, ◌⊎◌, ◌∙◌, refl, arith, Bool, false, [], ◌∷◌, ◌++◌, not, ltb, leb, drop, ◌==◌,
  sat_mul64, sat_add64, append_assoc, ap,
}
use evore_program.Error.{
  evore, end_slot_reached, no_deployments, insufficient_autodeploy_balance, ok,
}
use evore_program.OreApi.{
  board_of_bytes, board_size, board_discriminator, round_of_bytes, round_size, round_discriminator,
}
use evore_program.Runtime.{Runtime, AsAccountReads, Tx, ore_deploy}
use evore_program.Runtime.Chain.{reject_if-ok, >>=-ok, read-ok, call-ok}
use evore_program.State.{Deployer}
use evore_program.StrategyDispatch.{squares_of_mask}
use evore_program.MmDeploy.Batch.{count_squares}
use evore_program.Processor.Fees.{deployer_fee, required_balance}
use evore_program.Processor.Reads.{deployer_at, load-ok}
use evore_program.Processor.Autodeploy.{AutodeployAccounts, check_accounts, process_mm_autodeploy}
use evore_program.Processor.Rounds.{check_max_per_round, pay_fees, is_already_deployed}
use evore_program.Processor.Rounds.Reads.{
  amount_this_round, is_deployed, is_already_deployed-ok, check_max_per_round-ok, board_at,
  rent_of_miner,
}
use evore_program.Processor.Rounds.Fees.{fee_calls, pay_fees-calls}
use evore_program.Processor.Autodeploy.Authorized.{IsAuthorized, check_accounts-IsAuthorized}

positive : (n : ℕ) → n == 0 ≡ false → 0 < n
positive n h = ground arith

before : (slot end : ℕ) → leb end slot ≡ false → slot < end
before slot end h = ground arith

enough : (balance required : ℕ) → ltb balance required ≡ false → required ≤ balance
enough balance required h = ground arith

module _ (rt : Runtime) (reads : AsAccountReads rt) (accounts : AutodeployAccounts)
    (auth_id amount squares_mask : ℕ) (s : Tx) where
  open accounts use {deployer, managed_miner_auth, ore_miner, board}

  abbrev pub total_to_deploy : ℕ
  total_to_deploy = sat_mul64 amount (count_squares (squares_of_mask squares_mask 25 0))

  abbrev the_deployer : Deployer
  the_deployer = deployer_at s deployer.key

  abbrev pub fee : ℕ
  fee = deployer_fee total_to_deploy the_deployer.bps_fee the_deployer.flat_fee

  abbrev pub first : Bool
  first = not (is_deployed rt reads s ore_miner.key (board_at s board.key))

  -- With a runtime that reads accounts as steel does: an autodeploy that succeeds was authorized, came
  -- before the end of the round, deploys something, keeps within the deployer's limit for the round
  -- (if it sets one), finds the whole required balance at the manager's own address, and makes
  -- exactly these calls: the fees, if it is the miner's first deployment in the round, and then one deployment of the amount on the mask's squares.
  pub mm_autodeploy-calls :
      {t : Tx}
      → process_mm_autodeploy rt accounts auth_id amount squares_mask s ≡ ok (tt, t)
      → IsAuthorized rt reads accounts s auth_id the_deployer
        × (s.slot < (board_at s board.key).end_slot)
        × (0 < total_to_deploy)
        × ((the_deployer.max_per_round ≡ 0)
            ⊎ (sat_add64
                  (amount_this_round rt reads s ore_miner.key (board_at s board.key))
                  total_to_deploy
                ≤ the_deployer.max_per_round))
        × (required_balance total_to_deploy (rent_of_miner rt s ore_miner.key) fee
            ≤ (s.ledger managed_miner_auth.key).lamports)
        × ((round_id : ℕ) × (t.calls
              ≡ s.calls
                ++ (fee_calls managed_miner_auth.key accounts.fee_collector.key accounts.signer.key
                      first fee
                    ++ ore_deploy managed_miner_auth.key amount round_id
                        (squares_of_mask squares_mask 25 0)
                      ∷ [])))
  unfolding process_mm_autodeploy
  mm_autodeploy-calls {t} h =
      let b = board_at s board.key in
      let (authorized, h1) =
        read-ok (check_accounts rt accounts auth_id) the_deployer _ s
          (λ _ _ e. check_accounts-IsAuthorized rt reads accounts s auth_id e) h in
      let (_, h2) =
        load-ok s rt reads rt.ore_id board_discriminator board_size board_of_bytes board _ h1 in
      let (live, h3) = reject_if-ok (leb b.end_slot s.slot) (evore end_slot_reached) _ s h2 in
      let (_, h4) =
        reject_if-ok (count_squares (squares_of_mask squares_mask 25 0) == 0) (evore no_deployments)
          _ s h3 in
      let (some_stake, h5) = reject_if-ok (total_to_deploy == 0) (evore no_deployments) _ s h4 in
      let (limited, h6) =
        read-ok (check_max_per_round rt the_deployer.max_per_round total_to_deploy ore_miner b) tt _
          s
          (λ _ _ e.
            let (l, es) =
              check_max_per_round-ok rt reads s the_deployer.max_per_round total_to_deploy ore_miner
                b e in
            (refl, es, l))
          h5 in
      let (funded, h7) =
        reject_if-ok
          (ltb (s.ledger managed_miner_auth.key).lamports
            (required_balance total_to_deploy (rent_of_miner rt s ore_miner.key) fee))
          (evore insufficient_autodeploy_balance) _ s h6 in
      let (_, h8) =
        read-ok {P = Unit {0}} (is_already_deployed rt ore_miner b)
          (is_deployed rt reads s ore_miner.key b) _ s
          (λ _ _ e. let (eb, es) = is_already_deployed-ok rt reads s ore_miner b e in (eb, es, tt))
          h7 in
      let (_, s1, paid, h9) =
        >>=-ok
          (pay_fees rt managed_miner_auth.key accounts.fee_collector.key accounts.signer.key _ first
            fee)
          _ s h8 in
      let (_, h10) =
        load-ok s1 rt reads rt.ore_id round_discriminator round_size round_of_bytes accounts.round _
          h9 in
      let round_id = (round_of_bytes (drop 8 (s1.ledger accounts.round.key).bytes)).id in
      let deployed =
        ore_deploy managed_miner_auth.key amount round_id (squares_of_mask squares_mask 25 0) in
      let (_, _, e) = call-ok rt deployed _ s1 h10 in
      (
        authorized,
        before s.slot b.end_slot live,
        positive total_to_deploy some_stake,
        limited,
        enough (s.ledger managed_miner_auth.key).lamports _ funded,
        (
          round_id,
          ap (λ u. u.calls) e
              ∙ ap (λ c. c ++ deployed ∷ [])
                  (pay_fees-calls rt managed_miner_auth.key accounts.fee_collector.key
                    accounts.signer.key _ first fee s paid)
              ∙ append_assoc s.calls _ _,
        ),
      )
