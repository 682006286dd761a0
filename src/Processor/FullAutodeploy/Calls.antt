-- ===== src/Processor/FullAutodeploy/Calls.antt =====
-- What a full autodeploy that succeeds has checked, and the calls it makes.
use evore_program.Prelude.{
  ℕ, ◌≤◌, ◌<◌, ◌≡◌, ◌⊎◌, ◌∙◌, refl, ap, arith, false, not, [], ◌∷◌, ◌++◌, leb, ltb, ◌==◌, sat_mul64,
  sat_add64, append_assoc,
}
use evore_program.Error.{
  evore, end_slot_reached, no_deployments, insufficient_autodeploy_balance, ok,
}
use evore_program.OreApi.{
  board_of_bytes, board_size, board_discriminator, round_of_bytes, round_size, round_discriminator,
}
use evore_program.Runtime.{AccountInfo, Runtime, AsAccountReads, Tx, invoke, ore_deploy}
use evore_program.Runtime.Chain.{reject_if-ok, reject_if-end, >>=-ok, read-ok, call-ok}
use evore_program.StrategyDispatch.{squares_of_mask}
use evore_program.MmDeploy.Batch.{count_squares}
use evore_program.Processor.Fees.{deployer_fee, required_balance}
use evore_program.Processor.Reads.{deployer_at, load-ok}
use evore_program.Processor.Rounds.{check_max_per_round, pay_fees}
use evore_program.Processor.Rounds.Reads.{
  miner_at, board_at, round_at, rent_of_miner, amount_this_round, check_max_per_round-ok,
}
use evore_program.Processor.Rounds.Fees.{fee_calls, pay_fees-calls}
use evore_program.Processor.Autodeploy.{AutodeployAccounts, check_accounts}
use evore_program.Processor.Autodeploy.Authorized.{IsAuthorized, check_accounts-IsAuthorized}
use evore_program.Processor.StratAutodeploy.{found_seeds}
use evore_program.Processor.FullAutodeploy.{
  settle_miner, require_deploy_balance, process_mm_full_autodeploy, deploy_settled,
}
use evore_program.Processor.FullAutodeploy.Settles.{IsSettled, settle_miner-ok}

module _ (rt : Runtime) (s : Tx) where
  require_deploy_balance-ok :
      (ore_miner auth : AccountInfo) (total fee : ℕ) {u : Unit {0}} {t : Tx}
      → require_deploy_balance rt ore_miner auth total fee s ≡ ok (u, t)
      → (u ≡ tt)
        × (t ≡ s)
        × (required_balance total (rent_of_miner rt s ore_miner.key) fee
            ≤ (s.ledger auth.key).lamports)
  unfolding require_deploy_balance
  require_deploy_balance-ok ore_miner auth total fee h =
      let required = required_balance total (rent_of_miner rt s ore_miner.key) fee in
      let (c, e) =
        reject_if-end (ltb (s.ledger auth.key).lamports required)
          (evore insufficient_autodeploy_balance) s h in
      (refl, e, enough (s.ledger auth.key).lamports required c)
    where
      enough : (balance required : ℕ) → ltb balance required ≡ false → required ≤ balance
      enough balance required h = ground arith

module _ (rt : Runtime) (reads : AsAccountReads rt) (accounts : AutodeployAccounts)
    (auth_id amount squares_mask : ℕ) (s : Tx) where
  open accounts use {deployer, managed_miner_auth, ore_miner, board, round}

  abbrev pub full_total : ℕ
  full_total = sat_mul64 amount (count_squares (squares_of_mask squares_mask 25 0))

  abbrev pub full_fee : ℕ
  full_fee =
      deployer_fee full_total (deployer_at s deployer.key).bps_fee
        (deployer_at s deployer.key).flat_fee

  -- With a runtime that reads accounts as steel does: a full autodeploy that succeeds was authorized,
  -- came before the end of the round and deploys something. It first settles the miner: ORE's
  -- checkpoint of the miner's own last round if that is due, and ORE's claim to the manager's own
  -- address if there are rewards. On the accounts as the settlement leaves them, it keeps within the
  -- deployer's limit for the round (if it sets one) and finds the required balance at that address.
  -- After the settlement it pays the fees, only if the miner had no deployment in the round before
  -- it, and makes one deployment of the amount on the mask's squares, in the round that is current
  -- after the fees.
  pub mm_full_autodeploy-calls :
      {t : Tx}
      → process_mm_full_autodeploy rt accounts auth_id amount squares_mask s ≡ ok (tt, t)
      → let d = deployer_at s deployer.key in
        let miner = miner_at rt reads s ore_miner.key in
        let seeds = found_seeds rt accounts.manager.key auth_id in
        IsAuthorized rt reads accounts s auth_id d
        × (s.slot < (board_at s board.key).end_slot)
        × (0 < full_total)
        × ((settled paid : Tx) × IsSettled rt reads managed_miner_auth ore_miner seeds s settled
            × ((d.max_per_round ≡ 0)
                ⊎ (sat_add64
                      (amount_this_round rt reads settled ore_miner.key
                        (board_at settled board.key))
                      full_total
                    ≤ d.max_per_round))
            × (required_balance full_total (rent_of_miner rt settled ore_miner.key) full_fee
                ≤ (settled.ledger managed_miner_auth.key).lamports)
            × (pay_fees rt managed_miner_auth.key accounts.fee_collector.key accounts.signer.key
                  seeds
                  (not (miner.round_id == (board_at s board.key).round_id))
                  full_fee
                  settled
                ≡ ok (tt, paid))
            × (invoke rt
                  (ore_deploy managed_miner_auth.key amount
                    (round_at paid round.key).id
                    (squares_of_mask squares_mask 25 0))
                  seeds
                  paid
                ≡ ok (tt, t))
            × (t.calls
                ≡ settled.calls
                  ++ (fee_calls managed_miner_auth.key accounts.fee_collector.key
                        accounts.signer.key
                        (not (miner.round_id == (board_at s board.key).round_id))
                        full_fee
                      ++ ore_deploy managed_miner_auth.key amount
                          (round_at paid round.key).id
                          (squares_of_mask squares_mask 25 0)
                        ∷ [])))
  unfolding process_mm_full_autodeploy deploy_settled
  mm_full_autodeploy-calls {t} h =
      let d = deployer_at s deployer.key in
      let b = board_at s board.key in
      let squares = squares_of_mask squares_mask 25 0 in
      let (authorized, h1) =
        read-ok (check_accounts rt accounts auth_id) d _ s
          (λ _ _ e. check_accounts-IsAuthorized rt reads accounts s auth_id e) h in
      let (_, h2) =
        load-ok s rt reads rt.ore_id round_discriminator round_size round_of_bytes round _ h1 in
      let (_, h3) =
        load-ok s rt reads rt.ore_id board_discriminator board_size board_of_bytes board _ h2 in
      let (live, h4) = reject_if-ok (leb b.end_slot s.slot) (evore end_slot_reached) _ s h3 in
      let (already, s1, e, h5) =
        >>=-ok
          (settle_miner rt managed_miner_auth ore_miner b
            (found_seeds rt accounts.manager.key auth_id))
          _ s h4 in
      let (ea, settles) = settle_miner-ok rt reads managed_miner_auth ore_miner _ s b e in
      let (_, h6) = reject_if-ok (count_squares squares == 0) (evore no_deployments) _ s1 h5 in
      let (some_stake, h7) = reject_if-ok (full_total == 0) (evore no_deployments) _ s1 h6 in
      let b1 = board_at s1 board.key in
      let (limited, h8) =
        read-ok (check_max_per_round rt d.max_per_round full_total ore_miner b1) tt _ s1
          (λ _ _ e.
            let (l, es) =
              check_max_per_round-ok rt reads s1 d.max_per_round full_total ore_miner b1 e in
            (refl, es, l))
          h7 in
      let (funded, h9) =
        read-ok
          {P = required_balance full_total (rent_of_miner rt s1 ore_miner.key) full_fee
            ≤ (s1.ledger managed_miner_auth.key).lamports}
          (require_deploy_balance rt ore_miner managed_miner_auth full_total full_fee) tt _ s1
          (λ u _ e.
            require_deploy_balance-ok rt s1 ore_miner managed_miner_auth full_total full_fee {u = u}
              e)
          h8 in
      let (_, s2, paid, h10) =
        >>=-ok
          (pay_fees rt managed_miner_auth.key accounts.fee_collector.key accounts.signer.key
            (found_seeds rt accounts.manager.key auth_id) (not already) full_fee)
          _ s1 h9 in
      let id = (round_at s2 round.key).id in
      let (_, _, e2) = call-ok rt (ore_deploy managed_miner_auth.key amount id squares) _ s2 h10 in
      (
        authorized,
        before s.slot b.end_slot live,
        positive full_total some_stake,
        (
          s1,
          s2,
          settles,
          limited,
          funded,
          rw (← ea) paid,
          h10,
          rw (← ea) (
              ap (λ u. u.calls) e2
              ∙ ap (λ c. c ++ ore_deploy managed_miner_auth.key amount id squares ∷ [])
                  (pay_fees-calls rt managed_miner_auth.key accounts.fee_collector.key
                    accounts.signer.key _ (not already) full_fee s1 paid)
              ∙ append_assoc s1.calls _ _),
        ),
      )
    where
      before : (slot end : ℕ) → leb end slot ≡ false → slot < end
      before slot end h = ground arith

      positive : (n : ℕ) → n == 0 ≡ false → 0 < n
      positive n h = ground arith
