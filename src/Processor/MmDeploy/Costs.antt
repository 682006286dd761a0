-- ===== src/Processor/MmDeploy/Costs.antt =====
-- What the batches of any strategy cost, and what a top-up leaves.
use evore_program.Prelude.{
  ℕ, ◌⊎◌, refl, sym, ap, [], ◌+◌, ◌-◌, ◌≤◌, ◌<◌, ◌≡◌, ◌≢◌, arith, Bool, true, false, Bool-cases,
  inl, inr, List, min, ltb, u64_max, sat_add64,
}
use evore_program.Error.{ok}
use evore_program.OreApi.{checkpoint_fee}
use evore_program.Runtime.{Runtime, Account, TransfersMove, Tx, invoke, transfer}
use evore_program.Runtime.Chain.{call-ok}
use evore_program.Instruction.{DeployStrategy}
use evore_program.Instruction.RoundTrip.{IsStrategy}
use evore_program.MmDeploy.Batch.Cost.{total_cost, AllPositive}
use evore_program.MmDeploy.Calculate.Totals.{
  calculate_split-IsWithin, calculate_manual-cost, calculate_ev-IsWithin,
}
use evore_program.MmDeploy.Percentage.Within.{calculate_percentage-within}
use evore_program.Processor.Fees.{deploy_fee}
use evore_program.Processor.Loads.{when}
use evore_program.Processor.Rounds.Reads.{rent_of_miner}
use evore_program.Processor.MmDeploy.{
  MmDeployAccounts, calculate_deployments, mm_required_balance, automation_rent, mm_deposit, top_up,
}

-- The total is what the batches cost, cut off at the largest u64, and each deploys something.
pub calculate_deployments-cost :
    (strategy : DeployStrategy) (deployed : List ℕ)
    → IsStrategy strategy
    → let (batches, total) = calculate_deployments strategy deployed in
      (total ≡ min (total_cost batches) u64_max) × AllPositive batches
unfolding calculate_deployments
calculate_deployments-cost (DeployStrategy.ev bankroll max_per min_bet ore slots attempts) deployed
      is =
    let (cost, le, pos) =
      calculate_ev-IsWithin deployed bankroll min_bet max_per ore (omega (arith, is.0)) in
    (omega (arith, cost, le, is.0), pos)
calculate_deployments-cost (DeployStrategy.percentage bankroll p n) deployed is =
    let (cost, le, pos) = calculate_percentage-within deployed bankroll p n (omega (arith, is.0)) in
    (omega (arith, cost, le, is.0), pos)
calculate_deployments-cost (DeployStrategy.manual amounts) deployed (len, are) =
    let (cost, total, pos) = calculate_manual-cost amounts (omega (arith, len)) in
    (omega (arith, cost, total), pos)
calculate_deployments-cost (DeployStrategy.split amount) deployed is =
    let (cost, le, pos) = calculate_split-IsWithin deployed amount in
    (omega (arith, cost, le, is.0), pos)

module _ (rt : Runtime) (moves : TransfersMove rt) (accounts : MmDeployAccounts) where
  open accounts use {signer, managed_miner_auth, ore_miner, fee_collector}

  -- The fee of the first deployment leaves the manager's address alone, and takes nothing else.
  pub fee-frame :
      (first : Bool) (s : Tx) {u : Unit {0}} {t : Tx}
      → signer.key ≢ fee_collector.key
      → managed_miner_auth.key ≢ signer.key
      → managed_miner_auth.key ≢ fee_collector.key
      → when first (invoke rt (transfer signer.key fee_collector.key deploy_fee) []) s ≡ ok (u, t)
      → ((t.ledger managed_miner_auth.key).lamports ≡ (s.ledger managed_miner_auth.key).lamports)
        × ((t.ledger signer.key).lamports ≤ (s.ledger signer.key).lamports)
  fee-frame true s {t = t} ne1 ne2 ne3 h =
      let (after, e, et) = call-ok rt (transfer signer.key fee_collector.key deploy_fee) [] s h in
      let (paid, _, frame) =
        moves signer.key fee_collector.key deploy_fee [] s.ledger after ne1 e in
      rw et (
        (
          ap (λ (a : Account). a.lamports) (frame managed_miner_auth.key ne2 ne3),
          omega (arith, paid),
        ))
  fee-frame false s {t = t} ne1 ne2 ne3 h = let e : t ≡ s = cc in rw e ((refl, omega arith))

  -- The top-up leaves the balance that is required, and no more than what both held.
  pub top_up-funds :
      (total : ℕ) (s : Tx) {u : Unit {0}} {t : Tx}
      → managed_miner_auth.key ≢ signer.key
      → top_up rt accounts total s ≡ ok (u, t)
      → (mm_required_balance total (rent_of_miner rt s ore_miner.key) (automation_rent rt)
          ≤ (t.ledger managed_miner_auth.key).lamports)
        × ((t.ledger managed_miner_auth.key).lamports
            ≤ (s.ledger managed_miner_auth.key).lamports + (s.ledger signer.key).lamports)
  unfolding top_up
  top_up-funds total s {t = t} ne h =
      let required =
        mm_required_balance total (rent_of_miner rt s ore_miner.key) (automation_rent rt) in
      let n = required - (s.ledger managed_miner_auth.key).lamports in
      go n required refl (Bool-cases (ltb 0 n)) h
    where
      go :
          (n required : ℕ)
          → n ≡ required - (s.ledger managed_miner_auth.key).lamports
          → (ltb 0 n ≡ true) ⊎ (ltb 0 n ≡ false)
          → when (ltb 0 n) (invoke rt (transfer signer.key managed_miner_auth.key n) []) s
            ≡ ok (tt, t)
          → (required ≤ (t.ledger managed_miner_auth.key).lamports)
            × ((t.ledger managed_miner_auth.key).lamports
                ≤ (s.ledger managed_miner_auth.key).lamports + (s.ledger signer.key).lamports)
      go n required en (inl c) h =
          let (after, e, et) =
            call-ok rt (transfer signer.key managed_miner_auth.key n) [] s (rw c at h) in
          let (paid, received, _) =
            moves signer.key managed_miner_auth.key n [] s.ledger after (λ q. ne (sym q)) e in
          rw et ((omega (arith, en, paid, received), omega (arith, en, paid, received)))
      go n required en (inr c) h =
          let e : t ≡ s = (let h' = rw c at h in cc) in
          let zero_n : n ≡ 0 = nothing n c in rw e ((omega (arith, en, zero_n), omega arith))
        where
          nothing : (n : ℕ) → ltb 0 n ≡ false → n ≡ 0
          nothing n c = ground arith

  -- A balance that is enough, below the largest u64, covers the batches.
  pub deposit-covers :
      (cost total miner_rent lamports : ℕ)
      → lamports < u64_max
      → total ≡ min cost u64_max
      → mm_required_balance total miner_rent (automation_rent rt) ≤ lamports
      → cost + checkpoint_fee + miner_rent ≤ mm_deposit rt lamports
  unfolding mm_required_balance sat_add64
  deposit-covers cost total miner_rent lamports small e funded = omega arith
