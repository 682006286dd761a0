-- ===== src/MmDeploy/Percentage/Within.antt =====
-- The percentage strategy spends what it reports, and no more than the bankroll.
use evore_program.Prelude.{
  ℕ, zero, suc, ◌+◌, ◌-◌, ◌*◌, ◌/◌, ◌≤◌, ◌<◌, ◌≡◌, refl, ap, arith, min, List, [], ◌∷◌, get_or, ltb,
  ◌==◌, ◌||◌, u64_max, sat_add64, Bool-cases, inl, inr, false,
}
use evore_program.MmDeploy.Batch.Cost.{total_cost, AllPositive, single-cost}
use evore_program.MmDeploy.Percentage.{
  scan_targets, affordable_percentage, share_amount, share_batches,
  calculate_percentage_deployments, is_out_of_range, is_empty,
}
use Prim.Native.Nat.{zero-le}
use native.Mathlib.Nat.{
  div-mul-le_self, le-div_iff_mul-le, div-lt_iff_lt-mul, le_trans, mul-le-mul_right,
  lt_of_mul-lt-mul_right,
}

module _ (deployed : List ℕ) where
  -- The lamports on the listed squares.
  abbrev pub on_squares : List ℕ → ℕ
  on_squares [] = 0
  on_squares (i ∷ indices) = get_or deployed i 0 + on_squares indices

  abbrev OnBoard : List ℕ → Type 0
  OnBoard [] = Unit {0}
  OnBoard (i ∷ indices) = (i < 25) × OnBoard indices

  scan_targets-OnBoard :
      (rounds i : ℕ)
      → i + rounds ≤ 25
      → (on_squares (scan_targets deployed rounds i).1 ≡ (scan_targets deployed rounds i).0)
        × OnBoard (scan_targets deployed rounds i).1
  unfolding scan_targets
  scan_targets-OnBoard zero i h = (refl, tt)
  scan_targets-OnBoard (suc rounds) i h = ground (arith, scan_targets-OnBoard rounds (suc i))

  -- The sum of the shares of the listed squares.
  abbrev shares : ℕ → List ℕ → ℕ
  shares p [] = 0
  shares p (i ∷ indices) = share_amount p (get_or deployed i 0) + shares p indices

  -- Rounding down, the shares come to at most p / (10000 - p) of the lamports there.
  shares-le : (p : ℕ) (indices : List ℕ) → shares p indices * (10000 - p) ≤ p * on_squares indices
  unfolding share_amount
  shares-le p [] = omega arith
  shares-le p (i ∷ indices) =
      omega (arith, share_amount-le p (get_or deployed i 0), shares-le p indices)
    where
      cut : (n : ℕ) → min n u64_max ≤ n
      cut n = omega arith

      share_amount-le : (p t : ℕ) → share_amount p t * (10000 - p) ≤ p * t
      share_amount-le p t =
          le_trans (mul-le-mul_right (10000 - p) (cut (p * t / (10000 - p))))
            (div-mul-le_self (p * t) (10000 - p))

  share_batches-cost :
      (p : ℕ) (indices : List ℕ) (spent : ℕ)
      → OnBoard indices
      → spent + shares p indices ≤ u64_max
      → (total_cost (share_batches p deployed indices spent).0 ≡ shares p indices)
        × ((share_batches p deployed indices spent).1 ≡ spent + shares p indices)
        × AllPositive (share_batches p deployed indices spent).0
  unfolding share_batches sat_add64
  share_batches-cost p [] spent on h = (refl, omega arith, tt)
  share_batches-cost p (i ∷ indices) spent on h =
      let a = share_amount p (get_or deployed i 0) in
      ground (
        arith,
        single-cost a i,
        share_batches-cost p indices (min (spent + a) u64_max),
        share_batches-cost p indices spent,
      )

-- The percentage chosen is at most the one asked for, and its cost rounds to at most the bankroll.
affordable_percentage-cost :
    (percentage bankroll total : ℕ)
    → percentage < 10000
    → 0 < total
    → let p = affordable_percentage percentage bankroll total in
      (p ≤ percentage) × (p * total < (bankroll + 1) * (10000 - p))
unfolding affordable_percentage
affordable_percentage-cost percentage bankroll total lt pos =
    elim (Bool-cases (ltb bankroll (percentage * total / (10000 - percentage)))) [
      | inl dear ↦ rw dear (omega arith, reduced)
      | inr cheap ↦ rw cheap (omega arith, requested cheap)
    ]
  where
    room : 0 < 10000 - percentage
    room = omega arith

    requested :
        ltb bankroll (percentage * total / (10000 - percentage)) ≡ false
        → percentage * total < (bankroll + 1) * (10000 - percentage)
    requested cheap = (div-lt_iff_lt-mul room).0 (ground arith)

    reduced :
        let p = min (10000 * bankroll / (total + bankroll)) percentage in
        p * total < (bankroll + 1) * (10000 - p)
    reduced =
        let p = min (10000 * bankroll / (total + bankroll)) percentage in
        let some : 0 < total + bankroll = omega arith in
        let fits : p * (total + bankroll) ≤ 10000 * bankroll =
          (le-div_iff_mul-le some).0 (omega arith) in
        let split : (bankroll + 1) * (10000 - p + p) ≡ (bankroll + 1) * 10000 =
          ap (λ t. (bankroll + 1) * t) (omega arith) in
        let left : 0 < 10000 - p = omega arith in omega (arith, fits, split, left)

module _ (deployed : List ℕ) (bankroll percentage squares_count : ℕ)
    (fits : bankroll ≤ u64_max) where
  -- What the placing step returns for the percentage chosen.
  placed-Within :
      (total : ℕ) (indices : List ℕ)
      → percentage < 10000
      → 0 < total
      → (on_squares deployed indices ≡ total) × OnBoard deployed indices
      → let p = affordable_percentage percentage bankroll total in
        let (batches, spent) = share_batches p deployed indices 0 in
        (total_cost batches ≡ spent) × (spent ≤ bankroll) × AllPositive batches
  placed-Within total indices lt pos (e, on) =
      let p = affordable_percentage percentage bankroll total in
      let (le, cost) = affordable_percentage-cost percentage bankroll total lt pos in
      let room : 0 < 10000 - p = omega (arith, le) in
      let part : shares deployed p indices * (10000 - p) ≤ p * total =
        rw e at (shares-le deployed p indices) in
      let below : shares deployed p indices < bankroll + 1 =
        lt_of_mul-lt-mul_right (10000 - p) (omega (arith, part, cost)) in
      let (c, s, a) = share_batches-cost deployed p indices 0 on (omega (arith, below)) in
      (omega (arith, c, s), omega (arith, s, below), a)

  -- For a bankroll that fits a u64, whatever the board and the arguments, the batches cost exactly
  -- the reported total, that is at most the bankroll, and every batch deploys something.
  pub calculate_percentage-within :
      let (batches, total) =
        calculate_percentage_deployments deployed bankroll percentage squares_count in
      (total_cost batches ≡ total) × (total ≤ bankroll) × AllPositive batches
  unfolding calculate_percentage_deployments
  calculate_percentage-within =
      let scan = scan_targets deployed (min squares_count 25) 0 in
      let p = affordable_percentage percentage bankroll scan.0 in
      elim (Bool-cases (is_out_of_range bankroll percentage squares_count)) [
        | inl out ↦ rw out (refl, zero-le, tt)
        | inr valid ↦ rw valid (elim (Bool-cases (is_empty scan.1 || scan.0 == 0)) [
          | inl none_there ↦ rw none_there (refl, zero-le, tt)
          | inr some_there ↦ rw some_there (elim (Bool-cases (p == 0)) [
            | inl nothing ↦ rw nothing (refl, zero-le, tt)
            | inr something ↦ rw something (
                placed-Within scan.0 scan.1 (ground arith) (ground arith)
                  (scan_targets-OnBoard deployed (min squares_count 25) 0 (omega arith)))
          ])
        ])
      ]
