-- ===== src/MmDeploy/Allocation/Bets.antt =====
-- What a single accepted bet satisfies.
use evore_program.Prelude.{
  ℕ, ◌+◌, ◌-◌, ◌/◌, ◌%◌, ◌≤◌, ◌<◌, ◌≡◌, arith, true, Option, none, some, ℤ, pos, ◌<ℤ◌, ltb_ℤ, ap,
  not, ◌==◌, get_or, min,
}
use evore_program.MmDeploy.Profit.{snap_down_u64, profit_fraction_fixed_s, optimal_x_for_lambda}
use evore_program.MmDeploy.Allocation.{
  Allocation, Inputs, fit_stake, cap_left_for_square, stake, ev_contribution, meets_margin, bet,
}
use evore_program.Prelude.Options.{>>=-eq-some, guard-eq-some}
use native.Mathlib.Nat.{div-mul-le_self, mul-mod_left}

-- What is snapped is at most the amount, a multiple of the tick, and 0 or at least the least bet.
pub record IsSnapped (amount min_bet tick a : ℕ) : Type 0 where
  pub within : a ≤ amount
  pub on_tick : 0 < tick → a % tick ≡ 0
  pub enough : 0 < a → min_bet ≤ a

snap-IsSnapped :
    (amount min_bet tick : ℕ) → IsSnapped amount min_bet tick (snap_down_u64 amount min_bet tick)
unfolding snap_down_u64
snap-IsSnapped amount min_bet tick =
    ground (arith, div-mul-le_self amount tick, mul-mod_left (amount / tick) tick)

module _ (inputs : Inputs) where
  open inputs use {t, total_sum, bankroll, min_bet, tick_size, ore, max_per_square, lambda}

  -- The stake on a square that already holds `already`, when `spent` is gone from the bankroll.
  pub record IsStake (ti already spent x : ℕ) : Type 0 where
    pub positive : 0 < x
    pub least : min_bet ≤ x
    pub affordable : x ≤ bankroll - spent
    pub capped : 0 < max_per_square → x + already ≤ max_per_square
    pub on_tick : 0 < tick_size → x % tick_size ≡ 0
    pub below_optimum : x ≤ optimal_x_for_lambda total_sum ti ore lambda

  record Fits (cap_left y spent x : ℕ) : Type 0 where
    positive : 0 < x
    least : min_bet ≤ x
    affordable : x ≤ bankroll - spent
    capped : x ≤ cap_left
    on_tick : 0 < tick_size → x % tick_size ≡ 0
    below : x ≤ y

  fit_stake-Fits :
      (cap_left y spent : ℕ) {x : ℕ}
      → fit_stake inputs cap_left y spent ≡ some x
      → Fits cap_left y spent x
  unfolding fit_stake
  fit_stake-Fits cap_left y spent h =
      ground (arith, snap-IsSnapped (min (min y (bankroll - spent)) cap_left) min_bet tick_size)

  cap_left-le :
      (already : ℕ) {cap : ℕ}
      → cap_left_for_square inputs already ≡ some cap
      → 0 < max_per_square
      → cap + already ≤ max_per_square
  unfolding cap_left_for_square
  cap_left-le already h m = ground arith

  stake-IsStake :
      (ti already spent : ℕ) {x : ℕ}
      → stake inputs ti already spent ≡ some x
      → IsStake ti already spent x
  unfolding stake
  stake-IsStake ti already spent h =
      let best = optimal_x_for_lambda total_sum ti ore lambda in
      let (cap, e, fits) =
        >>=-eq-some (cap_left_for_square inputs already) (λ c. fit_stake inputs c best spent) h in
      let f = fit_stake-Fits cap best spent fits in
      let room = cap_left-le already e in
      record {
        positive = f.positive;
        least = f.least;
        affordable = f.affordable;
        capped = λ m. omega (arith, room m, f.capped);
        on_tick = f.on_tick;
        below_optimum = f.below;
      }

  -- The stake has a positive expected profit, with the required margin.
  pub record IsProfitable (ti x : ℕ) : Type 0 where
    pub gains : pos 0 <ℤ (profit_fraction_fixed_s total_sum ti x ore).0
    pub margin :
        let (n, d) = profit_fraction_fixed_s total_sum ti x ore in meets_margin inputs n d x ≡ true

  pos-ltb : (n : ℤ) → ltb_ℤ (pos 0) n ≡ true → pos 0 <ℤ n
  pos-ltb n h = ground arith

  ev_contribution-IsProfitable :
      (ti x : ℕ) {ev : ℤ} → ev_contribution inputs ti x ≡ some ev → IsProfitable ti x
  unfolding ev_contribution
  ev_contribution-IsProfitable ti x h =
      let (gains, h') = guard-eq-some _ _ h in
      let (margin, _) = guard-eq-some _ _ h' in record { gains = pos-ltb _ gains; margin = margin }

  not-zero : (n : ℕ) → not (n == 0) ≡ true → 0 < n
  not-zero n h = ground arith

  -- What holds of an accepted bet of x on square i.
  pub bet-IsStake :
      (i : ℕ) (a : Allocation) {x : ℕ} {ev : ℤ}
      → bet inputs i a ≡ some (x, ev)
      → IsStake (get_or t i 0) (get_or a.per_square i 0) a.spent x
        × IsProfitable (get_or t i 0) x
        × (0 < get_or t i 0)
  unfolding bet
  bet-IsStake i a h =
      let ti = get_or t i 0 in
      let (busy, h1) = guard-eq-some _ _ h in
      let (y, e1, h2) = >>=-eq-some (stake inputs ti (get_or a.per_square i 0) a.spent) _ h1 in
      let (ev', e2, h3) = >>=-eq-some (ev_contribution inputs ti y) _ h2 in
      let same = ap {B = ℕ} (λ (p : Option (ℕ × ℤ)). elim p [ none ↦ 0 | some q ↦ q.0 ]) h3 in
      rw (← same) (
        stake-IsStake ti (get_or a.per_square i 0) a.spent e1,
        ev_contribution-IsProfitable ti y e2,
        not-zero ti busy,
      )
