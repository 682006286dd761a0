-- ===== src/MmDeploy/Plan.antt =====
-- `plan_max_profit_waterfill` of program/src/processor/process_mm_deploy.rs: the prefilter of the
-- squares, the pass at lambda = 0, and the search for a larger lambda.
pub mod Budget
use evore_program.Prelude.{
  ℕ, zero, suc, ◌+◌, ◌-◌, ◌/◌, ◌%◌, Bool, true, false, not, ◌&&◌, List, map, sum, ltb, leb, ◌==◌,
  if◌then◌else◌, u64_mod, u64_max, min,
}
use evore_program.MmDeploy.Profit.{dmax_for_square_fixed_s}
use evore_program.MmDeploy.Allocation.{Allocation, Inputs, allocation_for_lambda, no_bets}

-- `sum25_u64`, which wraps in a release build
unfoldable pub sum25_u64 : List ℕ → ℕ
sum25_u64 v = sum v % u64_mod

-- A square that is populated and can take the least bet without a loss at lambda = 0.
unfoldable pub is_active : (total_sum ore min_bet ti : ℕ) → Bool
is_active total_sum ore min_bet ti =
    if ti == 0 then false else not (ltb (dmax_for_square_fixed_s total_sum ti ore) min_bet)

-- `MAX_LAMBDA`, 1 << 40
abbrev pub max_lambda : ℕ
max_lambda = 1099511627776

-- `MAX_LAMBDA_SEARCH_STEPS` and `MAX_BISECT_STEPS`
abbrev pub max_lambda_search_steps : ℕ
max_lambda_search_steps = 40

abbrev pub max_bisect_steps : ℕ
max_bisect_steps = 40

abbrev pub Search : Type 0
Search = ℕ × ℕ × Allocation

module _ (bankroll : ℕ) (allocate : ℕ → Allocation) where
  -- Doubles `lambda_hi` until the pass spends no more than the bankroll.
  unfoldable pub exponential_search : (rounds lo hi : ℕ) → Allocation → Search
  exponential_search zero lo hi alloc_hi = (lo, hi, alloc_hi)
  exponential_search (suc rounds) lo hi alloc_hi =
      let alloc = allocate hi in
      let doubled = min (hi + hi) u64_max in
      let rest = exponential_search rounds hi doubled alloc_hi in
      if leb alloc.spent bankroll
      then (lo, hi, alloc)
      else (if leb max_lambda doubled then (hi, max_lambda, alloc) else rest)

  unfoldable pub bisect : (rounds lo hi : ℕ) → Allocation → Allocation
  bisect zero lo hi best = best
  bisect (suc rounds) lo hi best =
      let mid = lo + (hi - lo) / 2 in
      let alloc_mid = allocate mid in
      let up = bisect rounds mid hi best in
      let down = bisect rounds lo mid alloc_mid in
      if leb hi (lo + 1) then best else (if ltb bankroll alloc_mid.spent then up else down)

  -- From `alloc_zero` on.
  unfoldable pub search_lambda : Allocation → Allocation
  search_lambda alloc_zero =
      if leb alloc_zero.spent bankroll
      then alloc_zero
      else (let (lo, hi, alloc_hi) = exponential_search max_lambda_search_steps 0 1 alloc_zero in
          if ltb bankroll alloc_hi.spent then alloc_hi else bisect max_bisect_steps lo hi alloc_hi)

module _ (t : List ℕ) (bankroll min_bet tick_size margin_ppm ore max_per_square : ℕ) where
  -- The arguments of the calls of `allocation_for_lambda`.
  abbrev pub inputs_at : ℕ → Inputs
  inputs_at lambda = record {
    t = t;
    active = map (is_active (sum25_u64 t) ore min_bet) t;
    total_sum = sum25_u64 t;
    bankroll = bankroll;
    min_bet = min_bet;
    tick_size = tick_size;
    margin_ppm = margin_ppm;
    ore = ore;
    max_per_square = max_per_square;
    lambda = lambda;
  }

  unfoldable pub plan_max_profit_waterfill : Allocation
  plan_max_profit_waterfill =
      if ltb bankroll min_bet
      then no_bets
      else (let allocate = λ (lambda : ℕ). allocation_for_lambda (inputs_at lambda) in
          search_lambda bankroll allocate (allocate 0))
