-- ===== src/MmDeploy/Allocation.antt =====
-- `Allocation` and `allocation_for_lambda` of program/src/processor/process_mm_deploy.rs: the pass
-- over the 25 squares that places bets for a fixed multiplier lambda.
pub mod Bets
pub mod Sound
use evore_program.Prelude.{
  ℕ, zero, suc, ◌+◌, ◌-◌, min, Bool, true, false, not, Option, none, some, List, ltb, leb, ◌==◌,
  if◌then◌else◌, ℤ, pos, ltb_ℤ, leb_ℤ, get_or, set, replicate, u64_max, i128_max, sat_add64,
  checked_mul_i128, sat_mul_i128, div_i128, clamp_i64, sat_add_i64,
}
use evore_program.Prelude.Options.{◌>>=◌, ◌>>◌, guard}
use evore_program.MmDeploy.Profit.{snap_down_u64, profit_fraction_fixed_s, optimal_x_for_lambda}

pub record Allocation : Type 0 where
  pub per_square : List ℕ
  pub spent : ℕ
  pub exp_profit_est_lamports : ℤ

abbrev pub no_bets : Allocation
no_bets = record { per_square = replicate 25 0; spent = 0; exp_profit_est_lamports = pos 0 }

-- The arguments of `allocation_for_lambda`.
pub record Inputs : Type 0 where
  pub t : List ℕ
  pub active : List Bool
  pub total_sum : ℕ
  pub bankroll : ℕ
  pub min_bet : ℕ
  pub tick_size : ℕ
  pub margin_ppm : ℕ
  pub ore : ℕ
  pub max_per_square : ℕ
  pub lambda : ℕ

module _ (inputs : Inputs) where
  open inputs use {
    t, active, total_sum, bankroll, min_bet, tick_size, margin_ppm, ore, max_per_square, lambda,
  }

  -- What the square may still take; `none` is `continue`.
  unfoldable pub cap_left_for_square : ℕ → Option ℕ
  cap_left_for_square already =
      if ltb 0 max_per_square
      then (if leb max_per_square already then none else some (max_per_square - already))
      else some u64_max

  -- The stake x held to the bankroll and the cap, and snapped; `none` is `continue`.
  unfoldable pub fit_stake : (cap_left x spent : ℕ) → Option ℕ
  fit_stake cap_left x spent = do
    guard (not (ltb cap_left min_bet))
    guard (not (x == 0))
    let bounded = min (min x (bankroll - spent)) cap_left
    guard (not (ltb bounded min_bet))
    let snapped = snap_down_u64 bounded min_bet tick_size
    guard (not (snapped == 0))
    some snapped

  unfoldable pub stake : (ti already spent : ℕ) → Option ℕ
  stake ti already spent = do
    cap_left ← cap_left_for_square already
    fit_stake cap_left (optimal_x_for_lambda total_sum ti ore lambda) spent

  -- EV / x >= margin_ppm / 1e6; where the product does not fit, the square is skipped.
  unfoldable pub meets_margin : ℤ → ℕ → ℕ → Bool
  meets_margin n d x =
      if ltb 0 margin_ppm
      then (elim (checked_mul_i128 n (pos 1000000)) [
        | none ↦ false
        | some lhs ↦
            leb_ℤ (sat_mul_i128 (sat_mul_i128 (pos margin_ppm) (pos x)) (pos (min d i128_max))) lhs
      ])
      else true

  -- The profit estimate of an acceptable stake; `none` is `continue`.
  unfoldable pub ev_contribution : (ti x : ℕ) → Option ℤ
  ev_contribution ti x = do
    let ev = profit_fraction_fixed_s total_sum ti x ore
    guard (ltb_ℤ (pos 0) ev.0)
    guard (meets_margin ev.0 ev.1 x)
    some (clamp_i64 (div_i128 ev.0 (min ev.1 i128_max)))

  abbrev accept : ℕ → Allocation → ℕ → ℤ → Allocation
  accept i a x ev = record {
    per_square = set a.per_square i (sat_add64 (get_or a.per_square i 0) x);
    spent = sat_add64 a.spent x;
    exp_profit_est_lamports = sat_add_i64 a.exp_profit_est_lamports ev;
  }

  -- The stake on square i with its profit estimate, if the square is bet on.
  unfoldable pub bet : ℕ → Allocation → Option (ℕ × ℤ)
  bet i a = do
    let ti = get_or t i 0
    guard (not (ti == 0))
    x ← stake ti (get_or a.per_square i 0) a.spent
    ev ← ev_contribution ti x
    some (x, ev)

  -- The loop's body on square i; `true` is `break`.
  unfoldable pub visit : ℕ → Allocation → Allocation × Bool
  visit i a =
      if not (get_or active i false)
      then (a, false)
      else (if leb bankroll a.spent then (a, true) else (elim (bet i a) [
        | none ↦ (a, false)
        | some (x, ev) ↦ (accept i a x ev, leb bankroll (accept i a x ev).spent)
      ]))

  -- `for i in i..i + rounds`
  unfoldable pub visit_from : (rounds i : ℕ) → Allocation → Allocation
  visit_from zero i a = a
  visit_from (suc rounds) i a =
      let rest = visit_from rounds (suc i) (visit i a).0 in
      if (visit i a).1 then (visit i a).0 else rest

  unfoldable pub allocation_for_lambda : Allocation
  allocation_for_lambda = if ltb bankroll min_bet then no_bets else visit_from 25 0 no_bets
