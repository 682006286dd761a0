-- ===== src/MmDeploy/Plan/Budget.antt =====
-- The plan keeps to the bankroll, and is always the pass at lambda = 0.
use evore_program.Prelude.{
  ℕ, List, ◌≤◌, ◌≡◌, refl, arith, Bool-cases, inl, inr, ltb, leb, true, u64_max,
}
use evore_program.MmDeploy.Allocation.{allocation_for_lambda}
use evore_program.MmDeploy.Allocation.Sound.{
  allocation_for_lambda-IsSound, allocation_for_lambda-poor,
}
use evore_program.MmDeploy.Plan.{inputs_at, plan_max_profit_waterfill, search_lambda}

le→leb : (a b : ℕ) → a ≤ b → leb a b ≡ true
le→leb a b h = ground arith

module _ (t : List ℕ) (bankroll min_bet tick_size margin_ppm ore max_per_square : ℕ) where
  -- For every bankroll that fits a u64, the plan is the allocation for lambda = 0: the search for a
  -- larger lambda never runs, since a pass never spends more than the bankroll.
  pub plan-at_zero :
      bankroll ≤ u64_max
      → plan_max_profit_waterfill t bankroll min_bet tick_size margin_ppm ore max_per_square
        ≡ allocation_for_lambda
            (inputs_at t bankroll min_bet tick_size margin_ppm ore max_per_square 0)
  unfolding plan_max_profit_waterfill search_lambda
  plan-at_zero fits =
      let zero_inputs = inputs_at t bankroll min_bet tick_size margin_ppm ore max_per_square 0 in
      let s = allocation_for_lambda-IsSound zero_inputs fits in
      elim (Bool-cases (ltb bankroll min_bet)) [
        | inl poor ↦ rw poor (allocation_for_lambda-poor zero_inputs poor)
        | inr rich ↦ rw (rich, le→leb _ _ s.within) refl
      ]
