-- ===== src/MmDeploy/Calculate/Totals.antt =====
-- Each strategy's batches cost what it reports, and the automatic ones keep to their budget.
use evore_program.Prelude.{ℕ, ◌/◌, ◌≤◌, ◌≡◌, arith, List, sum, length, min, u64_max}
use evore_program.MmDeploy.Allocation.Sound.{IsSound, allocation_for_lambda-IsSound}
use evore_program.MmDeploy.Batch.{DeploymentBatch}
use evore_program.MmDeploy.Batch.Cost.{
  total_cost, AllPositive, all_squares-cost, batches_from-cost, batches_from-AllPositive,
  saturating_total-eq,
}
use evore_program.MmDeploy.Calculate.{
  calculate_split_deployments, calculate_manual_deployments, calculate_ev_deployments, tick,
  margin_ppm,
}
use evore_program.MmDeploy.Plan.{inputs_at, plan_max_profit_waterfill}
use evore_program.MmDeploy.Plan.Budget.{plan-at_zero}

-- The batches cost exactly the total, which keeps to the budget, and each deploys something.
abbrev pub IsWithin : ℕ → List DeploymentBatch → ℕ → Type 0
IsWithin budget batches total =
    (total_cost batches ≡ total) × (total ≤ budget) × AllPositive batches

-- For every board and amount, the split strategy's batches cost exactly the reported total, at most
-- the amount, and each deploys something.
pub calculate_split-IsWithin :
    (deployed : List ℕ) (amount : ℕ)
    → let (batches, total) = calculate_split_deployments deployed amount in
      IsWithin amount batches total
unfolding calculate_split_deployments
calculate_split-IsWithin deployed amount = ground (arith, all_squares-cost (amount / 25))

-- Manual amounts for at most 25 squares cost their sum, which the reported total cuts off at the
-- largest u64; a batch deploys something.
pub calculate_manual-cost :
    (amounts : List ℕ)
    → length amounts ≤ 25
    → let (batches, total) = calculate_manual_deployments amounts in
      (total_cost batches ≡ sum amounts) × (total ≡ min (sum amounts) u64_max) × AllPositive batches
unfolding calculate_manual_deployments
calculate_manual-cost amounts h = (
  batches_from-cost 0 amounts (omega arith),
  omega (arith, saturating_total-eq 0 amounts),
  batches_from-AllPositive 0 amounts (omega arith),
)

-- What `IsSound` says of the plan.
pub plan-IsSound :
    (t : List ℕ) (bankroll min_bet ore max : ℕ)
    → bankroll ≤ u64_max
    → IsSound
        (inputs_at t bankroll min_bet tick margin_ppm ore max 0)
        25
        (plan_max_profit_waterfill t bankroll min_bet tick margin_ppm ore max)
plan-IsSound t bankroll min_bet ore max fits =
    rw (plan-at_zero t bankroll min_bet tick margin_ppm ore max fits)
      (allocation_for_lambda-IsSound (inputs_at t bankroll min_bet tick margin_ppm ore max 0) fits)

-- For a bankroll that fits a u64, the EV strategy's batches cost exactly the reported total, at most
-- the bankroll, and each deploys something.
pub calculate_ev-IsWithin :
    (deployed : List ℕ) (bankroll min_bet max_per_square ore_value : ℕ)
    → bankroll ≤ u64_max
    → let (batches, total) =
        calculate_ev_deployments deployed bankroll min_bet max_per_square ore_value in
      IsWithin bankroll batches total
unfolding calculate_ev_deployments
calculate_ev-IsWithin deployed bankroll min_bet max_per_square ore_value fits =
    let plan =
      plan_max_profit_waterfill deployed bankroll min_bet tick margin_ppm ore_value
        max_per_square in
    let s = plan-IsSound deployed bankroll min_bet ore_value max_per_square fits in
    let cost = batches_from-cost 0 plan.per_square (omega (arith, s.squares)) in
    let total = saturating_total-eq 0 plan.per_square (omega arith) in
    (
      omega (arith, cost, total, s.accounted, s.within, fits),
      omega (arith, total, s.accounted, s.within),
      batches_from-AllPositive 0 plan.per_square (omega (arith, s.squares)),
    )
