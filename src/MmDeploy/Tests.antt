-- ===== src/MmDeploy/Tests.antt =====
-- Runs of the strategies on one small board, and the theorems about them there.
use evore_program.Prelude.{
  ℕ, suc, ◌+◌, ◌-◌, ◌*◌, ◌≤◌, ◌<◌, ◌≡◌, ◌≢◌, ◌↔◌, arith, List, [], ◌∷◌, ◌++◌, replicate, sum, min,
  u64_max, refl, pos, ◌<ℤ◌, sub_ℕ,
}
use evore_program.MmDeploy.Sqrt.{isqrt_u128}
use evore_program.MmDeploy.Sqrt.Newton.{IsFloorRoot, isqrt_u128-IsFloorRoot}
use evore_program.MmDeploy.Profit.{
  profit_fraction_fixed_s, dmax_for_square_fixed_s, optimal_x_for_lambda,
}
use evore_program.MmDeploy.Profit.Exact.{profit_fraction-gains_iff}
use evore_program.MmDeploy.Profit.Ceiling.{dmax-break_even}
use evore_program.MmDeploy.Profit.Optimum.{optimal_x-first_order, gain, cost}
use evore_program.MmDeploy.Allocation.{allocation_for_lambda}
use evore_program.MmDeploy.Allocation.Sound.{IsSound, allocation_for_lambda-IsSound}
use evore_program.MmDeploy.Plan.{plan_max_profit_waterfill, inputs_at}
use evore_program.MmDeploy.Plan.Budget.{plan-at_zero}
use evore_program.MmDeploy.Batch.Cost.{total_cost, AllPositive}
use evore_program.MmDeploy.Calculate.{
  calculate_split_deployments, calculate_manual_deployments, calculate_ev_deployments, tick,
  margin_ppm,
}
use evore_program.MmDeploy.Calculate.Totals.{
  IsWithin, calculate_split-IsWithin, calculate_manual-cost, calculate_ev-IsWithin,
}
use evore_program.MmDeploy.Percentage.{calculate_percentage_deployments}
use evore_program.MmDeploy.Percentage.Within.{calculate_percentage-within}

-- Two squares hold lamports.
abbrev pub pools : List ℕ
pools = 1000000 ∷ 50000000 ∷ replicate 23 2000000

isqrt_u128-IsFloorRoot_example : IsFloorRoot 10 (isqrt_u128 10)
isqrt_u128-IsFloorRoot_example = isqrt_u128-IsFloorRoot 10 (λ e. omega (arith, e))

profit_fraction-gains_iff_example :
    (pos 0 <ℤ (profit_fraction_fixed_s 97000000 1000000 5000 800000000).0)
    ↔ (24010 * (1000000 + 5000) < 891 * (97000000 - 1000000) + 1000 * 800000000)
profit_fraction-gains_iff_example =
    profit_fraction-gains_iff 97000000 1000000 5000 800000000 (omega arith) (omega arith)
      (omega arith) (omega arith) (omega arith)

dmax-break_even_example : (5000 ≤ dmax_for_square_fixed_s 97000000 1000000 800000000) ↔ (
    (1000000 < 97000000)
    × (24010 * (1000000 + 5000) ≤ 891 * (97000000 - 1000000) + 1000 * 800000000))
dmax-break_even_example =
    dmax-break_even 97000000 1000000 5000 800000000 (omega arith) (omega arith) (omega arith)
      (omega arith)

allocation_for_lambda-IsSound_example :
    IsSound
      (inputs_at pools 90000000 1000 tick margin_ppm 800000000 0 3)
      25
      (allocation_for_lambda (inputs_at pools 90000000 1000 tick margin_ppm 800000000 0 3))
allocation_for_lambda-IsSound_example =
    allocation_for_lambda-IsSound (inputs_at pools 90000000 1000 tick margin_ppm 800000000 0 3)
      (omega arith)

plan-at_zero_example :
    plan_max_profit_waterfill pools 90000000 1000 tick margin_ppm 800000000 0
    ≡ allocation_for_lambda (inputs_at pools 90000000 1000 tick margin_ppm 800000000 0 0)
plan-at_zero_example = plan-at_zero pools 90000000 1000 tick margin_ppm 800000000 0 (omega arith)

calculate_split-IsWithin_example :
    IsWithin 1000
      (calculate_split_deployments pools 1000).0
      (calculate_split_deployments pools 1000).1
calculate_split-IsWithin_example = calculate_split-IsWithin pools 1000

calculate_manual-cost_example :
    let (batches, total) = calculate_manual_deployments (0 ∷ 500 ∷ 70 ∷ []) in
    (total_cost batches ≡ sum (0 ∷ 500 ∷ 70 ∷ []))
    × (total ≡ min (sum (0 ∷ 500 ∷ 70 ∷ [])) u64_max)
    × AllPositive batches
calculate_manual-cost_example = calculate_manual-cost (0 ∷ 500 ∷ 70 ∷ []) (omega arith)

calculate_ev-IsWithin_example :
    let (batches, total) = calculate_ev_deployments pools 90000000 1000 0 800000000 in
    IsWithin 90000000 batches total
calculate_ev-IsWithin_example = calculate_ev-IsWithin pools 90000000 1000 0 800000000 (omega arith)

calculate_percentage-within_example :
    let (batches, total) = calculate_percentage_deployments pools 90000000 1500 5 in
    (total_cost batches ≡ total) × (total ≤ 90000000) × AllPositive batches
calculate_percentage-within_example =
    calculate_percentage-within pools 90000000 1500 5 (omega arith)

abbrev best_stake : ℕ
best_stake = 5073052

optimum : optimal_x_for_lambda 97000000 1000000 800000000 0 ≡ best_stake
unfolding optimal_x_for_lambda evore_program.MmDeploy.Profit.optimal_q
    evore_program.Prelude.sat_add128 evore_program.Prelude.sat_mul128 isqrt_u128
optimum = refl

optimal_x-first_order_example :
    let x = optimal_x_for_lambda 97000000 1000000 800000000 0 in
    ((1000000 + x) * (1000000 + x) * cost 97000000 1000000 800000000 0
      ≤ 1000000 * gain 97000000 1000000 800000000 0)
    × (1000000 * gain 97000000 1000000 800000000 0
        < suc (1000000 + x) * suc (1000000 + x) * cost 97000000 1000000 800000000 0)
optimal_x-first_order_example =
    optimal_x-first_order 97000000 1000000 800000000 0 (omega arith) (omega arith) (omega arith)
      (omega arith) (λ e. omega (arith, e)) (omega (arith, optimum)) (omega (arith, optimum))
