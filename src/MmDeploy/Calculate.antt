-- ===== src/MmDeploy/Calculate.antt =====
-- The split, manual and EV strategies of program/src/processor/process_mm_deploy.rs.
pub mod Totals
use evore_program.Prelude.{
  ℕ, ◌*◌, ◌/◌, Bool, true, false, ◌||◌, List, [], ◌∷◌, ltb, ◌==◌, if◌then◌else◌, not,
}
use evore_program.MmDeploy.Allocation.{Allocation}
use evore_program.MmDeploy.Batch.{DeploymentBatch, all_squares, batches_from, saturating_total}
use evore_program.MmDeploy.Plan.{plan_max_profit_waterfill}

-- `deployed.iter().any(|&d| d > 0)`
unfoldable pub has_deployments : List ℕ → Bool
has_deployments [] = false
has_deployments (d ∷ ds) = ltb 0 d || has_deployments ds

unfoldable pub calculate_split_deployments : (deployed : List ℕ) → ℕ → List DeploymentBatch × ℕ
calculate_split_deployments deployed total_amount =
    let per_square = total_amount / 25 in
    if total_amount == 0
    then ([], 0)
    else (if not (has_deployments deployed)
        then ([], 0)
        else (if per_square == 0 then ([], 0) else (all_squares per_square ∷ [], per_square * 25)))

unfoldable pub calculate_manual_deployments : List ℕ → List DeploymentBatch × ℕ
calculate_manual_deployments amounts = (batches_from 0 amounts, saturating_total 0 amounts)

-- `tick` and `margin_ppm` of the EV strategy
abbrev pub tick : ℕ
tick = 100

abbrev pub margin_ppm : ℕ
margin_ppm = 10

unfoldable pub calculate_ev_deployments :
    (deployed : List ℕ) (bankroll min_bet max_per_square ore_value : ℕ) → List DeploymentBatch × ℕ
calculate_ev_deployments deployed bankroll min_bet max_per_square ore_value =
    let plan =
      plan_max_profit_waterfill deployed bankroll min_bet tick margin_ppm ore_value
        max_per_square in
    (batches_from 0 plan.per_square, saturating_total 0 plan.per_square)
