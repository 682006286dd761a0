-- ===== src/MmDeploy/Percentage.antt =====
-- `calculate_percentage_deployments` of program/src/processor/process_mm_deploy.rs. Its u128 sums
-- and products of u64 amounts cannot wrap, so they are plain.
pub mod Within
use evore_program.Prelude.{
  ℕ, zero, suc, ◌+◌, ◌-◌, ◌*◌, ◌/◌, ◌||◌, Bool, true, false, min, List, [], ◌∷◌, get_or, ltb, leb,
  ◌==◌, if◌then◌else◌, u64_max, sat_add64,
}
use evore_program.MmDeploy.Batch.{DeploymentBatch, single}

-- Step 1, over the squares from i on: the lamports on them, and which of them are populated.
unfoldable pub scan_targets : (deployed : List ℕ) (rounds i : ℕ) → ℕ × List ℕ
scan_targets deployed zero i = (0, [])
scan_targets deployed (suc rounds) i =
    let (total, indices) = scan_targets deployed rounds (suc i) in
    let d = get_or deployed i 0 in if ltb 0 d then (d + total, i ∷ indices) else (total, indices)

-- Step 2: the percentage that the bankroll affords, in basis points.
unfoldable pub affordable_percentage : (percentage bankroll total : ℕ) → ℕ
affordable_percentage percentage bankroll total =
    if ltb bankroll (percentage * total / (10000 - percentage))
    then min (10000 * bankroll / (total + bankroll)) percentage
    else percentage

-- The stake that owns `p` basis points of a square with t lamports.
unfoldable pub share_amount : (p t : ℕ) → ℕ
share_amount p t = min (p * t / (10000 - p)) u64_max

-- Step 3: the batches of the populated squares, and what they spend.
unfoldable pub share_batches :
    (p : ℕ) (deployed indices : List ℕ) (total_spent : ℕ) → List DeploymentBatch × ℕ
share_batches p deployed [] total_spent = ([], total_spent)
share_batches p deployed (i ∷ indices) total_spent =
    let amount = share_amount p (get_or deployed i 0) in
    let (batches, total) =
      share_batches p deployed indices
        (if ltb 0 amount then sat_add64 total_spent amount else total_spent) in
    (if ltb 0 amount then single amount i ∷ batches else batches, total)

abbrev pub is_empty : List ℕ → Bool
is_empty [] = true
is_empty (_ ∷ _) = false

abbrev pub is_out_of_range : (bankroll percentage squares_count : ℕ) → Bool
is_out_of_range bankroll percentage squares_count =
    percentage == 0
    || leb 10000 percentage
    || squares_count == 0
    || ltb 25 squares_count
    || bankroll == 0

unfoldable pub calculate_percentage_deployments :
    (deployed : List ℕ) (bankroll percentage squares_count : ℕ) → List DeploymentBatch × ℕ
calculate_percentage_deployments deployed bankroll percentage squares_count =
    let (total, indices) = scan_targets deployed (min squares_count 25) 0 in
    let p = affordable_percentage percentage bankroll total in
    let placed = share_batches p deployed indices 0 in
    if is_out_of_range bankroll percentage squares_count
    then ([], 0)
    else (if is_empty indices || total == 0 then ([], 0) else (if p == 0 then ([], 0) else placed))
