-- ===== src/MmDeploy/Batch.antt =====
-- `DeploymentBatch` of program/src/processor/process_mm_deploy.rs, and what batches cost.
pub mod Cost
use evore_program.Prelude.{
  ℕ, suc, ◌+◌, ◌*◌, Bool, true, false, List, [], ◌∷◌, replicate, set, ltb, if◌then◌else◌, sat_add64,
}

-- The same amount on each chosen square.
pub record DeploymentBatch : Type 0 where
  pub amount : ℕ
  pub squares : List Bool

-- `DeploymentBatch::single`; an index past the board chooses no square.
unfoldable pub single : (amount square_idx : ℕ) → DeploymentBatch
single amount square_idx = record {
  amount = amount;
  squares = set (replicate 25 false) square_idx true;
}

-- `DeploymentBatch::all_squares`
unfoldable pub all_squares : ℕ → DeploymentBatch
all_squares amount = record { amount = amount; squares = replicate 25 true }

-- `squares.iter().filter(|&&s| s).count()`
unfoldable pub count_squares : List Bool → ℕ
count_squares [] = 0
count_squares (true ∷ bs) = suc (count_squares bs)
count_squares (false ∷ bs) = count_squares bs

-- `for i in 0..25`: a batch for each square that has an amount.
unfoldable pub batches_from : ℕ → List ℕ → List DeploymentBatch
batches_from i [] = []
batches_from i (a ∷ xs) =
    let rest = batches_from (suc i) xs in if ltb 0 a then single a i ∷ rest else rest

-- The total of that loop, a saturating sum.
unfoldable pub saturating_total : ℕ → List ℕ → ℕ
saturating_total total [] = total
saturating_total total (a ∷ xs) = saturating_total (if ltb 0 a then sat_add64 total a else total) xs
