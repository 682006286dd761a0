-- ===== src/MmDeploy/Batch/Cost.antt =====
-- The lamports that a list of batches deploys.
use evore_program.Prelude.{
  ℕ, zero, suc, ◌+◌, ◌*◌, ◌≤◌, ◌<◌, ◌≡◌, refl, arith, true, false, List, [], ◌∷◌, sum, length,
  replicate, set, sat_add64, min, u64_max,
}
use evore_program.MmDeploy.Batch.{
  DeploymentBatch, single, all_squares, count_squares, batches_from, saturating_total,
}

abbrev pub batch_cost : DeploymentBatch → ℕ
batch_cost b = b.amount * count_squares b.squares

abbrev pub total_cost : List DeploymentBatch → ℕ
total_cost [] = 0
total_cost (b ∷ bs) = batch_cost b + total_cost bs

-- Every batch deploys something.
abbrev pub AllPositive : List DeploymentBatch → Type 0
AllPositive [] = Unit {0}
AllPositive (b ∷ bs) = (0 < batch_cost b) × AllPositive bs

count-set : (n i : ℕ) → i < n → count_squares (set (replicate n false) i true) ≡ 1
unfolding count_squares
count-set zero i h = elim h [ ]
count-set (suc n) zero h = rw (count-none n)
  where
    count-none : (k : ℕ) → count_squares (replicate k false) ≡ 0
    count-none zero = refl
    count-none (suc k) = count-none k
count-set (suc n) (suc i) h = count-set n i (omega arith)

pub single-cost : (a i : ℕ) → i < 25 → batch_cost (single a i) ≡ a
unfolding single
single-cost a i h = rw (count-set 25 i h) (omega arith)

pub all_squares-cost : (a : ℕ) → batch_cost (all_squares a) ≡ a * 25
unfolding all_squares count_squares
all_squares-cost a = refl

pub batches_from-cost :
    (i : ℕ) (xs : List ℕ) → i + length xs ≤ 25 → total_cost (batches_from i xs) ≡ sum xs
unfolding batches_from
batches_from-cost i [] h = refl
batches_from-cost i (a ∷ xs) h = ground (arith, single-cost a i, batches_from-cost (suc i) xs)

pub batches_from-AllPositive :
    (i : ℕ) (xs : List ℕ) → i + length xs ≤ 25 → AllPositive (batches_from i xs)
unfolding batches_from
batches_from-AllPositive i [] h = tt
batches_from-AllPositive i (a ∷ xs) h =
    ground (arith, single-cost a i, batches_from-AllPositive (suc i) xs)

-- The saturating sum is the sum, cut off at the largest u64.
pub saturating_total-eq :
    (total : ℕ) (xs : List ℕ)
    → total ≤ u64_max
    → saturating_total total xs ≡ min (total + sum xs) u64_max
unfolding saturating_total sat_add64
saturating_total-eq total [] h = omega arith
saturating_total-eq total (a ∷ xs) h =
    ground (arith, saturating_total-eq total xs, saturating_total-eq (min (total + a) u64_max) xs)
