-- ===== src/Processor/Automation/Lasts.antt =====
-- Why the automation stays open until the last batch is deployed.
use evore_program.Prelude.{
  ℕ, zero, suc, ◌+◌, ◌*◌, ◌≤◌, ◌<◌, ◌≡◌, refl, arith, Bool-cases, inl, inr, List, [], ◌∷◌, ◌++◌,
  leb,
}
use mathlib.Core.List.{Perm}
use evore_program.MmDeploy.Batch.{DeploymentBatch, count_squares}
use evore_program.MmDeploy.Batch.Cost.{batch_cost, total_cost, AllPositive}
use evore_program.Processor.Automation.{insert_by_amount, sort_by_amount, last_amount}
use evore_program.Processor.Automation.Sorted.{IsAscending, sort-IsAscending, sort-perm, sort-cost}

insert-AllPositive :
    (b : DeploymentBatch) (bs : List DeploymentBatch)
    → 0 < batch_cost b
    → AllPositive bs
    → AllPositive (insert_by_amount b bs)
unfolding insert_by_amount
insert-AllPositive b [] h hs = (h, tt)
insert-AllPositive b (c ∷ cs) h (hc, hs) = elim (Bool-cases (leb b.amount c.amount)) [
  | inl e ↦ rw e ((h, (hc, hs)))
  | inr e ↦ rw e ((hc, insert-AllPositive b cs h hs))
]

sort-AllPositive : (bs : List DeploymentBatch) → AllPositive bs → AllPositive (sort_by_amount bs)
unfolding sort_by_amount
sort-AllPositive [] h = tt
sort-AllPositive (b ∷ bs) (h, hs) =
    insert-AllPositive b (sort_by_amount bs) h (sort-AllPositive bs hs)

total_cost-append :
    (xs ys : List DeploymentBatch) → total_cost (xs ++ ys) ≡ total_cost xs + total_cost ys
total_cost-append [] ys = omega arith
total_cost-append (x ∷ xs) ys = omega (arith, total_cost-append xs ys)

AllPositive-append_right : (xs ys : List DeploymentBatch) → AllPositive (xs ++ ys) → AllPositive ys
AllPositive-append_right [] ys h = h
AllPositive-append_right (x ∷ xs) ys (h, hs) = AllPositive-append_right xs ys hs

IsAscending-append_right : (xs ys : List DeploymentBatch) → IsAscending (xs ++ ys) → IsAscending ys
IsAscending-append_right [] ys h = h
IsAscending-append_right (x ∷ xs) ys (h, hs) = IsAscending-append_right xs ys hs

last_amount-append :
    (xs : List DeploymentBatch) (y : DeploymentBatch) (ys : List DeploymentBatch)
    → last_amount (xs ++ y ∷ ys) ≡ last_amount (y ∷ ys)
unfolding last_amount
last_amount-append [] y ys = refl
last_amount-append (x ∷ []) y ys = refl
last_amount-append (x ∷ z ∷ xs) y ys = last_amount-append (z ∷ xs) y ys

amount-le_cost : (a n : ℕ) → 0 < a * n → a ≤ a * n
amount-le_cost a zero h = absurd (omega arith)
amount-le_cost a (suc n) h = omega arith

last_amount-le_cost : (bs : List DeploymentBatch) → AllPositive bs → last_amount bs ≤ total_cost bs
unfolding last_amount
last_amount-le_cost [] h = omega arith
last_amount-le_cost (b ∷ []) (h, hs) =
    omega (arith, amount-le_cost b.amount (count_squares b.squares) h)
last_amount-le_cost (b ∷ c ∷ cs) (h, hs) = omega (arith, last_amount-le_cost (c ∷ cs) hs)

head-le_last :
    (b : DeploymentBatch) (bs : List DeploymentBatch)
    → IsAscending (b ∷ bs)
    → b.amount ≤ last_amount (b ∷ bs)
unfolding last_amount
head-le_last b [] h = omega arith
head-le_last b (c ∷ cs) ((le, _), h) = omega (arith, head-le_last c cs h)

-- For batches that each deploy something and cost at most the deposit together: the sorted batches are
-- the same ones, none of them is above the amount that the automation is opened with, and whenever one
-- is about to be deployed, the deposit less the cost of those before it is still at least that
-- amount. (ORE closes an automation whose balance is below its amount and fee; the fee is 0.)
pub sort_by_amount-lasts :
    (batches before : List DeploymentBatch) (b : DeploymentBatch) (after : List DeploymentBatch)
    (deposit : ℕ)
    → AllPositive batches
    → total_cost batches ≤ deposit
    → sort_by_amount batches ≡ before ++ b ∷ after
    → Perm (before ++ b ∷ after) batches
      × (b.amount ≤ last_amount (sort_by_amount batches))
      × (total_cost before + last_amount (sort_by_amount batches) ≤ deposit)
sort_by_amount-lasts batches before b after deposit pos enough e =
    let ascending = rw e at (sort-IsAscending batches) in
    let positive = rw e at (sort-AllPositive batches pos) in
    let cost = rw e at (sort-cost batches) in
    rw e (
      rw (last_amount-append before b after) (
        rw e at (sort-perm batches),
        head-le_last b after (IsAscending-append_right before (b ∷ after) ascending),
        omega (
          arith,
          cost,
          total_cost-append before (b ∷ after),
          last_amount-le_cost (b ∷ after) (AllPositive-append_right before (b ∷ after) positive),
        ),
      ))
