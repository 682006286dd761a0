-- ===== src/Processor/Automation/Sorted.antt =====
-- What the sort of the batches keeps, and what it arranges.
use evore_program.Prelude.{
  ℕ, ◌+◌, ◌≤◌, ◌≡◌, refl, arith, true, false, Bool-cases, inl, inr, List, [], ◌∷◌, leb,
}
use mathlib.Core.List.{Perm}
use mathlib.Core.List.Perm
use evore_program.MmDeploy.Batch.{DeploymentBatch}
use evore_program.MmDeploy.Batch.Cost.{batch_cost, total_cost}
use evore_program.Processor.Automation.{insert_by_amount, sort_by_amount}

-- Every amount is at least n.
abbrev pub AtLeast : ℕ → List DeploymentBatch → Type 0
AtLeast n [] = Unit {0}
AtLeast n (b ∷ bs) = (n ≤ b.amount) × AtLeast n bs

abbrev pub IsAscending : List DeploymentBatch → Type 0
IsAscending [] = Unit {0}
IsAscending (b ∷ bs) = AtLeast b.amount bs × IsAscending bs

AtLeast-mono : (m n : ℕ) (bs : List DeploymentBatch) → m ≤ n → AtLeast n bs → AtLeast m bs
AtLeast-mono m n [] le h = tt
AtLeast-mono m n (b ∷ bs) le (h, hs) = (omega arith, AtLeast-mono m n bs le hs)

insert-AtLeast :
    (n : ℕ) (b : DeploymentBatch) (bs : List DeploymentBatch)
    → n ≤ b.amount
    → AtLeast n bs
    → AtLeast n (insert_by_amount b bs)
unfolding insert_by_amount
insert-AtLeast n b [] le h = (le, tt)
insert-AtLeast n b (c ∷ cs) le (h, hs) = elim (Bool-cases (leb b.amount c.amount)) [
  | inl e ↦ rw e ((le, (h, hs)))
  | inr e ↦ rw e (h, insert-AtLeast n b cs le hs)
]

le_of_leb : (a b : ℕ) → leb a b ≡ true → a ≤ b
le_of_leb a b h = ground arith

ge_of_leb : (a b : ℕ) → leb a b ≡ false → b ≤ a
ge_of_leb a b h = ground arith

insert-IsAscending :
    (b : DeploymentBatch) (bs : List DeploymentBatch)
    → IsAscending bs
    → IsAscending (insert_by_amount b bs)
unfolding insert_by_amount
insert-IsAscending b [] h = (tt, tt)
insert-IsAscending b (c ∷ cs) (h, hs) = elim (Bool-cases (leb b.amount c.amount)) [
  | inl e ↦
      (let le = le_of_leb b.amount c.amount e in
        rw e ((le, AtLeast-mono b.amount c.amount cs le h), (h, hs)))
  | inr e ↦
      rw e
        (insert-AtLeast c.amount b cs (ge_of_leb b.amount c.amount e) h, insert-IsAscending b cs hs)
]

insert-perm :
    (b : DeploymentBatch) (bs : List DeploymentBatch) → Perm (insert_by_amount b bs) (b ∷ bs)
unfolding insert_by_amount
insert-perm b [] = Perm.refl (b ∷ [])
insert-perm b (c ∷ cs) = elim (Bool-cases (leb b.amount c.amount)) [
  | inl e ↦ rw e (Perm.refl (b ∷ c ∷ cs))
  | inr e ↦ rw e (Perm.trans (Perm.cons c (insert-perm b cs)) (Perm.swap b c cs))
]

pub sort-IsAscending : (bs : List DeploymentBatch) → IsAscending (sort_by_amount bs)
unfolding sort_by_amount
sort-IsAscending [] = tt
sort-IsAscending (b ∷ bs) = insert-IsAscending b (sort_by_amount bs) (sort-IsAscending bs)

pub sort-perm : (bs : List DeploymentBatch) → Perm (sort_by_amount bs) bs
unfolding sort_by_amount
sort-perm [] = Perm.refl []
sort-perm (b ∷ bs) = Perm.trans (insert-perm b (sort_by_amount bs)) (Perm.cons b (sort-perm bs))

insert-cost :
    (b : DeploymentBatch) (bs : List DeploymentBatch)
    → total_cost (insert_by_amount b bs) ≡ batch_cost b + total_cost bs
unfolding insert_by_amount
insert-cost b [] = refl
insert-cost b (c ∷ cs) = elim (Bool-cases (leb b.amount c.amount)) [
  | inl e ↦ rw e refl
  | inr e ↦ rw e (omega (arith, insert-cost b cs))
]

-- The order changes nothing about what the batches cost.
pub sort-cost : (bs : List DeploymentBatch) → total_cost (sort_by_amount bs) ≡ total_cost bs
unfolding sort_by_amount
sort-cost [] = refl
sort-cost (b ∷ bs) = omega (arith, insert-cost b (sort_by_amount bs), sort-cost bs)
