-- ===== src/Processor/Automation/Deployed.antt =====
-- The lamports that calls deploy.
use evore_program.Prelude.{
  ℕ, ◌+◌, ◌*◌, ◌≡◌, refl, arith, Bool, true, false, Bool-cases, inl, inr, not, List, [], ◌∷◌, ◌++◌,
  ◌==◌, get_or, drop,
}
use evore_program.OreApi.{Pubkey}
use evore_program.Runtime.{Call, ore_deploy, ore_automate}
use evore_program.MmDeploy.Batch.{DeploymentBatch, count_squares}
use evore_program.MmDeploy.Batch.Cost.{batch_cost, total_cost}
use evore_program.Processor.Rounds.Fees.{calls_when}
use evore_program.Processor.Automation.{sort_by_amount}
use evore_program.Processor.Automation.Sorted.{sort-cost}
use evore_program.Processor.Automation.Calls.{deploy_calls, automation_calls}

abbrev pub deployed_by : Call → ℕ
deployed_by (ore_deploy authority amount round_id squares) = amount * count_squares squares
deployed_by _ = 0

-- All that a list of calls deploys.
abbrev pub deployed : List Call → ℕ
deployed [] = 0
deployed (c ∷ cs) = deployed_by c + deployed cs

pub deployed-append : (xs ys : List Call) → deployed (xs ++ ys) ≡ deployed xs + deployed ys
deployed-append [] ys = omega arith
deployed-append (x ∷ xs) ys = omega (arith, deployed-append xs ys)

-- A call that deploys nothing, made or not.
pub deployed-calls_when :
    (c : Bool) (call : Call) → deployed_by call ≡ 0 → deployed (calls_when c call) ≡ 0
deployed-calls_when true call h = omega (arith, h)
deployed-calls_when false call h = refl

batch_calls-deployed :
    (auth : Pubkey) (id : ℕ) (b : DeploymentBatch)
    → deployed (calls_when (not (b.amount == 0)) (ore_deploy auth b.amount id b.squares))
      ≡ batch_cost b
batch_calls-deployed auth id b = elim (Bool-cases (b.amount == 0)) [
  | inl e ↦ rw e (nothing b.amount (count_squares b.squares) e)
  | inr e ↦ rw e (omega arith)
]
  where
    nothing : (a n : ℕ) → a == 0 ≡ true → 0 ≡ a * n
    nothing a n h = let e : a ≡ 0 = ground arith in rw e (omega arith)

pub deploy_calls-deployed :
    (auth : Pubkey) (ids : List ℕ) (bs : List DeploymentBatch)
    → deployed (deploy_calls auth ids bs) ≡ total_cost bs
unfolding deploy_calls
deploy_calls-deployed auth ids [] = refl
deploy_calls-deployed auth ids (b ∷ bs) =
    let here =
      calls_when (not (b.amount == 0)) (ore_deploy auth b.amount (get_or ids 0 0) b.squares) in
    omega (
      arith,
      deployed-append here (deploy_calls auth (drop 1 ids) bs),
      batch_calls-deployed auth (get_or ids 0 0) b,
      deploy_calls-deployed auth (drop 1 ids) bs,
    )

-- With an automation, all the batches are deployed and nothing else.
pub automation_calls-deployed :
    (auth : Pubkey) (ids : List ℕ) (deposit : ℕ) (bs : List DeploymentBatch) (still_open : Bool)
    → deployed (automation_calls auth ids deposit bs still_open) ≡ total_cost bs
unfolding automation_calls
automation_calls-deployed auth ids deposit bs still_open = omega (
  arith,
  deployed-append (deploy_calls auth ids (sort_by_amount bs)) _,
  deployed-calls_when still_open (ore_automate auth 0 0 0 0 0 0) refl,
  deploy_calls-deployed auth ids (sort_by_amount bs),
  sort-cost bs,
)
