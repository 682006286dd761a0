-- ===== src/Processor/Automation.antt =====
-- The ephemeral automation of process_mm_deploy.rs, and of the strategy autodeploys after it: the
-- batches are sorted ascending by amount, ORE's automation is opened with the largest amount and a
-- deposit, each batch is deployed, and the automation is closed if it is still open.
pub mod Sorted
pub mod Calls
pub mod Lasts
pub mod Deployed
use evore_program.Prelude.{ℕ, ◌+◌, Bool, not, List, [], ◌∷◌, leb, ◌==◌, if◌then◌else◌}
use evore_program.OreApi.{Pubkey, round_of_bytes}
use evore_program.Runtime.{
  AccountInfo, Runtime, M, ◌>>=◌, ◌>>◌, done, account, is_empty_data, invoke, ore_deploy,
  ore_automate, Seeds,
}
use evore_program.MmDeploy.Batch.{DeploymentBatch}
use evore_program.Processor.Loads.{when, reborrow}

-- `size_of::<Automation>()` of program/src/ore_api.rs
abbrev pub automation_size : ℕ
automation_size = 112

-- `Pubkey::default()`
abbrev pub default_key : Pubkey
default_key = 0

-- A stable sort: an entry stays before the later ones of its own amount.
unfoldable pub insert_by_amount : DeploymentBatch → List DeploymentBatch → List DeploymentBatch
insert_by_amount b [] = b ∷ []
insert_by_amount b (c ∷ cs) =
    let rest = insert_by_amount b cs in if leb b.amount c.amount then b ∷ c ∷ cs else c ∷ rest

-- `batches.sort_by_key(|b| b.amount)`
unfoldable pub sort_by_amount : List DeploymentBatch → List DeploymentBatch
sort_by_amount [] = []
sort_by_amount (b ∷ bs) = insert_by_amount b (sort_by_amount bs)

-- `batches.last().map(|b| b.amount).unwrap_or(0)`
unfoldable pub last_amount : List DeploymentBatch → ℕ
last_amount [] = 0
last_amount (b ∷ []) = b.amount
last_amount (b ∷ c ∷ cs) = last_amount (c ∷ cs)

module _ (rt : Runtime) (managed_miner_auth : Pubkey) (seeds : Seeds) where
  -- `for batch in batches`: a batch without an amount is skipped.
  unfoldable pub deploy_batches : (round_info : AccountInfo) → List DeploymentBatch → M (Unit {0})
  deploy_batches round_info [] = done
  deploy_batches round_info (b ∷ bs) = do
    round ← reborrow round_of_bytes round_info
    when (not (b.amount == 0))
        (invoke rt (ore_deploy managed_miner_auth b.amount round.id b.squares) seeds)
    deploy_batches round_info bs

  -- Opened with the strategy 2, `Discretionary`, and the manager's own address as executor.
  unfoldable pub open_automation : (max_batch_amount deposit : ℕ) → M (Unit {0})
  open_automation max_batch_amount deposit =
      invoke rt (ore_automate managed_miner_auth max_batch_amount deposit managed_miner_auth 0 0 2)
        seeds

  -- The close is an `Automate` of zeros with the default key as executor.
  unfoldable pub close_automation : AccountInfo → M (Unit {0})
  close_automation automation_info = do
    a ← account automation_info
    when (not (is_empty_data a.bytes))
        (invoke rt (ore_automate managed_miner_auth 0 0 default_key 0 0 0) seeds)

  -- All of it.
  unfoldable pub deploy_with_automation :
      (automation_info round_info : AccountInfo)
      → (deposit : ℕ) → List DeploymentBatch
      → M (Unit {0})
  deploy_with_automation automation_info round_info deposit batches = do
    let sorted = sort_by_amount batches
    open_automation (last_amount sorted) deposit
    deploy_batches round_info sorted
    close_automation automation_info
