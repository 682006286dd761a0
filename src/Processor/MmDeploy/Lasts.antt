-- ===== src/Processor/MmDeploy/Lasts.antt =====
-- A deployment's automation stays open until its last batch.
use evore_program.Prelude.{
  ℕ, ◌+◌, ◌≤◌, ◌<◌, ◌≡◌, ◌≢◌, ◌∙◌, sym, ap, min, arith, Bool, not, some, List, ◌∷◌, ◌++◌, u64_max,
  ltb, append_assoc,
}
use mathlib.Core.List.{Perm}
use evore_program.Error.{ok}
use evore_program.Runtime.{Runtime, AsAccountReads, TransfersMove, Tx, Seeds, Call, transfer}
use evore_program.Instruction.{DeployStrategy, MmDeployArgs, get_strategy}
use evore_program.Instruction.RoundTrip.{IsStrategy}
use evore_program.MmDeploy.Batch.{DeploymentBatch}
use evore_program.MmDeploy.Batch.Cost.{total_cost}
use evore_program.Processor.Fees.{deploy_fee}
use evore_program.Processor.Rounds.Reads.{is_deployed, board_at, round_at, rent_of_miner}
use evore_program.Processor.Rounds.Fees.{calls_when}
use evore_program.Processor.Automation.{sort_by_amount, last_amount}
use evore_program.Processor.Automation.Calls.{automation_calls}
use evore_program.Processor.Automation.Lasts.{sort_by_amount-lasts}
use evore_program.Processor.MmDeploy.{
  MmDeployAccounts, calculate_deployments, mm_deposit, process_mm_deploy,
}
use evore_program.Processor.MmDeploy.Calls.{IsDeployed, top_up_amount, mm_deploy-calls}
use evore_program.Processor.MmDeploy.Costs.{
  calculate_deployments-cost, fee-frame, top_up-funds, deposit-covers,
}

module _ (rt : Runtime) (moves : TransfersMove rt) (accounts : MmDeployAccounts) where
  open accounts use {signer, managed_miner_auth, ore_miner, fee_collector, board, round}

  -- The deposit covers the batches.
  IsDeployed-covers :
      {seeds : Seeds} (first : Bool) (batches : List DeploymentBatch) (total : ℕ) (s t : Tx)
      → signer.key ≢ fee_collector.key
      → managed_miner_auth.key ≢ signer.key
      → managed_miner_auth.key ≢ fee_collector.key
      → (s.ledger managed_miner_auth.key).lamports + (s.ledger signer.key).lamports < u64_max
      → total ≡ min (total_cost batches) u64_max
      → (d : IsDeployed rt accounts seeds first batches total s t)
      → total_cost batches ≤ mm_deposit rt (d.after_top_up.ledger managed_miner_auth.key).lamports
  IsDeployed-covers first batches total s t ne1 ne2 ne3 supply e d =
      let (same, less) = fee-frame rt moves accounts first s ne1 ne2 ne3 d.paid in
      let (funded, held) = top_up-funds rt moves accounts total d.after_fee ne2 d.topped_up in
      let covers =
        deposit-covers rt moves accounts (total_cost batches) total
          (rent_of_miner rt d.after_fee ore_miner.key) _ (omega (arith, same, less, held, supply)) e
          funded in
      omega (arith, covers)

  -- With a runtime that reads accounts as steel does and moves lamports on a transfer, a strategy whose
  -- fields are u64s, three different keys for the signer, the fee collector and the manager's
  -- address, and balances of the first and the last that are together below the largest u64: when a
  -- deployment succeeds, its calls end with an automation of some deposit for the sorted batches, which
  -- are those of the strategy. No batch is above the amount that the automation is opened with, and
  -- before each one the deposit less the cost of the earlier ones is still at least that amount, so
  -- that ORE, which closes an automation that holds less, keeps it open until the last.
  pub mm_deploy-lasts :
      (reads : AsAccountReads rt) (args : MmDeployArgs) (s t : Tx) (strategy : DeployStrategy)
      (before : List DeploymentBatch) (b : DeploymentBatch) (after : List DeploymentBatch)
      → IsStrategy strategy
      → get_strategy args ≡ some strategy
      → signer.key ≢ fee_collector.key
      → managed_miner_auth.key ≢ signer.key
      → managed_miner_auth.key ≢ fee_collector.key
      → (s.ledger managed_miner_auth.key).lamports + (s.ledger signer.key).lamports < u64_max
      → sort_by_amount (calculate_deployments strategy (round_at s round.key).deployed).0
        ≡ before ++ b ∷ after
      → process_mm_deploy rt accounts args s ≡ ok (tt, t)
      → let batches = (calculate_deployments strategy (round_at s round.key).deployed).0 in
        let cap = last_amount (sort_by_amount batches) in
        (deposit : ℕ) × (earlier : List Call) × (round_ids : List ℕ) × (still_open : Bool)
        × (t.calls
            ≡ earlier
              ++ automation_calls managed_miner_auth.key round_ids deposit batches still_open)
        × Perm (before ++ b ∷ after) batches
        × (b.amount ≤ cap)
        × (total_cost before + cap ≤ deposit)
  mm_deploy-lasts reads args s t strategy before b after is parses ne1 ne2 ne3 supply sorted h =
      let (strategy', parses', _, _, _, _, _, _, deployed') =
        mm_deploy-calls rt accounts reads s args h in
      let same : strategy' ≡ strategy = cc in
      let d = rw same at deployed' in
      let (batches, total) = calculate_deployments strategy (round_at s round.key).deployed in
      let (cost, positive) =
        calculate_deployments-cost strategy (round_at s round.key).deployed is in
      let deposit = mm_deposit rt (d.after_top_up.ledger managed_miner_auth.key).lamports in
      let covers = IsDeployed-covers _ batches total s t ne1 ne2 ne3 supply cost d in
      let (perm, below, lasts) =
        sort_by_amount-lasts batches before b after deposit positive covers sorted in
      let first = not (is_deployed rt reads s ore_miner.key (board_at s board.key)) in
      let fee = calls_when first (transfer signer.key fee_collector.key deploy_fee) in
      let n = top_up_amount rt accounts d.after_fee total in
      let added = calls_when (ltb 0 n) (transfer signer.key managed_miner_auth.key n) in
      let rest = automation_calls managed_miner_auth.key d.round_ids deposit batches d.still_open in
      (
        deposit,
        s.calls ++ (fee ++ added),
        d.round_ids,
        d.still_open,
        d.calls
            ∙ sym (
                append_assoc s.calls (fee ++ added) rest
                ∙ ap (λ l. s.calls ++ l) (append_assoc fee added rest)),
        perm,
        below,
        lasts,
      )
