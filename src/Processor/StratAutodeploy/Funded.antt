-- ===== src/Processor/StratAutodeploy/Funded.antt =====
-- The deposit of the automation covers the batches, and the calls deploy just them.
use evore_program.Prelude.{
  ℕ, ◌+◌, ◌≤◌, ◌<◌, ◌≡◌, ◌≢◌, refl, arith, Bool, true, false, not, Bool-cases, inl, inr, List, ◌++◌,
  ◌&&◌, ltb, sat_add64, u64_max,
}
use evore_program.Error.{ok}
use evore_program.OreApi.{Pubkey, Board, checkpoint_fee}
use evore_program.Runtime.{Runtime, AsAccountReads, TransfersMove, Tx, transfer, invoke, Seeds}
use evore_program.Runtime.Chain.{>>=-ok, call-ok}
use evore_program.State.{StrategyDeployer}
use evore_program.MmDeploy.Batch.Cost.{total_cost}
use evore_program.StrategyDispatch.{StrategyResult}
use evore_program.StrategyDispatch.Covers.{Covers, budget, dispatch_strategy-Covers}
use evore_program.Validation.{StrategyType, strategy_try_from}
use evore_program.Processor.StratDeployer.Terms.{strat_deployer_at}
use evore_program.Processor.StratAutodeploy.Calls.{strategy_result, mm_strat_autodeploy-calls}
use evore_program.Processor.Fees.{required_balance, deploy_fee}
use evore_program.Processor.Loads.{when}
use evore_program.Processor.Rounds.{pay_fees}
use evore_program.Processor.Rounds.Reads.{is_deployed, rent_of_miner, board_at, round_at}
use evore_program.Processor.Rounds.Fees.{fee_calls, calls_when}
use evore_program.Processor.Automation.Deployed.{
  deployed, deployed-append, deployed-calls_when, automation_calls-deployed,
}
use evore_program.Processor.StratAutodeploy.{
  StratAccounts, StratArgs, process_mm_strat_autodeploy, strat_fee, strat_required_balance,
  strat_deposit, automation_rent_if,
}
use evore_program.Processor.StratAutodeploy.Spends.{
  IsSpent, IsWithinLimits, deposit_at, result_calls,
}

fee_calls-deployed :
    (auth collector signer : Pubkey) (first : Bool) (fee : ℕ)
    → deployed (fee_calls auth collector signer first fee) ≡ 0
unfolding fee_calls
fee_calls-deployed auth collector signer first fee = omega (
  arith,
  deployed-append (calls_when (ltb 0 deploy_fee && first) (transfer auth collector deploy_fee)) _,
  deployed-calls_when (ltb 0 deploy_fee && first) (transfer auth collector deploy_fee) refl,
  deployed-calls_when (ltb 0 fee && first) (transfer auth signer fee) refl,
)

result_calls-deployed :
    (auth : Pubkey) (ids : List ℕ) (deposit limit : ℕ) (r : StrategyResult) (still_open : Bool)
    → Covers limit r
    → deployed (result_calls auth ids deposit r still_open) ≡ total_cost r.batches
unfolding result_calls
result_calls-deployed auth ids deposit limit r still_open c = elim (Bool-cases r.needs_automation) [
  | inl e ↦ rw e (automation_calls-deployed auth ids deposit r.batches still_open)
  | inr e ↦ rw e (let (b, one) = c.one_batch e in rw one refl)
]

module _ (rt : Runtime) (moves : TransfersMove rt) where
  -- A transfer, made or not, takes no more than its amount.
  paid_at_most :
      (c : Bool) (from to : Pubkey) (n : ℕ) (seeds : Seeds) (s : Tx) {u : Unit {0}} {t : Tx}
      → from ≢ to
      → when c (invoke rt (transfer from to n) seeds) s ≡ ok (u, t)
      → (s.ledger from).lamports ≤ (t.ledger from).lamports + n
  paid_at_most true from to n seeds s {t = t} ne h =
      let (after, e, et) = call-ok rt (transfer from to n) seeds s h in
      let m = (moves from to n seeds s.ledger after ne e).0 in rw et (omega (arith, m))
  paid_at_most false from to n seeds s {t = t} ne h = let e : t ≡ s = cc in rw e (omega arith)

  fees_at_most :
      (auth collector signer : Pubkey) (seeds : Seeds) (first : Bool) (fee : ℕ) (s : Tx)
      {u : Unit {0}} {t : Tx}
      → auth ≢ collector
      → auth ≢ signer
      → pay_fees rt auth collector signer seeds first fee s ≡ ok (u, t)
      → (s.ledger auth).lamports ≤ (t.ledger auth).lamports + deploy_fee + fee
  unfolding pay_fees
  fees_at_most auth collector signer seeds first fee s ne1 ne2 h =
      let (_, s', e, h1) =
        >>=-ok
          (when (ltb 0 deploy_fee && first) (invoke rt (transfer auth collector deploy_fee) seeds))
          _ s h in
      omega (
        arith,
        paid_at_most (ltb 0 deploy_fee && first) auth collector deploy_fee seeds s ne1 e,
        paid_at_most (ltb 0 fee && first) auth signer fee seeds s' ne2 h1,
      )

  covers_deposit :
      (total miner_rent fee rent before after : ℕ)
      → before < u64_max
      → strat_required_balance total miner_rent fee rent ≤ before
      → before ≤ after + deploy_fee + fee
      → (total + checkpoint_fee ≤ strat_deposit after rent miner_rent) × (total < u64_max)
  unfolding strat_required_balance required_balance strat_deposit sat_add64
  covers_deposit total miner_rent fee rent before after fits funded paid =
      (omega arith, omega arith)

  -- With transfers that move lamports, a balance below the largest u64 and a manager's address that is
  -- neither the fee collector's nor the signer's: once the limits have been checked, the deposit
  -- covers the batches and the checkpoint fee, and the calls deploy what the batches cost.
  pub funded-by_limits :
      (reads : AsAccountReads rt) (accounts : StratAccounts) (d : StrategyDeployer) (board : Board)
      (result : StrategyResult) (limit auth_id : ℕ) (first : Bool) (s t : Tx)
      → accounts.managed_miner_auth.key ≢ accounts.fee_collector.key
      → accounts.managed_miner_auth.key ≢ accounts.signer.key
      → (s.ledger accounts.managed_miner_auth.key).lamports < u64_max
      → Covers limit result
      → IsWithinLimits rt accounts reads d board result s
      → (spent : IsSpent rt accounts d result auth_id first
          (rent_of_miner rt s accounts.ore_miner.key)
          s
          t)
      → (total_cost result.batches + checkpoint_fee
          ≤ deposit_at rt accounts spent.after_fees result
              (rent_of_miner rt s accounts.ore_miner.key))
        × (deployed t.calls ≡ deployed s.calls + total_cost result.batches)
        × (total_cost result.batches ≡ result.total_to_deploy)
        × (total_cost result.batches ≤ limit)
  funded-by_limits reads accounts d board result limit auth_id first s t ne1 ne2 fits c within
        spent =
      let auth = accounts.managed_miner_auth.key in
      let miner_rent = rent_of_miner rt s accounts.ore_miner.key in
      let fee = strat_fee rt d result in
      let rent = automation_rent_if rt result.needs_automation in
      let paid =
        fees_at_most auth accounts.fee_collector.key accounts.signer.key _ first fee s ne1 ne2
          spent.paid in
      let (enough, small) =
        covers_deposit result.total_to_deploy miner_rent fee rent _ _ fits within.funded paid in
      let exact : total_cost result.batches ≡ result.total_to_deploy = omega (arith, c.exact) in
      let fees = fee_calls auth accounts.fee_collector.key accounts.signer.key first fee in
      let dep = deposit_at rt accounts spent.after_fees result miner_rent in
      (
        omega (arith, enough, exact),
        rw spent.calls (
            omega (
              arith,
              deployed-append s.calls
                  (fees ++ result_calls auth spent.round_ids dep result spent.still_open),
              deployed-append fees (result_calls auth spent.round_ids dep result spent.still_open),
              fee_calls-deployed auth accounts.fee_collector.key accounts.signer.key first fee,
              result_calls-deployed auth spent.round_ids dep limit result spent.still_open c,
            )),
        exact,
        c.within,
      )

module _ (rt : Runtime) (reads : AsAccountReads rt) (moves : TransfersMove rt)
    (accounts : StratAccounts) (auth_id : ℕ) (args : StratArgs) (s t : Tx) where
  open accounts use {managed_miner_auth, ore_miner, board, round}

  -- With a runtime that reads accounts as steel does and moves lamports on a transfer, an amount and a
  -- balance below the largest u64, and a manager's address that is neither the fee collector's nor
  -- the signer's: a strategy autodeploy that succeeds deploys, by its calls, exactly what its
  -- strategy's batches cost, which is the total that it checked and at most the strategy's budget.
  -- Its steps are the fees, if it is the miner's first deployment in the round, and then the result's
  -- deployments; and the deposit with which these open the automation (if the result needs one), from
  -- the balance that the fees leave, covers the batches and the checkpoint fee.
  pub mm_strat_autodeploy-funded :
      args.amount < u64_max
      → (s.ledger managed_miner_auth.key).lamports < u64_max
      → managed_miner_auth.key ≢ accounts.fee_collector.key
      → managed_miner_auth.key ≢ accounts.signer.key
      → process_mm_strat_autodeploy rt accounts auth_id args s ≡ ok (tt, t)
      → let d = strat_deployer_at s accounts.strat_deployer.key in
        (ty : StrategyType) × (result : StrategyResult) × (spent : IsSpent rt accounts d result
          auth_id
          (not (is_deployed rt reads s ore_miner.key (board_at s board.key)))
          (rent_of_miner rt s ore_miner.key)
          s
          t)
        × (strategy_try_from d.strategy_type ≡ ok ty)
        × (strategy_result s d args (board_at s board.key) (round_at s round.key) ≡ ok result)
        × (deployed t.calls ≡ deployed s.calls + total_cost result.batches)
        × (total_cost result.batches ≡ result.total_to_deploy)
        × (total_cost result.batches ≤ budget ty args.amount args.squares_mask)
        × (total_cost result.batches + checkpoint_fee
            ≤ deposit_at rt accounts spent.after_fees result (rent_of_miner rt s ore_miner.key))
  mm_strat_autodeploy-funded small fits ne1 ne2 h =
      let d = strat_deployer_at s accounts.strat_deployer.key in
      let b = board_at s board.key in
      let (_, _, (result, e, within, spent)) =
        mm_strat_autodeploy-calls rt reads accounts auth_id args s h in
      let (ty, known, _, c) =
        dispatch_strategy-Covers d.strategy_type d.strategy_data args.amount args.squares_mask
          args.extra b (round_at s round.key) (record { slot = s.slot }) small e in
      let (covers, deploys, exact, in_budget) =
        funded-by_limits rt moves reads accounts d b result
          (budget ty args.amount args.squares_mask) auth_id _ s t ne1 ne2 fits c within spent in
      (ty, result, spent, known, e, deploys, exact, in_budget, covers)
