-- ===== src/StrategyDispatch/Covers.antt =====
-- What a successful dispatch promises the caller that pays for it.
use evore_program.Prelude.{
  ℕ, zero, suc, ◌+◌, ◌-◌, ◌*◌, ◌/◌, ◌≤◌, ◌<◌, ◌≡◌, refl, arith, true, false, List, [], ◌∷◌, get_or,
  ltb, ◌==◌, u64_max, sat_add64, sat_mul64, ◌&&◌, min,
}
use evore_program.Error.{evore, no_deployments, too_many_slots_left, Result, ok}
use evore_program.Error.Codes.{>>=-eq-ok, reject_if-eq-ok}
use evore_program.OreApi.{Board, Round, Clock}
use evore_program.Validation.{
  StrategyType, strategy_try_from, validate_strategy_data, field, bad_data,
}
use evore_program.MmDeploy.Batch.{DeploymentBatch, all_squares, count_squares, batches_from}
use evore_program.MmDeploy.Batch.Cost.{
  batch_cost, total_cost, AllPositive, single-cost, all_squares-cost, batches_from-cost,
  batches_from-AllPositive,
}
use evore_program.MmDeploy.Calculate.Totals.{plan-IsSound}
use evore_program.MmDeploy.Percentage.Within.{calculate_percentage-within}
use evore_program.MmDeploy.Plan.{plan_max_profit_waterfill}
use evore_program.StrategyDispatch.{
  StrategyResult, squares_of_mask, finish, dsp_amount, dsp_from, deploy_plan, dispatch,
  dispatch_strategy,
}

module _ (p mask : ℕ) (deployed : List ℕ) (bankroll : ℕ) (fits : bankroll < u64_max) where
  -- What the loop of the dynamic split adds to a total.
  pub dsp_from-Within :
      (rounds i total : ℕ)
      → i + rounds ≤ 25
      → total ≤ bankroll
      → let (batches, after) = dsp_from p mask deployed bankroll rounds i total in
        (total + total_cost batches ≡ after) × (after ≤ bankroll) × AllPositive batches
  unfolding dsp_from sat_add64
  dsp_from-Within zero i total h le = (omega arith, le, tt)
  dsp_from-Within (suc rounds) i total h le =
      let a = dsp_amount p (get_or deployed i 0) in
      ground (
        arith,
        single-cost a i,
        single-cost (bankroll - total) i,
        dsp_from-Within rounds (suc i) total,
        dsp_from-Within rounds (suc i) (min (total + a) u64_max),
      )

-- What the strategy may spend: `amount`, or `amount` on each chosen square.
abbrev pub budget : StrategyType → (amount squares_mask : ℕ) → ℕ
budget StrategyType.manual amount squares_mask =
    amount * count_squares (squares_of_mask squares_mask 25 0)
budget _ amount squares_mask = amount

-- The total is positive and what the batches cost, cut off at the largest u64; they keep to the
-- budget, each deploys something, and without automation there is just one.
pub record Covers (limit : ℕ) (r : StrategyResult) : Type 0 where
  pub positive : 0 < r.total_to_deploy
  pub exact : r.total_to_deploy ≡ min (total_cost r.batches) u64_max
  pub within : total_cost r.batches ≤ limit
  pub all_positive : AllPositive r.batches
  pub one_batch : r.needs_automation ≡ false → (b : DeploymentBatch) × (r.batches ≡ b ∷ [])

finish-Covers :
    (batches : List DeploymentBatch) (total limit : ℕ) {r : StrategyResult}
    → total_cost batches ≡ total
    → total ≤ limit
    → limit ≤ u64_max
    → AllPositive batches
    → finish batches total true ≡ ok r
    → Covers limit r
unfolding finish
finish-Covers batches total limit e le fits pos h = ground arith

-- A result with the one batch b.
single-Covers :
    (b : DeploymentBatch) (total limit : ℕ) {r : StrategyResult}
    → 0 < batch_cost b
    → 0 < total
    → total ≡ min (batch_cost b) u64_max
    → batch_cost b ≤ limit
    → ◌≡◌ {A = Result StrategyResult}
        (ok (record { batches = b ∷ []; total_to_deploy = total; needs_automation = false }))
        (ok r)
    → Covers limit r
single-Covers b total limit costs pos e le h = record {
  positive = ground arith;
  exact = ground arith;
  within = ground arith;
  all_positive = ground arith;
  one_batch = λ _. (b, ground arith);
}

finish_single :
    (b : DeploymentBatch) (total : ℕ) {r : StrategyResult}
    → finish (b ∷ []) total false ≡ ok r
    → (0 < total)
      × ◌≡◌ {A = Result StrategyResult}
          (ok (record { batches = b ∷ []; total_to_deploy = total; needs_automation = false }))
          (ok r)
unfolding finish
finish_single b total h = ground arith

sat_mul64-eq : (a b : ℕ) → sat_mul64 a b ≡ min (a * b) u64_max
unfolding sat_mul64
sat_mul64-eq a b = refl

module _ (bytes : List ℕ) (amount squares_mask extra : ℕ) (board : Board) (round : Round)
    (clock : Clock) (fits : amount < u64_max) where
  deploy_plan-Covers :
      (min_bet ore max : ℕ) {r : StrategyResult}
      → deploy_plan bytes amount squares_mask extra board round clock min_bet ore max ≡ ok r
      → Covers amount r
  unfolding deploy_plan
  deploy_plan-Covers min_bet ore max h =
      let s = plan-IsSound round.deployed amount min_bet ore max (omega arith) in
      let alloc = plan_max_profit_waterfill round.deployed amount min_bet 100 10 ore max in
      let cost = batches_from-cost 0 alloc.per_square (omega (arith, s.squares)) in
      finish-Covers (batches_from 0 alloc.per_square) alloc.spent amount
        (omega (arith, cost, s.accounted)) s.within (omega arith)
        (batches_from-AllPositive 0 alloc.per_square (omega (arith, s.squares))) h

  dispatch-Covers :
      (ty : StrategyType) {r : StrategyResult}
      → dispatch bytes amount squares_mask extra board round clock ty ≡ ok r
      → Covers (budget ty amount squares_mask) r
  unfolding dispatch
  dispatch-Covers StrategyType.ev h = deploy_plan-Covers _ _ _ (reject_if-eq-ok _ _ _ h).1
  dispatch-Covers StrategyType.percentage h =
      let (c, le, pos) =
        calculate_percentage-within round.deployed amount (field bytes 0) (field bytes 1)
          (omega arith) in
      finish-Covers _ _ amount c le (omega arith) pos h
  dispatch-Covers StrategyType.manual h =
      let squares = squares_of_mask squares_mask 25 0 in
      let b : DeploymentBatch = record { amount = amount; squares = squares } in
      let e = sat_mul64-eq amount (count_squares squares) in
      let (some, h') =
        finish_single b (sat_mul64 amount (count_squares squares)) (reject_if-eq-ok _ _ _ h).1 in
      single-Covers b (sat_mul64 amount (count_squares squares)) (amount * count_squares squares)
        (omega (arith, some, e)) some e (omega arith) h'
  dispatch-Covers StrategyType.split h =
      let (some, h') = reject_if-eq-ok (amount / 25 == 0) (evore no_deployments) _ h in
      let cost = all_squares-cost (amount / 25) in
      let pos : 0 < amount / 25 * 25 = ground arith in
      single-Covers (all_squares (amount / 25)) _ _ (omega (arith, pos, cost)) pos
        (omega (arith, cost)) (omega (arith, cost)) h'
  dispatch-Covers StrategyType.dynamic_split_percentage h =
      let (c, le, pos) =
        dsp_from-Within (field bytes 0) (field bytes 1) round.deployed amount fits 25 0 0
          (omega arith) (omega arith) in
      finish-Covers _ _ amount (omega (arith, c)) le (omega arith) pos (reject_if-eq-ok _ _ _ h).1
  dispatch-Covers StrategyType.dynamic_ev h =
      let ore_value = extra * 4294967296 + squares_mask in
      let (_, h1) =
        reject_if-eq-ok (ltb 0 (field bytes 3) && ltb (field bytes 3) ore_value) bad_data _ h in
      let (_, h2) =
        reject_if-eq-ok (ltb (field bytes 2) (board.end_slot - clock.slot))
          (evore too_many_slots_left) _ h1 in
      deploy_plan-Covers (field bytes 1) (extra * 4294967296 + squares_mask) (field bytes 0) h2

-- For an amount below the largest u64 and any type byte, parameters, mask, board, round and clock,
-- a dispatch that succeeds has a known strategy type whose parameters pass the check. Its total is
-- positive and what its batches cost, cut off at the largest u64; they cost at most the amount (for
-- the manual strategy, the amount on each chosen square), each deploys something, and a result that
-- needs no automation has exactly one batch.
pub dispatch_strategy-Covers :
    (raw : ℕ) (bytes : List ℕ) (amount squares_mask extra : ℕ) (board : Board) (round : Round)
    (clock : Clock) {r : StrategyResult}
    → amount < u64_max
    → dispatch_strategy raw bytes amount squares_mask extra board round clock ≡ ok r
    → (ty : StrategyType) × (strategy_try_from raw ≡ ok ty)
      × (validate_strategy_data ty bytes ≡ ok tt)
      × Covers (budget ty amount squares_mask) r
unfolding dispatch_strategy
dispatch_strategy-Covers raw bytes amount squares_mask extra board round clock fits h =
    let (ty, e, h1) = >>=-eq-ok (strategy_try_from raw) _ h in
    let (u, e1, h2) = >>=-eq-ok (validate_strategy_data ty bytes) _ h1 in
    (ty, e, e1, dispatch-Covers bytes amount squares_mask extra board round clock fits ty h2)
