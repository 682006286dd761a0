-- ===== src/StrategyDispatch.antt =====
-- `dispatch_strategy` of program/src/processor/strategy_dispatch.rs: a strategy type with its 64
-- bytes of parameters, turned into the batches to deploy. Subtractions that the source leaves
-- unchecked wrap, as in a release build.
pub mod Covers
mod Tests
use evore_program.Prelude.{
  ℕ, zero, suc, ◌+◌, ◌-◌, ◌*◌, ◌/◌, Bool, true, false, ◌&&◌, ◌||◌, List, [], ◌∷◌, get_or, ltb, leb,
  ◌==◌, if◌then◌else◌, u64_max, sat_add64, sat_mul64, wrap_sub64, bit, min,
}
use evore_program.Error.{
  evore, too_many_slots_left, no_deployments, invalid_strategy_data, Result, ok, err, ◌>>=◌, ◌>>◌,
  reject_if,
}
use evore_program.OreApi.{Board, Round, Clock}
use evore_program.Validation.{
  StrategyType, strategy_try_from, validate_strategy_data, field, bad_data,
}
use evore_program.MmDeploy.Allocation.{Allocation}
use evore_program.MmDeploy.Batch.{DeploymentBatch, single, all_squares, count_squares, batches_from}
use evore_program.MmDeploy.Percentage.{calculate_percentage_deployments}
use evore_program.MmDeploy.Plan.{plan_max_profit_waterfill}

pub record StrategyResult : Type 0 where
  pub batches : List DeploymentBatch
  pub total_to_deploy : ℕ
  pub needs_automation : Bool

-- The squares whose bits are set in a mask, from square i on.
unfoldable pub squares_of_mask : (mask rounds i : ℕ) → List Bool
squares_of_mask mask zero i = []
squares_of_mask mask (suc rounds) i = bit mask i ∷ squares_of_mask mask rounds (suc i)

-- A result with something to deploy.
unfoldable pub finish : List DeploymentBatch → ℕ → Bool → Result StrategyResult
finish batches total needs_automation =
    if total == 0
    then err (evore no_deployments)
    else ok
        (record { batches = batches; total_to_deploy = total; needs_automation = needs_automation })

-- `(p * t / (10000 - p)).min(u64::MAX)`
unfoldable pub dsp_amount : (p t : ℕ) → ℕ
dsp_amount p t = min (p * t / (10000 - p)) u64_max

-- The loop of `DynamicSplitPercentage` from square i on; the last bet takes what is left.
module _ (p mask : ℕ) (deployed : List ℕ) (bankroll : ℕ) where
  unfoldable pub dsp_from : (rounds i total : ℕ) → List DeploymentBatch × ℕ
  dsp_from zero i total = ([], total)
  dsp_from (suc rounds) i total =
      let t = get_or deployed i 0 in
      let amount_i = dsp_amount p t in
      let skip = dsp_from rounds (suc i) total in
      let rest = dsp_from rounds (suc i) (sat_add64 total amount_i) in
      let remaining = bankroll - total in
      if bit mask i
      then (if t == 0
          then skip
          else (if amount_i == 0
              then skip
              else (if ltb bankroll (sat_add64 total amount_i)
                  then (if ltb 0 remaining
                      then (single remaining i ∷ [], sat_add64 total remaining)
                      else ([], total))
                  else (single amount_i i ∷ rest.0, rest.1))))
      else skip

module _ (bytes : List ℕ) (amount squares_mask extra : ℕ) (board : Board) (round : Round)
    (clock : Clock) where
  -- The plan of an EV strategy as batches.
  unfoldable pub deploy_plan : (min_bet ore_value max_per_square : ℕ) → Result StrategyResult
  deploy_plan min_bet ore_value max_per_square =
      let alloc =
        plan_max_profit_waterfill round.deployed amount min_bet 100 10 ore_value max_per_square in
      finish (batches_from 0 alloc.per_square) alloc.spent true

  unfoldable pub dispatch : StrategyType → Result StrategyResult
  dispatch StrategyType.ev = do
    reject_if (ltb (field bytes 2) (wrap_sub64 board.end_slot clock.slot))
        (evore too_many_slots_left)
    deploy_plan (field bytes 1) (field bytes 3) (field bytes 0)
  dispatch StrategyType.manual = do
    let squares = squares_of_mask squares_mask 25 0
    reject_if (count_squares squares == 0) (evore no_deployments)
    finish (record { amount = amount; squares = squares } ∷ [])
        (sat_mul64 amount (count_squares squares)) false
  dispatch StrategyType.split = do
    reject_if (amount / 25 == 0) (evore no_deployments)
    ok (record {
      batches = all_squares (amount / 25) ∷ [];
      total_to_deploy = amount / 25 * 25;
      needs_automation = false;
    })
  dispatch StrategyType.percentage =
      let (batches, total) =
        calculate_percentage_deployments round.deployed amount (field bytes 0) (field bytes 1) in
      finish batches total true
  dispatch StrategyType.dynamic_split_percentage = do
    let p = field bytes 0
    reject_if (p == 0 || leb 10000 p) (evore no_deployments)
    let placed = dsp_from p (field bytes 1) round.deployed amount 25 0 0
    finish placed.0 placed.1 true
  dispatch StrategyType.dynamic_ev = do
    -- `(u64::from(extra) << 32) | u64::from(squares_mask)`, for a mask below 2^32
    let ore_value = extra * 4294967296 + squares_mask
    let max_ore = field bytes 3
    reject_if (ltb 0 max_ore && ltb max_ore ore_value) bad_data
    reject_if (ltb (field bytes 2) (board.end_slot - clock.slot)) (evore too_many_slots_left)
    deploy_plan (field bytes 1) ore_value (field bytes 0)

unfoldable pub dispatch_strategy :
    (strategy_type_raw : ℕ) (bytes : List ℕ) (amount squares_mask extra : ℕ)
    → Board
    → Round
    → Clock
    → Result StrategyResult
dispatch_strategy strategy_type_raw bytes amount squares_mask extra board round clock = do
  ty ← strategy_try_from strategy_type_raw
  validate_strategy_data ty bytes
  dispatch bytes amount squares_mask extra board round clock ty
