-- ===== src/StrategyDispatch/Tests.antt =====
-- A dispatch of each kind on one board, and the theorems about it there.
use evore_program.Prelude.{
  ℕ, ◌≡◌, ◌↔◌, ◌⊎◌, arith, List, [], ◌∷◌, ◌++◌, replicate, to_le_bytes, refl, true, bit,
  from_le_bytes, slice, sat_add64,
}
use evore_program.Error.{ok, err}
use evore_program.OreApi.{Board, Round, Clock}
use evore_program.Validation.{
  StrategyType, strategy_try_from, validate_strategy_data, bad_data, field,
}
use evore_program.Validation.Accepts.{Accepts, validate-Accepts}
use evore_program.MmDeploy.Batch.{single}
use evore_program.StrategyDispatch.{
  StrategyResult, dispatch_strategy, dispatch, finish, dsp_from, dsp_amount,
}
use evore_program.StrategyDispatch.Covers.{Covers, budget, dispatch_strategy-Covers}

abbrev board : Board
board = record { round_id = 7; start_slot = 1000; end_slot = 1150; epoch_id = 1 }

abbrev round : Round
round = record {
  id = 7;
  deployed = 1000 ∷ 3000 ∷ replicate 23 0;
  slot_hash = replicate 32 0;
  count = 1 ∷ 1 ∷ replicate 23 0;
  expires_at = 0;
  motherlode = 0;
  rent_payer = 0;
  top_miner = 0;
  top_miner_reward = 0;
  total_deployed = 4000;
  total_miners = 1;
  total_vaulted = 0;
  total_winnings = 0;
}

abbrev clock : Clock
clock = record { slot = 1148 }

-- Half of the pools of the first two squares.
abbrev bytes : List ℕ
bytes = to_le_bytes 8 5000 ++ to_le_bytes 8 3 ++ replicate 48 0

abbrev dispatched : StrategyResult
dispatched = record {
  batches = single 1000 0 ∷ single 500 1 ∷ [];
  total_to_deploy = 1500;
  needs_automation = true;
}

dispatch_runs : dispatch_strategy 4 bytes 1500 0 0 board round clock ≡ ok dispatched
unfolding dispatch_strategy strategy_try_from validate_strategy_data field from_le_bytes slice
    to_le_bytes dispatch finish dsp_from bit dsp_amount sat_add64
dispatch_runs = refl

dispatch_strategy-Covers_example :
    (ty : StrategyType) × (strategy_try_from 4 ≡ ok ty)
    × (validate_strategy_data ty bytes ≡ ok tt)
    × Covers (budget ty 1500 0) dispatched
dispatch_strategy-Covers_example =
    dispatch_strategy-Covers 4 bytes 1500 0 0 board round clock (omega arith) dispatch_runs

validate-Accepts_example :
    ((validate_strategy_data StrategyType.percentage bytes ≡ ok tt)
      ↔ Accepts StrategyType.percentage bytes)
    × ((validate_strategy_data StrategyType.percentage bytes ≡ ok tt)
        ⊎ (validate_strategy_data StrategyType.percentage bytes ≡ err bad_data))
validate-Accepts_example = validate-Accepts StrategyType.percentage bytes
