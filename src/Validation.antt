-- ===== src/Validation.antt =====
-- program/src/validation.rs: the strategy types and the check of their parameters. The 64 bytes of
-- strategy data are a list, read in fields of eight bytes.
pub mod Accepts
use evore_program.Prelude.{
  ℕ, ◌+◌, ◌*◌, ◌/◌, ◌^◌, Bool, not, ◌&&◌, ◌||◌, List, ltb, ◌==◌, from_le_bytes, slice,
  if◌then◌else◌,
}
use evore_program.Error.{
  ProgramError, evore, invalid_strategy_type, invalid_strategy_data, Result, ok, err, ◌>>=◌, ◌>>◌,
  reject_if,
}

pub data StrategyType : Type 0 where
  ev percentage manual split dynamic_split_percentage dynamic_ev : StrategyType

-- `StrategyType::try_from`
unfoldable pub strategy_try_from : ℕ → Result StrategyType
strategy_try_from value =
    if value == 0
    then ok ev
    else (if value == 1
        then ok percentage
        else (if value == 2
            then ok manual
            else (if value == 3
                then ok split
                else (if value == 4
                    then ok dynamic_split_percentage
                    else (if value == 5
                        then ok dynamic_ev
                        else err (evore invalid_strategy_type))))))

-- `u64::from_le_bytes(strategy_data[8 * k..8 * k + 8])`
unfoldable pub field : List ℕ → ℕ → ℕ
field strategy_data k = from_le_bytes (slice strategy_data (8 * k) (8 * k + 8))

abbrev pub bad_data : ProgramError
bad_data = evore invalid_strategy_data

-- The motherlode range is set and empty.
abbrev pub is_bad_range : (motherlode_min motherlode_max : ℕ) → Bool
is_bad_range motherlode_min motherlode_max =
    ltb 0 motherlode_min && ltb 0 motherlode_max && ltb motherlode_max motherlode_min

-- `percentage == 0 || percentage > 10_000`
abbrev pub is_bad_percentage : ℕ → Bool
is_bad_percentage p = p == 0 || ltb 10000 p

-- `squares_mask & !0x1FF_FFFF != 0`: a bit above the 25 squares is set.
abbrev pub has_bits_above_board : ℕ → Bool
has_bits_above_board squares_mask = not (squares_mask / 2 ^ 25 == 0)

unfoldable pub validate_strategy_data : StrategyType → List ℕ → Result (Unit {0})
validate_strategy_data ev data_bytes = do
  reject_if (field data_bytes 0 == 0) bad_data
  reject_if (field data_bytes 1 == 0) bad_data
  ok tt
validate_strategy_data percentage data_bytes = do
  reject_if (is_bad_percentage (field data_bytes 0)) bad_data
  reject_if (field data_bytes 1 == 0 || ltb 25 (field data_bytes 1)) bad_data
  reject_if (is_bad_range (field data_bytes 2) (field data_bytes 3)) bad_data
  ok tt
validate_strategy_data manual data_bytes = ok tt
validate_strategy_data split data_bytes = do
  reject_if (is_bad_range (field data_bytes 0) (field data_bytes 1)) bad_data
  ok tt
validate_strategy_data dynamic_split_percentage data_bytes = do
  reject_if (is_bad_percentage (field data_bytes 0)) bad_data
  reject_if (field data_bytes 1 == 0) bad_data
  reject_if (has_bits_above_board (field data_bytes 1)) bad_data
  reject_if (is_bad_range (field data_bytes 2) (field data_bytes 3)) bad_data
  ok tt
validate_strategy_data dynamic_ev data_bytes = do
  reject_if (field data_bytes 0 == 0) bad_data
  reject_if (field data_bytes 1 == 0) bad_data
  ok tt

-- `StrategyType::try_from` and then `validate_strategy_data`, as the handlers call them.
unfoldable pub check_strategy : (strategy_type_raw : ℕ) → List ℕ → Result (Unit {0})
check_strategy strategy_type_raw strategy_data = do
  ty ← strategy_try_from strategy_type_raw
  validate_strategy_data ty strategy_data
