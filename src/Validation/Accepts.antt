-- ===== src/Validation/Accepts.antt =====
-- Which strategy parameters the check accepts.
use evore_program.Prelude.{ℕ, ◌^◌, ◌≤◌, ◌<◌, ◌≡◌, ◌↔◌, ◌⊎◌, refl, arith, List}
use evore_program.Error.{ok, err}
use evore_program.Validation.{
  StrategyType, ev, percentage, manual, split, dynamic_split_percentage, dynamic_ev, field,
  bad_data, validate_strategy_data,
}

-- A motherlode range with both ends set is not empty.
abbrev IsRange : ℕ → ℕ → Type 0
IsRange lo hi = 0 < lo → 0 < hi → lo ≤ hi

abbrev pub Accepts : StrategyType → List ℕ → Type 0
Accepts ev bytes = (0 < field bytes 0) × (0 < field bytes 1)
Accepts percentage bytes =
    (0 < field bytes 0)
    × (field bytes 0 ≤ 10000)
    × (0 < field bytes 1)
    × (field bytes 1 ≤ 25)
    × IsRange (field bytes 2) (field bytes 3)
Accepts manual bytes = Unit {0}
Accepts split bytes = IsRange (field bytes 0) (field bytes 1)
Accepts dynamic_split_percentage bytes =
    (0 < field bytes 0)
    × (field bytes 0 ≤ 10000)
    × (0 < field bytes 1)
    × (field bytes 1 < 2 ^ 25)
    × IsRange (field bytes 2) (field bytes 3)
Accepts dynamic_ev bytes = (0 < field bytes 0) × (0 < field bytes 1)

pub validate_sound :
    (ty : StrategyType) (bytes : List ℕ)
    → validate_strategy_data ty bytes ≡ ok tt
    → Accepts ty bytes
unfolding validate_strategy_data
validate_sound manual bytes h = tt
validate_sound _ bytes h = ground arith

pub validate_complete :
    (ty : StrategyType) (bytes : List ℕ)
    → Accepts ty bytes
    → validate_strategy_data ty bytes ≡ ok tt
unfolding validate_strategy_data
validate_complete manual bytes h = refl
validate_complete _ bytes h = ground arith

validate_error :
    (ty : StrategyType) (bytes : List ℕ)
    → (validate_strategy_data ty bytes ≡ ok tt) ⊎ (validate_strategy_data ty bytes ≡ err bad_data)
unfolding validate_strategy_data
validate_error manual bytes = ground arith
validate_error _ bytes = ground arith

-- For every strategy type and every 64 bytes, the check passes exactly on the parameters that
-- `Accepts` lists, and otherwise fails with `InvalidStrategyData`.
pub validate-Accepts :
    (ty : StrategyType) (bytes : List ℕ)
    → ((validate_strategy_data ty bytes ≡ ok tt) ↔ Accepts ty bytes)
      × ((validate_strategy_data ty bytes ≡ ok tt)
          ⊎ (validate_strategy_data ty bytes ≡ err bad_data))
validate-Accepts ty bytes =
    ((validate_sound ty bytes, validate_complete ty bytes), validate_error ty bytes)
