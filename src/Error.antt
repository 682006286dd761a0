-- ===== src/Error.antt =====
-- program/src/error.rs, and the results of the program's fallible functions. `ProgramError` has the
-- runtime's errors that the program returns itself; `external` is one that a call reports.
pub mod Codes
use evore_program.Prelude.{ℕ, Bool, true, false}

pub data EvoreError : Type 0 where
  not_authorized too_many_slots_left end_slot_reached invalid_pda manager_not_initialized
        invalid_fee_collector no_deployments arithmetic_overflow already_deployed_this_round
        deployer_not_initialized invalid_deploy_authority unexpected_fee
        deployer_already_initialized insufficient_autodeploy_balance nothing_to_recycle
        invalid_batch_size deployer_already_migrated already_initialized exceeds_max_per_round
        invalid_strategy_type invalid_strategy_data strat_deployer_not_initialized :
      EvoreError

-- The `repr(u32)` of an error.
unfoldable pub error_code : EvoreError → ℕ
error_code not_authorized = 1
error_code too_many_slots_left = 2
error_code end_slot_reached = 3
error_code invalid_pda = 4
error_code manager_not_initialized = 5
error_code invalid_fee_collector = 6
error_code no_deployments = 7
error_code arithmetic_overflow = 8
error_code already_deployed_this_round = 9
error_code deployer_not_initialized = 10
error_code invalid_deploy_authority = 11
error_code unexpected_fee = 12
error_code deployer_already_initialized = 13
error_code insufficient_autodeploy_balance = 14
error_code nothing_to_recycle = 15
error_code invalid_batch_size = 16
error_code deployer_already_migrated = 17
error_code already_initialized = 18
error_code exceeds_max_per_round = 19
error_code invalid_strategy_type = 20
error_code invalid_strategy_data = 21
error_code strat_deployer_not_initialized = 22

pub data ProgramError : Type 0 where
  evore : EvoreError → ProgramError
  invalid_instruction_data invalid_account_data incorrect_program_id missing_required_signature
        not_enough_account_keys account_already_initialized :
      ProgramError
  external : ℕ → ProgramError

pub data Result {ℓ} (T : Type ℓ) : Type ℓ where
  ok : T → Result T
  err : ProgramError → Result T

-- `if c { return Err(e) }`
abbrev pub reject_if : Bool → ProgramError → Result (Unit {0})
reject_if true e = err e
reject_if false e = ok tt

-- `?`: the rest of a function after a fallible step.
infixl 5 ◌>>=◌ ◌>>◌
abbrev pub ◌>>=◌ {ℓ κ} : {T : Type ℓ} {U : Type κ} → Result T → (T → Result U) → Result U
err e >>= rest = err e
ok x >>= rest = rest x

abbrev pub ◌>>◌ {κ} : {U : Type κ} → Result (Unit {0}) → Result U → Result U
step >> rest = step >>= λ _. rest
