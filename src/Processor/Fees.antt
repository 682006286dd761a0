-- ===== src/Processor/Fees.antt =====
-- The fee and balance arithmetic that the autodeploy handlers of program/src/processor share, as
-- process_mm_autodeploy.rs has it.
pub mod Bounds
use evore_program.Prelude.{
  ℕ, ◌+◌, ◌-◌, ◌*◌, ◌/◌, ◌%◌, Bool, ◌&&◌, List, sum, ltb, ◌==◌, if◌then◌else◌, sat_add64, sat_mul64,
  u64_mod,
}
use evore_program.OreApi.{checkpoint_fee}

-- `DEPLOY_FEE` of program/src/consts.rs
abbrev pub deploy_fee : ℕ
deploy_fee = 1000

abbrev pub auth_pda_rent : ℕ
auth_pda_rent = 890880

-- The actual fee is above the one expected, if one is expected.
abbrev pub is_unexpected : (expected actual : ℕ) → Bool
is_unexpected expected actual = ltb 0 expected && ltb expected actual

-- `deployer_fee`: the percentage and the flat fee
unfoldable pub deployer_fee : (total_to_deploy bps_fee flat_fee : ℕ) → ℕ
deployer_fee total_to_deploy bps_fee flat_fee =
    let bps_fee_amount = if ltb 0 bps_fee then sat_mul64 total_to_deploy bps_fee / 10000 else 0 in
    sat_add64 bps_fee_amount flat_fee

-- `required_balance`
unfoldable pub required_balance : (total_to_deploy miner_rent fee : ℕ) → ℕ
required_balance total_to_deploy miner_rent fee =
    sat_add64
      (sat_add64
        (sat_add64 (sat_add64 (sat_add64 auth_pda_rent checkpoint_fee) total_to_deploy) miner_rent)
        fee)
      deploy_fee

-- `iter().sum::<u64>()`, which wraps in a release build
unfoldable pub sum_u64 : List ℕ → ℕ
sum_u64 xs = sum xs % u64_mod
