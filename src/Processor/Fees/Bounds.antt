-- ===== src/Processor/Fees/Bounds.antt =====
-- What the balance check leaves once all is paid.
use evore_program.Prelude.{ℕ, ◌+◌, ◌≤◌, ◌<◌, ◌≡◌, false, arith, sat_add64, u64_max, ltb}
use evore_program.OreApi.{checkpoint_fee}
use evore_program.Processor.Fees.{required_balance, auth_pda_rent, deploy_fee}

-- A balance below the largest u64 that passes the check covers the rent, the checkpoint fee, the
-- deployment, the miner's rent and both fees, with no saturation.
pub required_balance-covers :
    (total miner_rent fee balance : ℕ)
    → balance < u64_max
    → ltb balance (required_balance total miner_rent fee) ≡ false
    → auth_pda_rent + checkpoint_fee + total + miner_rent + fee + deploy_fee ≤ balance
unfolding required_balance sat_add64
required_balance-covers total miner_rent fee balance fits h = ground arith
