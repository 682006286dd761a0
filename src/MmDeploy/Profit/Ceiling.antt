-- ===== src/MmDeploy/Profit/Ceiling.antt =====
-- `dmax_for_square_fixed_s` is the break-even stake.
use evore_program.Prelude.{ℕ, ◌+◌, ◌-◌, ◌*◌, ◌≤◌, ◌<◌, ◌↔◌, arith, sat_add128, sat_mul128, u64_max}
use evore_program.MmDeploy.Profit.{dmax_for_square_fixed_s}
use evore_program.MmDeploy.Profit.Exact.{pool_max, price_max}

-- With pools of at most 2^55 lamports and a price of at most 2^60, a positive stake that fits a u64
-- is within the ceiling exactly if other squares hold lamports and its expected profit is not
-- negative: 24010 (T + x) <= 891 L + 1000 ore.
pub dmax-break_even :
    (total_sum ti x ore : ℕ)
    → total_sum ≤ pool_max
    → ore ≤ price_max
    → x ≤ u64_max
    → 0 < x
    → (x ≤ dmax_for_square_fixed_s total_sum ti ore)
      ↔ ((ti < total_sum) × (24010 * (ti + x) ≤ 891 * (total_sum - ti) + 1000 * ore))
unfolding dmax_for_square_fixed_s sat_add128 sat_mul128
dmax-break_even total_sum ti x ore pool price fits h = (λ le. ground arith, λ g. ground arith)
