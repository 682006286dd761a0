-- ===== src/MmDeploy/Profit.antt =====
-- The profit arithmetic of program/src/processor/process_mm_deploy.rs on one square of the board:
-- `snap_down_u64`, `profit_fraction_fixed_s`, `dmax_for_square_fixed_s`, `optimal_x_for_lambda`.
pub mod Exact
pub mod Ceiling
pub mod Optimum
use evore_program.Prelude.{
  ℕ, ◌+◌, ◌-◌, ◌*◌, ◌/◌, min, ltb, leb, ◌==◌, ◌||◌, if◌then◌else◌, ℤ, pos, negsuc, sat_add128,
  sat_mul128, as_i128, neg_i128, sat_mul_i128, sat_add_i128, sat_abs_i128, leb_ℤ, i128_max, u64_max,
}
use evore_program.MmDeploy.Sqrt.{isqrt_u128}

-- `NUM`, `DEN24` and `C_LAM`
abbrev pub num : ℕ
num = 891

abbrev pub den24 : ℕ
den24 = 24010

abbrev pub c_lam : ℕ
c_lam = 25000

-- The largest multiple of the tick that fits, or 0 if that is below the least bet.
unfoldable pub snap_down_u64 : ℕ → ℕ → ℕ → ℕ
snap_down_u64 amount min_bet tick =
    if amount == 0
    then 0
    else (let a = if ltb 0 tick then amount / tick * tick else amount in
        if ltb a min_bet then 0 else a)

-- `inner_i`: 891 * L - 24010 * (T + x), as an i128
unfoldable pub inner_i : ℕ → ℕ → ℤ
inner_i l tx =
    let inner_pos = sat_mul128 num l in
    let inner_neg = sat_mul128 den24 tx in
    if leb inner_neg inner_pos
    then as_i128 (inner_pos - inner_neg)
    else neg_i128 (as_i128 (inner_neg - inner_pos))

-- `n_sol`: the stake times `inner_i`
unfoldable pub n_sol : ℕ → ℤ → ℤ
n_sol x inner =
    let x_i128 = pos (min x i128_max) in
    if leb_ℤ (pos 0) inner
    then sat_mul_i128 x_i128 inner
    else neg_i128 (sat_mul_i128 x_i128 (sat_abs_i128 inner))

-- `ore_num`: 1000 * x * ore_value, as an i128
unfoldable pub ore_num : ℕ → ℕ → ℤ
ore_num ore x = pos (min (sat_mul128 (sat_mul128 ore x) 1000) i128_max)

-- The expected profit of a stake as a fraction.
unfoldable pub profit_fraction_fixed_s : ℕ → ℕ → ℕ → ℕ → ℤ × ℕ
profit_fraction_fixed_s total_sum ti x ore =
    if x == 0
    then (pos 0, 1)
    else (let tx = sat_add128 ti x in
        let l = total_sum - ti in
        (sat_add_i128 (n_sol x (inner_i l tx)) (ore_num ore x), sat_mul128 c_lam tx))

-- The largest stake on the square whose expected profit is not negative.
unfoldable pub dmax_for_square_fixed_s : ℕ → ℕ → ℕ → ℕ
dmax_for_square_fixed_s total_sum ti ore =
    if leb total_sum ti
    then 0
    else (let l = total_sum - ti in
        let cap = sat_add128 (sat_mul128 num l) (sat_mul128 ore 1000) / den24 in
        if leb cap ti then 0 else (if ltb u64_max (cap - ti) then u64_max else cap - ti))

-- `q`: T * A / B(lambda), of which the optimum is the root
unfoldable pub optimal_q : ℕ → ℕ → ℕ → ℕ → ℕ
optimal_q total_sum ti ore lambda =
    let a = sat_add128 (sat_mul128 num (total_sum - ti)) (sat_mul128 ore 1000) in
    let b_lambda = sat_add128 den24 (sat_mul128 c_lam lambda) in
    if b_lambda == 0 || a == 0 then 0 else sat_mul128 ti a / b_lambda

unfoldable pub optimal_x_for_lambda : ℕ → ℕ → ℕ → ℕ → ℕ
optimal_x_for_lambda total_sum ti ore lambda =
    if ti == 0
    then 0
    else (if leb total_sum ti
        then 0
        else (let q = optimal_q total_sum ti ore lambda in
            if q == 0
            then 0
            else (let root = isqrt_u128 q in if leb root ti then 0 else min (root - ti) u64_max)))
