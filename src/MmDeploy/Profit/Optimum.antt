-- ===== src/MmDeploy/Profit/Optimum.antt =====
-- `optimal_x_for_lambda` solves the first-order condition of its square.
use evore_program.Prelude.{
  ℕ, suc, ◌+◌, ◌-◌, ◌*◌, ◌/◌, ◌≤◌, ◌<◌, ◌≡◌, ◌≢◌, ◌==◌, false, arith, min, u64_max, u128_max,
  sat_add128, sat_mul128,
}
use evore_program.MmDeploy.Sqrt.{isqrt_u128}
use evore_program.MmDeploy.Sqrt.Newton.{IsFloorRoot, isqrt_u128-IsFloorRoot}
use evore_program.MmDeploy.Profit.{optimal_q, optimal_x_for_lambda}
use evore_program.MmDeploy.Profit.Exact.{pool_max, price_max}
use native.Mathlib.Nat.{mul-le-mul, le-div_iff_mul-le, div-lt_iff_lt-mul}

module _ (total_sum ti ore lambda : ℕ) where
  -- A positive optimum is the distance from T to the root of q.
  optimal_x-root :
      optimal_q total_sum ti ore lambda ≢ 2
      → 0 < optimal_x_for_lambda total_sum ti ore lambda
      → optimal_x_for_lambda total_sum ti ore lambda < u64_max
      → IsFloorRoot
          (optimal_q total_sum ti ore lambda)
          (ti + optimal_x_for_lambda total_sum ti ore lambda)
  unfolding optimal_x_for_lambda
  optimal_x-root ne pos small =
      rw (root-eq pos small) (isqrt_u128-IsFloorRoot (optimal_q total_sum ti ore lambda) ne)
    where
      root-eq :
          0 < optimal_x_for_lambda total_sum ti ore lambda
          → optimal_x_for_lambda total_sum ti ore lambda < u64_max
          → ti + optimal_x_for_lambda total_sum ti ore lambda
            ≡ isqrt_u128 (optimal_q total_sum ti ore lambda)
      root-eq pos small = ground arith

  -- The pool's value A and the penalised cost B(lambda), as the source's comment has them.
  abbrev pub gain : ℕ
  gain = 891 * (total_sum - ti) + 1000 * ore

  abbrev pub cost : ℕ
  cost = 24010 + 25000 * lambda

  optimal_q-exact :
      total_sum ≤ pool_max
      → ti ≤ pool_max
      → ore ≤ price_max
      → lambda ≤ u64_max
      → 0 < gain
      → optimal_q total_sum ti ore lambda ≡ ti * gain / cost
  unfolding optimal_q sat_mul128 sat_add128
  optimal_q-exact pool square price small some_gain =
      let e1 : min (min (891 * (total_sum - ti)) u128_max + min (ore * 1000) u128_max) u128_max
          ≡ gain =
        omega arith in
      let e2 : min (24010 + min (25000 * lambda) u128_max) u128_max ≡ cost = omega arith in
      let bound : ti * gain ≤ pool_max * (891 * pool_max + 1000 * price_max) =
        mul-le-mul {m₂ = 891 * pool_max + 1000 * price_max} square (omega arith) in
      let e3 : min (ti * gain) u128_max ≡ ti * gain = omega arith in
      rw (e1, e2, e3, positive gain some_gain, positive cost (omega arith))
    where
      positive : (n : ℕ) → 0 < n → (n == 0) ≡ false
      positive n h = ground arith

  losers : 0 < optimal_x_for_lambda total_sum ti ore lambda → ti < total_sum
  unfolding optimal_x_for_lambda
  losers h = ground arith

  -- With pools of at most 2^55 lamports, a price of at most 2^60 and any u64 lambda, a positive
  -- optimum x below the u64 ceiling is the largest stake with B (T + x)^2 <= T A, where
  -- A = 891 L + 1000 ore and B = 24010 + 25000 lambda, unless T A / B is 2.
  pub optimal_x-first_order :
      total_sum ≤ pool_max
      → ti ≤ pool_max
      → ore ≤ price_max
      → lambda ≤ u64_max
      → ti * gain / cost ≢ 2
      → let x = optimal_x_for_lambda total_sum ti ore lambda in
        0 < x
        → x < u64_max
        → ((ti + x) * (ti + x) * cost ≤ ti * gain)
          × (ti * gain < suc (ti + x) * suc (ti + x) * cost)
  optimal_x-first_order pool square price small ne pos below =
      let some_gain : 0 < gain = omega (arith, losers pos) in
      let e = optimal_q-exact pool square price small some_gain in
      let root = rw e at (optimal_x-root (rw e ne) pos below) in
      let cost_pos : 0 < cost = omega arith in
      ((le-div_iff_mul-le cost_pos).0 root.below, (div-lt_iff_lt-mul cost_pos).0 root.above)
