-- ===== src/MmDeploy/Profit/Exact.antt =====
-- The saturating arithmetic of `profit_fraction_fixed_s` is exact for pools of up to 2^55 lamports,
-- some 36 million SOL.
use evore_program.Prelude.{
  ℕ, ◌+◌, ◌-◌, ◌*◌, ◌≤◌, ◌<◌, ◌≡◌, ◌↔◌, arith, pos, sub_ℕ, ◌<ℤ◌, sat_add128, sat_mul128, as_i128,
  neg_i128, sat_mul_i128, sat_add_i128, sat_abs_i128, u128_max, min, ◌==◌, false,
}
use evore_program.MmDeploy.Profit.{inner_i, n_sol, ore_num, profit_fraction_fixed_s}
use native.Mathlib.Nat.{mul-le-mul, mul-sub, lt_of_mul-lt-mul_left, mul-lt-mul_of_pos_left}

-- 2^55 and 2^60
abbrev pub pool_max : ℕ
pool_max = 36028797018963968

abbrev pub price_max : ℕ
price_max = 1152921504606846976

inner_i-exact :
    (l tx : ℕ) → l ≤ pool_max → tx ≤ 2 * pool_max → inner_i l tx ≡ sub_ℕ (891 * l) (24010 * tx)
unfolding inner_i sat_mul128 as_i128 neg_i128
inner_i-exact l tx hl ht = ground arith

-- 2^71
abbrev inner_max : ℕ
inner_max = 2361183241434822606848

n_sol-exact :
    (x a b : ℕ)
    → x ≤ pool_max
    → a ≤ inner_max
    → b ≤ inner_max
    → n_sol x (sub_ℕ a b) ≡ sub_ℕ (x * a) (x * b)
unfolding n_sol sat_mul_i128 neg_i128 sat_abs_i128
n_sol-exact x a b hx ha hb =
    ground (arith, mul-le-mul hx ha, mul-le-mul hx hb, mul-sub x a b, mul-sub x b a)

ore_num-exact : (ore x : ℕ) → ore ≤ price_max → x ≤ pool_max → ore_num ore x ≡ pos (ore * x * 1000)
unfolding ore_num sat_mul128
ore_num-exact ore x ho hx = ground (arith, mul-le-mul ho hx)

-- The sum of the two parts fits an i128.
total-exact :
    (a b o : ℕ)
    → a ≤ pool_max * inner_max
    → b ≤ pool_max * inner_max
    → o ≤ price_max * pool_max * 1000
    → sat_add_i128 (sub_ℕ a b) (pos o) ≡ sub_ℕ (a + o) b
unfolding sat_add_i128
total-exact a b o ha hb ho = ground arith

sub-pos_iff : (a b : ℕ) → (pos 0 <ℤ sub_ℕ a b) ↔ (b < a)
sub-pos_iff a b = (λ h. ground arith, λ h. ground arith)

-- The stake cancels from the sign of the profit.
gain_iff :
    (x p q ore : ℕ)
    → 0 < x
    → (pos 0 <ℤ sub_ℕ (x * p + ore * x * 1000) (x * q)) ↔ (q < p + 1000 * ore)
gain_iff x p q ore h =
    let factor : x * p + ore * x * 1000 ≡ x * (p + 1000 * ore) = omega arith in
    rw factor (
      λ g. lt_of_mul-lt-mul_left x ((sub-pos_iff (x * (p + 1000 * ore)) (x * q)).0 g),
      λ g. (sub-pos_iff (x * (p + 1000 * ore)) (x * q)).1 (mul-lt-mul_of_pos_left g h),
    )

module _ (total_sum ti x ore : ℕ) (pool : total_sum ≤ pool_max) (square : ti ≤ pool_max)
    (stake : x ≤ pool_max) (price : ore ≤ price_max) where
  -- For a positive stake, pools and stakes of at most 2^55 lamports and an ORE price of at most 2^60,
  -- no step saturates: the numerator is x (891 L - 24010 (T + x)) + 1000 x ore as an integer, and
  -- the denominator 25000 (T + x).
  pub profit_fraction-exact :
      0 < x
      → profit_fraction_fixed_s total_sum ti x ore ≡ (
        sub_ℕ (x * (891 * (total_sum - ti)) + ore * x * 1000) (x * (24010 * (ti + x))),
        25000 * (ti + x),
      )
  unfolding profit_fraction_fixed_s sat_add128 sat_mul128
  profit_fraction-exact h =
      let l = total_sum - ti in
      let e1 : min (ti + x) u128_max ≡ ti + x = omega arith in
      let e2 : min (25000 * (ti + x)) u128_max ≡ 25000 * (ti + x) = omega arith in
      let a = 891 * l in
      let b = 24010 * (ti + x) in
      let ha : a ≤ inner_max = omega arith in
      let hb : b ≤ inner_max = omega arith in
      rw (
        pos-ne x h,
        e1,
        e2,
        inner_i-exact l (ti + x) (omega arith) (omega arith),
        n_sol-exact x a b stake ha hb,
        ore_num-exact ore x price stake,
        total-exact (x * a) (x * b) (ore * x * 1000) (mul-le-mul stake ha) (mul-le-mul stake hb)
            (omega (arith, mul-le-mul price stake)),
      )
    where
      pos-ne : (n : ℕ) → 0 < n → (n == 0) ≡ false
      pos-ne n h = ground arith

  -- For a positive stake, pools and stakes of at most 2^55 lamports and an ORE price of at most 2^60,
  -- the numerator of the expected profit is positive exactly if 24010 (T + x) < 891 L + 1000 ore.
  pub profit_fraction-gains_iff :
      0 < x
      → (pos 0 <ℤ (profit_fraction_fixed_s total_sum ti x ore).0)
        ↔ (24010 * (ti + x) < 891 * (total_sum - ti) + 1000 * ore)
  profit_fraction-gains_iff h =
      rw (profit_fraction-exact h) (gain_iff x (891 * (total_sum - ti)) (24010 * (ti + x)) ore h)
