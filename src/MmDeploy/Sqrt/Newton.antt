-- ===== src/MmDeploy/Sqrt/Newton.antt =====
-- What the integer square root returns.
use evore_program.Prelude.{
  ℕ, zero, suc, ◌+◌, ◌-◌, ◌*◌, ◌/◌, ◌≤◌, ◌<◌, ◌≡◌, ◌≢◌, refl, arith, true, false, ltb, dec_lt,
}
use evore_program.Prelude.Order.{lt_wf}
use evore_program.MmDeploy.Sqrt.{newton_step, isqrt_loop, isqrt_u128}
use native.Mathlib.Bridge.{le_prop}
use mathlib.Core.WellFounded.{Acc}
use mathlib.Core.Logic.{dif_pos, dif_neg}
use native.Mathlib.Nat.{
  lt-mul-div-succ, mul-div-le, mul-le-mul, mul-le-mul_left, le_trans, le-div_iff_mul-le,
}

lt→ltb : (a b : ℕ) → a < b → ltb a b ≡ true
lt→ltb a b h = ground arith

nlt→ltb : (a b : ℕ) → ¬ (a < b) → ltb a b ≡ false
nlt→ltb a b h = ground arith

-- `r` is the floor of the square root of `n`.
pub record IsFloorRoot (n r : ℕ) : Type 0 where
  pub below : r * r ≤ n
  pub above : n < suc r * suc r

-- Four times a product is at most the square of the sum.
am_gm_ordered : (x d : ℕ) → 4 * (x * (x + d)) ≤ (x + (x + d)) * (x + (x + d))
am_gm_ordered x d = omega arith

am_gm : (x y : ℕ) → 4 * (x * y) ≤ (x + y) * (x + y)
am_gm x y = elim (dec_lt x y) [
  | yes h ↦ rw (le-split x y (omega arith)) (am_gm_ordered x (y - x))
  | no h ↦ rw (le-split y x (omega arith)) (omega (arith, am_gm_ordered y (x - y)))
]
  where
    le-split : (a b : ℕ) → a ≤ b → b ≡ a + (b - a)
    le-split a b h = omega arith

-- One step of Newton's iteration never falls below the root.
newton_step-above : (n x : ℕ) → 0 < x → n < suc (newton_step n x) * suc (newton_step n x)
unfolding newton_step
newton_step-above n x h =
    let q = n / x in
    let s = (x + q) / 2 in
    let room : n < x * (q + 1) = lt-mul-div-succ n h in
    let wide : x + (q + 1) ≤ 2 * suc s = omega arith in
    let square : (x + (q + 1)) * (x + (q + 1)) ≤ 2 * suc s * (2 * suc s) = mul-le-mul wide wide in
    omega (arith, am_gm x (q + 1), room, square)

-- A step that does not go down ends at or below the root.
newton_step-stuck : (n x : ℕ) → 0 < x → x ≤ newton_step n x → x * x ≤ n
unfolding newton_step
newton_step-stuck n x h le = le_trans (mul-le-mul_left x (omega arith)) (mul-div-le n x)

newton_step-pos : (n x : ℕ) → 0 < x → x ≤ n → 0 < newton_step n x
unfolding newton_step
newton_step-pos n x h le =
    let one : 1 ≤ n / x = (le-div_iff_mul-le h).1 (omega arith) in omega (arith, one)

-- The loop, entered with `x1` the step from `x0`, returns the root.
isqrt_loop-IsFloorRoot :
    (n x0 x1 : ℕ) (w : Acc ◌<◌ x0)
    → x1 ≡ newton_step n x0
    → 0 < x0
    → x0 ≤ n
    → n < suc x0 * suc x0
    → IsFloorRoot n (isqrt_loop n x0 x1 w)
unfolding isqrt_loop
isqrt_loop-IsFloorRoot n x0 x1 (Acc.intro _ smaller) e pos le up = elim (dec_lt x1 x0) [
  | yes h ↦ rw (dif_pos (dec_lt x1 x0) le_prop h) (
      isqrt_loop-IsFloorRoot n x1 (newton_step n x1) (smaller x1 h) refl
        (rw e (newton_step-pos n x0 pos le)) (omega arith) (rw e (newton_step-above n x0 pos)))
  | no h ↦
      rw (dif_neg (dec_lt x1 x0) h)
        (record { below = newton_step-stuck n x0 pos (omega (arith, e)); above = up })
]

-- Entered as the source enters it, at `x0 = n`: the first step goes down from 3 on.
isqrt_loop_start : (n : ℕ) (w : Acc ◌<◌ n) → 3 ≤ n → IsFloorRoot n (isqrt_loop n n (n / 2 + 1) w)
unfolding isqrt_loop
isqrt_loop_start n (Acc.intro _ smaller) h = rw (dif_pos (dec_lt (n / 2 + 1) n) le_prop (first h)) (
    isqrt_loop-IsFloorRoot n (n / 2 + 1) (newton_step n (n / 2 + 1)) (smaller (n / 2 + 1) (first h))
      refl (omega arith) (omega arith) (omega arith))
  where
    first : 3 ≤ n → n / 2 + 1 < n
    first h = omega arith

IsFloorRoot-small : (n : ℕ) → n < 2 → IsFloorRoot n n
IsFloorRoot-small zero h = omega arith
IsFloorRoot-small (suc zero) h = omega arith
IsFloorRoot-small (suc (suc n)) h = absurd (omega arith)

-- For every n other than 2, `isqrt_u128 n` is the floor of the square root of n.
pub isqrt_u128-IsFloorRoot : (n : ℕ) → n ≢ 2 → IsFloorRoot n (isqrt_u128 n)
unfolding isqrt_u128
isqrt_u128-IsFloorRoot n h = elim (dec_lt n 2) [
  | yes small ↦ rw (lt→ltb n 2 small) (IsFloorRoot-small n small)
  | no big ↦ rw (nlt→ltb n 2 big) (isqrt_loop_start n (lt_wf.apply n) (omega arith))
]

-- At 2 the loop stops before its first step, and the result is 2 instead of 1.
pub isqrt_u128_two : isqrt_u128 2 ≡ 2
unfolding isqrt_u128
isqrt_u128_two = refl
