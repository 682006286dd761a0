-- ===== src/Prelude/Words.antt =====
-- Rust's fixed-width integers over the native numbers: saturating, checked, wrapping and casting
-- operations, written out at each width, and little-endian fields of a byte array.
use Prim.Native.Nat.{ℕ, zero, suc, ◌+◌, ◌-◌, ◌*◌, ◌/◌, ◌%◌, ◌^◌, min}
use mathlib.Core.Bool.{Bool, ◌&&◌}
use mathlib.Core.Option.{Option, none, some}
use mathlib.Core.List.{List, [], ◌∷◌}
use evore_program.Prelude.Tests.{leb, ◌==◌, if◌then◌else◌}
use evore_program.Prelude.Lists.{take, drop}
use evore_program.Prelude.Int.{ℤ, pos, negsuc, sub_ℕ, ◌+ℤ◌, ◌*ℤ◌, leb_ℤ}

abbrev pub u64_mod : ℕ
u64_mod = 18446744073709551616

-- `u64::MAX`
abbrev pub u64_max : ℕ
u64_max = 18446744073709551615

abbrev pub u128_max : ℕ
u128_max = 340282366920938463463374607431768211455

-- `i128::MAX`, as a number
abbrev pub i128_max : ℕ
i128_max = 170141183460469231731687303715884105727

-- `i64::MAX`, as a number
abbrev pub i64_max : ℕ
i64_max = 9223372036854775807

-- `x.saturating_add(y)` and the like on u64
unfoldable pub sat_add64 : ℕ → ℕ → ℕ
sat_add64 a b = min (a + b) u64_max

unfoldable pub sat_mul64 : ℕ → ℕ → ℕ
sat_mul64 a b = min (a * b) u64_max

-- On u128.
unfoldable pub sat_add128 : ℕ → ℕ → ℕ
sat_add128 a b = min (a + b) u128_max

unfoldable pub sat_mul128 : ℕ → ℕ → ℕ
sat_mul128 a b = min (a * b) u128_max

-- `a - b` on u64 in a release build, which wraps
unfoldable pub wrap_sub64 : ℕ → ℕ → ℕ
wrap_sub64 a b = (a + u64_mod - b) % u64_mod

-- An integer held within `-(m + 1) ..= m`.
abbrev pub clamp_signed : ℕ → ℤ → ℤ
clamp_signed m (pos n) = pos (min n m)
clamp_signed m (negsuc n) = negsuc (min n m)

-- `x.saturating_add(y)` and `x.saturating_mul(y)` on i128
unfoldable pub sat_add_i128 : ℤ → ℤ → ℤ
sat_add_i128 a b = clamp_signed i128_max (a +ℤ b)

unfoldable pub sat_mul_i128 : ℤ → ℤ → ℤ
sat_mul_i128 a b = clamp_signed i128_max (a *ℤ b)

-- `-x` on i128, which wraps at the least value
unfoldable pub neg_i128 : ℤ → ℤ
neg_i128 (pos zero) = pos 0
neg_i128 (pos (suc n)) = negsuc n
neg_i128 (negsuc n) = if leb (suc n) i128_max then pos (suc n) else negsuc i128_max

-- `x.saturating_abs()` on i128
unfoldable pub sat_abs_i128 : ℤ → ℤ
sat_abs_i128 (pos n) = pos n
sat_abs_i128 (negsuc n) = pos (min (suc n) i128_max)

-- `x as i128` of a u128
unfoldable pub as_i128 : ℕ → ℤ
as_i128 n = if leb n i128_max then pos n else negsuc (u128_max - n)

-- `x.checked_mul(y)` on i128
unfoldable pub checked_mul_i128 : ℤ → ℤ → Option ℤ
checked_mul_i128 a b =
    if leb_ℤ (negsuc i128_max) (a *ℤ b) && leb_ℤ (a *ℤ b) (pos i128_max)
    then some (a *ℤ b)
    else none

-- `x / d` on i128 for a positive d, which rounds towards zero
unfoldable pub div_i128 : ℤ → ℕ → ℤ
div_i128 (pos n) d = pos (n / d)
div_i128 (negsuc n) d = sub_ℕ 0 (suc n / d)

-- `x.clamp(i64::MIN, i64::MAX)`, and `saturating_add` on i64
unfoldable pub clamp_i64 : ℤ → ℤ
clamp_i64 = clamp_signed i64_max

unfoldable pub sat_add_i64 : ℤ → ℤ → ℤ
sat_add_i64 a b = clamp_signed i64_max (a +ℤ b)

-- `u64::from_le_bytes` and `u32::from_le_bytes`, on the bytes at hand
unfoldable pub from_le_bytes : List ℕ → ℕ
from_le_bytes [] = 0
from_le_bytes (b ∷ bs) = b + 256 * from_le_bytes bs

-- `n.to_le_bytes()` for a width in bytes
unfoldable pub to_le_bytes : ℕ → ℕ → List ℕ
to_le_bytes zero n = []
to_le_bytes (suc w) n = n % 256 ∷ to_le_bytes w (n / 256)

-- `data[from..to]`
unfoldable pub slice : List ℕ → ℕ → ℕ → List ℕ
slice bytes from to = take (to - from) (drop from bytes)

-- `(mask >> i) & 1 == 1`
unfoldable pub bit : ℕ → ℕ → Bool
bit mask i = mask / 2 ^ i % 2 == 1
