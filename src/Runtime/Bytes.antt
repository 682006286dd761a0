-- ===== src/Runtime/Bytes.antt =====
-- Reads and writes at byte offsets: `data[a..b].copy_from_slice(..)` and `data[a..b]`.
use evore_program.Prelude.{
  ℕ, zero, suc, ◌+◌, ◌/◌, ◌^◌, ◌≤◌, ◌<◌, ◌≡◌, refl, sym, ◌∙◌, arith, ap, List, [], ◌∷◌, length,
  take, drop, from_le_bytes, to_le_bytes,
}
use native.Mathlib.Nat.{suc-add, pow-suc, div-lt_iff_lt-mul}

-- A write that runs past the end is cut off; the source's writes stay inside.
unfoldable pub write_at : ℕ → List ℕ → List ℕ → List ℕ
write_at zero [] bytes = bytes
write_at zero (b ∷ bs) [] = []
write_at zero (b ∷ bs) (x ∷ bytes) = b ∷ write_at zero bs bytes
write_at (suc off) bs [] = []
write_at (suc off) bs (x ∷ bytes) = x ∷ write_at off bs bytes

pub length-write_at : (off : ℕ) (bs bytes : List ℕ) → length (write_at off bs bytes) ≡ length bytes
unfolding write_at
length-write_at zero [] bytes = refl
length-write_at zero (b ∷ bs) [] = refl
length-write_at zero (b ∷ bs) (x ∷ bytes) = ap suc (length-write_at zero bs bytes)
length-write_at (suc off) bs [] = refl
length-write_at (suc off) bs (x ∷ bytes) = ap suc (length-write_at off bs bytes)

-- What was written is read back.
pub read-write_self :
    (off : ℕ) (bs bytes : List ℕ)
    → off + length bs ≤ length bytes
    → take (length bs) (drop off (write_at off bs bytes)) ≡ bs
unfolding write_at
read-write_self zero [] bytes h = refl
read-write_self zero (b ∷ bs) [] h = absurd (omega arith)
read-write_self zero (b ∷ bs) (x ∷ bytes) h =
    ap (λ r. b ∷ r) (read-write_self zero bs bytes (omega arith))
read-write_self (suc off) bs [] h = absurd (omega arith)
read-write_self (suc off) bs (x ∷ bytes) h = read-write_self off bs bytes (omega arith)

-- A read before the write.
pub read-write_before :
    (from n off : ℕ) (bs bytes : List ℕ)
    → from + n ≤ off
    → take n (drop from (write_at off bs bytes)) ≡ take n (drop from bytes)
unfolding write_at
read-write_before from zero off bs bytes h = refl
read-write_before from (suc n) zero bs bytes h = absurd (omega arith)
read-write_before from (suc n) (suc off) bs [] h = refl
read-write_before zero (suc n) (suc off) bs (x ∷ bytes) h =
    ap (λ r. x ∷ r) (read-write_before zero n off bs bytes (omega arith))
read-write_before (suc from) (suc n) (suc off) bs (x ∷ bytes) h =
    read-write_before from (suc n) off bs bytes (omega arith)

-- A read after the write.
pub read-write_after :
    (from off : ℕ) (bs bytes : List ℕ)
    → off + length bs ≤ from
    → drop from (write_at off bs bytes) ≡ drop from bytes
unfolding write_at
read-write_after from zero [] bytes h = refl
read-write_after zero zero (b ∷ bs) bytes h = absurd (omega arith)
read-write_after (suc from) zero (b ∷ bs) [] h = refl
read-write_after (suc from) zero (b ∷ bs) (x ∷ bytes) h =
    read-write_after from zero bs bytes (omega arith)
read-write_after zero (suc off) bs bytes h = absurd (omega arith)
read-write_after (suc from) (suc off) bs [] h = refl
read-write_after (suc from) (suc off) bs (x ∷ bytes) h =
    read-write_after from off bs bytes (omega arith)

drop-nil : (n : ℕ) → drop {A = ℕ} n [] ≡ []
drop-nil zero = refl
drop-nil (suc n) = refl

pub drop-drop : (m n : ℕ) (bytes : List ℕ) → drop m (drop n bytes) ≡ drop (n + m) bytes
drop-drop m zero bytes = ap (λ k. drop k bytes) (omega arith)
drop-drop m (suc n) [] = drop-nil m ∙ sym (drop-nil (suc n + m))
drop-drop m (suc n) (x ∷ bytes) = rw (suc-add n m) (drop-drop m n bytes)

pub length-to_le_bytes : (w n : ℕ) → length (to_le_bytes w n) ≡ w
unfolding to_le_bytes
length-to_le_bytes zero n = refl
length-to_le_bytes (suc w) n = ap suc (length-to_le_bytes w (n / 256))

-- A number that fits its bytes is read back.
pub from_le_bytes-to_le_bytes : (w n : ℕ) → n < 256 ^ w → from_le_bytes (to_le_bytes w n) ≡ n
unfolding from_le_bytes to_le_bytes
from_le_bytes-to_le_bytes zero n h = omega arith
from_le_bytes-to_le_bytes (suc w) n h =
    omega (arith, from_le_bytes-to_le_bytes w (n / 256) (fits h))
  where
    fits : n < 256 ^ suc w → n / 256 < 256 ^ w
    fits h = (div-lt_iff_lt-mul (omega arith)).1 (rw pow-suc at h)
