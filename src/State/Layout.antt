-- ===== src/State/Layout.antt =====
-- A write to a field of an account, read back through the struct's layout.
use evore_program.Prelude.{
  ℕ, ◌+◌, ◌-◌, ◌^◌, ◌≤◌, ◌<◌, ◌≡◌, refl, ap, arith, List, length, take, drop, slice, from_le_bytes,
  to_le_bytes, ◌⊎◌, inl, inr,
}
use evore_program.Runtime.Bytes.{
  write_at, read-write_self, read-write_before, read-write_after, drop-drop, length-to_le_bytes,
  from_le_bytes-to_le_bytes,
}
use evore_program.State.{number_at}

module _ (from to off : ℕ) (bs bytes : List ℕ) where
  pub slice-write_self :
      off ≡ 8 + from
      → to ≡ from + length bs
      → off + length bs ≤ length bytes
      → slice (drop 8 (write_at off bs bytes)) from to ≡ bs
  unfolding slice
  slice-write_self e1 e2 h =
      rw (drop-drop from 8 (write_at off bs bytes), ← e1, width) (read-write_self off bs bytes h)
    where
      width : to - from ≡ length bs
      width = omega arith

  pub slice-write_before :
      from ≤ to
      → 8 + to ≤ off
      → slice (drop 8 (write_at off bs bytes)) from to ≡ slice (drop 8 bytes) from to
  unfolding slice
  slice-write_before le h =
      rw (drop-drop from 8 (write_at off bs bytes), drop-drop from 8 bytes)
        (read-write_before (8 + from) (to - from) off bs bytes (omega arith))

  pub slice-write_after :
      off + length bs ≤ 8 + from
      → slice (drop 8 (write_at off bs bytes)) from to ≡ slice (drop 8 bytes) from to
  unfolding slice
  slice-write_after h =
      rw (drop-drop from 8 (write_at off bs bytes), drop-drop from 8 bytes)
        (ap (take (to - from)) (read-write_after (8 + from) off bs bytes h))

-- The number written into a field of w bytes.
pub number-write_self :
    (from w n : ℕ) (bytes : List ℕ)
    → n < 256 ^ w
    → 8 + from + w ≤ length bytes
    → number_at (drop 8 (write_at (8 + from) (to_le_bytes w n) bytes)) from (from + w) ≡ n
number-write_self from w n bytes fits h =
    rw
      (slice-write_self from (from + w) (8 + from) (to_le_bytes w n) bytes refl
        (rw (length-to_le_bytes w n) refl) (rw (length-to_le_bytes w n) h))
      (from_le_bytes-to_le_bytes w n fits)

-- A number outside the bytes written.
pub number-write_ne :
    (from to off w n : ℕ) (bytes : List ℕ)
    → from ≤ to
    → (8 + to ≤ off) ⊎ (off + w ≤ 8 + from)
    → number_at (drop 8 (write_at off (to_le_bytes w n) bytes)) from to
      ≡ number_at (drop 8 bytes) from to
number-write_ne from to off w n bytes le (inl h) =
    ap from_le_bytes (slice-write_before from to off (to_le_bytes w n) bytes le h)
number-write_ne from to off w n bytes le (inr h) =
    ap from_le_bytes
      (slice-write_after from to off (to_le_bytes w n) bytes (rw (length-to_le_bytes w n) h))
