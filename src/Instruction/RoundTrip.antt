-- ===== src/Instruction/RoundTrip.antt =====
-- A strategy that is written into an instruction is the one read from it.
use evore_program.Prelude.{
  ℕ, zero, suc, ◌+◌, ◌-◌, ◌*◌, ◌≤◌, ◌<◌, ◌≡◌, refl, ap, ◌∙◌, arith, Bool, not, ◌==◌, if◌then◌else◌,
  true, false, some, List, [], ◌∷◌, length, get_or, replicate, to_le_bytes, from_le_bytes, u64_mod,
  take, drop, slice,
}
use evore_program.OreApi.{u64_at, u64s_at}
use evore_program.Runtime.Bytes.{
  write_at, length-write_at, length-to_le_bytes, read-write_before, read-write_self,
  from_le_bytes-to_le_bytes,
}
use evore_program.Instruction.{
  DeployStrategy, write_u64s, strategy_to_bytes, new_mm_deploy, parse_strategy, get_strategy,
  get_allow_multi_deploy,
}

abbrev pub AreU64s : List ℕ → Type 0
AreU64s [] = Unit
AreU64s (x ∷ xs) = (x < u64_mod) × AreU64s xs

-- The fields of a strategy hold u64s, and the array of amounts has its 25 entries.
abbrev pub IsStrategy : DeployStrategy → Type 0
IsStrategy (DeployStrategy.ev a b c d e f) = AreU64s (a ∷ b ∷ c ∷ d ∷ e ∷ f ∷ [])
IsStrategy (DeployStrategy.percentage a b c) = AreU64s (a ∷ b ∷ c ∷ [])
IsStrategy (DeployStrategy.manual amounts) = (length amounts ≡ 25) × AreU64s amounts
IsStrategy (DeployStrategy.split a) = AreU64s (a ∷ [])

width : (off : ℕ) → off + 8 - off ≡ 8
width off = omega arith

u64_at-write_at :
    (off x : ℕ) (bytes : List ℕ)
    → x < u64_mod
    → off + 8 ≤ length bytes
    → u64_at (write_at off (to_le_bytes 8 x) bytes) off ≡ x
unfolding slice
u64_at-write_at off x bytes small room =
    let fits : off + length (to_le_bytes 8 x) ≤ length bytes = rw (length-to_le_bytes 8 x) room in
    let read : take 8 (drop off (write_at off (to_le_bytes 8 x) bytes)) ≡ to_le_bytes 8 x =
      rw (length-to_le_bytes 8 x) at (read-write_self off (to_le_bytes 8 x) bytes fits) in
    rw (width off) (ap (λ l. from_le_bytes l) read ∙ from_le_bytes-to_le_bytes 8 x small)

u64_at-write_u64s :
    (at off : ℕ) (xs bytes : List ℕ)
    → at + 8 ≤ off
    → u64_at (write_u64s off xs bytes) at ≡ u64_at bytes at
unfolding write_u64s slice
u64_at-write_u64s at off [] bytes h = refl
u64_at-write_u64s at off (x ∷ xs) bytes h =
    u64_at-write_u64s at (off + 8) xs (write_at off (to_le_bytes 8 x) bytes) (omega arith)
    ∙ rw (width at)
        (ap (λ l. from_le_bytes l) (read-write_before at 8 off (to_le_bytes 8 x) bytes h))

-- The numbers are read back in order.
u64s_at-write_u64s :
    (off : ℕ) (xs bytes : List ℕ)
    → AreU64s xs
    → off + 8 * length xs ≤ length bytes
    → u64s_at (write_u64s off xs bytes) off (length xs) ≡ xs
unfolding write_u64s u64s_at
u64s_at-write_u64s off [] bytes are room = refl
u64s_at-write_u64s off (x ∷ xs) bytes are room =
    let written = write_at off (to_le_bytes 8 x) bytes in
    let e : u64_at (write_u64s (off + 8) xs written) off ≡ x =
      u64_at-write_u64s off (off + 8) xs written (omega arith)
      ∙ u64_at-write_at off x bytes are.0 (omega arith) in
    rw e (
      ap (λ l. x ∷ l)
        (u64s_at-write_u64s (off + 8) xs written are.1
          (rw (length-write_at off (to_le_bytes 8 x) bytes) (omega arith))))

get_or-write_at :
    (off : ℕ) (bs bytes : List ℕ) → 0 < off → get_or (write_at off bs bytes) 0 0 ≡ get_or bytes 0 0
unfolding write_at
get_or-write_at zero bs bytes h = absurd (omega arith)
get_or-write_at (suc off) bs [] h = refl
get_or-write_at (suc off) bs (b ∷ bytes) h = refl

-- The discriminant is not written over.
get_or-write_u64s :
    (off : ℕ) (xs bytes : List ℕ)
    → 0 < off
    → get_or (write_u64s off xs bytes) 0 0 ≡ get_or bytes 0 0
unfolding write_u64s
get_or-write_u64s off [] bytes h = refl
get_or-write_u64s off (x ∷ xs) bytes h =
    get_or-write_u64s (off + 8) xs (write_at off (to_le_bytes 8 x) bytes) (omega arith)
    ∙ get_or-write_at off (to_le_bytes 8 x) bytes h

allow_of : (b : Bool) → not ((if b then 1 else 0) == 0) ≡ b
allow_of true = refl
allow_of false = refl

parsed_strategy :
    (s : DeployStrategy)
    → IsStrategy s
    → parse_strategy (get_or (strategy_to_bytes s) 0 0) (strategy_to_bytes s) ≡ some s
unfolding parse_strategy strategy_to_bytes u64s_at
parsed_strategy (DeployStrategy.ev a b c d e f) is =
    let l = a ∷ b ∷ c ∷ d ∷ e ∷ f ∷ [] in
    let kind = get_or-write_u64s 1 l (0 ∷ replicate 255 0) (omega arith) in
    rw kind (
      ap
        (λ l. some (
          DeployStrategy.ev (get_or l 0 0) (get_or l 1 0) (get_or l 2 0) (get_or l 3 0)
            (get_or l 4 0) (get_or l 5 0)))
        (u64s_at-write_u64s 1 l (0 ∷ replicate 255 0) is (omega arith)))
parsed_strategy (DeployStrategy.percentage a b c) is =
    let l = a ∷ b ∷ c ∷ [] in
    let kind = get_or-write_u64s 1 l (1 ∷ replicate 255 0) (omega arith) in
    rw kind (
      ap (λ l. some (DeployStrategy.percentage (get_or l 0 0) (get_or l 1 0) (get_or l 2 0)))
        (u64s_at-write_u64s 1 l (1 ∷ replicate 255 0) is (omega arith)))
parsed_strategy (DeployStrategy.manual amounts) (len, are) =
    let kind = get_or-write_u64s 1 amounts (2 ∷ replicate 255 0) (omega arith) in
    rw kind (
      ap (λ l. some (DeployStrategy.manual l))
        (rw len at (u64s_at-write_u64s 1 amounts (2 ∷ replicate 255 0) are (rw len (omega arith)))))
parsed_strategy (DeployStrategy.split a) is =
    let kind = get_or-write_u64s 1 (a ∷ []) (3 ∷ replicate 255 0) (omega arith) in
    rw kind (
      ap (λ l. some (DeployStrategy.split (get_or l 0 0)))
        (u64s_at-write_u64s 1 (a ∷ []) (3 ∷ replicate 255 0) is (omega arith)))

-- For a strategy of any kind whose numbers are u64s (and whose manual amounts are 25), the data of
-- the instruction built from it parse back to that strategy, the discriminant and every field, the
-- flag for several deployments in a round is read back, and the auth id too if it is a u64.
pub get_strategy-new_mm_deploy :
    (auth_id bump : ℕ) (allow : Bool) (s : DeployStrategy)
    → IsStrategy s
    → auth_id < u64_mod
    → (get_strategy (new_mm_deploy auth_id bump allow s) ≡ some s)
      × (get_allow_multi_deploy (new_mm_deploy auth_id bump allow s) ≡ allow)
      × (from_le_bytes (new_mm_deploy auth_id bump allow s).auth_id ≡ auth_id)
unfolding get_strategy new_mm_deploy get_allow_multi_deploy
get_strategy-new_mm_deploy auth_id bump allow s is small =
    (parsed_strategy s is, allow_of allow, from_le_bytes-to_le_bytes 8 auth_id small)
