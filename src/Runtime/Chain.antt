-- ===== src/Runtime/Chain.antt =====
-- Inversion of a handler that succeeds: each guard passed and each step returned.
use evore_program.OreApi.{Pubkey}
use evore_program.Prelude.{
  ◌&&◌, ◌⊎◌, ℕ, not, ◌==◌, arith, Bool, true, false, List, ◌≡◌, refl, sym, ap,
}
use evore_program.Error.{ProgramError, Result, ok, err}
use evore_program.Runtime.{
  Runtime, Account, update, Tx, M, ◌>>=◌, ◌>>◌, lift, reject_if, Call, Seeds, AccountInfo,
  write_bytes, written, invoke, Ledger, after_call, record_call,
}

module _ {A B : Type 0} where
  pub >>=-ok :
      (m : M A) (f : A → M B) (s : Tx) {r : B × Tx}
      → (m >>= f) s ≡ ok r
      → (a : A) × (t : Tx) × (m s ≡ ok (a, t)) × (f a t ≡ ok r)
  >>=-ok m f s {r} h = go (m s) refl h
    where
      go :
          (q : Result (A × Tx))
          → m s ≡ q
          → ◌≡◌ {A = Result (B × Tx)} (elim q [ ok (a, t) ↦ f a t | err e ↦ err e ]) (ok r)
          → (a : A) × (t : Tx) × (m s ≡ ok (a, t)) × (f a t ≡ ok r)
      go (ok (a, t)) e h = (a, t, e, h)
      go (err x) e h = cc

  -- A step that, when it succeeds, only reads.
  pub read-ok :
      {P : Type 0} (m : M A) (a : A) (f : A → M B) (s : Tx) {r : B × Tx}
      → ((b : A) (t : Tx) → m s ≡ ok (b, t) → (b ≡ a) × (t ≡ s) × P)
      → (m >>= f) s ≡ ok r
      → P × (f a s ≡ ok r)
  read-ok m a f s {r} only h =
      let (b, t, e, h1) = >>=-ok m f s h in let (eb, et, p) = only b t e in (p, moved b t eb et h1)
    where
      moved : (b : A) (t : Tx) → b ≡ a → t ≡ s → f b t ≡ ok r → f a s ≡ ok r
      moved b t eb et h = let h1 = rw eb at h in rw et at h1

  pub lift-ok :
      (m : Result A) (f : A → M B) (s : Tx) {r : B × Tx}
      → (lift m >>= f) s ≡ ok r
      → (a : A) × (m ≡ ok a) × (f a s ≡ ok r)
  lift-ok (ok a) f s h = (a, refl, h)
  lift-ok (err e) f s h = cc

pub reject_if-ok :
    {B : Type 0} (c : Bool) (e : ProgramError) (k : M B) (s : Tx) {r : B × Tx}
    → (reject_if c e >> k) s ≡ ok r
    → (c ≡ false) × (k s ≡ ok r)
reject_if-ok true e k s h = cc
reject_if-ok false e k s h = (refl, h)

record_call-ok :
    (call : Call) (s : Tx) (q : Result Ledger) {a : Unit {0}} {t : Tx}
    → record_call call s q ≡ ok (a, t)
    → (ledger : Ledger) × (q ≡ ok ledger) × (t ≡ after_call call s ledger)
unfolding record_call
record_call-ok call s (ok ledger) h = (ledger, refl, cc)
record_call-ok call s (err e) h = cc

-- A call that succeeds is recorded, and leaves what is not an account as it was.
pub invoke-ok :
    {B : Type 0} (rt : Runtime) (call : Call) (seeds : Seeds) (k : M B) (s : Tx) {r : B × Tx}
    → (invoke rt call seeds >> k) s ≡ ok r
    → (ledger : Ledger) × (rt.invoke_signed call seeds s.ledger ≡ ok ledger)
      × (k (after_call call s ledger) ≡ ok r)
unfolding invoke
invoke-ok rt call seeds k s h =
    let (a, t, e, h1) = >>=-ok (invoke rt call seeds) (λ _. k) s h in
    let (ledger, e1, e2) = record_call-ok call s (rt.invoke_signed call seeds s.ledger) e in
    (ledger, e1, rw e2 at h1)

-- A guard that ends a handler.
pub reject_if-end :
    (c : Bool) (e : ProgramError) (s : Tx) {a : Unit {0}} {t : Tx}
    → reject_if c e s ≡ ok (a, t)
    → (c ≡ false) × (t ≡ s)
reject_if-end true e s h = cc
reject_if-end false e s h = (refl, cc)

-- What a write leaves behind.
pub write_bytes-ok :
    (info : AccountInfo) (bytes : List ℕ) (s : Tx) {a : Unit {0}} {t : Tx}
    → write_bytes info bytes s ≡ ok (a, t)
    → t ≡ written s info.key bytes
write_bytes-ok info bytes s h = cc

pub written_self :
    (s : Tx) (k : Pubkey) (bytes : List ℕ) → ((written s k bytes).ledger k).bytes ≡ bytes
written_self s k bytes = ground arith

-- A write changes no other account.
pub written-frame :
    (s : Tx) (k : Pubkey) (bytes : List ℕ)
    → (written s k bytes).ledger ≡ update s.ledger k ((written s k bytes).ledger k)
written-frame s k bytes =
    ap (update s.ledger k) (sym (self (record (s.ledger k) { bytes = bytes })))
  where
    self : (a : Account) → update s.ledger k a k ≡ a
    self a = ground arith

-- What the guards on keys and signatures say.
pub eq_of_not-ne : (a b : ℕ) → not (a == b) ≡ false → a ≡ b
eq_of_not-ne a b h = ground arith

pub true_of_not : (b : Bool) → not b ≡ false → b ≡ true
true_of_not true h = refl
true_of_not false h = cc

pub either_of : (a b : Bool) → (not a && not b) ≡ false → (a ≡ true) ⊎ (b ≡ true)
either_of a b h = ground arith

-- A call that ends a handler.
pub call-ok :
    (rt : Runtime) (call : Call) (seeds : Seeds) (s : Tx) {a : Unit {0}} {t : Tx}
    → invoke rt call seeds s ≡ ok (a, t)
    → (ledger : Ledger) × (rt.invoke_signed call seeds s.ledger ≡ ok ledger)
      × (t ≡ after_call call s ledger)
unfolding invoke
call-ok rt call seeds s h = record_call-ok call s (rt.invoke_signed call seeds s.ledger) h
