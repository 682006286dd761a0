-- ===== src/Error/Codes.antt =====
-- Error codes, and inversion of chains of results.
use evore_program.Prelude.{Bool, true, false, ◌≡◌, refl}
use evore_program.Error.{ProgramError, Result, ok, err, ◌>>=◌, ◌>>◌, reject_if}

module _ {ℓ κ} {T : Type ℓ} {U : Type κ} where
  pub >>=-eq-ok :
      (m : Result T) (rest : T → Result U) {u : U}
      → (m >>= rest) ≡ ok u
      → (x : T) × (m ≡ ok x) × (rest x ≡ ok u)
  >>=-eq-ok (ok x) rest h = (x, refl, h)
  >>=-eq-ok (err e) rest h = cc

pub reject_if-eq-ok {κ} :
    {B : Type κ} (c : Bool) (e : ProgramError) (k : Result B) {b : B}
    → (reject_if c e >> k) ≡ ok b
    → (c ≡ false) × (k ≡ ok b)
reject_if-eq-ok true e k h = cc
reject_if-eq-ok false e k h = (refl, h)
