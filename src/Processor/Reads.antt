-- ===== src/Processor/Reads.antt =====
-- What the shared guards and reads establish, once a handler has passed them.
use evore_program.Prelude.{ℕ, ◌+◌, ◌≡◌, inl, not, true, drop, length, List}
use evore_program.Error.{ProgramError, missing_required_signature, ok, Result}
use evore_program.OreApi.{Pubkey}
use evore_program.Runtime.{
  AccountInfo, Runtime, AsAccountReads, Tx, M, ◌>>=◌, ◌>>◌, reject_if, is_empty_data, lift, pure,
}
use evore_program.Runtime.Chain.{reject_if-ok, lift-ok, eq_of_not-ne, true_of_not}
use evore_program.State.{
  Manager, manager_of_bytes, manager_size, manager_discriminator, Deployer, deployer_of_bytes,
  deployer_size, deployer_discriminator,
}
use evore_program.Processor.Loads.{
  ◌!=◌, require_data, require_signer, load, load_manager, load_deployer,
}

-- The structs that accounts hold.
unfoldable pub manager_at : Tx → Pubkey → Manager
manager_at s k = manager_of_bytes (drop 8 (s.ledger k).bytes)

unfoldable pub deployer_in : List ℕ → Deployer
deployer_in bytes = deployer_of_bytes (drop 8 bytes)

abbrev pub deployer_at : Tx → Pubkey → Deployer
deployer_at s k = deployer_in (s.ledger k).bytes

module _ {B : Type 0} {r : B × Tx} (s : Tx) where
  pub require_signer-ok :
      (signer : AccountInfo) (k : M B)
      → (require_signer signer >> k) s ≡ ok r
      → (signer.is_signer ≡ true) × (k s ≡ ok r)
  require_signer-ok signer k h =
      let (e, h1) = reject_if-ok (not signer.is_signer) missing_required_signature k s h in
      (true_of_not signer.is_signer e, h1)

  pub require_data-ok :
      (info : AccountInfo) (e : ProgramError) (k : M B)
      → (require_data info e >> k) s ≡ ok r
      → k s ≡ ok r
  require_data-ok info e k h = (reject_if-ok (is_empty_data (s.ledger info.key).bytes) e k s h).1

  -- A guard on two keys.
  pub same_key-ok :
      (a b : ℕ) (e : ProgramError) (k : M B)
      → (reject_if (a != b) e >> k) s ≡ ok r
      → (a ≡ b) × (k s ≡ ok r)
  same_key-ok a b e k h = let (ne, h1) = reject_if-ok (a != b) e k s h in (eq_of_not-ne a b ne, h1)

  -- A struct that was read is the one in the account's bytes.
  pub load-ok :
      {T : Type 0} (rt : Runtime) (reads : AsAccountReads rt) (owner : Pubkey) (d size : ℕ)
      (of_bytes : List ℕ → T) (info : AccountInfo) (f : T → M B)
      → (load rt owner d size of_bytes info >>= f) s ≡ ok r
      → (length (s.ledger info.key).bytes ≡ 8 + size)
        × (f (of_bytes (drop 8 (s.ledger info.key).bytes)) s ≡ ok r)
  unfolding load
  load-ok rt reads owner d size of_bytes info f h =
      let a = s.ledger info.key in
      let (bytes, e, h1) =
        lift-ok (rt.as_account owner d size a) (λ b. f (of_bytes b)) s
          (lifted (rt.as_account owner d size a) h) in
      let (own, len, at) = reads owner d size a bytes (inl e) in (len, rw at at h1)
    where
      lifted :
          (m : Result (List ℕ))
          → ((lift m >>= λ b. pure (of_bytes b)) >>= f) s ≡ ok r
          → (lift m >>= λ b. f (of_bytes b)) s ≡ ok r
      lifted (Result.ok b) h = h
      lifted (Result.err e) h = h

  pub load_manager-ok :
      (rt : Runtime) (reads : AsAccountReads rt) (info : AccountInfo) (f : Manager → M B)
      → (load_manager rt info >>= f) s ≡ ok r
      → f (manager_at s info.key) s ≡ ok r
  unfolding manager_at
  load_manager-ok rt reads info f h =
      (load-ok rt reads rt.evore_id manager_discriminator manager_size manager_of_bytes info f h).1

  pub load_deployer-ok :
      (rt : Runtime) (reads : AsAccountReads rt) (info : AccountInfo) (f : Deployer → M B)
      → (load_deployer rt info >>= f) s ≡ ok r
      → (length (s.ledger info.key).bytes ≡ 112) × (f (deployer_at s info.key) s ≡ ok r)
  unfolding deployer_in
  load_deployer-ok rt reads info f h =
      load-ok rt reads rt.evore_id deployer_discriminator deployer_size deployer_of_bytes info f h

-- A read that ends a step.
pub load-end :
    {T : Type 0} (s : Tx) (rt : Runtime) (reads : AsAccountReads rt) (owner : Pubkey) (d size : ℕ)
    (of_bytes : List ℕ → T) (info : AccountInfo) {x : T} {t : Tx}
    → load rt owner d size of_bytes info s ≡ ok (x, t)
    → (x ≡ of_bytes (drop 8 (s.ledger info.key).bytes)) × (t ≡ s)
unfolding load
load-end s rt reads owner d size of_bytes info h =
    let a = s.ledger info.key in
    let (bytes, e, h1) = lift-ok (rt.as_account owner d size a) (λ b. pure (of_bytes b)) s h in
    let (own, len, at) = reads owner d size a bytes (inl e) in (rw (← at) cc, cc)
