-- ===== src/Processor/Manager/Authority.antt =====
-- Who may hand a manager on, and what that changes.
use evore_program.Prelude.{◌^◌, ◌<◌, ◌≡◌, refl, arith, true, not, inr}
use evore_program.Error.{
  evore, manager_not_initialized, not_authorized, missing_required_signature, ok,
}
use evore_program.Runtime.{
  AccountInfo, Runtime, AsAccountReads, Tx, update, is_empty_data, key_bytes,
}
use evore_program.Runtime.Bytes.{write_at}
use evore_program.Runtime.Chain.{
  reject_if-ok, lift-ok, write_bytes-ok, written_self, written-frame, eq_of_not-ne, true_of_not,
}
use evore_program.State.{manager_of_bytes, manager_size, manager_discriminator}
use evore_program.State.Layout.{number-write_self}
use evore_program.Processor.Loads.{◌!=◌}
use evore_program.Processor.Reads.{manager_at}
use evore_program.Processor.Manager.{process_transfer_manager}

module _ (rt : Runtime) (reads : AsAccountReads rt) (signer manager new_authority : AccountInfo)
    (s : Tx) where
  -- With a runtime that reads accounts as steel does, and a new key of 32 bytes: a transfer that
  -- succeeds was signed by the manager's authority, makes the new key the authority, changes no
  -- other account and makes no call.
  pub transfer_manager-authority :
      {t : Tx}
      → new_authority.key < 256 ^ 32
      → process_transfer_manager rt signer manager new_authority s ≡ ok (tt, t)
      → (signer.is_signer ≡ true)
        × ((manager_at s manager.key).authority ≡ signer.key)
        × ((manager_at t manager.key).authority ≡ new_authority.key)
        × (t.ledger ≡ update s.ledger manager.key (t.ledger manager.key))
        × (t.calls ≡ s.calls)
  unfolding process_transfer_manager manager_at manager_of_bytes
  transfer_manager-authority fits h =
      let a = s.ledger manager.key in
      let (sig, h1) = reject_if-ok (not signer.is_signer) missing_required_signature _ s h in
      let (full, h2) =
        reject_if-ok (is_empty_data a.bytes) (evore manager_not_initialized) _ s h1 in
      let (bytes, e, h3) =
        lift-ok (rt.as_account_mut rt.evore_id manager_discriminator manager_size a) _ s h2 in
      let (own, len, at) = reads rt.evore_id manager_discriminator manager_size a bytes (inr e) in
      let (auth, h4) =
        reject_if-ok ((manager_of_bytes bytes).authority != signer.key) (evore not_authorized) _ s
          h3 in
      let now = write_at 8 (key_bytes new_authority.key) a.bytes in
      let e4 = write_bytes-ok manager now s h4 in
      (
        true_of_not signer.is_signer sig,
        rw (← at) (eq_of_not-ne (manager_of_bytes bytes).authority signer.key auth),
        rw (e4, written_self s manager.key now)
            (number-write_self 0 32 new_authority.key a.bytes fits (omega (arith, len))),
        rw e4 (written-frame s manager.key now),
        rw e4 refl,
      )
