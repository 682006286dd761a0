-- ===== src/Processor/Deployer/Update.antt =====
-- Which signer of a deployer update may change what.
use evore_program.Prelude.{◌≡◌, ◌⊎◌, refl, true, not, ◌&&◌, ◌==◌}
use evore_program.Error.{
  evore, manager_not_initialized, deployer_not_initialized, invalid_pda, not_authorized, ok,
}
use evore_program.Runtime.{AccountInfo, Runtime, AsAccountReads, Tx, update}
use evore_program.Runtime.Chain.{
  either_of, reject_if-ok, write_bytes-ok, written_self, written-frame,
}
use evore_program.State.{deployer_pda}
use evore_program.Processor.Reads.{
  manager_at, deployer_at, require_signer-ok, require_data-ok, same_key-ok, load_manager-ok,
  load_deployer-ok,
}
use evore_program.Processor.Deployer.{UpdateDeployer, process_update_deployer, update_bytes}
use evore_program.Processor.Deployer.Fields.{Fits, updated, update_bytes-updated}

module _ (rt : Runtime) (reads : AsAccountReads rt)
    (signer manager deployer new_authority : AccountInfo) (args : UpdateDeployer) (s : Tx) where
  -- With a runtime that reads accounts as steel does, and arguments that fit their widths: an update
  -- that succeeds was signed, by the manager's authority or by the deploy authority, at the
  -- deployer's own address. Then the deployer has the fields that the manager's authority sets (the
  -- deploy authority, the expected fees, the cap) if it signed, the fields that the deploy authority
  -- sets (the deploy authority, the actual fees) if it signed, and every other field as before; no
  -- other account changes and no call is made.
  pub update_deployer-updated :
      {t : Tx}
      → Fits new_authority.key args
      → process_update_deployer rt signer manager deployer new_authority args s ≡ ok (tt, t)
      → let is_manager = (manager_at s manager.key).authority == signer.key in
        let is_deploy = (deployer_at s deployer.key).deploy_authority == signer.key in
        (signer.is_signer ≡ true)
        × ((is_manager ≡ true) ⊎ (is_deploy ≡ true))
        × ((deployer_pda rt manager.key).0 ≡ deployer.key)
        × (deployer_at t deployer.key
            ≡ updated is_manager is_deploy new_authority.key args (deployer_at s deployer.key))
        × (t.ledger ≡ update s.ledger deployer.key (t.ledger deployer.key))
        × (t.calls ≡ s.calls)
  unfolding process_update_deployer
  update_deployer-updated fits h =
      let (sig, h1) = require_signer-ok s signer _ h in
      let h2 = require_data-ok s manager (evore manager_not_initialized) _ h1 in
      let h3 = load_manager-ok s rt reads manager _ h2 in
      let h4 = require_data-ok s deployer (evore deployer_not_initialized) _ h3 in
      let (pda, h5) =
        same_key-ok s (deployer_pda rt manager.key).0 deployer.key (evore invalid_pda) _ h4 in
      let (len, h6) = load_deployer-ok s rt reads deployer _ h5 in
      let is_manager = (manager_at s manager.key).authority == signer.key in
      let is_deploy = (deployer_at s deployer.key).deploy_authority == signer.key in
      let (auth, h7) =
        reject_if-ok (not is_manager && not is_deploy) (evore not_authorized) _ s h6 in
      let bytes = (s.ledger deployer.key).bytes in
      let now = update_bytes is_manager is_deploy new_authority.key args bytes in
      let e = write_bytes-ok deployer now s h7 in
      (
        sig,
        either_of is_manager is_deploy auth,
        pda,
        rw (e, written_self s deployer.key now)
            (update_bytes-updated is_manager is_deploy new_authority.key args bytes fits len),
        rw e (written-frame s deployer.key now),
        rw e refl,
      )
