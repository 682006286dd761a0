-- ===== src/Processor/StratDeployer/Update.antt =====
-- Who may update a strategy deployer, and that its strategy stays a checked one.
use evore_program.Prelude.{
  ℕ, ◌≡◌, ◌⊎◌, refl, inl, inr, Bool, true, false, not, ◌&&◌, ◌==◌, List, length, Bool-cases,
}
use evore_program.Error.{
  evore, manager_not_initialized, strat_deployer_not_initialized, invalid_pda, not_authorized, ok,
  err, Result,
}
use evore_program.OreApi.{Pubkey}
use evore_program.Validation.{check_strategy}
use evore_program.Runtime.{AccountInfo, Runtime, AsAccountReads, Tx, update, lift}
use evore_program.Runtime.Chain.{
  either_of, reject_if-ok, read-ok, write_bytes-ok, written_self, written-frame,
}
use evore_program.State.{
  strategy_deployer_of_bytes, strategy_deployer_size, strategy_deployer_discriminator,
  strategy_deployer_pda,
}
use evore_program.Processor.Loads.{when}
use evore_program.Processor.Reads.{
  manager_at, require_signer-ok, require_data-ok, same_key-ok, load_manager-ok, load-ok,
}
use evore_program.Processor.StratDeployer.{
  UpdateStratDeployer, process_update_strat_deployer, strat_update_bytes, strat_manager_writes,
}
use evore_program.Processor.StratDeployer.Terms.{
  strat_deployer_in, strat_deployer_at, IsChecked, SameTerms, deploy_writes-SameTerms,
  manager_writes-strategy,
}

module _ (new_authority : Pubkey) (args : UpdateStratDeployer) (bytes : List ℕ) where
  -- An update by the manager stores the strategy that was passed, whoever else signed.
  managed_update-IsChecked :
      (is_deploy : Bool)
      → length args.strategy_data ≡ 64
      → length bytes ≡ 184
      → check_strategy args.strategy_type args.strategy_data ≡ ok tt
      → IsChecked (strat_deployer_in (strat_update_bytes true is_deploy new_authority args bytes))
  unfolding strat_update_bytes
  managed_update-IsChecked is_deploy width len h =
      let (ty, data_) = manager_writes-strategy new_authority args bytes width len in
      let same =
        deploy_writes-SameTerms new_authority args
          (strat_manager_writes new_authority args bytes) in
      elim (Bool-cases is_deploy) [
        | inl on ↦ rw (on, same.strategy_type, same.strategy_data, ty, data_) h
        | inr off ↦ rw (off, ty, data_) h
      ]

  -- An update by the deploy authority alone leaves the manager's terms.
  other_update-SameTerms :
      (is_deploy : Bool)
      → SameTerms
          (strat_deployer_in (strat_update_bytes false is_deploy new_authority args bytes))
          (strat_deployer_in bytes)
  unfolding strat_update_bytes
  other_update-SameTerms true = deploy_writes-SameTerms new_authority args bytes
  other_update-SameTerms false = record {
    manager_key = refl;
    expected_bps_fee = refl;
    expected_flat_fee = refl;
    max_per_round = refl;
    strategy_type = refl;
    strategy_data = refl;
  }

when-ok :
    (c : Bool) (m : Result (Unit {0})) (s : Tx) (u : Unit {0}) (t : Tx)
    → when c (lift m) s ≡ ok (u, t)
    → (u ≡ tt) × (t ≡ s) × ((c ≡ false) ⊎ (m ≡ ok tt))
when-ok true (ok v) s u t h = (refl, cc, inr refl)
when-ok true (err e) s u t h = cc
when-ok false m s u t h = (refl, cc, inl refl)

module _ (rt : Runtime) (reads : AsAccountReads rt)
    (signer manager deployer new_authority : AccountInfo) (args : UpdateStratDeployer)
    (s : Tx) where
  -- With a runtime that reads accounts as steel does, and a strategy of 64 bytes: an update that
  -- succeeds was signed, by the manager's authority or by the deploy authority, at the strategy
  -- deployer's own address. Then either the manager's authority signed and the strategy stored
  -- passes the check, or it did not and the manager's terms (the expected fees, the cap, the
  -- strategy) are as before; no other account changes and no call is made.
  pub update_strat_deployer-terms :
      {t : Tx}
      → length args.strategy_data ≡ 64
      → process_update_strat_deployer rt signer manager deployer new_authority args s ≡ ok (tt, t)
      → let is_manager = (manager_at s manager.key).authority == signer.key in
        let is_deploy = (strat_deployer_at s deployer.key).deploy_authority == signer.key in
        (signer.is_signer ≡ true)
        × ((is_manager ≡ true) ⊎ (is_deploy ≡ true))
        × ((strategy_deployer_pda rt manager.key).0 ≡ deployer.key)
        × (((is_manager ≡ true) × IsChecked (strat_deployer_at t deployer.key))
            ⊎ ((is_manager ≡ false)
                × SameTerms (strat_deployer_at t deployer.key) (strat_deployer_at s deployer.key)))
        × (t.ledger ≡ update s.ledger deployer.key (t.ledger deployer.key))
        × (t.calls ≡ s.calls)
  unfolding process_update_strat_deployer strat_deployer_in
  update_strat_deployer-terms width h =
      let (sig, h1) = require_signer-ok s signer _ h in
      let h2 = require_data-ok s manager (evore manager_not_initialized) _ h1 in
      let h3 = load_manager-ok s rt reads manager _ h2 in
      let h4 = require_data-ok s deployer (evore strat_deployer_not_initialized) _ h3 in
      let (pda, h5) =
        same_key-ok s (strategy_deployer_pda rt manager.key).0 deployer.key (evore invalid_pda) _
          h4 in
      let (len, h6) =
        load-ok s rt reads rt.evore_id strategy_deployer_discriminator strategy_deployer_size
          strategy_deployer_of_bytes deployer _ h5 in
      let is_manager = (manager_at s manager.key).authority == signer.key in
      let is_deploy = (strat_deployer_at s deployer.key).deploy_authority == signer.key in
      let (auth, h7) =
        reject_if-ok (not is_manager && not is_deploy) (evore not_authorized) _ s h6 in
      let check = check_strategy args.strategy_type args.strategy_data in
      let (checked, h8) =
        read-ok (when is_manager (lift check)) tt _ s
          (λ u t e. let (eu, et, c) = when-ok is_manager check s u t e in (eu, et, c)) h7 in
      let bytes = (s.ledger deployer.key).bytes in
      let now = strat_update_bytes is_manager is_deploy new_authority.key args bytes in
      let e = write_bytes-ok deployer now s h8 in
      (
        sig,
        either_of is_manager is_deploy auth,
        pda,
        rw (e, written_self s deployer.key now) (terms is_manager is_deploy bytes len checked),
        rw e (written-frame s deployer.key now),
        rw e refl,
      )
    where
      terms :
          (is_manager is_deploy : Bool) (bytes : List ℕ)
          → length bytes ≡ 184
          → (is_manager ≡ false) ⊎ (check_strategy args.strategy_type args.strategy_data ≡ ok tt)
          → let now = strat_update_bytes is_manager is_deploy new_authority.key args bytes in
            ((is_manager ≡ true) × IsChecked (strat_deployer_in now))
            ⊎ ((is_manager ≡ false) × SameTerms (strat_deployer_in now) (strat_deployer_in bytes))
      terms true is_deploy bytes len (inl off) = cc
      terms true is_deploy bytes len (inr c) =
          inl (refl, managed_update-IsChecked new_authority.key args bytes is_deploy width len c)
      terms false is_deploy bytes len c =
          inr (refl, other_update-SameTerms new_authority.key args bytes is_deploy)
