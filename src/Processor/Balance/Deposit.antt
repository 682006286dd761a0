-- ===== src/Processor/Balance/Deposit.antt =====
-- Who may deposit, and where to.
use evore_program.Prelude.{ℕ, ◌≡◌, refl, true, [], ◌∷◌, ◌++◌}
use evore_program.Error.{
  evore, manager_not_initialized, not_authorized, incorrect_program_id, invalid_pda, ok,
}
use evore_program.Runtime.{AccountInfo, Runtime, AsAccountReads, Tx, transfer}
use evore_program.Runtime.Chain.{call-ok}
use evore_program.State.{managed_miner_auth_pda}
use evore_program.Processor.Reads.{
  manager_at, require_signer-ok, require_data-ok, same_key-ok, load_manager-ok,
}
use evore_program.Processor.Balance.{process_deposit_autodeploy_balance}

module _ (rt : Runtime) (reads : AsAccountReads rt) (signer manager auth system : AccountInfo)
    (auth_id amount : ℕ) (s : Tx) where
  -- With a runtime that reads accounts as steel does: a deposit that succeeds was signed by the
  -- manager's authority and makes the one call that pays the amount from the signer to the manager's
  -- own address for that id.
  pub deposit-authorized :
      {t : Tx}
      → process_deposit_autodeploy_balance rt signer manager auth system auth_id amount s
        ≡ ok (tt, t)
      → (signer.is_signer ≡ true)
        × ((manager_at s manager.key).authority ≡ signer.key)
        × ((managed_miner_auth_pda rt manager.key auth_id).0 ≡ auth.key)
        × (t.calls ≡ s.calls ++ transfer signer.key auth.key amount ∷ [])
  unfolding process_deposit_autodeploy_balance
  deposit-authorized h =
      let (sig, h1) = require_signer-ok s signer _ h in
      let (_, h2) = same_key-ok s system.key rt.system_id incorrect_program_id _ h1 in
      let h3 = require_data-ok s manager (evore manager_not_initialized) _ h2 in
      let h4 = load_manager-ok s rt reads manager _ h3 in
      let (mine, h5) =
        same_key-ok s (manager_at s manager.key).authority signer.key (evore not_authorized) _ h4 in
      let (pda, h6) =
        same_key-ok s (managed_miner_auth_pda rt manager.key auth_id).0 auth.key (evore invalid_pda)
          _ h5 in
      let (_, _, e) = call-ok rt (transfer signer.key auth.key amount) _ s h6 in
      (sig, mine, pda, rw e refl)
