-- ===== src/Processor/Balance/Withdraw.antt =====
-- Who may withdraw, and how much.
use evore_program.Prelude.{ℕ, ◌+◌, ◌-◌, ◌≤◌, ◌≡◌, ◌⊎◌, refl, arith, true, false, [], ◌∷◌, ◌++◌, ltb}
use evore_program.Error.{
  evore, manager_not_initialized, not_authorized, incorrect_program_id, invalid_pda,
  insufficient_autodeploy_balance, ok,
}
use evore_program.Runtime.{AccountInfo, Runtime, AsAccountReads, Tx, transfer}
use evore_program.Runtime.Chain.{reject_if-ok, call-ok}
use evore_program.State.{managed_miner_auth_pda}
use evore_program.Processor.Fees.{auth_pda_rent}
use evore_program.Processor.Reads.{
  manager_at, require_signer-ok, require_data-ok, same_key-ok, load_manager-ok,
}
use evore_program.Processor.Balance.{process_withdraw_autodeploy_balance}

above_rent :
    (balance amount : ℕ)
    → ltb (balance - auth_pda_rent) amount ≡ false
    → (amount ≡ 0) ⊎ (auth_pda_rent + amount ≤ balance)
above_rent balance amount h = ground arith

module _ (rt : Runtime) (reads : AsAccountReads rt) (signer manager auth system : AccountInfo)
    (auth_id amount : ℕ) (s : Tx) where
  -- With a runtime that reads accounts as steel does: a withdrawal that succeeds was signed by the
  -- manager's authority, from the manager's own address for that id, leaves the rent there (unless
  -- nothing is withdrawn), and makes the one call that pays the amount to the signer.
  pub withdraw-authorized :
      {t : Tx}
      → process_withdraw_autodeploy_balance rt signer manager auth system auth_id amount s
        ≡ ok (tt, t)
      → (signer.is_signer ≡ true)
        × ((manager_at s manager.key).authority ≡ signer.key)
        × ((managed_miner_auth_pda rt manager.key auth_id).0 ≡ auth.key)
        × ((amount ≡ 0) ⊎ (auth_pda_rent + amount ≤ (s.ledger auth.key).lamports))
        × (t.calls ≡ s.calls ++ transfer auth.key signer.key amount ∷ [])
  unfolding process_withdraw_autodeploy_balance
  withdraw-authorized h =
      let (sig, h1) = require_signer-ok s signer _ h in
      let (_, h2) = same_key-ok s system.key rt.system_id incorrect_program_id _ h1 in
      let h3 = require_data-ok s manager (evore manager_not_initialized) _ h2 in
      let h4 = load_manager-ok s rt reads manager _ h3 in
      let (mine, h5) =
        same_key-ok s (manager_at s manager.key).authority signer.key (evore not_authorized) _ h4 in
      let (pda, h6) =
        same_key-ok s (managed_miner_auth_pda rt manager.key auth_id).0 auth.key (evore invalid_pda)
          _ h5 in
      let balance = (s.ledger auth.key).lamports in
      let (room, h7) =
        reject_if-ok (ltb (balance - auth_pda_rent) amount) (evore insufficient_autodeploy_balance)
          _ s h6 in
      let (ledger, _, e) = call-ok rt (transfer auth.key signer.key amount) _ s h7 in
      (sig, mine, pda, above_rent balance amount room, rw e refl)
