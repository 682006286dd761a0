-- ===== src/Processor/Tokens/Miner.antt =====
-- What the creation of a miner has checked and called, and why the recycling for a deployer fails.
use evore_program.Prelude.{
  ℕ, ◌≡◌, ◌∙◌, ◌+◌, length-drop, ap, refl, arith, length, true, [], ◌∷◌, ◌++◌, ltb, not, drop,
  append_assoc,
}
use evore_program.Error.{
  evore, manager_not_initialized, incorrect_program_id, invalid_account_data, invalid_pda,
  deployer_not_initialized, ok, err, Result, ProgramError,
}
use evore_program.Runtime.{
  AccountInfo, Runtime, AsAccountReads, AccountDataReads, Tx, transfer, ore_automate, invoke,
}
use evore_program.Runtime.Chain.{read-ok, reject_if-ok, >>=-ok, lift-ok}
use evore_program.State.{deployer_size, deployer_discriminator, deployer_pda}
use evore_program.Processor.Loads.{when}
use evore_program.Processor.Reads.{require_signer-ok, require_data-ok, same_key-ok, load_manager-ok}
use evore_program.Processor.Rounds.Fees.{calls_when, invoke-calls, when-calls}
use evore_program.Processor.Claims.{board_address, bumped_seeds}
use evore_program.Processor.Automation.{default_key}
use evore_program.Processor.Tokens.{
  require_owner, total_required, process_mm_create_miner, process_recycle_sol,
}
use evore_program.Processor.Tokens.Ensured.{IsOwner, require_owner-ok}

module _ (rt : Runtime) (reads : AsAccountReads rt) (s : Tx) where
  module _ (signer manager auth executor_1 executor_2 system ore : AccountInfo)
      (auth_id bump : ℕ) where
    -- With a runtime that reads accounts as steel does: a creation of a miner that succeeds was signed
    -- by the manager's authority and is at the manager's own address with the given bump. It makes
    -- these calls: the transfer of the rents and the checkpoint fee from the signer to that address,
    -- the opening of an automation whose executor is the signer, its closing, and the transfer back
    -- to the signer of all that the closing leaves there, if it leaves anything.
    pub create_miner-calls :
        {t : Tx}
        → process_mm_create_miner rt signer manager auth executor_1 executor_2 system ore auth_id
            bump s
          ≡ ok (tt, t)
        → (signer.is_signer ≡ true)
          × IsOwner rt s signer manager auth auth_id bump
          × (executor_1.key ≡ signer.key)
          × ((funded opened closed : Tx) × (invoke rt
                  (transfer signer.key auth.key (total_required rt))
                  []
                  s
                ≡ ok (tt, funded))
              × (invoke rt
                    (ore_automate auth.key 0 0 executor_1.key 0 0 0)
                    (bumped_seeds rt manager.key auth_id bump)
                    funded
                  ≡ ok (tt, opened))
              × (invoke rt
                    (ore_automate auth.key 0 0 default_key 0 0 0)
                    (bumped_seeds rt manager.key auth_id bump)
                    opened
                  ≡ ok (tt, closed))
              × (when
                    (ltb 0 (closed.ledger auth.key).lamports)
                    (invoke rt
                      (transfer auth.key signer.key (closed.ledger auth.key).lamports)
                      (bumped_seeds rt manager.key auth_id bump))
                    closed
                  ≡ ok (tt, t))
              × (t.calls
                  ≡ s.calls
                    ++ (transfer signer.key auth.key (total_required rt)
                        ∷ ore_automate auth.key 0 0 executor_1.key 0 0 0
                        ∷ ore_automate auth.key 0 0 default_key 0 0 0
                        ∷ calls_when
                            (ltb 0 (closed.ledger auth.key).lamports)
                            (transfer auth.key signer.key (closed.ledger auth.key).lamports))))
    unfolding process_mm_create_miner
    create_miner-calls {t} h =
        let (sig, h1) = require_signer-ok s signer _ h in
        let (_, h2) = reject_if-ok (not signer.is_writable) invalid_account_data _ s h1 in
        let (_, h3) = same_key-ok s ore.key rt.ore_id incorrect_program_id _ h2 in
        let (_, h4) = same_key-ok s system.key rt.system_id incorrect_program_id _ h3 in
        let (same, h5) = same_key-ok s executor_1.key signer.key invalid_account_data _ h4 in
        let (_, h6) = same_key-ok s executor_2.key default_key invalid_account_data _ h5 in
        let h7 = require_data-ok s manager (evore manager_not_initialized) _ h6 in
        let (owner, h8) =
          read-ok {P = IsOwner rt s signer manager auth auth_id bump}
            (require_owner rt signer manager auth auth_id bump) tt _ s
            (λ u _ e. require_owner-ok rt s reads signer manager auth auth_id bump {u = u} e) h7 in
        let paid = transfer signer.key auth.key (total_required rt) in
        let opened = ore_automate auth.key 0 0 executor_1.key 0 0 0 in
        let closed = ore_automate auth.key 0 0 default_key 0 0 0 in
        let seeds = bumped_seeds rt manager.key auth_id bump in
        let (_, s1, e1, h9) = >>=-ok (invoke rt paid []) _ s h8 in
        let (_, s2, e2, h10) = >>=-ok (invoke rt opened seeds) _ s1 h9 in
        let (_, s3, e3, h11) = >>=-ok (invoke rt closed seeds) _ s2 h10 in
        let n = (s3.ledger auth.key).lamports in
        let back = transfer auth.key signer.key n in
        let three =
          invoke-calls rt closed seeds s2 e3
          ∙ ap (λ l. l ++ closed ∷ [])
              (invoke-calls rt opened seeds s1 e2
                ∙ ap (λ l. l ++ opened ∷ []) (invoke-calls rt paid [] s e1)) in
        (
          sig,
          owner,
          same,
          (
            s1,
            s2,
            s3,
            e1,
            e2,
            e3,
            h11,
            when-calls rt (ltb 0 n) back seeds s3 h11
                ∙ ap (λ l. l ++ calls_when (ltb 0 n) back) three
                ∙ append_assoc ((s.calls ++ paid ∷ []) ++ opened ∷ []) (closed ∷ []) _
                ∙ append_assoc (s.calls ++ paid ∷ []) (opened ∷ []) _
                ∙ append_assoc s.calls (paid ∷ []) _,
          ),
        )

  module _ (signer manager deployer auth miner board system ore : AccountInfo) (auth_id : ℕ) where
    recycled-never :
        {t : Tx}
        → AccountDataReads rt
        → length (s.ledger deployer.key).bytes ≡ 8 + deployer_size
        → process_recycle_sol rt signer manager deployer auth miner board system ore auth_id s
          ≡ ok (tt, t)
        → ⊥
    unfolding process_recycle_sol
    recycled-never data_reads size h =
        let (_, h1) = require_signer-ok s signer _ h in
        let (_, h2) = same_key-ok s ore.key rt.ore_id incorrect_program_id _ h1 in
        let (_, h3) = same_key-ok s system.key rt.system_id incorrect_program_id _ h2 in
        let (_, h4) = same_key-ok s board.key (board_address rt) (evore invalid_pda) _ h3 in
        let h5 = require_data-ok s manager (evore manager_not_initialized) _ h4 in
        let h6 = load_manager-ok s rt reads manager _ h5 in
        let h7 = require_data-ok s deployer (evore deployer_not_initialized) _ h6 in
        let (_, h8) =
          same_key-ok s (deployer_pda rt manager.key).0 deployer.key (evore invalid_pda) _ h7 in
        let whole = (s.ledger deployer.key).bytes in
        let (struct, e, _) =
          lift-ok (rt.account_data deployer_discriminator deployer_size (drop 8 whole)) _ s h8 in
        let (_, long, _) =
          data_reads deployer_discriminator deployer_size (drop 8 whole) struct e in
        omega (arith, long, size, length-drop 8 whole)

    -- With a runtime that reads accounts and their data as steel does: a recycling always fails when
    -- the deployer's account has the size that the creation of a deployer gives it, since the
    -- handler drops the discriminator that steel then looks for.
    pub recycle_sol-fails :
        AccountDataReads rt
        → length (s.ledger deployer.key).bytes ≡ 8 + deployer_size
        → (e : ProgramError) × (process_recycle_sol rt signer manager deployer auth miner board
              system ore auth_id s
            ≡ err e)
    recycle_sol-fails data_reads size =
        go (process_recycle_sol rt signer manager deployer auth miner board system ore auth_id s)
          refl
      where
        go :
            (q : Result (Unit {0} × Tx))
            → process_recycle_sol rt signer manager deployer auth miner board system ore auth_id s
              ≡ q
            → (e : ProgramError) × (q ≡ err e)
        go (Result.ok (u, t)) h = absurd (recycled-never data_reads size h)
        go (Result.err e) h = (e, refl)
