-- ===== src/Processor/Tokens/Calls.antt =====
-- What the token handlers that succeed have checked, and the calls they make.
use evore_program.Prelude.{ℕ, ◌≡◌, ◌∙◌, ap, true, [], ◌∷◌, ◌++◌, not, append_assoc}
use evore_program.Error.{
  evore, manager_not_initialized, incorrect_program_id, invalid_account_data, invalid_pda, ok,
}
use evore_program.Runtime.{
  AccountInfo, Runtime, AsAccountReads, Tx, invoke, is_empty_data, ore_claim_ore,
  create_token_account, token_transfer,
}
use evore_program.Runtime.Chain.{>>=-ok, read-ok, reject_if-ok, call-ok}
use evore_program.Processor.Reads.{require_signer-ok, require_data-ok, same_key-ok}
use evore_program.Processor.Rounds.Fees.{calls_when, invoke-calls}
use evore_program.Processor.Claims.{board_address, bumped_seeds}
use evore_program.Processor.Tokens.{
  token_amount, ensure_token_account, require_owner, process_claim_ore, process_withdraw_tokens,
}
use evore_program.Processor.Tokens.Ensured.{
  token_amount-ok, IsEnsured, ensure_token_account-IsEnsured, ensure_token_account-calls, IsOwner,
  require_owner-ok,
}

module _ (rt : Runtime) (reads : AsAccountReads rt)
    (signer manager auth mint source destination system spl ata : AccountInfo) (auth_id bump : ℕ)
    (s : Tx) where
  -- With a runtime that reads accounts as steel does: a withdrawal of tokens that succeeds was signed
  -- by the manager's authority and is at the manager's own address with the given bump. The
  -- destination is a token account of the signer's for the mint, or has no data and is created as
  -- one at the signer's cost. The calls are this creation, if it has no data, and the transfer to it
  -- of the whole amount that the manager's token account for the mint held at first.
  pub withdraw_tokens-calls :
      {t : Tx}
      → process_withdraw_tokens rt signer manager auth source destination mint system spl ata
          auth_id bump s
        ≡ ok (tt, t)
      → (signer.is_signer ≡ true)
        × IsOwner rt s signer manager auth auth_id bump
        × ((amount : ℕ) × (ready : Tx) × (rt.as_token_account auth.key mint.key source.key
                (s.ledger source.key)
              ≡ ok amount)
            × IsEnsured rt s signer.key signer.key mint.key destination ready
            × (invoke rt
                  (token_transfer auth.key source.key destination.key amount)
                  (bumped_seeds rt manager.key auth_id bump)
                  ready
                ≡ ok (tt, t))
            × (t.calls
                ≡ s.calls
                  ++ (calls_when
                        (is_empty_data (s.ledger destination.key).bytes)
                        (create_token_account signer.key signer.key destination.key mint.key)
                      ++ token_transfer auth.key source.key destination.key amount ∷ [])))
  unfolding process_withdraw_tokens
  withdraw_tokens-calls {t} h =
      let (sig, h1) = require_signer-ok s signer _ h in
      let (_, h2) = reject_if-ok (not signer.is_writable) invalid_account_data _ s h1 in
      let (_, h3) = reject_if-ok (not auth.is_writable) invalid_account_data _ s h2 in
      let (_, h4) = reject_if-ok (not source.is_writable) invalid_account_data _ s h3 in
      let (_, h5) = reject_if-ok (not destination.is_writable) invalid_account_data _ s h4 in
      let h6 = require_data-ok s manager (evore manager_not_initialized) _ h5 in
      let (_, h7) = same_key-ok s system.key rt.system_id incorrect_program_id _ h6 in
      let (_, h8) = same_key-ok s spl.key rt.spl_token_id incorrect_program_id _ h7 in
      let (_, h9) = same_key-ok s ata.key rt.spl_ata_id incorrect_program_id _ h8 in
      let (owner, h10) =
        read-ok {P = IsOwner rt s signer manager auth auth_id bump}
          (require_owner rt signer manager auth auth_id bump) tt _ s
          (λ u _ e. require_owner-ok rt s reads signer manager auth auth_id bump {u = u} e) h9 in
      let (amount, s1, e, h11) = >>=-ok (token_amount rt auth.key mint.key source) _ s h10 in
      let (held, es) = token_amount-ok rt s auth.key mint.key source e in
      let (_, s2, e2, h12) =
        >>=-ok (ensure_token_account rt signer.key signer.key mint.key destination) _ s
          (rw es at h11) in
      let paid = token_transfer auth.key source.key destination.key amount in
      let (_, _, e3) = call-ok rt paid _ s2 h12 in
      (
        sig,
        owner,
        (
          amount,
          s2,
          held,
          ensure_token_account-IsEnsured rt s signer.key signer.key mint.key destination e2,
          h12,
          ap (λ u. u.calls) e3
              ∙ ap (λ l. l ++ paid ∷ [])
                  (ensure_token_account-calls rt s signer.key signer.key mint.key destination e2)
              ∙ append_assoc s.calls _ _,
        ),
      )

  module _ (board recipient ore : AccountInfo) where
    -- With a runtime that reads accounts as steel does: a claim of ORE that succeeds was signed by the
    -- manager's authority and is at the manager's own address with the given bump. It makes these
    -- calls: the creation of that address's token account if it has no data, ORE's claim, the
    -- creation of the signer's token account if it then has no data, and the transfer to it of the
    -- whole amount that the manager's token account then holds. A token account that has data
    -- already is its owner's for the mint.
    pub claim_ore-calls :
        {t : Tx}
        → process_claim_ore rt signer manager auth board mint recipient destination system spl ata
            ore auth_id bump s
          ≡ ok (tt, t)
        → (signer.is_signer ≡ true)
          × IsOwner rt s signer manager auth auth_id bump
          × ((received claimed settled : Tx) × (amount : ℕ) × IsEnsured rt s signer.key auth.key
                mint.key recipient received
              × (invoke rt
                    (ore_claim_ore auth.key)
                    (bumped_seeds rt manager.key auth_id bump)
                    received
                  ≡ ok (tt, claimed))
              × IsEnsured rt claimed signer.key signer.key mint.key destination settled
              × (invoke rt
                    (token_transfer auth.key recipient.key destination.key amount)
                    (bumped_seeds rt manager.key auth_id bump)
                    settled
                  ≡ ok (tt, t))
              × (claimed.calls
                  ≡ s.calls
                    ++ (calls_when
                          (is_empty_data (s.ledger recipient.key).bytes)
                          (create_token_account signer.key auth.key recipient.key mint.key)
                        ++ ore_claim_ore auth.key ∷ []))
              × (rt.as_token_account auth.key mint.key recipient.key (settled.ledger recipient.key)
                  ≡ ok amount)
              × (t.calls
                  ≡ claimed.calls
                    ++ (calls_when
                          (is_empty_data (claimed.ledger destination.key).bytes)
                          (create_token_account signer.key signer.key destination.key mint.key)
                        ++ token_transfer auth.key recipient.key destination.key amount ∷ [])))
    unfolding process_claim_ore
    claim_ore-calls {t} h =
        let (sig, h1) = require_signer-ok s signer _ h in
        let (_, h2) = reject_if-ok (not signer.is_writable) invalid_account_data _ s h1 in
        let (_, h3) = reject_if-ok (not auth.is_writable) invalid_account_data _ s h2 in
        let (_, h4) = reject_if-ok (not recipient.is_writable) invalid_account_data _ s h3 in
        let (_, h5) = reject_if-ok (not destination.is_writable) invalid_account_data _ s h4 in
        let h6 = require_data-ok s manager (evore manager_not_initialized) _ h5 in
        let (_, h7) = same_key-ok s ore.key rt.ore_id incorrect_program_id _ h6 in
        let (_, h8) = same_key-ok s board.key (board_address rt) (evore invalid_pda) _ h7 in
        let (_, h9) = same_key-ok s system.key rt.system_id incorrect_program_id _ h8 in
        let (_, h10) = same_key-ok s spl.key rt.spl_token_id incorrect_program_id _ h9 in
        let (_, h11) = same_key-ok s ata.key rt.spl_ata_id incorrect_program_id _ h10 in
        let (owner, h12) =
          read-ok {P = IsOwner rt s signer manager auth auth_id bump}
            (require_owner rt signer manager auth auth_id bump) tt _ s
            (λ u _ e. require_owner-ok rt s reads signer manager auth auth_id bump {u = u} e) h11 in
        let (_, s1, e1, h13) =
          >>=-ok (ensure_token_account rt signer.key auth.key mint.key recipient) _ s h12 in
        let seeds = bumped_seeds rt manager.key auth_id bump in
        let (_, s2, e2, h14) = >>=-ok (invoke rt (ore_claim_ore auth.key) seeds) _ s1 h13 in
        let (_, s3, e3, h15) =
          >>=-ok (ensure_token_account rt signer.key signer.key mint.key destination) _ s2 h14 in
        let (amount, s4, e4, h16) = >>=-ok (token_amount rt auth.key mint.key recipient) _ s3 h15 in
        let (held, es) = token_amount-ok rt s3 auth.key mint.key recipient e4 in
        let paid = token_transfer auth.key recipient.key destination.key amount in
        let h17 : invoke rt paid seeds s3 ≡ ok (tt, t) = rw es at h16 in
        (
          sig,
          owner,
          (
            s1,
            s2,
            s3,
            amount,
            ensure_token_account-IsEnsured rt s signer.key auth.key mint.key recipient e1,
            e2,
            ensure_token_account-IsEnsured rt s2 signer.key signer.key mint.key destination e3,
            h17,
            invoke-calls rt (ore_claim_ore auth.key) seeds s1 e2
                ∙ ap (λ l. l ++ ore_claim_ore auth.key ∷ [])
                    (ensure_token_account-calls rt s signer.key auth.key mint.key recipient e1)
                ∙ append_assoc s.calls _ _,
            held,
            invoke-calls rt paid seeds s3 h17
                ∙ ap (λ l. l ++ paid ∷ [])
                    (ensure_token_account-calls rt s2 signer.key signer.key mint.key destination e3)
                ∙ append_assoc s2.calls _ _,
          ),
        )
