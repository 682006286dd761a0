-- ===== src/Processor/Tokens/Ensured.antt =====
-- What the steps that the token handlers share have checked and called.
use evore_program.Prelude.{
  ℕ, ◌≡◌, ◌∙◌, refl, sym, ap, ◌⊎◌, true, false, Bool-cases, inl, inr, some, [], ◌++◌, append-nil,
}
use evore_program.Error.{evore, not_authorized, invalid_pda, ok, Result}
use evore_program.OreApi.{Pubkey}
use evore_program.Runtime.{
  AccountInfo, Runtime, AsAccountReads, Tx, lift, invoke, is_empty_data, create_token_account,
}
use evore_program.Runtime.Chain.{>>=-ok, reject_if-end, call-ok, lift-ok, eq_of_not-ne}
use evore_program.Processor.Loads.{◌!=◌}
use evore_program.Processor.Reads.{manager_at, same_key-ok, load_manager-ok}
use evore_program.Processor.Rounds.Fees.{calls_when}
use evore_program.Processor.Claims.{bumped_seeds, created_address}
use evore_program.Processor.Claims.Calls.{created-some}
use evore_program.Processor.Tokens.{token_amount, ensure_token_account, require_owner}

module _ (rt : Runtime) (s : Tx) where
  -- An amount that was read.
  pub token_amount-ok :
      (owner mint : Pubkey) (info : AccountInfo) {n : ℕ} {t : Tx}
      → token_amount rt owner mint info s ≡ ok (n, t)
      → (rt.as_token_account owner mint info.key (s.ledger info.key) ≡ ok n) × (t ≡ s)
  unfolding token_amount
  token_amount-ok owner mint info h =
      go (rt.as_token_account owner mint info.key (s.ledger info.key)) refl h
    where
      go :
          (q : Result ℕ)
          → rt.as_token_account owner mint info.key (s.ledger info.key) ≡ q
          → {n : ℕ} {t : Tx} → lift q s ≡ ok (n, t)
          → (rt.as_token_account owner mint info.key (s.ledger info.key) ≡ ok n) × (t ≡ s)
      go (Result.ok m) e h = (cc, cc)
      go (Result.err x) e h = cc

  -- From the transaction to t, the owner's token account is there: it is created at the payer's cost
  -- where it has no data, and else nothing changes, since it is a token account of the owner's for
  -- the mint.
  abbrev pub IsEnsured : (payer owner mint : Pubkey) → AccountInfo → Tx → Type 0
  IsEnsured payer owner mint info t =
      ((is_empty_data (s.ledger info.key).bytes ≡ true)
        × (invoke rt (create_token_account payer owner info.key mint) [] s ≡ ok (tt, t)))
      ⊎ ((is_empty_data (s.ledger info.key).bytes ≡ false)
          × ((held : ℕ) × (rt.as_token_account owner mint info.key (s.ledger info.key) ≡ ok held))
          × (t ≡ s))

  pub ensure_token_account-IsEnsured :
      (payer owner mint : Pubkey) (info : AccountInfo) {u : Unit {0}} {t : Tx}
      → ensure_token_account rt payer owner mint info s ≡ ok (u, t)
      → IsEnsured payer owner mint info t
  unfolding ensure_token_account
  ensure_token_account-IsEnsured payer owner mint info {t = t} h =
      elim (Bool-cases (is_empty_data (s.ledger info.key).bytes)) [
        | inl none_yet ↦ inl (none_yet, rw none_yet at h)
        | inr there ↦
            let (n, s1, e, h1) = >>=-ok (token_amount rt owner mint info) _ s (rw there at h) in
            let (held, es) = token_amount-ok owner mint info e in
            let et : t ≡ s1 = cc in inr (there, (n, held), et ∙ es)
      ]

  -- The account is created where it has no data.
  pub ensure_token_account-calls :
      (payer owner mint : Pubkey) (info : AccountInfo) {u : Unit {0}} {t : Tx}
      → ensure_token_account rt payer owner mint info s ≡ ok (u, t)
      → t.calls
        ≡ s.calls
          ++ calls_when
              (is_empty_data (s.ledger info.key).bytes)
              (create_token_account payer owner info.key mint)
  unfolding ensure_token_account
  ensure_token_account-calls payer owner mint info {t = t} h =
      elim (Bool-cases (is_empty_data (s.ledger info.key).bytes)) [
        | inl none_yet ↦ rw none_yet (
            let (_, _, e) =
              call-ok rt (create_token_account payer owner info.key mint) [] s (rw none_yet at h) in
            ap (λ u. u.calls) e)
        | inr there ↦ rw there (
            let (n, s1, e, h1) = >>=-ok (token_amount rt owner mint info) _ s (rw there at h) in
            let es = (token_amount-ok owner mint info e).1 in
            let et : t ≡ s1 = cc in rw et (rw es (sym (append-nil s.calls))))
      ]

  -- The signer is the manager's authority, and the address is the manager's.
  pub record IsOwner (signer manager auth : AccountInfo) (auth_id bump : ℕ) : Type 0 where
    pub authority : (manager_at s manager.key).authority ≡ signer.key
    pub address :
        rt.create_program_address (bumped_seeds rt manager.key auth_id bump) ≡ some auth.key

  pub require_owner-ok :
      (reads : AsAccountReads rt) (signer manager auth : AccountInfo) (auth_id bump : ℕ)
      {u : Unit {0}} {t : Tx}
      → require_owner rt signer manager auth auth_id bump s ≡ ok (u, t)
      → (u ≡ tt) × (t ≡ s) × IsOwner signer manager auth auth_id bump
  unfolding require_owner
  require_owner-ok reads signer manager auth auth_id bump h =
      let h1 = load_manager-ok s rt reads manager _ h in
      let (mine, h2) =
        same_key-ok s (manager_at s manager.key).authority signer.key (evore not_authorized) _ h1 in
      let (pda, e, h3) =
        lift-ok (created_address rt (bumped_seeds rt manager.key auth_id bump)) _ s h2 in
      let (c, et) = reject_if-end (pda != auth.key) (evore invalid_pda) s h3 in
      (
        refl,
        et,
        record {
          authority = mine;
          address = created-some rt _ e ∙ ap (λ k. some k) (eq_of_not-ne pda auth.key c);
        },
      )
