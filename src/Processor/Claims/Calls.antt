-- ===== src/Processor/Claims/Calls.antt =====
-- Who may settle a round and claim, and the calls that this makes.
use evore_program.Prelude.{
  ℕ, ◌≡◌, ◌∙◌, ap, true, Option, none, some, [], ◌∷◌, ◌++◌, not, drop, append_assoc,
}
use evore_program.Error.{
  evore, manager_not_initialized, not_authorized, incorrect_program_id, invalid_account_data,
  invalid_pda, ok,
}
use evore_program.OreApi.{Pubkey, round_of_bytes, round_size, round_discriminator}
use evore_program.Runtime.{
  AccountInfo, Runtime, AsAccountReads, Seeds, Tx, Ledger, transfer, ore_checkpoint, ore_claim_sol,
  after_call,
}
use evore_program.Runtime.Chain.{reject_if-ok, lift-ok, invoke-ok, call-ok}
use evore_program.Processor.Reads.{
  manager_at, require_signer-ok, require_data-ok, same_key-ok, load_manager-ok, load-ok,
}
use evore_program.Processor.Claims.{
  board_address, bumped_seeds, found, created_address, process_claim_sol, process_checkpoint,
}

pub created-some :
    (rt : Runtime) (seeds : Seeds) {k : Pubkey}
    → created_address rt seeds ≡ ok k
    → rt.create_program_address seeds ≡ some k
unfolding created_address
created-some rt seeds h = found-some (rt.create_program_address seeds) h
  where
    found-some : (o : Option Pubkey) {k : Pubkey} → found o ≡ ok k → o ≡ some k
    found-some none h = cc
    found-some (some key) h = cc

module _ (rt : Runtime) (reads : AsAccountReads rt) (s : Tx) where
  module _ (signer manager auth board system ore : AccountInfo) (auth_id bump : ℕ) where
    -- With a runtime that reads accounts as steel does: a claim that succeeds was signed by the
    -- manager's authority, from the manager's own address with the given bump, and makes two calls:
    -- ORE's claim to that address, and then the transfer to the signer of all that this address
    -- holds after the claim.
    pub claim_sol-calls :
        {t : Tx}
        → process_claim_sol rt signer manager auth board system ore auth_id bump s ≡ ok (tt, t)
        → (signer.is_signer ≡ true)
          × ((manager_at s manager.key).authority ≡ signer.key)
          × (rt.create_program_address (bumped_seeds rt manager.key auth_id bump) ≡ some auth.key)
          × ((claimed : Ledger) × (rt.invoke_signed
                  (ore_claim_sol auth.key)
                  (bumped_seeds rt manager.key auth_id bump)
                  s.ledger
                ≡ ok claimed)
              × (t.calls
                  ≡ s.calls
                    ++ ore_claim_sol auth.key
                      ∷ transfer auth.key signer.key (claimed auth.key).lamports
                      ∷ []))
    unfolding process_claim_sol
    claim_sol-calls h =
        let (sig, h1) = require_signer-ok s signer _ h in
        let (_, h2) = reject_if-ok (not signer.is_writable) invalid_account_data _ s h1 in
        let (_, h3) = reject_if-ok (not auth.is_writable) invalid_account_data _ s h2 in
        let h4 = require_data-ok s manager (evore manager_not_initialized) _ h3 in
        let (_, h5) = same_key-ok s ore.key rt.ore_id incorrect_program_id _ h4 in
        let (_, h6) = same_key-ok s board.key (board_address rt) (evore invalid_pda) _ h5 in
        let (_, h7) = same_key-ok s system.key rt.system_id incorrect_program_id _ h6 in
        let h8 = load_manager-ok s rt reads manager _ h7 in
        let (mine, h9) =
          same_key-ok s (manager_at s manager.key).authority signer.key (evore not_authorized) _
            h8 in
        let (pda, e, h10) =
          lift-ok (created_address rt (bumped_seeds rt manager.key auth_id bump)) _ s h9 in
        let (own, h11) = same_key-ok s pda auth.key (evore invalid_pda) _ h10 in
        let (claimed, e1, h12) = invoke-ok rt (ore_claim_sol auth.key) _ _ s h11 in
        let s1 = after_call (ore_claim_sol auth.key) s claimed in
        let (_, _, e2) =
          call-ok rt (transfer auth.key signer.key (claimed auth.key).lamports) _ s1 h12 in
        (
          sig,
          mine,
          created-some rt _ e ∙ ap (λ k. some k) own,
          (claimed, e1, ap (λ u. u.calls) e2 ∙ append_assoc s.calls _ _),
        )

  module _ (signer manager auth round system ore : AccountInfo) (auth_id bump : ℕ) where
    -- With a runtime that reads accounts as steel does: a checkpoint that succeeds was signed by the
    -- manager's authority, is at the manager's own address with the given bump, and makes one call:
    -- ORE's checkpoint of that address in the round of the round account.
    pub checkpoint-calls :
        {t : Tx}
        → process_checkpoint rt signer manager auth round system ore auth_id bump s ≡ ok (tt, t)
        → (signer.is_signer ≡ true)
          × ((manager_at s manager.key).authority ≡ signer.key)
          × (rt.create_program_address (bumped_seeds rt manager.key auth_id bump) ≡ some auth.key)
          × (t.calls
              ≡ s.calls
                ++ ore_checkpoint auth.key (round_of_bytes (drop 8 (s.ledger round.key).bytes)).id
                  ∷ [])
    unfolding process_checkpoint
    checkpoint-calls h =
        let (sig, h1) = require_signer-ok s signer _ h in
        let (_, h2) = reject_if-ok (not manager.is_writable) invalid_account_data _ s h1 in
        let (_, h3) = reject_if-ok (not auth.is_writable) invalid_account_data _ s h2 in
        let h4 = require_data-ok s manager (evore manager_not_initialized) _ h3 in
        let (_, h5) = same_key-ok s ore.key rt.ore_id incorrect_program_id _ h4 in
        let (_, h6) = same_key-ok s system.key rt.system_id incorrect_program_id _ h5 in
        let h7 = load_manager-ok s rt reads manager _ h6 in
        let (mine, h8) =
          same_key-ok s (manager_at s manager.key).authority signer.key (evore not_authorized) _
            h7 in
        let (_, h9) =
          load-ok s rt reads rt.ore_id round_discriminator round_size round_of_bytes round _ h8 in
        let (pda, e, h10) =
          lift-ok (created_address rt (bumped_seeds rt manager.key auth_id bump)) _ s h9 in
        let (own, h11) = same_key-ok s pda auth.key (evore invalid_pda) _ h10 in
        let (_, _, e1) = call-ok rt _ _ s h11 in
        (sig, mine, created-some rt _ e ∙ ap (λ k. some k) own, ap (λ u. u.calls) e1)
