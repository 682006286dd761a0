-- ===== src/Processor/Claims/Executor.antt =====
-- What a deploy authority may settle and claim, and the calls that this makes.
use evore_program.Prelude.{
  ℕ, ◌≡◌, ◌∙◌, Bool, ◌&&◌, ap, inl, inr, true, some, [], ◌∷◌, ◌++◌, not, ◌==◌, drop, Bool-cases,
}
use evore_program.Error.{
  evore, manager_not_initialized, incorrect_program_id, invalid_account_data, invalid_pda,
  deployer_not_initialized, strat_deployer_not_initialized, invalid_deploy_authority, ok,
}
use evore_program.OreApi.{Pubkey, miner_of_bytes, miner_size, miner_discriminator}
use evore_program.Runtime.{
  AccountInfo, Runtime, AsAccountReads, Seeds, Tx, ore_checkpoint, ore_claim_sol, is_empty_data,
  invoke,
}
use evore_program.Runtime.Chain.{reject_if-ok, lift-ok, call-ok}
use evore_program.State.{
  deployer_pda, strategy_deployer_pda, managed_miner_auth_pda, strategy_deployer_of_bytes,
  strategy_deployer_size, strategy_deployer_discriminator, managed_miner_auth_seeds,
}
use evore_program.Processor.Reads.{
  deployer_at, require_signer-ok, require_data-ok, same_key-ok, load_manager-ok, load_deployer-ok,
  load-ok,
}
use evore_program.Processor.StratDeployer.Terms.{strat_deployer_in, strat_deployer_at}
use evore_program.Processor.Loads.{when}
use evore_program.Processor.Rounds.Fees.{calls_when, when-calls}
use evore_program.Processor.Claims.{
  board_address, miner_address, bumped_seeds, created_address, process_mm_autocheckpoint,
  process_mm_strat_autocheckpoint, claim_rewards, process_recycle_strat_sol,
}
use evore_program.Processor.Claims.Calls.{created-some}

-- The miner has an account, and rewards to claim.
unfoldable pub has_rewards : Tx → (miner : Pubkey) → Bool
has_rewards s miner =
    not (is_empty_data (s.ledger miner).bytes)
    && not ((miner_of_bytes (drop 8 (s.ledger miner).bytes)).rewards_sol == 0)

-- ORE's claim to an address, from a transaction s to t, exactly if the miner has rewards.
abbrev pub IsClaimed : (rt : Runtime) (auth miner : AccountInfo) (seeds : Seeds) (s t : Tx) → Type 0
IsClaimed rt auth miner seeds s t =
    (when (has_rewards s miner.key) (invoke rt (ore_claim_sol auth.key) seeds) s ≡ ok (tt, t))
    × (t.calls ≡ s.calls ++ calls_when (has_rewards s miner.key) (ore_claim_sol auth.key))

module _ (rt : Runtime) (reads : AsAccountReads rt) (s : Tx) where
  module _ (signer manager deployer auth miner system ore : AccountInfo) (auth_id bump : ℕ) where
    -- With a runtime that reads accounts as steel does: an automatic checkpoint that succeeds was
    -- signed by the deploy authority of the manager's deployer, is at the manager's own address with
    -- the given bump, and makes one call: ORE's checkpoint of that address in the miner's round.
    pub mm_autocheckpoint-calls :
        {t : Tx}
        → process_mm_autocheckpoint rt signer manager deployer auth miner system ore auth_id bump s
          ≡ ok (tt, t)
        → (signer.is_signer ≡ true)
          × ((deployer_pda rt manager.key).0 ≡ deployer.key)
          × ((deployer_at s deployer.key).deploy_authority ≡ signer.key)
          × (rt.create_program_address (bumped_seeds rt manager.key auth_id bump) ≡ some auth.key)
          × (t.calls
              ≡ s.calls
                ++ ore_checkpoint auth.key
                    (miner_of_bytes (drop 8 (s.ledger miner.key).bytes)).round_id
                  ∷ [])
    unfolding process_mm_autocheckpoint
    mm_autocheckpoint-calls h =
        let (sig, h1) = require_signer-ok s signer _ h in
        let (_, h2) = reject_if-ok (not auth.is_writable) invalid_account_data _ s h1 in
        let (_, h3) = same_key-ok s ore.key rt.ore_id incorrect_program_id _ h2 in
        let (_, h4) = same_key-ok s system.key rt.system_id incorrect_program_id _ h3 in
        let h5 = require_data-ok s manager (evore manager_not_initialized) _ h4 in
        let h6 = load_manager-ok s rt reads manager _ h5 in
        let h7 = require_data-ok s deployer (evore deployer_not_initialized) _ h6 in
        let (at, h8) =
          same_key-ok s (deployer_pda rt manager.key).0 deployer.key (evore invalid_pda) _ h7 in
        let (_, h9) = load_deployer-ok s rt reads deployer _ h8 in
        let (mine, h10) =
          same_key-ok s (deployer_at s deployer.key).deploy_authority signer.key
            (evore invalid_deploy_authority) _ h9 in
        let (pda, e, h11) =
          lift-ok (created_address rt (bumped_seeds rt manager.key auth_id bump)) _ s h10 in
        let (own, h12) = same_key-ok s pda auth.key (evore invalid_pda) _ h11 in
        let h13 = require_data-ok s miner invalid_account_data _ h12 in
        let (_, h14) =
          load-ok s rt reads rt.ore_id miner_discriminator miner_size miner_of_bytes miner _ h13 in
        let (_, _, e1) = call-ok rt _ _ s h14 in
        (sig, at, mine, created-some rt _ e ∙ ap (λ k. some k) own, ap (λ u. u.calls) e1)

  module _ (signer manager deployer auth miner ore : AccountInfo) (auth_id bump : ℕ) where
    -- With a runtime that reads accounts as steel does: an automatic checkpoint for a strategy
    -- deployer that succeeds was signed by its deploy authority, and leaves the whole transaction as
    -- it was: no account changes and ORE's checkpoint is not called.
    pub mm_strat_autocheckpoint-unchanged :
        {t : Tx}
        → process_mm_strat_autocheckpoint rt signer manager deployer auth miner ore auth_id bump s
          ≡ ok (tt, t)
        → (signer.is_signer ≡ true)
          × ((strat_deployer_at s deployer.key).deploy_authority ≡ signer.key)
          × (t ≡ s)
    unfolding process_mm_strat_autocheckpoint strat_deployer_in
    mm_strat_autocheckpoint-unchanged h =
        let (sig, h1) = require_signer-ok s signer _ h in
        let (_, h2) = same_key-ok s ore.key rt.ore_id incorrect_program_id _ h1 in
        let h3 = require_data-ok s manager (evore manager_not_initialized) _ h2 in
        let h4 = load_manager-ok s rt reads manager _ h3 in
        let h5 = require_data-ok s deployer (evore strat_deployer_not_initialized) _ h4 in
        let (_, h6) =
          same_key-ok s (strategy_deployer_pda rt manager.key).0 deployer.key (evore invalid_pda) _
            h5 in
        let (_, h7) =
          load-ok s rt reads rt.evore_id strategy_deployer_discriminator strategy_deployer_size
            strategy_deployer_of_bytes deployer _ h6 in
        let (mine, h8) =
          same_key-ok s (strat_deployer_at s deployer.key).deploy_authority signer.key
            (evore invalid_deploy_authority) _ h7 in
        let (pda, _, h9) =
          lift-ok (created_address rt (bumped_seeds rt manager.key auth_id bump)) _ s h8 in
        let (_, h10) = same_key-ok s pda auth.key (evore invalid_pda) _ h9 in
        let (_, h11) =
          same_key-ok s (miner_address rt auth.key) miner.key (evore invalid_pda) _ h10 in
        let h12 = require_data-ok s miner invalid_account_data _ h11 in
        let (_, h13) =
          load-ok s rt reads rt.ore_id miner_discriminator miner_size miner_of_bytes miner _ h12 in
        (sig, mine, cc)

  -- The claim of rewards calls ORE exactly if there are some.
  pub claim_rewards-calls :
      (auth miner : AccountInfo) (seeds : Seeds) {u : Unit {0}} {t : Tx}
      → claim_rewards rt auth miner seeds s ≡ ok (u, t)
      → IsClaimed rt auth miner seeds s t
  unfolding claim_rewards has_rewards
  claim_rewards-calls auth miner seeds {t = t} h =
      let run : when (has_rewards s miner.key) (invoke rt (ore_claim_sol auth.key) seeds) s
          ≡ ok (tt, t) =
        elim (Bool-cases (is_empty_data (s.ledger miner.key).bytes)) [
          | inl none_yet ↦ rw none_yet (rw none_yet at h)
          | inr there ↦
              (let (_, h') =
                  load-ok s rt reads rt.ore_id miner_discriminator miner_size miner_of_bytes miner _
                    (rw there at h) in
                elim (Bool-cases
                  ((miner_of_bytes (drop 8 (s.ledger miner.key).bytes)).rewards_sol == 0)) [
                    | inl zero_rewards ↦ rw (there, zero_rewards) (rw zero_rewards at h')
                    | inr some_rewards ↦ rw (there, some_rewards) (rw some_rewards at h')
                  ])
        ] in
      (run, when-calls rt (has_rewards s miner.key) (ore_claim_sol auth.key) seeds s run)

  module _ (signer manager deployer auth miner board ore system : AccountInfo) (auth_id : ℕ) where
    -- With a runtime that reads accounts as steel does: a recycling for a strategy deployer that
    -- succeeds was signed by the deploy authority of the manager's own strategy deployer, is at the
    -- manager's own address and that address's miner, and makes ORE's claim to that address if the
    -- miner has an account with rewards; else it leaves the whole transaction as it was.
    pub recycle_strat_sol-calls :
        {t : Tx}
        → process_recycle_strat_sol rt signer manager deployer auth miner board ore system auth_id s
          ≡ ok (tt, t)
        → (signer.is_signer ≡ true)
          × ((strategy_deployer_pda rt manager.key).0 ≡ deployer.key)
          × ((strat_deployer_at s deployer.key).deploy_authority ≡ signer.key)
          × ((managed_miner_auth_pda rt manager.key auth_id).0 ≡ auth.key)
          × (miner_address rt auth.key ≡ miner.key)
          × IsClaimed rt auth miner
              (managed_miner_auth_seeds manager.key auth_id
                ++ ((managed_miner_auth_pda rt manager.key auth_id).1 ∷ []) ∷ [])
              s
              t
    unfolding process_recycle_strat_sol strat_deployer_in
    recycle_strat_sol-calls h =
        let (sig, h1) = require_signer-ok s signer _ h in
        let (_, h2) = same_key-ok s ore.key rt.ore_id incorrect_program_id _ h1 in
        let (_, h3) = same_key-ok s system.key rt.system_id incorrect_program_id _ h2 in
        let (_, h4) = same_key-ok s board.key (board_address rt) (evore invalid_pda) _ h3 in
        let h5 = require_data-ok s manager (evore manager_not_initialized) _ h4 in
        let h6 = load_manager-ok s rt reads manager _ h5 in
        let h7 = require_data-ok s deployer (evore strat_deployer_not_initialized) _ h6 in
        let (its, h8) =
          same_key-ok s (strategy_deployer_pda rt manager.key).0 deployer.key (evore invalid_pda) _
            h7 in
        let (_, h9) =
          load-ok s rt reads rt.evore_id strategy_deployer_discriminator strategy_deployer_size
            strategy_deployer_of_bytes deployer _ h8 in
        let (mine, h10) =
          same_key-ok s (strat_deployer_at s deployer.key).deploy_authority signer.key
            (evore invalid_deploy_authority) _ h9 in
        let (own, h11) =
          same_key-ok s (managed_miner_auth_pda rt manager.key auth_id).0 auth.key
            (evore invalid_pda) _ h10 in
        let (at, h12) =
          same_key-ok s (miner_address rt auth.key) miner.key (evore invalid_pda) _ h11 in
        (sig, its, mine, own, at, claim_rewards-calls auth miner _ h12)
