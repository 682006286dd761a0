-- ===== src/Processor/MmDeploy/Calls.antt =====
-- What a deployment that succeeds has checked, and the calls it makes.
use evore_program.Prelude.{
  ℕ, ◌-◌, ◌<◌, ◌≡◌, ◌⊎◌, ◌∙◌, refl, ap, arith, Bool, true, false, not, Option, none, some, List, [],
  ◌++◌, leb, ltb, ◌==◌, ◌&&◌, from_le_bytes, append_assoc,
}
use evore_program.Error.{
  evore, incorrect_program_id, invalid_fee_collector, not_authorized, manager_not_initialized,
  invalid_pda, end_slot_reached, too_many_slots_left, no_deployments, already_deployed_this_round,
  invalid_account_data, ok,
}
use evore_program.OreApi.{
  board_of_bytes, board_size, board_discriminator, round_of_bytes, round_size, round_discriminator,
}
use evore_program.Runtime.{Runtime, AsAccountReads, Tx, invoke, transfer, Seeds}
use evore_program.Runtime.Chain.{
  reject_if-ok, reject_if-end, >>=-ok, read-ok, lift-ok, eq_of_not-ne,
}
use evore_program.Instruction.{DeployStrategy, MmDeployArgs, get_strategy, get_allow_multi_deploy}
use evore_program.MmDeploy.Batch.{DeploymentBatch}
use evore_program.Processor.Fees.{deploy_fee}
use evore_program.Processor.Loads.{when, ◌!=◌}
use evore_program.Processor.Reads.{
  manager_at, require_signer-ok, require_data-ok, same_key-ok, load_manager-ok, load-ok,
}
use evore_program.Processor.Claims.{created_address, bumped_seeds}
use evore_program.Processor.Claims.Calls.{created-some}
use evore_program.Processor.Rounds.{is_already_deployed}
use evore_program.Processor.Rounds.Reads.{
  is_deployed, is_already_deployed-ok, board_at, round_at, rent_of_miner,
}
use evore_program.Processor.Rounds.Fees.{calls_when, when-calls}
use evore_program.Processor.Automation.Calls.{
  IsSession, automation_calls, deploy_with_automation-calls,
}
use evore_program.Processor.MmDeploy.{
  MmDeployAccounts, parsed, is_too_early, calculate_deployments, mm_required_balance,
  automation_rent, mm_deposit, check_manager, top_up, fund_and_deploy, process_mm_deploy,
}

module _ (rt : Runtime) (accounts : MmDeployAccounts) where
  open accounts use {signer, manager, managed_miner_auth, ore_miner, fee_collector, board, round}

  -- The signer is the manager's authority, and the fee goes to the fee collector.
  pub record IsManaged (s : Tx) : Type 0 where
    pub signed : signer.is_signer ≡ true
    pub authority : (manager_at s manager.key).authority ≡ signer.key
    pub collector : fee_collector.key ≡ rt.fee_collector

  -- What the signer adds to the manager's address.
  abbrev pub top_up_amount : Tx → (total_deployed : ℕ) → ℕ
  top_up_amount s total_deployed =
      mm_required_balance total_deployed (rent_of_miner rt s ore_miner.key) (automation_rent rt)
      - (s.ledger managed_miner_auth.key).lamports

  -- From a transaction s to t: the fee of a first deployment and the top-up, both from the signer, and
  -- then the session of the batches on what the top-up leaves, signed with the seeds.
  pub record IsDeployed (seeds : Seeds) (first : Bool) (batches : List DeploymentBatch)
      (total_deployed : ℕ) (s t : Tx) : Type 0 where
    pub after_fee : Tx
    pub after_top_up : Tx
    pub round_ids : List ℕ
    pub still_open : Bool
    pub paid :
        when first (invoke rt (transfer signer.key fee_collector.key deploy_fee) []) s
        ≡ ok (tt, after_fee)
    pub topped_up : top_up rt accounts total_deployed after_fee ≡ ok (tt, after_top_up)
    pub session :
        IsSession rt managed_miner_auth.key seeds accounts.automation round
          (mm_deposit rt (after_top_up.ledger managed_miner_auth.key).lamports)
          batches
          round_ids
          still_open
          after_top_up
          t
    pub calls :
        t.calls
        ≡ s.calls
          ++ (calls_when first (transfer signer.key fee_collector.key deploy_fee)
              ++ (calls_when (ltb 0 (top_up_amount after_fee total_deployed)) (
                    transfer signer.key managed_miner_auth.key
                      (top_up_amount after_fee total_deployed))
                  ++ automation_calls managed_miner_auth.key round_ids
                      (mm_deposit rt (after_top_up.ledger managed_miner_auth.key).lamports)
                      batches
                      still_open))

  top_up-calls :
      (s : Tx) (total : ℕ) {u : Unit {0}} {t : Tx}
      → top_up rt accounts total s ≡ ok (u, t)
      → t.calls
        ≡ s.calls
          ++ calls_when
              (ltb 0 (top_up_amount s total))
              (transfer signer.key managed_miner_auth.key (top_up_amount s total))
  unfolding top_up
  top_up-calls s total h =
      when-calls rt (ltb 0 (top_up_amount s total))
        (transfer signer.key managed_miner_auth.key (top_up_amount s total)) [] s h

  fund_and_deploy-IsDeployed :
      (seeds : Seeds) (first : Bool) (batches : List DeploymentBatch) (total : ℕ) (s : Tx)
      {u : Unit {0}} {t : Tx}
      → fund_and_deploy rt accounts seeds first batches total s ≡ ok (u, t)
      → IsDeployed seeds first batches total s t
  unfolding fund_and_deploy
  fund_and_deploy-IsDeployed seeds first batches total s h =
      let fee = transfer signer.key fee_collector.key deploy_fee in
      let (_, s1, paid, h1) = >>=-ok (when first (invoke rt fee [])) _ s h in
      let (_, s2, topped, h2) = >>=-ok (top_up rt accounts total) _ s1 h1 in
      let n = top_up_amount s1 total in
      let added = calls_when (ltb 0 n) (transfer signer.key managed_miner_auth.key n) in
      let (ids, o, run, c) =
        deploy_with_automation-calls rt managed_miner_auth.key seeds accounts.automation round _
          batches s2 h2 in
      let rest =
        automation_calls managed_miner_auth.key ids
          (mm_deposit rt (s2.ledger managed_miner_auth.key).lamports) batches o in
      record {
        after_fee = s1;
        after_top_up = s2;
        round_ids = ids;
        still_open = o;
        paid = paid;
        topped_up = topped;
        session = run;
        calls =
            c
            ∙ ap (λ l. l ++ rest)
                (top_up-calls s1 total topped
                  ∙ ap (λ l. l ++ added) (when-calls rt first fee [] s paid))
            ∙ append_assoc (s.calls ++ calls_when first fee) added rest
            ∙ append_assoc s.calls (calls_when first fee) (added ++ rest);
      }

  module _ (reads : AsAccountReads rt) (s : Tx) where
    check_manager-ok :
        {u : Unit {0}} {t : Tx}
        → check_manager rt accounts s ≡ ok (u, t)
        → (u ≡ tt) × (t ≡ s) × IsManaged s
    unfolding check_manager
    check_manager-ok h =
        let (sig, h1) = require_signer-ok s signer _ h in
        let (_, h2) = reject_if-ok (not manager.is_writable) invalid_account_data _ s h1 in
        let h3 = require_data-ok s manager (evore manager_not_initialized) _ h2 in
        let (_, h4) = same_key-ok s accounts.ore_program.key rt.ore_id incorrect_program_id _ h3 in
        let (_, h5) =
          same_key-ok s accounts.system_program.key rt.system_id incorrect_program_id _ h4 in
        let (_, h6) =
          same_key-ok s accounts.entropy_program.key rt.entropy_id incorrect_program_id _ h5 in
        let (col, h7) =
          same_key-ok s fee_collector.key rt.fee_collector (evore invalid_fee_collector) _ h6 in
        let h8 = load_manager-ok s rt reads manager _ h7 in
        let m = manager_at s manager.key in
        let (c, e) = reject_if-end (m.authority != signer.key) (evore not_authorized) s h8 in
        (
          refl,
          e,
          record {
            signed = sig;
            authority = eq_of_not-ne m.authority signer.key c;
            collector = col;
          },
        )

    parsed-some : (o : Option DeployStrategy) {d : DeployStrategy} → parsed o ≡ ok d → o ≡ some d
    parsed-some none h = cc
    parsed-some (some d) h = cc

    -- With a runtime that reads accounts as steel does: a deployment that succeeds carries a strategy,
    -- was signed by the manager's authority, is at the manager's address with the given bump, came
    -- before the end of the round and (for EV) not too early, and is the miner's first of the round
    -- unless it allows several. The strategy calculates something to deploy on the round as it is,
    -- and the calls are exactly these: the fee from the signer if it is the miner's first, the top-up
    -- from the signer to the required balance if that is missing, and the session of the batches: the
    -- opening of an automation, each batch in the round that is then current, and the closing exactly
    -- if the automation's account still has data after them.
    pub mm_deploy-calls :
        (args : MmDeployArgs) {t : Tx}
        → process_mm_deploy rt accounts args s ≡ ok (tt, t)
        → let already = is_deployed rt reads s ore_miner.key (board_at s board.key) in
          (strategy : DeployStrategy) × (get_strategy args ≡ some strategy)
          × (s.slot < (board_at s board.key).end_slot)
          × (is_too_early strategy (board_at s board.key).end_slot s.slot ≡ false)
          × IsManaged s
          × (rt.create_program_address
                (bumped_seeds rt manager.key (from_le_bytes args.auth_id) args.bump)
              ≡ some managed_miner_auth.key)
          × ((get_allow_multi_deploy args ≡ true) ⊎ (already ≡ false))
          × (0 < (calculate_deployments strategy (round_at s round.key).deployed).1)
          × IsDeployed
              (bumped_seeds rt manager.key (from_le_bytes args.auth_id) args.bump)
              (not already)
              (calculate_deployments strategy (round_at s round.key).deployed).0
              (calculate_deployments strategy (round_at s round.key).deployed).1
              s
              t
    unfolding process_mm_deploy
    mm_deploy-calls args {t} h =
        let b = board_at s board.key in
        let seeds = bumped_seeds rt manager.key (from_le_bytes args.auth_id) args.bump in
        let (strategy, e0, h1) = lift-ok (parsed (get_strategy args)) _ s h in
        let (_, h2) =
          load-ok s rt reads rt.ore_id board_discriminator board_size board_of_bytes board _ h1 in
        let (live, h3) = reject_if-ok (leb b.end_slot s.slot) (evore end_slot_reached) _ s h2 in
        let (late, h4) =
          reject_if-ok (is_too_early strategy b.end_slot s.slot) (evore too_many_slots_left) _ s
            h3 in
        let (managed, h5) =
          read-ok {P = IsManaged s} (check_manager rt accounts) tt _ s
            (λ u _ e. check_manager-ok {u = u} e) h4 in
        let (_, h6) =
          load-ok s rt reads rt.ore_id round_discriminator round_size round_of_bytes round _ h5 in
        let (pda, created, h7) = lift-ok (created_address rt seeds) _ s h6 in
        let (same, h8) = same_key-ok s pda managed_miner_auth.key (evore invalid_pda) _ h7 in
        let already = is_deployed rt reads s ore_miner.key b in
        let (_, h9) =
          read-ok {P = Unit {0}} (is_already_deployed rt ore_miner b) already _ s
            (λ _ _ e.
              let (eb, es) = is_already_deployed-ok rt reads s ore_miner b e in (eb, es, tt))
            h8 in
        let (once, h10) =
          reject_if-ok (not (get_allow_multi_deploy args) && already)
            (evore already_deployed_this_round) _ s h9 in
        let (batches, total) = calculate_deployments strategy (round_at s round.key).deployed in
        let (some_stake, h11) = reject_if-ok (total == 0) (evore no_deployments) _ s h10 in
        (
          strategy,
          parsed-some (get_strategy args) e0,
          before s.slot b.end_slot live,
          late,
          managed,
          rw same at (created-some rt seeds created),
          allowed (get_allow_multi_deploy args) already once,
          positive total some_stake,
          fund_and_deploy-IsDeployed seeds (not already) batches total s h11,
        )
      where
        before : (slot end : ℕ) → leb end slot ≡ false → slot < end
        before slot end h = ground arith

        positive : (n : ℕ) → n == 0 ≡ false → 0 < n
        positive n h = ground arith

        allowed :
            (allow already : Bool)
            → (not allow && already) ≡ false
            → (allow ≡ true) ⊎ (already ≡ false)
        allowed allow already h = ground arith
