-- ===== src/Processor/Automation/Calls.antt =====
-- The calls of a deployment with an automation, in order.
use evore_program.Prelude.{
  ℕ, ◌≡◌, ◌∙◌, sym, ap, refl, Bool, not, List, [], ◌∷◌, ◌++◌, ◌==◌, append_assoc, append-nil,
  get_or, drop,
}
use evore_program.Error.{ok}
use evore_program.OreApi.{Pubkey, round_of_bytes}
use evore_program.Runtime.{
  AccountInfo, Runtime, Tx, Call, ore_deploy, ore_automate, Seeds, is_empty_data, invoke,
}
use evore_program.Runtime.Chain.{>>=-ok, call-ok}
use evore_program.MmDeploy.Batch.{DeploymentBatch}
use evore_program.Processor.Loads.{when}
use evore_program.Processor.Rounds.Fees.{calls_when, when-calls}
use evore_program.Processor.Automation.{
  sort_by_amount, last_amount, deploy_batches, close_automation, open_automation,
  deploy_with_automation, default_key,
}

-- One deployment for each batch that has an amount, in the rounds that are read before each.
unfoldable pub deploy_calls : Pubkey → (round_ids : List ℕ) → List DeploymentBatch → List Call
deploy_calls auth round_ids [] = []
deploy_calls auth round_ids (b ∷ bs) =
    calls_when (not (b.amount == 0)) (ore_deploy auth b.amount (get_or round_ids 0 0) b.squares)
    ++ deploy_calls auth (drop 1 round_ids) bs

-- Open, deploy the sorted batches, and close where it is still open.
unfoldable pub automation_calls :
    Pubkey
    → (round_ids : List ℕ) → (deposit : ℕ) → List DeploymentBatch
    → (still_open : Bool) → List Call
automation_calls auth round_ids deposit batches still_open =
    ore_automate auth (last_amount (sort_by_amount batches)) deposit auth 0 0 2
    ∷ (deploy_calls auth round_ids (sort_by_amount batches)
        ++ calls_when still_open (ore_automate auth 0 0 default_key 0 0 0))

module _ (rt : Runtime) (auth : Pubkey) (seeds : Seeds) where
  -- The batches are deployed from a transaction s to t, each one that has an amount in the round of
  -- the id that is read just before it.
  abbrev pub AreDeployed :
      (round_info : AccountInfo) → List DeploymentBatch → (round_ids : List ℕ) → Tx → Tx → Type 0
  AreDeployed round_info [] round_ids s t = (round_ids ≡ []) × (t ≡ s)
  AreDeployed round_info (b ∷ bs) round_ids s t =
      (next : Tx) × (later_ids : List ℕ) × (round_ids
        ≡ (round_of_bytes (drop 8 (s.ledger round_info.key).bytes)).id ∷ later_ids)
      × (when (not (b.amount == 0))
            (invoke rt
              (ore_deploy auth b.amount (round_of_bytes (drop 8 (s.ledger round_info.key).bytes)).id
                b.squares)
              seeds)
            s
          ≡ ok (tt, next))
      × AreDeployed round_info bs later_ids next t

  -- A session from a transaction s to t: the automation is opened, the sorted batches are deployed,
  -- and it is closed exactly if its account still has data after them.
  pub record IsSession (info round_info : AccountInfo) (deposit : ℕ) (bs : List DeploymentBatch)
      (round_ids : List ℕ) (still_open : Bool) (s t : Tx) : Type 0 where
    pub opened : Tx
    pub filled : Tx
    pub opens :
        invoke rt (ore_automate auth (last_amount (sort_by_amount bs)) deposit auth 0 0 2) seeds s
        ≡ ok (tt, opened)
    pub deploys : AreDeployed round_info (sort_by_amount bs) round_ids opened filled
    pub left : still_open ≡ not (is_empty_data (filled.ledger info.key).bytes)
    pub closes :
        when still_open (invoke rt (ore_automate auth 0 0 default_key 0 0 0) seeds) filled
        ≡ ok (tt, t)

  pub deploy_batches-calls :
      (round_info : AccountInfo) (bs : List DeploymentBatch) (s : Tx) {u : Unit {0}} {t : Tx}
      → deploy_batches rt auth seeds round_info bs s ≡ ok (u, t)
      → (round_ids : List ℕ) × AreDeployed round_info bs round_ids s t
        × (t.calls ≡ s.calls ++ deploy_calls auth round_ids bs)
  unfolding deploy_batches deploy_calls
  deploy_batches-calls round_info [] s {t = t} h =
      let e : t ≡ s = cc in ([], (refl, e), rw e (sym (append-nil s.calls)))
  deploy_batches-calls round_info (b ∷ bs) s h =
      let id = (round_of_bytes (drop 8 (s.ledger round_info.key).bytes)).id in
      let call = ore_deploy auth b.amount id b.squares in
      let (_, s', e, h1) = >>=-ok (when (not (b.amount == 0)) (invoke rt call seeds)) _ s h in
      let (ids, run, e') = deploy_batches-calls round_info bs s' h1 in
      (
        id ∷ ids,
        (s', ids, refl, e, run),
        e'
            ∙ ap (λ c. c ++ deploy_calls auth ids bs)
                (when-calls rt (not (b.amount == 0)) call seeds s e)
            ∙ append_assoc s.calls _ _,
      )

  pub deploy_with_automation-calls :
      (info round_info : AccountInfo) (deposit : ℕ) (bs : List DeploymentBatch) (s : Tx)
      {u : Unit {0}} {t : Tx}
      → deploy_with_automation rt auth seeds info round_info deposit bs s ≡ ok (u, t)
      → (round_ids : List ℕ) × (still_open : Bool) × IsSession info round_info deposit bs round_ids
          still_open s t
        × (t.calls ≡ s.calls ++ automation_calls auth round_ids deposit bs still_open)
  unfolding deploy_with_automation automation_calls open_automation close_automation
  deploy_with_automation-calls info round_info deposit bs s h =
      let sorted = sort_by_amount bs in
      let opened = ore_automate auth (last_amount sorted) deposit auth 0 0 2 in
      let closed = ore_automate auth 0 0 default_key 0 0 0 in
      let (_, s1, e1, h1) = >>=-ok (invoke rt opened seeds) _ s h in
      let (_, s2, e2, h2) = >>=-ok (deploy_batches rt auth seeds round_info sorted) _ s1 h1 in
      let (ids, run, e3) = deploy_batches-calls round_info sorted s1 e2 in
      let (_, _, et) = call-ok rt opened seeds s e1 in
      let still_open = not (is_empty_data (s2.ledger info.key).bytes) in
      (
        ids,
        still_open,
        record { opened = s1; filled = s2; opens = e1; deploys = run; left = refl; closes = h2 },
        when-calls rt still_open closed seeds s2 h2
            ∙ ap (λ c. c ++ calls_when still_open closed)
                (e3 ∙ ap (λ u. u.calls ++ deploy_calls auth ids sorted) et)
            ∙ append_assoc (s.calls ++ opened ∷ []) _ _
            ∙ append_assoc s.calls (opened ∷ []) _,
      )
