-- ===== src/Processor/StratAutodeploy/Spends.antt =====
-- What the deployment of a strategy's result spends: its limits, its fees and its calls.
use evore_program.Prelude.{
  ℕ, ◌≤◌, ◌≡◌, ◌⊎◌, ◌∙◌, refl, ap, Bool, true, false, Bool-cases, inl, inr, not, List, [], ◌∷◌,
  ◌++◌, drop, get_or, sat_add64, if◌then◌else◌, append_assoc,
}
use evore_program.Error.{ok}
use evore_program.OreApi.{Pubkey, Board, round_of_bytes}
use evore_program.Runtime.{Runtime, AsAccountReads, Tx, M, Call, ore_deploy, Seeds, invoke}
use evore_program.Runtime.Chain.{>>=-ok, read-ok, call-ok}
use evore_program.State.{StrategyDeployer}
use evore_program.MmDeploy.Batch.{DeploymentBatch}
use evore_program.StrategyDispatch.{StrategyResult}
use evore_program.Processor.Rounds.{check_max_per_round, pay_fees}
use evore_program.Processor.Rounds.Reads.{amount_this_round, check_max_per_round-ok, rent_of_miner}
use evore_program.Processor.Rounds.Fees.{fee_calls, pay_fees-calls}
use evore_program.Processor.Automation.Calls.{
  IsSession, automation_calls, deploy_with_automation-calls,
}
use evore_program.Processor.StratAutodeploy.{
  StratAccounts, check_limits, pay_and_deploy, deploy_result, deploy_first, strat_fee, found_seeds,
  strat_required_balance, strat_deposit, automation_rent_if,
}
use evore_program.Processor.StratAutodeploy.Authorized.{require_balance-ok}

-- One deployment of the first batch.
abbrev pub first_calls : Pubkey → (round_ids : List ℕ) → List DeploymentBatch → List Call
first_calls auth round_ids [] = []
first_calls auth round_ids (b ∷ bs) = ore_deploy auth b.amount (get_or round_ids 0 0) b.squares ∷ []

-- The first batch is deployed in the round that is current in a transaction s, and leaves t.
abbrev pub IsFirstDeployed :
    (rt : Runtime) (accounts : StratAccounts) (seeds : Seeds)
    → List DeploymentBatch
    → (round_ids : List ℕ) → (s t : Tx) → Type 0
IsFirstDeployed rt accounts seeds [] round_ids s t = ⊥
IsFirstDeployed rt accounts seeds (b ∷ bs) round_ids s t =
    (round_ids ≡ (round_of_bytes (drop 8 (s.ledger accounts.round.key).bytes)).id ∷ [])
    × (invoke rt
          (ore_deploy accounts.managed_miner_auth.key b.amount
            (round_of_bytes (drop 8 (s.ledger accounts.round.key).bytes)).id b.squares)
          seeds s
        ≡ ok (tt, t))

-- With automation, all batches; else the first.
unfoldable pub result_calls :
    Pubkey → (round_ids : List ℕ) → (deposit : ℕ) → StrategyResult → (still_open : Bool) → List Call
result_calls auth round_ids deposit result still_open =
    if result.needs_automation
    then automation_calls auth round_ids deposit result.batches still_open
    else first_calls auth round_ids result.batches

-- What a result's deployments do, from a transaction s to t: a session of all batches where the result
-- needs an automation, else one deployment of the first batch in the round that is then current.
abbrev pub IsResultDeployed :
    (rt : Runtime) (accounts : StratAccounts) (seeds : Seeds) (deposit : ℕ)
    (result : StrategyResult) (round_ids : List ℕ) (still_open : Bool) (s t : Tx)
    → Type 0
IsResultDeployed rt accounts seeds deposit result round_ids still_open s t =
    ((result.needs_automation ≡ true)
      × IsSession rt accounts.managed_miner_auth.key seeds accounts.automation accounts.round
          deposit result.batches round_ids still_open s t)
    ⊎ ((result.needs_automation ≡ false)
        × IsFirstDeployed rt accounts seeds result.batches round_ids s t)

module _ (rt : Runtime) (accounts : StratAccounts) where
  open accounts use {signer, manager, managed_miner_auth, ore_miner, fee_collector, automation}

  -- The deposit of an automation opened from a transaction.
  abbrev pub deposit_at : Tx → StrategyResult → (miner_rent : ℕ) → ℕ
  deposit_at s result miner_rent =
      strat_deposit (s.ledger managed_miner_auth.key).lamports
        (automation_rent_if rt result.needs_automation) miner_rent

  deploy_first-calls :
      (seeds : Seeds) (bs : List DeploymentBatch) (s : Tx) {u : Unit {0}} {t : Tx}
      → deploy_first rt managed_miner_auth.key seeds accounts.round bs s ≡ ok (u, t)
      → (round_ids : List ℕ) × IsFirstDeployed rt accounts seeds bs round_ids s t
        × (t.calls ≡ s.calls ++ first_calls managed_miner_auth.key round_ids bs)
  unfolding deploy_first
  deploy_first-calls seeds [] s h = cc
  deploy_first-calls seeds (b ∷ bs) s h =
      let id = (round_of_bytes (drop 8 (s.ledger accounts.round.key).bytes)).id in
      let (_, _, e) =
        call-ok rt (ore_deploy managed_miner_auth.key b.amount id b.squares) seeds s h in
      (id ∷ [], (refl, h), ap (λ u. u.calls) e)

  chosen_true : (c : Bool) (x y : List Call) → c ≡ true → x ≡ (if c then x else y)
  chosen_true c x y e = rw e refl

  chosen_false : (c : Bool) (x y : List Call) → c ≡ false → y ≡ (if c then x else y)
  chosen_false c x y e = rw e refl

  branch_true :
      {A : Type 0} (c : Bool) (m n : M A) (s : Tx) {r : A × Tx}
      → c ≡ true
      → (if c then m else n) s ≡ ok r
      → m s ≡ ok r
  branch_true true m n s e h = h
  branch_true false m n s e h = cc

  branch_false :
      {A : Type 0} (c : Bool) (m n : M A) (s : Tx) {r : A × Tx}
      → c ≡ false
      → (if c then m else n) s ≡ ok r
      → n s ≡ ok r
  branch_false true m n s e h = cc
  branch_false false m n s e h = h

  deploy_result-calls :
      (seeds : Seeds) (result : StrategyResult) (miner_rent : ℕ) (s : Tx) {u : Unit {0}} {t : Tx}
      → deploy_result rt accounts seeds result miner_rent s ≡ ok (u, t)
      → (round_ids : List ℕ) × (still_open : Bool) × IsResultDeployed rt accounts seeds
          (deposit_at s result miner_rent)
          result
          round_ids
          still_open
          s
          t
        × (t.calls
            ≡ s.calls
              ++ result_calls managed_miner_auth.key round_ids
                  (deposit_at s result miner_rent)
                  result
                  still_open)
  unfolding deploy_result result_calls
  deploy_result-calls seeds result miner_rent s h = elim (Bool-cases result.needs_automation) [
    | inl e ↦
        let dep = deposit_at s result miner_rent in
        let (ids, o, run, c) =
          deploy_with_automation-calls rt managed_miner_auth.key seeds automation accounts.round dep
            result.batches s (branch_true result.needs_automation _ _ s e h) in
        (
          ids,
          o,
          inl (e, run),
          c ∙ ap (λ l. s.calls ++ l) (chosen_true result.needs_automation _ _ e),
        )
    | inr e ↦
        let (ids, run, c) =
          deploy_first-calls seeds result.batches s
            (branch_false result.needs_automation _ _ s e h) in
        (
          ids,
          false,
          inr (e, run),
          c ∙ ap (λ l. s.calls ++ l) (chosen_false result.needs_automation _ _ e),
        )
  ]

  -- From a transaction s to t: the fees are paid if it is the first deployment of the round, and then
  -- come the deployments of the result.
  pub record IsSpent (d : StrategyDeployer) (result : StrategyResult) (auth_id : ℕ) (first : Bool)
      (miner_rent : ℕ) (s t : Tx) : Type 0 where
    pub after_fees : Tx
    pub round_ids : List ℕ
    pub still_open : Bool
    pub paid :
        pay_fees rt managed_miner_auth.key fee_collector.key signer.key
          (found_seeds rt manager.key auth_id)
          first
          (strat_fee rt d result)
          s
        ≡ ok (tt, after_fees)
    pub deploys :
        IsResultDeployed rt accounts
          (found_seeds rt manager.key auth_id)
          (deposit_at after_fees result miner_rent)
          result
          round_ids
          still_open
          after_fees
          t
    pub calls :
        t.calls
        ≡ s.calls
          ++ (fee_calls managed_miner_auth.key fee_collector.key signer.key first
                (strat_fee rt d result)
              ++ result_calls managed_miner_auth.key round_ids
                  (deposit_at after_fees result miner_rent)
                  result
                  still_open)

  pub pay_and_deploy-IsSpent :
      (auth_id : ℕ) (d : StrategyDeployer) (result : StrategyResult) (already : Bool)
      (miner_rent : ℕ) (s : Tx) {u : Unit {0}} {t : Tx}
      → pay_and_deploy rt accounts auth_id d result already miner_rent s ≡ ok (u, t)
      → IsSpent d result auth_id (not already) miner_rent s t
  unfolding pay_and_deploy
  pay_and_deploy-IsSpent auth_id d result already miner_rent s h =
      let (_, s1, paid, h1) =
        >>=-ok
          (pay_fees rt managed_miner_auth.key fee_collector.key signer.key
            (found_seeds rt manager.key auth_id) (not already) (strat_fee rt d result))
          _ s h in
      let (ids, o, run, c) = deploy_result-calls _ result miner_rent s1 h1 in
      record {
        after_fees = s1;
        round_ids = ids;
        still_open = o;
        paid = paid;
        deploys = run;
        calls =
            c
            ∙ ap
                (λ l.
                  l
                  ++ result_calls managed_miner_auth.key ids (deposit_at s1 result miner_rent)
                      result o)
                (pay_fees-calls rt managed_miner_auth.key fee_collector.key signer.key _
                  (not already) (strat_fee rt d result) s paid)
            ∙ append_assoc s.calls _ _;
      }

  -- The limit of the round and the balance hold.
  pub record IsWithinLimits (reads : AsAccountReads rt) (d : StrategyDeployer) (board : Board)
      (result : StrategyResult) (s : Tx) : Type 0 where
    pub limited :
        (d.max_per_round ≡ 0)
        ⊎ (sat_add64 (amount_this_round rt reads s ore_miner.key board) result.total_to_deploy
            ≤ d.max_per_round)
    pub funded :
        strat_required_balance result.total_to_deploy
          (rent_of_miner rt s ore_miner.key)
          (strat_fee rt d result)
          (automation_rent_if rt result.needs_automation)
        ≤ (s.ledger managed_miner_auth.key).lamports

  pub check_limits-ok :
      (reads : AsAccountReads rt) (d : StrategyDeployer) (board : Board) (result : StrategyResult)
      (s : Tx) {n : ℕ} {t : Tx}
      → check_limits rt accounts d board result s ≡ ok (n, t)
      → (n ≡ rent_of_miner rt s ore_miner.key) × (t ≡ s) × IsWithinLimits reads d board result s
  unfolding check_limits
  check_limits-ok reads d board result s h =
      let total = result.total_to_deploy in
      let (limited, h1) =
        read-ok (check_max_per_round rt d.max_per_round total ore_miner board) tt _ s
          (λ _ _ e.
            let (l, es) =
              check_max_per_round-ok rt reads s d.max_per_round total ore_miner board e in
            (refl, es, l))
          h in
      let (en, es, funded) =
        require_balance-ok rt s ore_miner managed_miner_auth total (strat_fee rt d result)
          (automation_rent_if rt result.needs_automation) h1 in
      (en, es, record { limited = limited; funded = funded })
