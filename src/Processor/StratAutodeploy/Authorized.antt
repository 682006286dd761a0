-- ===== src/Processor/StratAutodeploy/Authorized.antt =====
-- What the guards of the strategy autodeploys establish.
use evore_program.Prelude.{ℕ, ◌≤◌, ◌≡◌, ◌⊎◌, refl, arith, true, false, ltb}
use evore_program.Error.{
  evore, incorrect_program_id, invalid_fee_collector, manager_not_initialized,
  strat_deployer_not_initialized, invalid_pda, invalid_deploy_authority, unexpected_fee,
  insufficient_autodeploy_balance, ok,
}
use evore_program.Runtime.{AccountInfo, Runtime, AsAccountReads, Tx}
use evore_program.Runtime.Chain.{reject_if-ok, reject_if-end, eq_of_not-ne}
use evore_program.State.{
  StrategyDeployer, strategy_deployer_of_bytes, strategy_deployer_size,
  strategy_deployer_discriminator, strategy_deployer_pda, managed_miner_auth_pda,
}
use evore_program.Processor.Loads.{◌!=◌}
use evore_program.Processor.Fees.{is_unexpected}
use evore_program.Processor.Reads.{
  require_signer-ok, require_data-ok, same_key-ok, load_manager-ok, load-end,
}
use evore_program.Processor.Rounds.Reads.{rent_of_miner}
use evore_program.Processor.StratDeployer.Terms.{strat_deployer_at, strat_deployer_in}
use evore_program.Processor.StratAutodeploy.{
  StratAccounts, check_programs, load_strat, check_terms, check_managed_miner_auth, require_balance,
  strat_required_balance,
}

within_expected :
    (expected actual : ℕ)
    → is_unexpected expected actual ≡ false
    → (expected ≡ 0) ⊎ (actual ≤ expected)
within_expected expected actual h = ground arith

-- The signer is the deploy authority and its fees keep to what the manager expects.
pub record IsWithinTerms (signer : AccountInfo) (d : StrategyDeployer) : Type 0 where
  pub authority : d.deploy_authority ≡ signer.key
  pub bps : (d.expected_bps_fee ≡ 0) ⊎ (d.bps_fee ≤ d.expected_bps_fee)
  pub flat : (d.expected_flat_fee ≡ 0) ⊎ (d.flat_fee ≤ d.expected_flat_fee)

module _ (rt : Runtime) (s : Tx) where
  pub check_programs-ok :
      (signer fee_collector ore_program entropy_program system_program : AccountInfo) {u : Unit {0}}
      {t : Tx}
      → check_programs rt signer fee_collector ore_program entropy_program system_program s
        ≡ ok (u, t)
      → (u ≡ tt) × (t ≡ s) × ((signer.is_signer ≡ true) × (fee_collector.key ≡ rt.fee_collector))
  unfolding check_programs
  check_programs-ok signer fee_collector ore_program entropy_program system_program h =
      let (sig, h1) = require_signer-ok s signer _ h in
      let (_, h2) = same_key-ok s ore_program.key rt.ore_id incorrect_program_id _ h1 in
      let (_, h3) = same_key-ok s system_program.key rt.system_id incorrect_program_id _ h2 in
      let (_, h4) = same_key-ok s entropy_program.key rt.entropy_id incorrect_program_id _ h3 in
      let (c, e) =
        reject_if-end (fee_collector.key != rt.fee_collector) (evore invalid_fee_collector) s h4 in
      (refl, e, (sig, eq_of_not-ne fee_collector.key rt.fee_collector c))

  pub check_terms-ok :
      (signer : AccountInfo) (d : StrategyDeployer) {u : Unit {0}} {t : Tx}
      → check_terms rt signer d s ≡ ok (u, t)
      → (u ≡ tt) × (t ≡ s) × IsWithinTerms signer d
  unfolding check_terms
  check_terms-ok signer d h =
      let (auth, h1) =
        same_key-ok s d.deploy_authority signer.key (evore invalid_deploy_authority) _ h in
      let (bps, h2) =
        reject_if-ok (is_unexpected d.expected_bps_fee d.bps_fee) (evore unexpected_fee) _ s h1 in
      let (flat, e) =
        reject_if-end (is_unexpected d.expected_flat_fee d.flat_fee) (evore unexpected_fee) s h2 in
      (
        refl,
        e,
        record {
          authority = auth;
          bps = within_expected d.expected_bps_fee d.bps_fee bps;
          flat = within_expected d.expected_flat_fee d.flat_fee flat;
        },
      )

  pub check_managed_miner_auth-ok :
      (manager auth : AccountInfo) (auth_id : ℕ) {u : Unit {0}} {t : Tx}
      → check_managed_miner_auth rt manager auth auth_id s ≡ ok (u, t)
      → (u ≡ tt) × (t ≡ s) × ((managed_miner_auth_pda rt manager.key auth_id).0 ≡ auth.key)
  unfolding check_managed_miner_auth
  check_managed_miner_auth-ok manager auth auth_id h =
      let pda = (managed_miner_auth_pda rt manager.key auth_id).0 in
      let (c, e) = reject_if-end (pda != auth.key) (evore invalid_pda) s h in
      (refl, e, eq_of_not-ne pda auth.key c)

  -- The balance is there, and the yield is the rent of the miner.
  pub require_balance-ok :
      (ore_miner auth : AccountInfo) (total fee automation_rent : ℕ) {n : ℕ} {t : Tx}
      → require_balance rt ore_miner auth total fee automation_rent s ≡ ok (n, t)
      → (n ≡ rent_of_miner rt s ore_miner.key)
        × (t ≡ s)
        × (strat_required_balance total (rent_of_miner rt s ore_miner.key) fee automation_rent
            ≤ (s.ledger auth.key).lamports)
  unfolding require_balance
  require_balance-ok ore_miner auth total fee automation_rent h =
      let required =
        strat_required_balance total (rent_of_miner rt s ore_miner.key) fee automation_rent in
      let (c, e) =
        reject_if-ok (ltb (s.ledger auth.key).lamports required)
          (evore insufficient_autodeploy_balance) _ s h in
      (cc, cc, enough (s.ledger auth.key).lamports required c)
    where
      enough : (balance required : ℕ) → ltb balance required ≡ false → required ≤ balance
      enough balance required h = ground arith

  pub load_strat-ok :
      (reads : AsAccountReads rt) (accounts : StratAccounts) {d : StrategyDeployer} {t : Tx}
      → load_strat rt accounts s ≡ ok (d, t)
      → (d ≡ strat_deployer_at s accounts.strat_deployer.key)
        × (t ≡ s)
        × ((strategy_deployer_pda rt accounts.manager.key).0 ≡ accounts.strat_deployer.key)
  unfolding load_strat strat_deployer_in
  load_strat-ok reads accounts h =
      let h1 = require_data-ok s accounts.manager (evore manager_not_initialized) _ h in
      let h2 = load_manager-ok s rt reads accounts.manager _ h1 in
      let h3 =
        require_data-ok s accounts.strat_deployer (evore strat_deployer_not_initialized) _ h2 in
      let (own, h4) =
        same_key-ok s (strategy_deployer_pda rt accounts.manager.key).0 accounts.strat_deployer.key
          (evore invalid_pda) _ h3 in
      let (e, es) =
        load-end s rt reads rt.evore_id strategy_deployer_discriminator strategy_deployer_size
          strategy_deployer_of_bytes accounts.strat_deployer h4 in
      (e, es, own)
