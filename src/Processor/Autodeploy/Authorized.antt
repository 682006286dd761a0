-- ===== src/Processor/Autodeploy/Authorized.antt =====
-- What the guards on the accounts of an autodeploy establish, and what its parts do.
use evore_program.Prelude.{ℕ, ◌≤◌, ◌≡◌, ◌⊎◌, arith, true, false}
use evore_program.Error.{
  evore, incorrect_program_id, invalid_fee_collector, manager_not_initialized,
  deployer_not_initialized, invalid_pda, invalid_deploy_authority, unexpected_fee, ok,
}
use evore_program.Runtime.{Runtime, AsAccountReads, Tx}
use evore_program.Runtime.Chain.{reject_if-ok}
use evore_program.State.{Deployer, deployer_pda, managed_miner_auth_pda}
use evore_program.Processor.Fees.{is_unexpected}
use evore_program.Processor.Reads.{
  deployer_at, require_signer-ok, require_data-ok, same_key-ok, load_manager-ok, load_deployer-ok,
}
use evore_program.Processor.Autodeploy.{AutodeployAccounts, check_accounts}

within_expected :
    (expected actual : ℕ)
    → is_unexpected expected actual ≡ false
    → (expected ≡ 0) ⊎ (actual ≤ expected)
within_expected expected actual h = ground arith

module _ (rt : Runtime) (reads : AsAccountReads rt) (accounts : AutodeployAccounts) (s : Tx) where
  open accounts use {signer, manager, deployer, managed_miner_auth}

  -- The signer is the deploy authority, its fees keep to what the manager expects, and the addresses
  -- are the manager's own.
  pub record IsAuthorized (auth_id : ℕ) (d : Deployer) : Type 0 where
    pub signed : signer.is_signer ≡ true
    pub authority : d.deploy_authority ≡ signer.key
    pub collector : accounts.fee_collector.key ≡ rt.fee_collector
    pub bps : (d.expected_bps_fee ≡ 0) ⊎ (d.bps_fee ≤ d.expected_bps_fee)
    pub flat : (d.expected_flat_fee ≡ 0) ⊎ (d.flat_fee ≤ d.expected_flat_fee)
    pub deployer_address : (deployer_pda rt manager.key).0 ≡ deployer.key
    pub auth_address : (managed_miner_auth_pda rt manager.key auth_id).0 ≡ managed_miner_auth.key

  pub check_accounts-IsAuthorized :
      (auth_id : ℕ) {d : Deployer} {t : Tx}
      → check_accounts rt accounts auth_id s ≡ ok (d, t)
      → (d ≡ deployer_at s deployer.key)
        × (t ≡ s)
        × IsAuthorized auth_id (deployer_at s deployer.key)
  unfolding check_accounts
  check_accounts-IsAuthorized auth_id h =
      let (sig, h1) = require_signer-ok s signer _ h in
      let (_, h2) = same_key-ok s accounts.ore_program.key rt.ore_id incorrect_program_id _ h1 in
      let (_, h3) =
        same_key-ok s accounts.system_program.key rt.system_id incorrect_program_id _ h2 in
      let (_, h4) =
        same_key-ok s accounts.entropy_program.key rt.entropy_id incorrect_program_id _ h3 in
      let (col, h5) =
        same_key-ok s accounts.fee_collector.key rt.fee_collector (evore invalid_fee_collector) _
          h4 in
      let h6 = require_data-ok s manager (evore manager_not_initialized) _ h5 in
      let h7 = load_manager-ok s rt reads manager _ h6 in
      let h8 = require_data-ok s deployer (evore deployer_not_initialized) _ h7 in
      let (own, h9) =
        same_key-ok s (deployer_pda rt manager.key).0 deployer.key (evore invalid_pda) _ h8 in
      let (_, h10) = load_deployer-ok s rt reads deployer _ h9 in
      let d = deployer_at s deployer.key in
      let (auth, h11) =
        same_key-ok s d.deploy_authority signer.key (evore invalid_deploy_authority) _ h10 in
      let (bps, h12) =
        reject_if-ok (is_unexpected d.expected_bps_fee d.bps_fee) (evore unexpected_fee) _ s h11 in
      let (flat, h13) =
        reject_if-ok (is_unexpected d.expected_flat_fee d.flat_fee) (evore unexpected_fee) _ s
          h12 in
      let (mma, h14) =
        same_key-ok s (managed_miner_auth_pda rt manager.key auth_id).0 managed_miner_auth.key
          (evore invalid_pda) _ h13 in
      (
        cc,
        cc,
        record {
          signed = sig;
          authority = auth;
          collector = col;
          bps = within_expected d.expected_bps_fee d.bps_fee bps;
          flat = within_expected d.expected_flat_fee d.flat_fee flat;
          deployer_address = own;
          auth_address = mma;
        },
      )
