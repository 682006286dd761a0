-- ===== src/Processor/StratDeployer/Terms.antt =====
-- The terms of a strategy deployer: who may change them, and that the strategy stays a checked one.
use evore_program.Prelude.{
  ℕ, ◌+◌, ◌≤◌, ◌≡◌, ◌⊎◌, ◌∙◌, refl, ap, arith, inl, inr, List, [], ◌∷◌, length, drop, slice,
  from_le_bytes, to_le_bytes,
}
use evore_program.Error.{ok}
use evore_program.OreApi.{Pubkey}
use evore_program.Validation.{check_strategy}
use evore_program.Runtime.{Tx, key_bytes}
use evore_program.Runtime.Bytes.{write_at, length-write_at, length-to_le_bytes}
use evore_program.State.{StrategyDeployer, strategy_deployer_of_bytes}
use evore_program.State.Layout.{slice-write_self, slice-write_after, slice-write_before}
use evore_program.Processor.StratDeployer.{
  UpdateStratDeployer, strat_manager_writes, strat_deploy_authority_writes,
}

unfoldable pub strat_deployer_in : List ℕ → StrategyDeployer
strat_deployer_in bytes = strategy_deployer_of_bytes (drop 8 bytes)

abbrev pub strat_deployer_at : Tx → Pubkey → StrategyDeployer
strat_deployer_at s k = strat_deployer_in (s.ledger k).bytes

-- The strategy passes the check of its parameters.
abbrev pub IsChecked : StrategyDeployer → Type 0
IsChecked d = check_strategy d.strategy_type d.strategy_data ≡ ok tt

-- The manager's terms: what it accepts to pay, how much may be deployed, and the strategy.
pub record SameTerms (d e : StrategyDeployer) : Type 0 where
  pub manager_key : d.manager_key ≡ e.manager_key
  pub expected_bps_fee : d.expected_bps_fee ≡ e.expected_bps_fee
  pub expected_flat_fee : d.expected_flat_fee ≡ e.expected_flat_fee
  pub max_per_round : d.max_per_round ≡ e.max_per_round
  pub strategy_type : d.strategy_type ≡ e.strategy_type
  pub strategy_data : d.strategy_data ≡ e.strategy_data

module _ (new_authority : Pubkey) (args : UpdateStratDeployer) (bytes : List ℕ) where
  -- The deploy authority's writes stay within the bytes 32 to 80 of the struct.
  deploy_writes-outside :
      (from to : ℕ)
      → from ≤ to
      → (to ≤ 32) ⊎ (80 ≤ from)
      → slice (drop 8 (strat_deploy_authority_writes new_authority args bytes)) from to
        ≡ slice (drop 8 bytes) from to
  unfolding strat_deploy_authority_writes
  deploy_writes-outside from to le where_to =
      let b1 = write_at 40 (key_bytes new_authority) bytes in
      let b2 = write_at 72 (to_le_bytes 8 args.bps_fee) b1 in
      outside 80 8 args.flat_fee b2 (omega arith) (omega arith)
      ∙ outside 72 8 args.bps_fee b1 (omega arith) (omega arith)
      ∙ outside 40 32 new_authority bytes (omega arith) (omega arith)
    where
      outside :
          (off w n : ℕ) (bytes : List ℕ)
          → 40 ≤ off
          → off + w ≤ 88
          → slice (drop 8 (write_at off (to_le_bytes w n) bytes)) from to
            ≡ slice (drop 8 bytes) from to
      outside off w n bytes lo hi = elim where_to [
        | inl before ↦
            slice-write_before from to off (to_le_bytes w n) bytes le (omega (arith, before))
        | inr after ↦
            slice-write_after from to off (to_le_bytes w n) bytes
              (rw (length-to_le_bytes w n) (omega (arith, after)))
      ]

  pub deploy_writes-SameTerms :
      SameTerms
        (strat_deployer_in (strat_deploy_authority_writes new_authority args bytes))
        (strat_deployer_in bytes)
  unfolding strat_deployer_in strategy_deployer_of_bytes
  deploy_writes-SameTerms = record {
    manager_key = ap from_le_bytes (deploy_writes-outside 0 32 (omega arith) (inl (omega arith)));
    expected_bps_fee =
        ap from_le_bytes (deploy_writes-outside 80 88 (omega arith) (inr (omega arith)));
    expected_flat_fee =
        ap from_le_bytes (deploy_writes-outside 88 96 (omega arith) (inr (omega arith)));
    max_per_round =
        ap from_le_bytes (deploy_writes-outside 96 104 (omega arith) (inr (omega arith)));
    strategy_type =
        ap from_le_bytes (deploy_writes-outside 104 105 (omega arith) (inr (omega arith)));
    strategy_data = deploy_writes-outside 105 169 (omega arith) (inr (omega arith));
  }

  -- The manager's writes leave the strategy that was passed.
  pub manager_writes-strategy :
      length args.strategy_data ≡ 64
      → length bytes ≡ 184
      → let d = strat_deployer_in (strat_manager_writes new_authority args bytes) in
        (d.strategy_type ≡ args.strategy_type) × (d.strategy_data ≡ args.strategy_data)
  unfolding strat_deployer_in strategy_deployer_of_bytes strat_manager_writes from_le_bytes
  manager_writes-strategy width len =
      let b1 = write_at 40 (key_bytes new_authority) bytes in
      let b2 = write_at 88 (to_le_bytes 8 args.expected_bps_fee) b1 in
      let b3 = write_at 96 (to_le_bytes 8 args.expected_flat_fee) b2 in
      let b4 = write_at 104 (to_le_bytes 8 args.max_per_round) b3 in
      let b5 = write_at 112 (args.strategy_type ∷ []) b4 in
      let l1 = length-write_at 40 (key_bytes new_authority) bytes ∙ len in
      let l2 = length-write_at 88 (to_le_bytes 8 args.expected_bps_fee) b1 ∙ l1 in
      let l3 = length-write_at 96 (to_le_bytes 8 args.expected_flat_fee) b2 ∙ l2 in
      let l4 = length-write_at 104 (to_le_bytes 8 args.max_per_round) b3 ∙ l3 in
      let l5 = length-write_at 112 (args.strategy_type ∷ []) b4 ∙ l4 in
      (
        ap from_le_bytes (
              slice-write_before 104 105 113 args.strategy_data b5 (omega arith) (omega arith)
              ∙ slice-write_self 104 105 112 (args.strategy_type ∷ []) b4 refl refl
                  (omega (arith, l4)))
            ∙ omega arith,
        slice-write_self 105 169 113 args.strategy_data b5 refl (omega (arith, width))
            (omega (arith, width, l5)),
      )
