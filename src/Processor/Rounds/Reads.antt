-- ===== src/Processor/Rounds/Reads.antt =====
-- What the shared steps read of the miner and its round.
use evore_program.Prelude.{
  ℕ, ◌+◌, ◌≤◌, ◌≡◌, ◌⊎◌, ◌∙◌, arith, Bool, false, ltb, drop, ◌==◌, if◌then◌else◌, sat_add64, inl,
  inr, Bool-cases,
}
use evore_program.Error.{evore, exceeds_max_per_round, ok}
use evore_program.OreApi.{
  Round, round_of_bytes, board_of_bytes, Board, Miner, miner_of_bytes, miner_size,
  miner_discriminator, Pubkey,
}
use evore_program.Runtime.{AccountInfo, Runtime, AsAccountReads, Tx, is_empty_data}
use evore_program.Runtime.Chain.{reject_if-end, >>=-ok}
use evore_program.Processor.Fees.{sum_u64}
use evore_program.Processor.Reads.{load-ok}
use evore_program.Processor.Rounds.{deployed_this_round, is_already_deployed, check_max_per_round}

module _ (rt : Runtime) (reads : AsAccountReads rt) (s : Tx) where
  -- The miner in an account, if there is one.
  abbrev pub miner_at : Pubkey → Miner
  miner_at k = miner_of_bytes (drop 8 (s.ledger k).bytes)

  -- What the miner has deployed in the board's round.
  unfoldable pub amount_this_round : Pubkey → Board → ℕ
  amount_this_round k board =
      if is_empty_data (s.ledger k).bytes
      then 0
      else (if (miner_at k).round_id == board.round_id then sum_u64 (miner_at k).deployed else 0)

  deployed_this_round-ok :
      (miner : AccountInfo) (board : Board) {n : ℕ} {t : Tx}
      → deployed_this_round rt miner board s ≡ ok (n, t)
      → (n ≡ amount_this_round miner.key board) × (t ≡ s)
  unfolding deployed_this_round amount_this_round
  deployed_this_round-ok miner board h =
      elim (Bool-cases (is_empty_data (s.ledger miner.key).bytes)) [
        | inl none_yet ↦ rw none_yet (let h' = rw none_yet at h in (cc, cc))
        | inr there ↦ rw there (
            let (_, h') =
              load-ok s rt reads rt.ore_id miner_discriminator miner_size miner_of_bytes miner _
                (rw there at h) in
            (cc, cc))
      ]

  -- Whether the miner has already deployed in the board's round.
  unfoldable pub is_deployed : Pubkey → Board → Bool
  is_deployed k board =
      if is_empty_data (s.ledger k).bytes then false else (miner_at k).round_id == board.round_id

  pub is_already_deployed-ok :
      (miner : AccountInfo) (board : Board) {b : Bool} {t : Tx}
      → is_already_deployed rt miner board s ≡ ok (b, t)
      → (b ≡ is_deployed miner.key board) × (t ≡ s)
  unfolding is_already_deployed is_deployed
  is_already_deployed-ok miner board h =
      elim (Bool-cases (is_empty_data (s.ledger miner.key).bytes)) [
        | inl none_yet ↦ rw none_yet (let h' = rw none_yet at h in (cc, cc))
        | inr there ↦ rw there (
            let (_, h') =
              load-ok s rt reads rt.ore_id miner_discriminator miner_size miner_of_bytes miner _
                (rw there at h) in
            (cc, cc))
      ]

  pub check_max_per_round-ok :
      (max total : ℕ) (miner : AccountInfo) (board : Board) {u : Unit {0}} {t : Tx}
      → check_max_per_round rt max total miner board s ≡ ok (u, t)
      → ((max ≡ 0) ⊎ (sat_add64 (amount_this_round miner.key board) total ≤ max)) × (t ≡ s)
  unfolding check_max_per_round
  check_max_per_round-ok max total miner board h = elim (Bool-cases (ltb 0 max)) [
    | inr off ↦ (inl (unlimited off), (let h' = rw off at h in cc))
    | inl on ↦
        (let (n, s', e, h') = >>=-ok (deployed_this_round rt miner board) _ s (rw on at h) in
          let (en, es) = deployed_this_round-ok miner board e in
          let (c, et) =
            reject_if-end (ltb max (sat_add64 n total)) (evore exceeds_max_per_round) s' h' in
          (inr (rw (← en) (limited max (sat_add64 n total) c)), et ∙ es))
  ]
    where
      unlimited : ltb 0 max ≡ false → max ≡ 0
      unlimited h = ground arith

      limited : (a b : ℕ) → ltb a b ≡ false → b ≤ a
      limited a b h = ground arith

-- The board in an account.
abbrev pub board_at : Tx → Pubkey → Board
board_at s k = board_of_bytes (drop 8 (s.ledger k).bytes)

-- The round in an account.
abbrev pub round_at : Tx → Pubkey → Round
round_at s k = round_of_bytes (drop 8 (s.ledger k).bytes)

-- The rent of a miner that the deployment opens.
abbrev pub rent_of_miner : Runtime → Tx → Pubkey → ℕ
rent_of_miner rt s k =
    if is_empty_data (s.ledger k).bytes then rt.default_minimum_balance (8 + miner_size) else 0
