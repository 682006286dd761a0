-- ===== src/Processor/FullAutodeploy/Settles.antt =====
-- What the settlement of a miner does.
use evore_program.Prelude.{◌≡◌, ◌∙◌, ap, Bool, List, ◌++◌, ◌==◌, ltb, append_assoc}
use evore_program.Error.{invalid_account_data, ok}
use evore_program.OreApi.{Board, Miner, Pubkey, miner_of_bytes, miner_size, miner_discriminator}
use evore_program.Runtime.{
  AccountInfo, Runtime, AsAccountReads, Tx, Call, Seeds, invoke, ore_checkpoint, ore_claim_sol,
}
use evore_program.Runtime.Chain.{>>=-ok}
use evore_program.Processor.Loads.{when}
use evore_program.Processor.Reads.{require_data-ok, load-ok}
use evore_program.Processor.Rounds.Reads.{miner_at}
use evore_program.Processor.Rounds.Fees.{calls_when, when-calls}
use evore_program.Processor.Claims.{claim_rewards}
use evore_program.Processor.Claims.Executor.{IsClaimed, has_rewards, claim_rewards-calls}
use evore_program.Processor.FullAutodeploy.{settle_miner}

-- The checkpoint of the miner's last round where it is due, then the claim where there are rewards.
unfoldable pub settle_calls : Pubkey → Miner → (claims : Bool) → List Call
settle_calls auth miner claims =
    calls_when (ltb miner.checkpoint_id miner.round_id) (ore_checkpoint auth miner.round_id)
    ++ calls_when claims (ore_claim_sol auth)

module _ (rt : Runtime) (reads : AsAccountReads rt) (auth ore_miner : AccountInfo) (seeds : Seeds)
    (s : Tx) where
  -- A settlement from the transaction to t.
  pub record IsSettled (t : Tx) : Type 0 where
    pub checkpointed : Tx
    pub checkpoints :
        when
          (ltb
            (miner_at rt reads s ore_miner.key).checkpoint_id
            (miner_at rt reads s ore_miner.key).round_id)
          (invoke rt (ore_checkpoint auth.key (miner_at rt reads s ore_miner.key).round_id) seeds)
          s
        ≡ ok (tt, checkpointed)
    pub claims : IsClaimed rt auth ore_miner seeds checkpointed t
    pub calls :
        t.calls
        ≡ s.calls
          ++ settle_calls auth.key
              (miner_at rt reads s ore_miner.key)
              (has_rewards checkpointed ore_miner.key)

  pub settle_miner-ok :
      (board : Board) {b : Bool} {t : Tx}
      → settle_miner rt auth ore_miner board seeds s ≡ ok (b, t)
      → (b ≡ (miner_at rt reads s ore_miner.key).round_id == board.round_id) × IsSettled t
  unfolding settle_miner settle_calls
  settle_miner-ok board {b} {t} h =
      let miner = miner_at rt reads s ore_miner.key in
      let due = ltb miner.checkpoint_id miner.round_id in
      let checkpoint = ore_checkpoint auth.key miner.round_id in
      let h1 = require_data-ok s ore_miner invalid_account_data _ h in
      let (_, h2) =
        load-ok s rt reads rt.ore_id miner_discriminator miner_size miner_of_bytes ore_miner _ h1 in
      let (_, s1, e1, h3) = >>=-ok (when due (invoke rt checkpoint seeds)) _ s h2 in
      let (_, s2, e2, h4) = >>=-ok (claim_rewards rt auth ore_miner seeds) _ s1 h3 in
      let et : s2 ≡ t = cc in
      let claimed = claim_rewards-calls rt reads s1 auth ore_miner seeds (rw et at e2) in
      let claims = has_rewards s1 ore_miner.key in
      (
        cc,
        record {
          checkpointed = s1;
          checkpoints = e1;
          claims = claimed;
          calls =
              claimed.1
              ∙ ap (λ l. l ++ calls_when claims (ore_claim_sol auth.key))
                  (when-calls rt due checkpoint seeds s e1)
              ∙ append_assoc s.calls _ _;
        },
      )
