-- ===== src/Processor/Rounds.antt =====
-- What the deploying handlers of program/src/processor share about a round: what the miner has already
-- deployed in it, the limit per round, and the fees of the first deployment.
pub mod Reads
pub mod Fees
use evore_program.Prelude.{ℕ, Bool, true, false, ◌==◌, ◌&&◌, not, ltb, sat_add64, if◌then◌else◌}
use evore_program.Error.{evore, exceeds_max_per_round}
use evore_program.OreApi.{Board, Pubkey}
use evore_program.Runtime.{
  AccountInfo, Runtime, M, ◌>>=◌, ◌>>◌, pure, reject_if, account, is_empty_data, invoke, transfer,
  Seeds,
}
use evore_program.Processor.Fees.{sum_u64, deploy_fee}
use evore_program.Processor.Loads.{when, load_miner}

module _ (rt : Runtime) where
  -- The miner's deployment in the board's round; nothing where the miner is new or elsewhere.
  unfoldable pub deployed_this_round : AccountInfo → Board → M ℕ
  deployed_this_round ore_miner board = do
    a ← account ore_miner
    if is_empty_data a.bytes
        then pure 0
        else (load_miner rt ore_miner >>= λ miner.
            pure (if miner.round_id == board.round_id then sum_u64 miner.deployed else 0))

  -- Whether the miner has deployed in the board's round.
  unfoldable pub is_already_deployed : AccountInfo → Board → M Bool
  is_already_deployed ore_miner board = do
    a ← account ore_miner
    if is_empty_data a.bytes
        then pure false
        else (load_miner rt ore_miner >>= λ miner. pure (miner.round_id == board.round_id))

  -- The limit per round, what is already deployed included.
  unfoldable pub check_max_per_round : (max total : ℕ) → AccountInfo → Board → M (Unit {0})
  check_max_per_round max total ore_miner board = when (ltb 0 max) (
      deployed_this_round ore_miner board >>= λ already.
      reject_if (ltb max (sat_add64 already total)) (evore exceeds_max_per_round))

  -- The fees of the first deployment of a round: the protocol's, then the deploy authority's.
  unfoldable pub pay_fees :
      (managed_miner_auth fee_collector signer : Pubkey)
      → Seeds
      → (first : Bool) → (fee : ℕ) → M (Unit {0})
  pay_fees managed_miner_auth fee_collector signer seeds first fee = do
    when (ltb 0 deploy_fee && first)
        (invoke rt (transfer managed_miner_auth fee_collector deploy_fee) seeds)
    when (ltb 0 fee && first) (invoke rt (transfer managed_miner_auth signer fee) seeds)
