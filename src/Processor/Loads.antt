-- ===== src/Processor/Loads.antt =====
-- Reads of the program's accounts with the guards around them.
use evore_program.Prelude.{drop, true, false, ℕ, List, not, ◌==◌, Bool}
use evore_program.Error.{ok, ProgramError, missing_required_signature}
use evore_program.OreApi.{
  Pubkey, Board, board_of_bytes, board_size, board_discriminator, Round, round_of_bytes, round_size,
  round_discriminator, Miner, miner_of_bytes, miner_size, miner_discriminator,
}
use evore_program.Runtime.{
  done, AccountInfo, Runtime, M, ◌>>=◌, pure, lift, reject_if, account, is_empty_data,
}
use evore_program.State.{
  Manager, manager_of_bytes, manager_size, manager_discriminator, Deployer, deployer_of_bytes,
  deployer_size, deployer_discriminator, StrategyDeployer, strategy_deployer_of_bytes,
  strategy_deployer_size, strategy_deployer_discriminator,
}

-- `a != b` on keys
infix 50 ◌!=◌
abbrev pub ◌!=◌ : ℕ → ℕ → Bool
a != b = not (a == b)

-- `info.data_is_empty()`, as an error
abbrev pub require_data : AccountInfo → ProgramError → M (Unit {0})
require_data info e = do a ← account info; reject_if (is_empty_data a.bytes) e

abbrev pub require_signer : AccountInfo → M (Unit {0})
require_signer signer = reject_if (not signer.is_signer) missing_required_signature

-- `Clock::get()?.slot`
abbrev pub current_slot : M ℕ
current_slot s = ok (s.slot, s)

-- `if c { … }`
abbrev pub when : Bool → M (Unit {0}) → M (Unit {0})
when true m = m
when false m = done

-- `info.as_account::<T>(&owner)` for a struct T with its discriminator, size and layout
unfoldable pub load :
    {T : Type 0} → Runtime → Pubkey → (d size : ℕ) → (List ℕ → T) → AccountInfo → M T
load rt owner d size of_bytes info = do
  a ← account info
  bytes ← lift (rt.as_account owner d size a)
  pure (of_bytes bytes)

-- A struct that `as_account` has borrowed, as it is now: a call may have changed the account.
abbrev pub reborrow : {T : Type 0} → (List ℕ → T) → AccountInfo → M T
reborrow of_bytes info = do a ← account info; pure (of_bytes (drop 8 a.bytes))

module _ (rt : Runtime) where
  abbrev pub load_manager : AccountInfo → M Manager
  load_manager = load rt rt.evore_id manager_discriminator manager_size manager_of_bytes

  abbrev pub load_deployer : AccountInfo → M Deployer
  load_deployer = load rt rt.evore_id deployer_discriminator deployer_size deployer_of_bytes

  abbrev pub load_strategy_deployer : AccountInfo → M StrategyDeployer
  load_strategy_deployer =
      load rt rt.evore_id strategy_deployer_discriminator strategy_deployer_size
        strategy_deployer_of_bytes

  abbrev pub load_board : AccountInfo → M Board
  load_board = load rt rt.ore_id board_discriminator board_size board_of_bytes

  abbrev pub load_round : AccountInfo → M Round
  load_round = load rt rt.ore_id round_discriminator round_size round_of_bytes

  abbrev pub load_miner : AccountInfo → M Miner
  load_miner = load rt rt.ore_id miner_discriminator miner_size miner_of_bytes
