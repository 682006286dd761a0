-- ===== src/Processor/Claims.antt =====
-- process_checkpoint.rs, process_claim_sol.rs, process_mm_autocheckpoint.rs,
-- process_mm_strat_autocheckpoint.rs and process_recycle_strat_sol.rs of program/src/processor: the
-- handlers that settle a round and claim its rewards.
pub mod Calls
pub mod Executor
use evore_program.Prelude.{
  ℕ, Bool, Option, none, some, List, [], ◌∷◌, ◌++◌, not, ◌==◌, if◌then◌else◌,
}
use evore_program.Error.{
  ProgramError, evore, manager_not_initialized, not_authorized, incorrect_program_id,
  invalid_account_data, invalid_pda, deployer_not_initialized, strat_deployer_not_initialized,
  invalid_deploy_authority, Result, ok, err,
}
use evore_program.OreApi.{Pubkey}
use evore_program.Runtime.{
  AccountInfo, Runtime, Seeds, M, ◌>>=◌, ◌>>◌, lift, reject_if, account, is_empty_data, invoke,
  transfer, ore_checkpoint, ore_claim_sol, key_bytes, done,
}
use evore_program.State.{
  deployer_pda, strategy_deployer_pda, managed_miner_auth_pda, managed_miner_auth_seeds,
}
use evore_program.Processor.Loads.{
  ◌!=◌, require_data, require_signer, load_manager, load_deployer, load_strategy_deployer,
  load_round, load_miner,
}

-- `info.is_writable`, as an error
abbrev pub require_writable : AccountInfo → M (Unit {0})
require_writable info = reject_if (not info.is_writable) invalid_account_data

abbrev pub found : Option Pubkey → Result Pubkey
found none = err (evore invalid_pda)
found (some key) = ok key

module _ (rt : Runtime) where
  -- `board_pda().0` and `miner_pda(authority).0` of program/src/ore_api.rs
  unfoldable pub board_address : Pubkey
  board_address = (rt.find_ore_address ((0x62 ∷ 0x6f ∷ 0x61 ∷ 0x72 ∷ 0x64 ∷ []) ∷ [])).0

  unfoldable pub miner_address : Pubkey → Pubkey
  miner_address authority =
      (rt.find_ore_address ((0x6d ∷ 0x69 ∷ 0x6e ∷ 0x65 ∷ 0x72 ∷ []) ∷ key_bytes authority ∷ [])).0

  -- The seeds with the bump that the instruction carries.
  abbrev pub bumped_seeds : Pubkey → (auth_id bump : ℕ) → Seeds
  bumped_seeds manager auth_id bump = managed_miner_auth_seeds manager auth_id ++ (bump ∷ []) ∷ []

  -- `Pubkey::create_program_address(..).map_err(|_| EvoreError::InvalidPDA)`
  unfoldable pub created_address : Seeds → Result Pubkey
  created_address seeds = found (rt.create_program_address seeds)

  unfoldable pub process_claim_sol :
      (signer manager_info managed_miner_auth_info board_info system_program
        ore_program : AccountInfo)
      → (auth_id bump : ℕ) → M (Unit {0})
  process_claim_sol signer manager_info managed_miner_auth_info board_info system_program
        ore_program auth_id bump =
      do
        require_signer signer
        require_writable signer
        require_writable managed_miner_auth_info
        require_data manager_info (evore manager_not_initialized)
        reject_if (ore_program.key != rt.ore_id) incorrect_program_id
        reject_if (board_info.key != board_address) (evore invalid_pda)
        reject_if (system_program.key != rt.system_id) incorrect_program_id
        manager ← load_manager rt manager_info
        reject_if (manager.authority != signer.key) (evore not_authorized)
        pda ← lift (created_address (bumped_seeds manager_info.key auth_id bump))
        reject_if (pda != managed_miner_auth_info.key) (evore invalid_pda)
        invoke rt (ore_claim_sol managed_miner_auth_info.key)
            (bumped_seeds manager_info.key auth_id bump)
        source ← account managed_miner_auth_info
        invoke rt (transfer managed_miner_auth_info.key signer.key source.lamports)
            (bumped_seeds manager_info.key auth_id bump)

  unfoldable pub process_checkpoint :
      (signer manager_info managed_miner_auth_info round_info system_program
        ore_program : AccountInfo)
      → (auth_id bump : ℕ) → M (Unit {0})
  process_checkpoint signer manager_info managed_miner_auth_info round_info system_program
        ore_program auth_id bump =
      do
        require_signer signer
        require_writable manager_info
        require_writable managed_miner_auth_info
        require_data manager_info (evore manager_not_initialized)
        reject_if (ore_program.key != rt.ore_id) incorrect_program_id
        reject_if (system_program.key != rt.system_id) incorrect_program_id
        manager ← load_manager rt manager_info
        reject_if (manager.authority != signer.key) (evore not_authorized)
        round ← load_round rt round_info
        pda ← lift (created_address (bumped_seeds manager_info.key auth_id bump))
        reject_if (pda != managed_miner_auth_info.key) (evore invalid_pda)
        invoke rt (ore_checkpoint managed_miner_auth_info.key round.id)
            (bumped_seeds manager_info.key auth_id bump)

  unfoldable pub process_mm_autocheckpoint :
      (signer manager_info deployer_info managed_miner_auth_info ore_miner_info system_program
        ore_program : AccountInfo)
      → (auth_id bump : ℕ) → M (Unit {0})
  process_mm_autocheckpoint signer manager_info deployer_info managed_miner_auth_info ore_miner_info
        system_program ore_program auth_id bump =
      do
        require_signer signer
        require_writable managed_miner_auth_info
        reject_if (ore_program.key != rt.ore_id) incorrect_program_id
        reject_if (system_program.key != rt.system_id) incorrect_program_id
        require_data manager_info (evore manager_not_initialized)
        _manager ← load_manager rt manager_info
        require_data deployer_info (evore deployer_not_initialized)
        reject_if ((deployer_pda rt manager_info.key).0 != deployer_info.key) (evore invalid_pda)
        deployer ← load_deployer rt deployer_info
        reject_if (deployer.deploy_authority != signer.key) (evore invalid_deploy_authority)
        pda ← lift (created_address (bumped_seeds manager_info.key auth_id bump))
        reject_if (pda != managed_miner_auth_info.key) (evore invalid_pda)
        require_data ore_miner_info invalid_account_data
        ore_miner ← load_miner rt ore_miner_info
        invoke rt (ore_checkpoint managed_miner_auth_info.key ore_miner.round_id)
            (bumped_seeds manager_info.key auth_id bump)

  -- The handler ends after its checks.
  unfoldable pub process_mm_strat_autocheckpoint :
      (signer manager_info strat_deployer_info managed_miner_auth_info ore_miner_info
        ore_program : AccountInfo)
      → (auth_id bump : ℕ) → M (Unit {0})
  process_mm_strat_autocheckpoint signer manager_info strat_deployer_info managed_miner_auth_info
        ore_miner_info ore_program auth_id bump =
      do
        require_signer signer
        reject_if (ore_program.key != rt.ore_id) incorrect_program_id
        require_data manager_info (evore manager_not_initialized)
        _manager ← load_manager rt manager_info
        require_data strat_deployer_info (evore strat_deployer_not_initialized)
        reject_if ((strategy_deployer_pda rt manager_info.key).0 != strat_deployer_info.key)
            (evore invalid_pda)
        strat_deployer ← load_strategy_deployer rt strat_deployer_info
        reject_if (strat_deployer.deploy_authority != signer.key) (evore invalid_deploy_authority)
        pda ← lift (created_address (bumped_seeds manager_info.key auth_id bump))
        reject_if (pda != managed_miner_auth_info.key) (evore invalid_pda)
        reject_if (miner_address managed_miner_auth_info.key != ore_miner_info.key)
            (evore invalid_pda)
        require_data ore_miner_info invalid_account_data
        _ore_miner ← load_miner rt ore_miner_info
        done

  -- The claim of a recycling, if there is something to claim.
  unfoldable pub claim_rewards : AccountInfo → AccountInfo → Seeds → M (Unit {0})
  claim_rewards managed_miner_auth_info ore_miner_info seeds = do
    a ← account ore_miner_info
    if is_empty_data a.bytes
        then done
        else (load_miner rt ore_miner_info >>= λ miner.
            if miner.rewards_sol == 0
            then done
            else invoke rt (ore_claim_sol managed_miner_auth_info.key) seeds)

  unfoldable pub process_recycle_strat_sol :
      (signer manager_info strat_deployer_info managed_miner_auth_info ore_miner_info board_info
        ore_program system_program : AccountInfo)
      → (auth_id : ℕ) → M (Unit {0})
  process_recycle_strat_sol signer manager_info strat_deployer_info managed_miner_auth_info
        ore_miner_info board_info ore_program system_program auth_id =
      do
        require_signer signer
        reject_if (ore_program.key != rt.ore_id) incorrect_program_id
        reject_if (system_program.key != rt.system_id) incorrect_program_id
        reject_if (board_info.key != board_address) (evore invalid_pda)
        require_data manager_info (evore manager_not_initialized)
        _manager ← load_manager rt manager_info
        require_data strat_deployer_info (evore strat_deployer_not_initialized)
        reject_if ((strategy_deployer_pda rt manager_info.key).0 != strat_deployer_info.key)
            (evore invalid_pda)
        strat_deployer ← load_strategy_deployer rt strat_deployer_info
        reject_if (strat_deployer.deploy_authority != signer.key) (evore invalid_deploy_authority)
        let pda = managed_miner_auth_pda rt manager_info.key auth_id
        reject_if (pda.0 != managed_miner_auth_info.key) (evore invalid_pda)
        reject_if (miner_address managed_miner_auth_info.key != ore_miner_info.key)
            (evore invalid_pda)
        claim_rewards managed_miner_auth_info ore_miner_info
            (managed_miner_auth_seeds manager_info.key auth_id ++ (pda.1 ∷ []) ∷ [])
