-- ===== src/Processor/MmDeploy.antt =====
-- The handler `process_mm_deploy` of program/src/processor/process_mm_deploy.rs: the manager's authority
-- deploys what a strategy calculates, pays the fee, and tops up the manager's address.
pub mod Costs
pub mod Calls
pub mod Lasts
use evore_program.Prelude.{
  ℕ, Bool, List, [], ◌∷◌, ◌+◌, ◌-◌, ◌==◌, ◌&&◌, not, ltb, leb, sat_add64, from_le_bytes, Option,
  none, some, if◌then◌else◌, wrap_sub64, true, false,
}
use evore_program.Error.{
  evore, invalid_instruction_data, incorrect_program_id, invalid_fee_collector, not_authorized,
  manager_not_initialized, invalid_pda, end_slot_reached, too_many_slots_left, no_deployments,
  already_deployed_this_round, Result, ok, err,
}
use evore_program.OreApi.{Pubkey, checkpoint_fee, miner_size}
use evore_program.Runtime.{
  AccountInfo, Runtime, M, ◌>>=◌, ◌>>◌, pure, lift, reject_if, account, is_empty_data, invoke,
  transfer, Seeds,
}
use evore_program.Instruction.{DeployStrategy, MmDeployArgs, get_strategy, get_allow_multi_deploy}
use evore_program.MmDeploy.Batch.{DeploymentBatch}
use evore_program.MmDeploy.Calculate.{
  calculate_split_deployments, calculate_manual_deployments, calculate_ev_deployments,
}
use evore_program.MmDeploy.Percentage.{calculate_percentage_deployments}
use evore_program.Processor.Fees.{auth_pda_rent, deploy_fee}
use evore_program.Processor.Loads.{
  when, current_slot, ◌!=◌, require_data, require_signer, load_manager, load_board, load_round,
}
use evore_program.Processor.Claims.{require_writable, created_address, bumped_seeds}
use evore_program.Processor.Rounds.{is_already_deployed}
use evore_program.Processor.Automation.{automation_size, deploy_with_automation}

-- The accounts, under the source's names; those that are only passed on are left out.
pub record MmDeployAccounts : Type 0 where
  pub signer : AccountInfo
  pub manager : AccountInfo
  pub managed_miner_auth : AccountInfo
  pub ore_miner : AccountInfo
  pub fee_collector : AccountInfo
  pub automation : AccountInfo
  pub board : AccountInfo
  pub round : AccountInfo
  pub ore_program : AccountInfo
  pub entropy_program : AccountInfo
  pub system_program : AccountInfo

-- The batches of a strategy on a round, and their total.
unfoldable pub calculate_deployments :
    DeployStrategy → (deployed : List ℕ) → List DeploymentBatch × ℕ
calculate_deployments
      (DeployStrategy.ev bankroll max_per_square min_bet ore_value slots_left attempts) deployed =
    calculate_ev_deployments deployed bankroll min_bet max_per_square ore_value
calculate_deployments (DeployStrategy.percentage bankroll percent squares_count) deployed =
    calculate_percentage_deployments deployed bankroll percent squares_count
calculate_deployments (DeployStrategy.manual amounts) deployed =
    calculate_manual_deployments amounts
calculate_deployments (DeployStrategy.split amount) deployed =
    calculate_split_deployments deployed amount

-- The EV strategy comes too early where more slots are left than it allows.
unfoldable pub is_too_early : DeployStrategy → (end_slot slot : ℕ) → Bool
is_too_early (DeployStrategy.ev _ _ _ _ slots_left _) end_slot slot =
    ltb slots_left (wrap_sub64 end_slot slot)
is_too_early (DeployStrategy.percentage _ _ _) end_slot slot = false
is_too_early (DeployStrategy.manual _) end_slot slot = false
is_too_early (DeployStrategy.split _) end_slot slot = false

-- `args.get_strategy().map_err(|_| ProgramError::InvalidInstructionData)`
abbrev pub parsed : Option DeployStrategy → Result DeployStrategy
parsed none = err invalid_instruction_data
parsed (some strategy) = ok strategy

-- `required_balance` of this handler
unfoldable pub mm_required_balance : (total_deployed miner_rent automation_rent : ℕ) → ℕ
mm_required_balance total_deployed miner_rent automation_rent =
    sat_add64
      (sat_add64 (sat_add64 (sat_add64 auth_pda_rent checkpoint_fee) total_deployed) miner_rent)
      automation_rent

module _ (rt : Runtime) where
  -- `automation_rent`
  abbrev pub automation_rent : ℕ
  automation_rent = rt.default_minimum_balance (8 + automation_size)

  -- The guards on the accounts, up to the manager.
  unfoldable pub check_manager : MmDeployAccounts → M (Unit {0})
  check_manager accounts = do
    require_signer accounts.signer
    require_writable accounts.manager
    require_data accounts.manager (evore manager_not_initialized)
    reject_if (accounts.ore_program.key != rt.ore_id) incorrect_program_id
    reject_if (accounts.system_program.key != rt.system_id) incorrect_program_id
    reject_if (accounts.entropy_program.key != rt.entropy_id) incorrect_program_id
    reject_if (accounts.fee_collector.key != rt.fee_collector) (evore invalid_fee_collector)
    manager ← load_manager rt accounts.manager
    reject_if (manager.authority != accounts.signer.key) (evore not_authorized)

  -- The signer brings the manager's address up to the balance that is required.
  unfoldable pub top_up : MmDeployAccounts → (total_deployed : ℕ) → M (Unit {0})
  top_up accounts total_deployed = do
    miner ← account accounts.ore_miner
    let miner_rent =
        if is_empty_data miner.bytes then rt.default_minimum_balance (8 + miner_size) else 0
    source ← account accounts.managed_miner_auth
    let transfer_amount =
        mm_required_balance total_deployed miner_rent automation_rent - source.lamports
    when (ltb 0 transfer_amount) (
        invoke rt (transfer accounts.signer.key accounts.managed_miner_auth.key transfer_amount) [])

  -- `deposit`
  abbrev pub mm_deposit : (lamports : ℕ) → ℕ
  mm_deposit lamports = lamports - auth_pda_rent - automation_rent

  -- The fee of a first deployment, the top-up, and the batches with their automation.
  unfoldable pub fund_and_deploy :
      MmDeployAccounts
      → Seeds
      → (first : Bool) → List DeploymentBatch
      → (total_deployed : ℕ) → M (Unit {0})
  fund_and_deploy accounts seeds first batches total_deployed = do
    when first (invoke rt (transfer accounts.signer.key accounts.fee_collector.key deploy_fee) [])
    top_up accounts total_deployed
    source ← account accounts.managed_miner_auth
    deploy_with_automation rt accounts.managed_miner_auth.key seeds accounts.automation
        accounts.round (mm_deposit source.lamports) batches

  unfoldable pub process_mm_deploy : MmDeployAccounts → MmDeployArgs → M (Unit {0})
  process_mm_deploy accounts args = do
    let auth_id = from_le_bytes args.auth_id
    strategy ← lift (parsed (get_strategy args))
    slot ← current_slot
    board ← load_board rt accounts.board
    reject_if (leb board.end_slot slot) (evore end_slot_reached)
    reject_if (is_too_early strategy board.end_slot slot) (evore too_many_slots_left)
    check_manager accounts
    round ← load_round rt accounts.round
    pda ← lift (created_address rt (bumped_seeds rt accounts.manager.key auth_id args.bump))
    reject_if (pda != accounts.managed_miner_auth.key) (evore invalid_pda)
    already ← is_already_deployed rt accounts.ore_miner board
    reject_if (not (get_allow_multi_deploy args) && already) (evore already_deployed_this_round)
    let (batches, total_deployed) = calculate_deployments strategy round.deployed
    reject_if (total_deployed == 0) (evore no_deployments)
    fund_and_deploy accounts (bumped_seeds rt accounts.manager.key auth_id args.bump) (not already)
        batches total_deployed
