-- ===== src/Processor/Autodeploy.antt =====
-- process_mm_autodeploy.rs of program/src/processor: the deploy authority deploys the same amount on
-- the squares of a mask, from the manager's own balance.
pub mod Authorized
pub mod Calls
use evore_program.Prelude.{
  ℕ, Bool, true, false, List, [], ◌∷◌, ◌++◌, ◌+◌, ◌==◌, ◌&&◌, not, ltb, leb, sat_add64, sat_mul64,
  if◌then◌else◌,
}
use evore_program.Error.{
  evore, incorrect_program_id, invalid_fee_collector, manager_not_initialized,
  deployer_not_initialized, invalid_pda, invalid_deploy_authority, unexpected_fee, end_slot_reached,
  no_deployments, exceeds_max_per_round, insufficient_autodeploy_balance, ok,
}
use evore_program.OreApi.{Board, Round, Miner, miner_size}
use evore_program.Runtime.{
  AccountInfo, Account, Runtime, Tx, M, ◌>>=◌, ◌>>◌, pure, done, reject_if, account, is_empty_data,
  invoke, transfer, ore_deploy, Seeds,
}
use evore_program.State.{Deployer, deployer_pda, managed_miner_auth_pda, managed_miner_auth_seeds}
use evore_program.StrategyDispatch.{squares_of_mask}
use evore_program.MmDeploy.Batch.{count_squares}
use evore_program.Processor.Fees.{
  is_unexpected, deployer_fee, required_balance, sum_u64, deploy_fee,
}
use evore_program.Processor.Rounds.{check_max_per_round, is_already_deployed, pay_fees}
use evore_program.Processor.Loads.{
  when, current_slot, ◌!=◌, require_data, require_signer, load_manager, load_deployer, load_board,
  load_round, load_miner,
}

-- The accounts, under the source's names.
pub record AutodeployAccounts : Type 0 where
  pub signer : AccountInfo
  pub manager : AccountInfo
  pub deployer : AccountInfo
  pub managed_miner_auth : AccountInfo
  pub ore_miner : AccountInfo
  pub fee_collector : AccountInfo
  pub board : AccountInfo
  pub round : AccountInfo
  pub ore_program : AccountInfo
  pub entropy_program : AccountInfo
  pub system_program : AccountInfo

module _ (rt : Runtime) where
  -- The guards on the accounts, up to the managed miner's authority.
  unfoldable pub check_accounts : AutodeployAccounts → (auth_id : ℕ) → M Deployer
  check_accounts accounts auth_id = do
    require_signer accounts.signer
    reject_if (accounts.ore_program.key != rt.ore_id) incorrect_program_id
    reject_if (accounts.system_program.key != rt.system_id) incorrect_program_id
    reject_if (accounts.entropy_program.key != rt.entropy_id) incorrect_program_id
    reject_if (accounts.fee_collector.key != rt.fee_collector) (evore invalid_fee_collector)
    require_data accounts.manager (evore manager_not_initialized)
    _manager ← load_manager rt accounts.manager
    require_data accounts.deployer (evore deployer_not_initialized)
    reject_if ((deployer_pda rt accounts.manager.key).0 != accounts.deployer.key)
        (evore invalid_pda)
    deployer ← load_deployer rt accounts.deployer
    reject_if (deployer.deploy_authority != accounts.signer.key) (evore invalid_deploy_authority)
    reject_if (is_unexpected deployer.expected_bps_fee deployer.bps_fee) (evore unexpected_fee)
    reject_if (is_unexpected deployer.expected_flat_fee deployer.flat_fee) (evore unexpected_fee)
    reject_if
        ((managed_miner_auth_pda rt accounts.manager.key auth_id).0
          != accounts.managed_miner_auth.key)
        (evore invalid_pda)
    pure deployer

  unfoldable pub process_mm_autodeploy :
      AutodeployAccounts → (auth_id amount squares_mask : ℕ) → M (Unit {0})
  process_mm_autodeploy accounts auth_id amount squares_mask = do
    deployer ← check_accounts accounts auth_id
    slot ← current_slot
    board ← load_board rt accounts.board
    reject_if (leb board.end_slot slot) (evore end_slot_reached)
    let squares = squares_of_mask squares_mask 25 0
    reject_if (count_squares squares == 0) (evore no_deployments)
    let total_to_deploy = sat_mul64 amount (count_squares squares)
    reject_if (total_to_deploy == 0) (evore no_deployments)
    check_max_per_round rt deployer.max_per_round total_to_deploy accounts.ore_miner board
    let fee = deployer_fee total_to_deploy deployer.bps_fee deployer.flat_fee
    miner ← account accounts.ore_miner
    let miner_rent =
        if is_empty_data miner.bytes then rt.default_minimum_balance (8 + miner_size) else 0
    source ← account accounts.managed_miner_auth
    reject_if (ltb source.lamports (required_balance total_to_deploy miner_rent fee))
        (evore insufficient_autodeploy_balance)
    already ← is_already_deployed rt accounts.ore_miner board
    let seeds =
        managed_miner_auth_seeds accounts.manager.key auth_id
        ++ ((managed_miner_auth_pda rt accounts.manager.key auth_id).1 ∷ []) ∷ []
    pay_fees rt accounts.managed_miner_auth.key accounts.fee_collector.key accounts.signer.key seeds
        (not already) fee
    round ← load_round rt accounts.round
    invoke rt (ore_deploy accounts.managed_miner_auth.key amount round.id squares) seeds
