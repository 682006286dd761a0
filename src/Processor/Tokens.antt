-- ===== src/Processor/Tokens.antt =====
-- process_claim_ore.rs, process_withdraw_tokens.rs, process_mm_create_miner.rs and
-- process_recycle_sol.rs of program/src/processor. The calls of the token programs are steel's
-- `create_associated_token_account` and `transfer_signed_with_bump`.
pub mod Ensured
pub mod Calls
pub mod Miner
use evore_program.Prelude.{
  ℕ, ◌+◌, ◌%◌, Bool, List, [], ◌∷◌, ◌++◌, drop, ltb, if◌then◌else◌, u64_mod, not,
}
use evore_program.Error.{
  evore, manager_not_initialized, not_authorized, incorrect_program_id, invalid_account_data,
  invalid_pda, deployer_not_initialized, invalid_deploy_authority,
}
use evore_program.OreApi.{Pubkey, miner_size, checkpoint_fee}
use evore_program.Runtime.{
  AccountInfo, Runtime, Seeds, M, ◌>>=◌, ◌>>◌, pure, lift, reject_if, account, is_empty_data,
  invoke, transfer, ore_automate, ore_claim_ore, create_token_account, token_transfer,
}
use evore_program.State.{
  Deployer, deployer_of_bytes, deployer_size, deployer_discriminator, deployer_pda,
  managed_miner_auth_pda,
}
use evore_program.Processor.Loads.{when, ◌!=◌, require_data, require_signer, load_manager}
use evore_program.Processor.Claims.{
  require_writable, board_address, miner_address, bumped_seeds, created_address, claim_rewards,
}
use evore_program.Processor.Automation.{automation_size, default_key}
use evore_program.Processor.StratAutodeploy.{found_seeds}

module _ (rt : Runtime) where
  -- The amount in an associated token account of the owner.
  unfoldable pub token_amount : (owner mint : Pubkey) → AccountInfo → M ℕ
  token_amount owner mint info = do
    a ← account info
    lift (rt.as_token_account owner mint info.key a)

  -- The owner's token account is created, at the payer's cost, if it has no data; else it is checked.
  unfoldable pub ensure_token_account : (payer owner mint : Pubkey) → AccountInfo → M (Unit {0})
  ensure_token_account payer owner mint info = do
    a ← account info
    if is_empty_data a.bytes
        then invoke rt (create_token_account payer owner info.key mint) []
        else (token_amount owner mint info >>= λ _. pure tt)

  -- The manager's authority signs, and the address is the manager's with the bump.
  unfoldable pub require_owner :
      (signer manager managed_miner_auth : AccountInfo) → (auth_id bump : ℕ) → M (Unit {0})
  require_owner signer manager_info managed_miner_auth_info auth_id bump = do
    manager ← load_manager rt manager_info
    reject_if (manager.authority != signer.key) (evore not_authorized)
    pda ← lift (created_address rt (bumped_seeds rt manager_info.key auth_id bump))
    reject_if (pda != managed_miner_auth_info.key) (evore invalid_pda)

  unfoldable pub process_claim_ore :
      (signer manager_info managed_miner_auth_info board_info mint_info recipient_info
        signer_recipient_info system_program spl_program spl_ata_program ore_program : AccountInfo)
      → (auth_id bump : ℕ) → M (Unit {0})
  process_claim_ore signer manager_info managed_miner_auth_info board_info mint_info recipient_info
        signer_recipient_info system_program spl_program spl_ata_program ore_program auth_id bump =
      do
        require_signer signer
        require_writable signer
        require_writable managed_miner_auth_info
        require_writable recipient_info
        require_writable signer_recipient_info
        require_data manager_info (evore manager_not_initialized)
        reject_if (ore_program.key != rt.ore_id) incorrect_program_id
        reject_if (board_info.key != board_address rt) (evore invalid_pda)
        reject_if (system_program.key != rt.system_id) incorrect_program_id
        reject_if (spl_program.key != rt.spl_token_id) incorrect_program_id
        reject_if (spl_ata_program.key != rt.spl_ata_id) incorrect_program_id
        require_owner signer manager_info managed_miner_auth_info auth_id bump
        ensure_token_account signer.key managed_miner_auth_info.key mint_info.key recipient_info
        invoke rt (ore_claim_ore managed_miner_auth_info.key)
            (bumped_seeds rt manager_info.key auth_id bump)
        ensure_token_account signer.key signer.key mint_info.key signer_recipient_info
        amount ← token_amount managed_miner_auth_info.key mint_info.key recipient_info
        invoke rt
            (token_transfer managed_miner_auth_info.key recipient_info.key signer_recipient_info.key
              amount)
            (bumped_seeds rt manager_info.key auth_id bump)

  unfoldable pub process_withdraw_tokens :
      (signer manager_info managed_miner_auth_info source_ata_info destination_ata_info mint_info
        system_program spl_program spl_ata_program : AccountInfo)
      → (auth_id bump : ℕ) → M (Unit {0})
  process_withdraw_tokens signer manager_info managed_miner_auth_info source_ata_info
        destination_ata_info mint_info system_program spl_program spl_ata_program auth_id bump =
      do
        require_signer signer
        require_writable signer
        require_writable managed_miner_auth_info
        require_writable source_ata_info
        require_writable destination_ata_info
        require_data manager_info (evore manager_not_initialized)
        reject_if (system_program.key != rt.system_id) incorrect_program_id
        reject_if (spl_program.key != rt.spl_token_id) incorrect_program_id
        reject_if (spl_ata_program.key != rt.spl_ata_id) incorrect_program_id
        require_owner signer manager_info managed_miner_auth_info auth_id bump
        amount ← token_amount managed_miner_auth_info.key mint_info.key source_ata_info
        ensure_token_account signer.key signer.key mint_info.key destination_ata_info
        invoke rt
            (token_transfer managed_miner_auth_info.key source_ata_info.key destination_ata_info.key
              amount)
            (bumped_seeds rt manager_info.key auth_id bump)

  -- `total_required`, an unchecked sum
  unfoldable pub total_required : ℕ
  total_required =
      (rt.default_minimum_balance (8 + miner_size)
        + rt.default_minimum_balance (8 + automation_size)
        + checkpoint_fee)
      % u64_mod

  unfoldable pub process_mm_create_miner :
      (signer manager_info managed_miner_auth_info executor_1_info executor_2_info system_program
        ore_program : AccountInfo)
      → (auth_id bump : ℕ) → M (Unit {0})
  process_mm_create_miner signer manager_info managed_miner_auth_info executor_1_info
        executor_2_info system_program ore_program auth_id bump =
      do
        require_signer signer
        require_writable signer
        reject_if (ore_program.key != rt.ore_id) incorrect_program_id
        reject_if (system_program.key != rt.system_id) incorrect_program_id
        reject_if (executor_1_info.key != signer.key) invalid_account_data
        reject_if (executor_2_info.key != default_key) invalid_account_data
        require_data manager_info (evore manager_not_initialized)
        require_owner signer manager_info managed_miner_auth_info auth_id bump
        invoke rt (transfer signer.key managed_miner_auth_info.key total_required) []
        invoke rt (ore_automate managed_miner_auth_info.key 0 0 executor_1_info.key 0 0 0)
            (bumped_seeds rt manager_info.key auth_id bump)
        invoke rt (ore_automate managed_miner_auth_info.key 0 0 default_key 0 0 0)
            (bumped_seeds rt manager_info.key auth_id bump)
        source ← account managed_miner_auth_info
        when (ltb 0 source.lamports) (
            invoke rt (transfer managed_miner_auth_info.key signer.key source.lamports)
              (bumped_seeds rt manager_info.key auth_id bump))

  -- `Deployer::try_from_bytes` is given the data from their ninth byte on, without the discriminator.
  unfoldable pub process_recycle_sol :
      (signer manager_info deployer_info managed_miner_auth_info ore_miner_info board_info
        system_program ore_program : AccountInfo)
      → (auth_id : ℕ) → M (Unit {0})
  process_recycle_sol signer manager_info deployer_info managed_miner_auth_info ore_miner_info
        board_info system_program ore_program auth_id =
      do
        require_signer signer
        reject_if (ore_program.key != rt.ore_id) incorrect_program_id
        reject_if (system_program.key != rt.system_id) incorrect_program_id
        reject_if (board_info.key != board_address rt) (evore invalid_pda)
        require_data manager_info (evore manager_not_initialized)
        _manager ← load_manager rt manager_info
        require_data deployer_info (evore deployer_not_initialized)
        reject_if ((deployer_pda rt manager_info.key).0 != deployer_info.key) (evore invalid_pda)
        held ← account deployer_info
        struct ← lift (rt.account_data deployer_discriminator deployer_size (drop 8 held.bytes))
        reject_if ((deployer_of_bytes struct).deploy_authority != signer.key)
            (evore invalid_deploy_authority)
        reject_if
            ((managed_miner_auth_pda rt manager_info.key auth_id).0 != managed_miner_auth_info.key)
            (evore invalid_pda)
        reject_if (miner_address rt managed_miner_auth_info.key != ore_miner_info.key)
            (evore invalid_pda)
        claim_rewards rt managed_miner_auth_info ore_miner_info
            (found_seeds rt manager_info.key auth_id)
