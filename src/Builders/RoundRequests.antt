-- ===== src/Builders/RoundRequests.antt =====
-- The instructions that name a round, as a client asks for them, and the handlers that they are for.
use evore_program.Prelude.{ℕ, ◌<◌, ◌^◌, true, false}
use evore_program.OreApi.{Pubkey}
use evore_program.Runtime.{Runtime, M}
use evore_program.State.{deployer_pda, strategy_deployer_pda, managed_miner_auth_pda}
use evore_program.Processor.Claims.{
  board_address, miner_address, process_checkpoint, process_mm_autocheckpoint,
}
use evore_program.Processor.Tokens.{process_mm_create_miner}
use evore_program.Processor.Automation.{default_key}
use evore_program.Processor.Autodeploy.{AutodeployAccounts, process_mm_autodeploy}
use evore_program.Processor.StratAutodeploy.{StratAccounts, StratArgs, process_mm_strat_autodeploy}
use evore_program.Processor.FullAutodeploy.{
  process_mm_full_autodeploy, process_mm_strat_full_autodeploy,
}
use evore_program.Entry.Handlers.{autodeploy_accounts, strat_accounts}
use evore_program.Builders.{Instruction, new_meta, readonly_meta}
use evore_program.Builders.Requests.{IsU64}
use evore_program.Builders.Rounds.{round_address, automation_address}

pub data RoundRequest : Type 0 where
  mm_checkpoint : (signer manager : Pubkey) (round_id auth_id : ℕ) → RoundRequest
  mm_autocheckpoint : (signer manager : Pubkey) (round_id auth_id : ℕ) → RoundRequest
  mm_create_miner : (signer manager : Pubkey) (auth_id : ℕ) → RoundRequest
  mm_autodeploy :
      (signer manager : Pubkey) (auth_id round_id amount squares_mask : ℕ) → RoundRequest
  mm_full_autodeploy :
      (signer manager : Pubkey) (auth_id round_id checkpoint_round_id amount squares_mask : ℕ)
      → RoundRequest
  mm_strat_autodeploy :
      (deploy_authority manager : Pubkey) (auth_id : ℕ) (args : StratArgs) → RoundRequest
  mm_strat_full_autodeploy :
      (deploy_authority manager : Pubkey) (auth_id : ℕ) (args : StratArgs) → RoundRequest

abbrev pub IsU32 : ℕ → Type 0
IsU32 n = n < 256 ^ 4

abbrev pub AreSized : (auth_id : ℕ) → StratArgs → Type 0
AreSized auth_id args =
    IsU64 auth_id × IsU64 args.amount × IsU32 args.squares_mask × IsU32 args.extra

-- The numbers of a request are of the builder's types.
abbrev pub IsSizedRound : RoundRequest → Type 0
IsSizedRound (RoundRequest.mm_checkpoint signer manager round_id auth_id) = IsU64 auth_id
IsSizedRound (RoundRequest.mm_autocheckpoint signer manager round_id auth_id) = IsU64 auth_id
IsSizedRound (RoundRequest.mm_create_miner signer manager auth_id) = IsU64 auth_id
IsSizedRound (RoundRequest.mm_autodeploy signer manager auth_id round_id amount squares_mask) =
    IsU64 auth_id × IsU64 amount × IsU32 squares_mask
IsSizedRound
      (RoundRequest.mm_full_autodeploy signer manager auth_id round_id checkpoint_round_id amount
        squares_mask) =
    IsU64 auth_id × IsU64 amount × IsU32 squares_mask
IsSizedRound (RoundRequest.mm_strat_autodeploy deploy_authority manager auth_id args) =
    AreSized auth_id args
IsSizedRound (RoundRequest.mm_strat_full_autodeploy deploy_authority manager auth_id args) =
    AreSized auth_id args

module _ (rt : Runtime) where
  abbrev pub build_round : RoundRequest → Instruction
  build_round (RoundRequest.mm_checkpoint signer manager round_id auth_id) =
      evore_program.Builders.Rounds.mm_checkpoint rt signer manager round_id auth_id
  build_round (RoundRequest.mm_autocheckpoint signer manager round_id auth_id) =
      evore_program.Builders.Rounds.mm_autocheckpoint rt signer manager round_id auth_id
  build_round (RoundRequest.mm_create_miner signer manager auth_id) =
      evore_program.Builders.Rounds.mm_create_miner rt signer manager auth_id
  build_round (RoundRequest.mm_autodeploy signer manager auth_id round_id amount squares_mask) =
      evore_program.Builders.Rounds.mm_autodeploy rt signer manager auth_id round_id amount
        squares_mask
  build_round
        (RoundRequest.mm_full_autodeploy signer manager auth_id round_id checkpoint_round_id amount
          squares_mask) =
      evore_program.Builders.Rounds.mm_full_autodeploy rt signer manager auth_id round_id
        checkpoint_round_id amount squares_mask
  build_round (RoundRequest.mm_strat_autodeploy deploy_authority manager auth_id args) =
      evore_program.Builders.Rounds.mm_strat_autodeploy rt deploy_authority manager auth_id
        args.amount args.squares_mask args.extra
  build_round (RoundRequest.mm_strat_full_autodeploy deploy_authority manager auth_id args) =
      evore_program.Builders.Rounds.mm_strat_full_autodeploy rt deploy_authority manager auth_id
        args.amount args.squares_mask args.extra

  -- The accounts of an autodeploy on a round, by their roles.
  abbrev pub autodeploy_on : (signer manager : Pubkey) → (auth_id round_id : ℕ) → AutodeployAccounts
  autodeploy_on signer manager auth_id round_id =
      let auth = (managed_miner_auth_pda rt manager auth_id).0 in
      autodeploy_accounts (new_meta signer true) (new_meta manager false)
        (new_meta (deployer_pda rt manager).0 false) (new_meta auth false)
        (new_meta (miner_address rt auth) false) (new_meta rt.fee_collector false)
        (new_meta (board_address rt) false) (new_meta (round_address rt round_id) false)
        (readonly_meta rt.ore_id) (readonly_meta rt.entropy_id) (readonly_meta rt.system_id)

  -- The same of a strategy's autodeploy.
  abbrev pub strat_on : (deploy_authority manager : Pubkey) → (auth_id round_id : ℕ) → StratAccounts
  strat_on deploy_authority manager auth_id round_id =
      let auth = (managed_miner_auth_pda rt manager auth_id).0 in
      strat_accounts (new_meta deploy_authority true) (new_meta manager false)
        (new_meta (strategy_deployer_pda rt manager).0 false) (new_meta auth false)
        (new_meta (miner_address rt auth) false) (new_meta rt.fee_collector false)
        (new_meta (automation_address rt auth) false) (new_meta (board_address rt) false)
        (new_meta (round_address rt round_id) false) (readonly_meta rt.ore_id)
        (readonly_meta rt.entropy_id) (readonly_meta rt.system_id)

  -- The handler that a request is for; a strategy's is for the round of id 0.
  abbrev pub requested_round : RoundRequest → M (Unit {0})
  requested_round (RoundRequest.mm_checkpoint signer manager round_id auth_id) =
      let auth = managed_miner_auth_pda rt manager auth_id in
      process_checkpoint rt (new_meta signer true) (new_meta manager false) (new_meta auth.0 false)
        (new_meta (round_address rt round_id) false) (readonly_meta rt.system_id)
        (readonly_meta rt.ore_id) auth_id auth.1
  requested_round (RoundRequest.mm_autocheckpoint signer manager round_id auth_id) =
      let auth = managed_miner_auth_pda rt manager auth_id in
      process_mm_autocheckpoint rt (new_meta signer true) (new_meta manager false)
        (new_meta (deployer_pda rt manager).0 false) (new_meta auth.0 false)
        (new_meta (miner_address rt auth.0) false) (readonly_meta rt.system_id)
        (readonly_meta rt.ore_id) auth_id auth.1
  requested_round (RoundRequest.mm_create_miner signer manager auth_id) =
      let auth = managed_miner_auth_pda rt manager auth_id in
      process_mm_create_miner rt (new_meta signer true) (new_meta manager false)
        (new_meta auth.0 false) (new_meta signer false) (readonly_meta default_key)
        (readonly_meta rt.system_id) (readonly_meta rt.ore_id) auth_id auth.1
  requested_round (RoundRequest.mm_autodeploy signer manager auth_id round_id amount squares_mask) =
      process_mm_autodeploy rt (autodeploy_on signer manager auth_id round_id) auth_id amount
        squares_mask
  requested_round
        (RoundRequest.mm_full_autodeploy signer manager auth_id round_id checkpoint_round_id amount
          squares_mask) =
      process_mm_full_autodeploy rt (autodeploy_on signer manager auth_id round_id) auth_id amount
        squares_mask
  requested_round (RoundRequest.mm_strat_autodeploy deploy_authority manager auth_id args) =
      process_mm_strat_autodeploy rt (strat_on deploy_authority manager auth_id 0) auth_id args
  requested_round (RoundRequest.mm_strat_full_autodeploy deploy_authority manager auth_id args) =
      process_mm_strat_full_autodeploy rt (strat_on deploy_authority manager auth_id 0) auth_id args
