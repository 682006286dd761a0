-- ===== src/Entry/Handlers.antt =====
-- The handlers with their accounts taken from the instruction's list and their arguments from its bytes,
-- as each file of program/src/processor begins.
use evore_program.Prelude.{ℕ, List, get_or, slice, from_le_bytes}
use evore_program.OreApi.{u64_at}
use evore_program.Runtime.{AccountInfo}
use evore_program.Instruction.{Instructions, MmDeployArgs}
use evore_program.Processor.Deployer.{CreateDeployer, UpdateDeployer}
use evore_program.Processor.StratDeployer.{CreateStratDeployer, UpdateStratDeployer}
use evore_program.Processor.Autodeploy.{AutodeployAccounts}
use evore_program.Processor.StratAutodeploy.{StratAccounts, StratArgs}
use evore_program.Processor.MmDeploy.{MmDeployAccounts}

-- The arguments' structs, read at their `repr(C)` offsets.
abbrev pub auth_id_of : List ℕ → ℕ
auth_id_of args = u64_at args 0

-- `bump`, after the auth id
abbrev pub bump_of : List ℕ → ℕ
bump_of args = get_or args 8 0

-- `MMAutodeploy`, `MMFullAutodeploy` and the strategy autodeploys begin alike.
abbrev pub amount_of : List ℕ → ℕ
amount_of args = u64_at args 8

abbrev pub squares_mask_of : List ℕ → ℕ
squares_mask_of args = from_le_bytes (slice args 16 20)

unfoldable pub strat_args_of : List ℕ → StratArgs
strat_args_of args = record {
  amount = amount_of args;
  squares_mask = squares_mask_of args;
  extra = from_le_bytes (slice args 20 24);
}

unfoldable pub mm_deploy_args_of : List ℕ → MmDeployArgs
mm_deploy_args_of args = record {
  auth_id = slice args 0 8;
  bump = get_or args 8 0;
  allow_multi_deploy = get_or args 9 0;
  _pad = slice args 10 16;
  strategy_bytes = slice args 16 272;
}

unfoldable pub create_deployer_of : List ℕ → CreateDeployer
create_deployer_of args = record {
  bps_fee = u64_at args 0;
  flat_fee = u64_at args 8;
  max_per_round = u64_at args 16;
}

unfoldable pub update_deployer_of : List ℕ → UpdateDeployer
update_deployer_of args = record {
  bps_fee = u64_at args 0;
  flat_fee = u64_at args 8;
  expected_bps_fee = u64_at args 16;
  expected_flat_fee = u64_at args 24;
  max_per_round = u64_at args 32;
}

unfoldable pub create_strat_deployer_of : List ℕ → CreateStratDeployer
create_strat_deployer_of args = record {
  bps_fee = u64_at args 0;
  flat_fee = u64_at args 8;
  max_per_round = u64_at args 16;
  strategy_type = get_or args 24 0;
  strategy_data = slice args 25 89;
}

unfoldable pub update_strat_deployer_of : List ℕ → UpdateStratDeployer
update_strat_deployer_of args = record {
  bps_fee = u64_at args 0;
  flat_fee = u64_at args 8;
  expected_bps_fee = u64_at args 16;
  expected_flat_fee = u64_at args 24;
  max_per_round = u64_at args 32;
  strategy_type = get_or args 40 0;
  strategy_data = slice args 41 105;
}

-- `size_of` of the arguments' struct
unfoldable pub args_size : Instructions → ℕ
args_size Instructions.create_manager = 0
args_size Instructions.mm_deploy = 272
args_size Instructions.mm_checkpoint = 9
args_size Instructions.mm_claim_sol = 9
args_size Instructions.mm_claim_ore = 9
args_size Instructions.create_deployer = 24
args_size Instructions.update_deployer = 40
args_size Instructions.mm_autodeploy = 24
args_size Instructions.deposit_autodeploy_balance = 16
args_size Instructions.recycle_sol = 8
args_size Instructions.withdraw_autodeploy_balance = 16
args_size Instructions.mm_autocheckpoint = 9
args_size Instructions.mm_full_autodeploy = 24
args_size Instructions.transfer_manager = 0
args_size Instructions.mm_create_miner = 9
args_size Instructions.withdraw_tokens = 9
args_size Instructions.create_strat_deployer = 96
args_size Instructions.update_strat_deployer = 112
args_size Instructions.mm_strat_autodeploy = 24
args_size Instructions.mm_strat_full_autodeploy = 24
args_size Instructions.mm_strat_autocheckpoint = 9
args_size Instructions.recycle_strat_sol = 8

-- The accounts that the deploying handlers name, without those they only pass on.
abbrev pub autodeploy_accounts :
    (signer manager deployer auth miner collector board round ore entropy system : AccountInfo)
    → AutodeployAccounts
autodeploy_accounts signer manager deployer auth miner collector board round ore entropy system =
    record {
      signer = signer;
      manager = manager;
      deployer = deployer;
      managed_miner_auth = auth;
      ore_miner = miner;
      fee_collector = collector;
      board = board;
      round = round;
      ore_program = ore;
      entropy_program = entropy;
      system_program = system;
    }

abbrev pub strat_accounts :
    (signer manager deployer auth miner collector automation board round ore entropy
      system : AccountInfo)
    → StratAccounts
strat_accounts signer manager deployer auth miner collector automation board round ore entropy
      system =
    record {
      signer = signer;
      manager = manager;
      strat_deployer = deployer;
      managed_miner_auth = auth;
      ore_miner = miner;
      fee_collector = collector;
      automation = automation;
      board = board;
      round = round;
      ore_program = ore;
      entropy_program = entropy;
      system_program = system;
    }

abbrev pub deploy_accounts :
    (signer manager auth miner collector automation board round ore entropy system : AccountInfo)
    → MmDeployAccounts
deploy_accounts signer manager auth miner collector automation board round ore entropy system =
    record {
      signer = signer;
      manager = manager;
      managed_miner_auth = auth;
      ore_miner = miner;
      fee_collector = collector;
      automation = automation;
      board = board;
      round = round;
      ore_program = ore;
      entropy_program = entropy;
      system_program = system;
    }
