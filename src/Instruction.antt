-- ===== src/Instruction.antt =====
-- program/src/instruction.rs: the instructions by their discriminators, and the strategy that a manual
-- deployment carries in its 256 bytes of data.
pub mod RoundTrip
mod Tests
use evore_program.Prelude.{
  ℕ, ◌+◌, Bool, not, Option, none, some, List, [], ◌∷◌, replicate, get_or, ◌==◌, if◌then◌else◌,
  to_le_bytes, from_le_bytes,
}
use evore_program.OreApi.{u64_at, u64s_at}
use evore_program.Runtime.Bytes.{write_at}

pub data Instructions : Type 0 where
  create_manager mm_deploy mm_checkpoint mm_claim_sol mm_claim_ore create_deployer update_deployer
        mm_autodeploy deposit_autodeploy_balance recycle_sol withdraw_autodeploy_balance
        mm_autocheckpoint mm_full_autodeploy transfer_manager mm_create_miner withdraw_tokens
        create_strat_deployer update_strat_deployer mm_strat_autodeploy mm_strat_full_autodeploy
        mm_strat_autocheckpoint recycle_strat_sol :
      Instructions

-- The `repr(u8)` of an instruction.
unfoldable pub instruction_code : Instructions → ℕ
instruction_code Instructions.create_manager = 0
instruction_code Instructions.mm_deploy = 1
instruction_code Instructions.mm_checkpoint = 2
instruction_code Instructions.mm_claim_sol = 3
instruction_code Instructions.mm_claim_ore = 4
instruction_code Instructions.create_deployer = 5
instruction_code Instructions.update_deployer = 6
instruction_code Instructions.mm_autodeploy = 7
instruction_code Instructions.deposit_autodeploy_balance = 8
instruction_code Instructions.recycle_sol = 9
instruction_code Instructions.withdraw_autodeploy_balance = 10
instruction_code Instructions.mm_autocheckpoint = 11
instruction_code Instructions.mm_full_autodeploy = 12
instruction_code Instructions.transfer_manager = 13
instruction_code Instructions.mm_create_miner = 14
instruction_code Instructions.withdraw_tokens = 15
instruction_code Instructions.create_strat_deployer = 16
instruction_code Instructions.update_strat_deployer = 17
instruction_code Instructions.mm_strat_autodeploy = 18
instruction_code Instructions.mm_strat_full_autodeploy = 19
instruction_code Instructions.mm_strat_autocheckpoint = 20
instruction_code Instructions.recycle_strat_sol = 21

pub data DeployStrategy : Type 0 where
  ev : (bankroll max_per_square min_bet ore_value slots_left attempts : ℕ) → DeployStrategy
  percentage : (bankroll percentage squares_count : ℕ) → DeployStrategy
  manual : (amounts : List ℕ) → DeployStrategy  -- [u64; 25]
  split : (amount : ℕ) → DeployStrategy

-- `DeployStrategy::discriminant`
unfoldable pub discriminant : DeployStrategy → ℕ
discriminant (DeployStrategy.ev _ _ _ _ _ _) = 0
discriminant (DeployStrategy.percentage _ _ _) = 1
discriminant (DeployStrategy.manual _) = 2
discriminant (DeployStrategy.split _) = 3

-- `MMDeploy`
pub record MmDeployArgs : Type 0 where
  pub auth_id : List ℕ  -- [u8; 8]
  pub bump : ℕ
  pub allow_multi_deploy : ℕ
  pub _pad : List ℕ  -- [u8; 6]
  pub strategy_bytes : List ℕ  -- `data`, [u8; 256]

-- `data[off..off + 8].copy_from_slice(&x.to_le_bytes())` for each number in turn
unfoldable pub write_u64s : (off : ℕ) → List ℕ → List ℕ → List ℕ
write_u64s off [] bytes = bytes
write_u64s off (x ∷ xs) bytes = write_u64s (off + 8) xs (write_at off (to_le_bytes 8 x) bytes)

-- The strategy in its 256 bytes.
unfoldable pub strategy_to_bytes : DeployStrategy → List ℕ
strategy_to_bytes
      (DeployStrategy.ev bankroll max_per_square min_bet ore_value slots_left attempts) =
    write_u64s 1 (bankroll ∷ max_per_square ∷ min_bet ∷ ore_value ∷ slots_left ∷ attempts ∷ [])
      (0 ∷ replicate 255 0)
strategy_to_bytes (DeployStrategy.percentage bankroll percent squares_count) =
    write_u64s 1 (bankroll ∷ percent ∷ squares_count ∷ []) (1 ∷ replicate 255 0)
strategy_to_bytes (DeployStrategy.manual amounts) = write_u64s 1 amounts (2 ∷ replicate 255 0)
strategy_to_bytes (DeployStrategy.split amount) = write_u64s 1 (amount ∷ []) (3 ∷ replicate 255 0)

-- `MMDeploy::new`
unfoldable pub new_mm_deploy : (auth_id bump : ℕ) → Bool → DeployStrategy → MmDeployArgs
new_mm_deploy auth_id bump allow_multi_deploy strategy = record {
  auth_id = to_le_bytes 8 auth_id;
  bump = bump;
  allow_multi_deploy = if allow_multi_deploy then 1 else 0;
  _pad = replicate 6 0;
  strategy_bytes = strategy_to_bytes strategy;
}

-- The strategy of a discriminant and the bytes around it.
unfoldable pub parse_strategy : (strategy : ℕ) → List ℕ → Option DeployStrategy
parse_strategy strategy bytes =
    if strategy == 0
    then some (
        DeployStrategy.ev (u64_at bytes 1) (u64_at bytes 9) (u64_at bytes 17) (u64_at bytes 25)
          (u64_at bytes 33) (u64_at bytes 41))
    else (if strategy == 1
        then some (DeployStrategy.percentage (u64_at bytes 1) (u64_at bytes 9) (u64_at bytes 17))
        else (if strategy == 2
            then some (DeployStrategy.manual (u64s_at bytes 1 25))
            else (if strategy == 3 then some (DeployStrategy.split (u64_at bytes 1)) else none)))

-- `MMDeploy::get_strategy`; `none` is its error.
unfoldable pub get_strategy : MmDeployArgs → Option DeployStrategy
get_strategy args = parse_strategy (get_or args.strategy_bytes 0 0) args.strategy_bytes

-- `MMDeploy::get_allow_multi_deploy`
unfoldable pub get_allow_multi_deploy : MmDeployArgs → Bool
get_allow_multi_deploy args = not (args.allow_multi_deploy == 0)
