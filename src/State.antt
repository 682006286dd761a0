-- ===== src/State.antt =====
-- The program's own accounts, from program/src/state.rs and program/src/consts.rs: the structs, their
-- `repr(C)` layout as bytes, and their addresses. An account holds eight bytes of header, then the
-- struct.
pub mod Layout
use evore_program.Prelude.{
  ℕ, ◌+◌, List, [], ◌∷◌, ◌++◌, from_le_bytes, to_le_bytes, slice, replicate, get_or,
}
use evore_program.OreApi.{Pubkey}
use evore_program.Runtime.{Runtime, Seeds, key_bytes}

-- `EvoreAccount`
abbrev pub manager_discriminator : ℕ
manager_discriminator = 100

abbrev pub deployer_discriminator : ℕ
deployer_discriminator = 101

abbrev pub strategy_deployer_discriminator : ℕ
strategy_deployer_discriminator = 102

pub record Manager : Type 0 where
  pub authority : Pubkey

pub record Deployer : Type 0 where
  pub manager_key : Pubkey
  pub deploy_authority : Pubkey
  pub bps_fee : ℕ
  pub flat_fee : ℕ
  pub expected_bps_fee : ℕ
  pub expected_flat_fee : ℕ
  pub max_per_round : ℕ

pub record StrategyDeployer : Type 0 where
  pub manager_key : Pubkey
  pub deploy_authority : Pubkey
  pub bps_fee : ℕ
  pub flat_fee : ℕ
  pub expected_bps_fee : ℕ
  pub expected_flat_fee : ℕ
  pub max_per_round : ℕ
  pub strategy_type : ℕ
  pub strategy_data : List ℕ  -- [u8; 64]

-- `size_of::<T>()`
abbrev pub manager_size : ℕ
manager_size = 32

abbrev pub deployer_size : ℕ
deployer_size = 104

abbrev pub strategy_deployer_size : ℕ
strategy_deployer_size = 176

-- The number in the bytes from..to.
abbrev pub number_at : List ℕ → ℕ → ℕ → ℕ
number_at bytes from to = from_le_bytes (slice bytes from to)

unfoldable pub manager_of_bytes : List ℕ → Manager
manager_of_bytes bytes = record { authority = number_at bytes 0 32 }

unfoldable pub deployer_of_bytes : List ℕ → Deployer
deployer_of_bytes bytes = record {
  manager_key = number_at bytes 0 32;
  deploy_authority = number_at bytes 32 64;
  bps_fee = number_at bytes 64 72;
  flat_fee = number_at bytes 72 80;
  expected_bps_fee = number_at bytes 80 88;
  expected_flat_fee = number_at bytes 88 96;
  max_per_round = number_at bytes 96 104;
}

unfoldable pub strategy_deployer_of_bytes : List ℕ → StrategyDeployer
strategy_deployer_of_bytes bytes = record {
  manager_key = number_at bytes 0 32;
  deploy_authority = number_at bytes 32 64;
  bps_fee = number_at bytes 64 72;
  flat_fee = number_at bytes 72 80;
  expected_bps_fee = number_at bytes 80 88;
  expected_flat_fee = number_at bytes 88 96;
  max_per_round = number_at bytes 96 104;
  strategy_type = number_at bytes 104 105;
  strategy_data = slice bytes 105 169;
}

-- `to_bytes()`
unfoldable pub deployer_to_bytes : Deployer → List ℕ
deployer_to_bytes d =
    key_bytes d.manager_key
    ++ key_bytes d.deploy_authority
    ++ to_le_bytes 8 d.bps_fee
    ++ to_le_bytes 8 d.flat_fee
    ++ to_le_bytes 8 d.expected_bps_fee
    ++ to_le_bytes 8 d.expected_flat_fee
    ++ to_le_bytes 8 d.max_per_round

-- `to_bytes()`, the padding included
unfoldable pub strategy_deployer_to_bytes : StrategyDeployer → List ℕ
strategy_deployer_to_bytes d =
    key_bytes d.manager_key
    ++ key_bytes d.deploy_authority
    ++ to_le_bytes 8 d.bps_fee
    ++ to_le_bytes 8 d.flat_fee
    ++ to_le_bytes 8 d.expected_bps_fee
    ++ to_le_bytes 8 d.expected_flat_fee
    ++ to_le_bytes 8 d.max_per_round
    ++ to_le_bytes 1 d.strategy_type
    ++ d.strategy_data
    ++ replicate 7 0

-- The seeds of the program's addresses; the texts are their ASCII bytes.
abbrev pub deployer_seeds : Pubkey → Seeds
deployer_seeds manager_key =
    (0x64 ∷ 0x65 ∷ 0x70 ∷ 0x6c ∷ 0x6f ∷ 0x79 ∷ 0x65 ∷ 0x72 ∷ []) ∷ key_bytes manager_key ∷ []

-- "managed-miner-auth"
abbrev pub managed_miner_auth_text : List ℕ
managed_miner_auth_text =
    0x6d ∷ 0x61 ∷ 0x6e ∷ 0x61 ∷ 0x67 ∷ 0x65 ∷ 0x64 ∷ 0x2d ∷ 0x6d ∷ 0x69 ∷ 0x6e ∷ 0x65 ∷ 0x72 ∷ 0x2d
    ∷ 0x61 ∷ 0x75 ∷ 0x74 ∷ 0x68 ∷ []

abbrev pub managed_miner_auth_seeds : Pubkey → ℕ → Seeds
managed_miner_auth_seeds manager auth_id =
    managed_miner_auth_text ∷ key_bytes manager ∷ to_le_bytes 8 auth_id ∷ []

-- "strategy-deployer"
abbrev pub strategy_deployer_seeds : Pubkey → Seeds
strategy_deployer_seeds manager_key =
    (0x73 ∷ 0x74 ∷ 0x72 ∷ 0x61 ∷ 0x74 ∷ 0x65 ∷ 0x67 ∷ 0x79 ∷ 0x2d ∷ 0x64 ∷ 0x65 ∷ 0x70 ∷ 0x6c ∷ 0x6f
      ∷ 0x79 ∷ 0x65 ∷ 0x72 ∷ [])
    ∷ key_bytes manager_key
    ∷ []

module _ (rt : Runtime) where
  open rt use {find_program_address}

  unfoldable pub deployer_pda : Pubkey → Pubkey × ℕ
  deployer_pda manager_key = find_program_address (deployer_seeds manager_key)

  unfoldable pub strategy_deployer_pda : Pubkey → Pubkey × ℕ
  strategy_deployer_pda manager_key = find_program_address (strategy_deployer_seeds manager_key)

  unfoldable pub managed_miner_auth_pda : Pubkey → ℕ → Pubkey × ℕ
  managed_miner_auth_pda manager auth_id =
      find_program_address (managed_miner_auth_seeds manager auth_id)
