-- ===== src/OreApi.antt =====
-- The ORE accounts that the program reads, from program/src/ore_api.rs. A public key is a number.
use evore_program.Prelude.{ℕ, zero, suc, ◌+◌, List, [], ◌∷◌, from_le_bytes, slice}

abbrev pub Pubkey : Type 0
Pubkey = ℕ

pub record Board : Type 0 where
  pub round_id : ℕ
  pub start_slot : ℕ
  pub end_slot : ℕ
  pub epoch_id : ℕ

pub record Round : Type 0 where
  pub id : ℕ
  pub deployed : List ℕ  -- [u64; 25]
  pub slot_hash : List ℕ  -- [u8; 32]
  pub count : List ℕ  -- [u64; 25]
  pub expires_at : ℕ
  pub motherlode : ℕ
  pub rent_payer : Pubkey
  pub top_miner : Pubkey
  pub top_miner_reward : ℕ
  pub total_deployed : ℕ
  pub total_miners : ℕ
  pub total_vaulted : ℕ
  pub total_winnings : ℕ

pub record Clock : Type 0 where
  pub slot : ℕ

pub record Miner : Type 0 where
  pub authority : Pubkey
  pub deployed : List ℕ  -- [u64; 25]
  pub checkpoint_id : ℕ
  pub rewards_sol : ℕ
  pub round_id : ℕ

-- `OreAccount`
abbrev pub miner_discriminator : ℕ
miner_discriminator = 103

abbrev pub board_discriminator : ℕ
board_discriminator = 105

abbrev pub round_discriminator : ℕ
round_discriminator = 109

-- `size_of::<T>()`; steel's `Numeric` has 16 bytes.
abbrev pub miner_size : ℕ
miner_size = 536

abbrev pub board_size : ℕ
board_size = 32

abbrev pub round_size : ℕ
round_size = 560

-- `CHECKPOINT_FEE`
abbrev pub checkpoint_fee : ℕ
checkpoint_fee = 10000

-- The u64 at an offset, and an array of them.
abbrev pub u64_at : List ℕ → ℕ → ℕ
u64_at bytes off = from_le_bytes (slice bytes off (off + 8))

unfoldable pub u64s_at : List ℕ → ℕ → ℕ → List ℕ
u64s_at bytes off zero = []
u64s_at bytes off (suc n) = u64_at bytes off ∷ u64s_at bytes (off + 8) n

-- The structs' `repr(C)` layouts.
unfoldable pub board_of_bytes : List ℕ → Board
board_of_bytes bytes = record {
  round_id = u64_at bytes 0;
  start_slot = u64_at bytes 8;
  end_slot = u64_at bytes 16;
  epoch_id = u64_at bytes 24;
}

unfoldable pub round_of_bytes : List ℕ → Round
round_of_bytes bytes = record {
  id = u64_at bytes 0;
  deployed = u64s_at bytes 8 25;
  slot_hash = slice bytes 208 240;
  count = u64s_at bytes 240 25;
  expires_at = u64_at bytes 440;
  motherlode = u64_at bytes 448;
  rent_payer = from_le_bytes (slice bytes 456 488);
  top_miner = from_le_bytes (slice bytes 488 520);
  top_miner_reward = u64_at bytes 520;
  total_deployed = u64_at bytes 528;
  total_miners = u64_at bytes 536;
  total_vaulted = u64_at bytes 544;
  total_winnings = u64_at bytes 552;
}

-- The fields of a miner that the program reads.
unfoldable pub miner_of_bytes : List ℕ → Miner
miner_of_bytes bytes = record {
  authority = from_le_bytes (slice bytes 0 32);
  deployed = u64s_at bytes 32 25;
  checkpoint_id = u64_at bytes 440;
  rewards_sol = u64_at bytes 480;
  round_id = u64_at bytes 504;
}
