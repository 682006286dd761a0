-- ===== src/Runtime.antt =====
-- What the program runs on: accounts, cross-program calls, and the operations of the Solana runtime,
-- of the steel crate and of the ORE program that it uses. Those are a parameter, `Runtime`; the calls
-- that a handler makes are also recorded, in order.
pub mod Bytes
pub mod Chain
use evore_program.Prelude.{
  ℕ, zero, suc, ◌+◌, Bool, true, false, Option, none, some, List, [], ◌∷◌, ◌++◌, ◌==◌,
  if◌then◌else◌, to_le_bytes, ◌≢◌, ◌≡◌, ◌⊎◌, length, drop, get_or,
}
use evore_program.Error.{
  EvoreError, evore, invalid_pda, ProgramError, invalid_account_data, incorrect_program_id,
  missing_required_signature, Result, ok, err,
}
use evore_program.OreApi.{Pubkey}

-- A reference to an account, as an instruction passes it.
pub record AccountInfo : Type 0 where
  pub key : Pubkey
  pub is_signer : Bool
  pub is_writable : Bool

pub record Account : Type 0 where
  pub lamports : ℕ
  pub owner : Pubkey
  pub bytes : List ℕ

abbrev pub Ledger : Type 0
Ledger = Pubkey → Account

-- The calls of other programs that the handlers make.
pub data Call : Type 0 where
  transfer : (from to : Pubkey) (lamports : ℕ) → Call
  create_account : (from to : Pubkey) (lamports space : ℕ) (owner : Pubkey) → Call
  create_rent_exempt : (from to : Pubkey) (space : ℕ) (owner : Pubkey) → Call
  ore_deploy : (authority : Pubkey) (amount round_id : ℕ) (squares : List Bool) → Call
  ore_automate :
      (authority : Pubkey) (amount deposit : ℕ) (executor : Pubkey) (fee mask strategy : ℕ) → Call
  ore_checkpoint : (authority : Pubkey) (round_id : ℕ) → Call
  ore_claim_sol : (authority : Pubkey) → Call
  ore_claim_ore : (authority : Pubkey) → Call
  create_token_account : (payer owner address mint : Pubkey) → Call
  token_transfer : (authority from to : Pubkey) (amount : ℕ) → Call

abbrev pub Seeds : Type 0
Seeds = List (List ℕ)

-- `Pubkey::find_program_address` for this program, for ORE and for entropy, `Pubkey::create_program_address`, `invoke_signed`,
-- `minimum_balance` of `Rent::get()` and of `Rent::default()`, `as_account::<T>` and
-- `as_account_mut::<T>` by owner, discriminator and size, the amount of an account that is
-- `as_associated_token_account(owner, mint)`, `T::try_from_bytes` of an account's struct and of an
-- instruction's arguments by size, and the addresses of the programs, of the fee collector and of ORE's
-- treasury and mint, and `get_associated_token_address`.
pub record Runtime : Type 0 where
  pub evore_id : Pubkey
  pub ore_id : Pubkey
  pub entropy_id : Pubkey
  pub system_id : Pubkey
  pub fee_collector : Pubkey
  pub treasury : Pubkey
  pub mint : Pubkey
  pub associated_token_address : (owner mint : Pubkey) → Pubkey
  pub spl_token_id : Pubkey
  pub spl_ata_id : Pubkey
  pub find_program_address : Seeds → Pubkey × ℕ
  pub find_ore_address : Seeds → Pubkey × ℕ
  pub find_entropy_address : Seeds → Pubkey × ℕ
  pub create_program_address : Seeds → Option Pubkey
  pub minimum_balance : ℕ → ℕ
  pub default_minimum_balance : ℕ → ℕ
  pub invoke_signed : Call → Seeds → Ledger → Result Ledger
  pub as_account : (owner : Pubkey) (discriminator size : ℕ) → Account → Result (List ℕ)
  pub as_token_account : (owner mint key : Pubkey) → Account → Result ℕ
  pub account_data : (discriminator size : ℕ) → List ℕ → Result (List ℕ)
  pub instruction_data : (size : ℕ) → List ℕ → Result (List ℕ)
  pub as_account_mut : (owner : Pubkey) (discriminator size : ℕ) → Account → Result (List ℕ)

-- steel's `as_account` and `as_account_mut`: it passes only on an account of the owner whose first byte is the
-- discriminator and whose length is that of the header and the struct, and yields the struct's bytes.
abbrev pub AsAccountReads : Runtime → Type 0
AsAccountReads rt =
    (owner : Pubkey) (d size : ℕ) (a : Account) (bytes : List ℕ)
    → (Runtime.as_account rt owner d size a ≡ ok bytes)
      ⊎ (Runtime.as_account_mut rt owner d size a ≡ ok bytes)
    → (a.owner ≡ owner) × (length a.bytes ≡ 8 + size) × (bytes ≡ drop 8 a.bytes)

-- steel's `try_from_bytes` of an instruction's arguments: it passes on bytes of the struct's size, and
-- yields them.
abbrev pub DataReads : Runtime → Type 0
DataReads rt =
    (size : ℕ) (bytes : List ℕ)
    → length bytes ≡ size
    → Runtime.instruction_data rt size bytes ≡ ok bytes

-- steel's `try_from_bytes` of an account's struct: it takes the whole account's data, the eight bytes of
-- the discriminator included, passes only on the discriminator and the size, and yields the struct's
-- bytes.
abbrev pub AccountDataReads : Runtime → Type 0
AccountDataReads rt =
    (discriminator size : ℕ) (bytes struct : List ℕ)
    → Runtime.account_data rt discriminator size bytes ≡ ok struct
    → (get_or bytes 0 0 ≡ discriminator) × (length bytes ≡ 8 + size) × (struct ≡ drop 8 bytes)

-- The system program's transfer between two accounts: it moves the lamports and touches no other
-- account, or fails.
abbrev pub TransfersMove : Runtime → Type 0
TransfersMove rt =
    (from to : Pubkey) (n : ℕ) (seeds : Seeds) (before after : Ledger)
    → from ≢ to
    → Runtime.invoke_signed rt (transfer from to n) seeds before ≡ ok after
    → ((after from).lamports + n ≡ (before from).lamports)
      × ((after to).lamports ≡ (before to).lamports + n)
      × ((k : Pubkey) → k ≢ from → k ≢ to → after k ≡ before k)

-- The transaction under way: the accounts, the slot and the calls made so far.
pub record Tx : Type 0 where
  pub ledger : Ledger
  pub slot : ℕ
  pub calls : List Call

-- A handler: an error abandons the transaction.
abbrev pub M : Type 0 → Type 0
M A = Tx → Result (A × Tx)

infixl 5 ◌>>=◌ ◌>>◌
abbrev pub ◌>>=◌ : {A B : Type 0} → M A → (A → M B) → M B
◌>>=◌ m f s = elim (m s) [ ok (a, s') ↦ f a s' | err e ↦ err e ]

abbrev pub ◌>>◌ : {B : Type 0} → M (Unit {0}) → M B → M B
m >> k = m >>= λ _. k

abbrev pub pure : {A : Type 0} → A → M A
pure a s = ok (a, s)

abbrev pub done : M (Unit {0})
done = pure tt

abbrev pub lift : {A : Type 0} → Result A → M A
lift (ok a) s = ok (a, s)
lift (err e) s = err e

-- `if c { return Err(e) }`
abbrev pub reject_if : Bool → ProgramError → M (Unit {0})
reject_if true e s = err e
reject_if false e s = ok (tt, s)

abbrev pub account : AccountInfo → M Account
account info s = ok (s.ledger info.key, s)

abbrev pub update : {A : Type 0} → (ℕ → A) → ℕ → A → ℕ → A
update f k a j = if k == j then a else f j

-- The transaction after a write of an account's data.
abbrev pub written : Tx → Pubkey → List ℕ → Tx
written s k bytes = record s { ledger = update s.ledger k (record (s.ledger k) { bytes = bytes }) }

abbrev pub write_bytes : AccountInfo → List ℕ → M (Unit {0})
write_bytes info bytes s = ok (tt, written s info.key bytes)

abbrev pub is_empty_data : List ℕ → Bool
is_empty_data [] = true
is_empty_data (_ ∷ _) = false

-- The transaction after a call that left these accounts.
abbrev pub after_call : Call → Tx → Ledger → Tx
after_call call s ledger = record s { ledger = ledger; calls = s.calls ++ call ∷ [] }

unfoldable pub record_call : Call → Tx → Result Ledger → Result (Unit {0} × Tx)
record_call call s (ok ledger) = ok (tt, after_call call s ledger)
record_call call s (err e) = err e

-- A call signed with the given seeds.
unfoldable pub invoke : Runtime → Call → Seeds → M (Unit {0})
invoke rt call seeds s = record_call call s (rt.invoke_signed call seeds s.ledger)

-- `key.as_ref()`
abbrev pub key_bytes : Pubkey → List ℕ
key_bytes k = to_le_bytes 32 k
