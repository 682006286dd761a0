-- ===== src/Processor/Sample.antt =====
-- A sample runtime, accounts and a transaction for runs of the handlers.
use evore_program.Processor.StratDeployer.Create.{CreatesSpace}
use evore_program.Prelude.{
  ap, sym, ◌∙◌, length-replicate, some, ℕ, ◌+◌, ◌*◌, ◌≡◌, arith, inl, inr, Bool, true, List, [],
  ◌∷◌, ◌++◌, ◌==◌, ◌&&◌, replicate, to_le_bytes, from_le_bytes, slice, length, drop, get_or,
  if◌then◌else◌,
}
use evore_program.Error.{
  ProgramError, Result, ok, err, invalid_account_data, invalid_instruction_data,
}
use evore_program.OreApi.{Pubkey}
use evore_program.Runtime.{
  Call, Seeds, Ledger, create_account, update, AccountInfo, Account, Runtime, AsAccountReads,
  AccountDataReads, DataReads, Tx, key_bytes,
}
use evore_program.State.{Deployer, deployer_to_bytes}

-- `as_account` as steel documents it.
unfoldable pub read_account : ℕ → ℕ → ℕ → Account → Result (List ℕ)
read_account owner discriminator size a =
    if (a.owner == owner && get_or a.bytes 0 0 == discriminator) && length a.bytes == 8 + size
    then ok (drop 8 a.bytes)
    else err invalid_account_data

-- A call that creates an account allocates its space; the others change no account.
abbrev pub sample_invoke : Call → Seeds → Ledger → Result Ledger
sample_invoke (create_account from to lamports space owner) seeds ledger =
    ok (update ledger to (record { lamports = lamports; owner = owner; bytes = replicate space 0 }))
sample_invoke _ seeds ledger = ok ledger

-- `try_from_bytes` as steel documents it: of an account's data, and of an instruction's arguments.
abbrev header_read : (discriminator size : ℕ) → List ℕ → Result (List ℕ)
header_read discriminator size bytes =
    if get_or bytes 0 0 == discriminator && length bytes == 8 + size
    then ok (drop 8 bytes)
    else err invalid_account_data

abbrev sized : ProgramError → ℕ → List ℕ → Result (List ℕ)
sized e size bytes = if length bytes == size then ok bytes else err e

-- A runtime whose calls succeed and whose addresses are the number of their seeds.
abbrev pub sample : Runtime
sample = record {
  evore_id = 100;
  ore_id = 101;
  entropy_id = 102;
  system_id = 0;
  fee_collector = 103;
  find_program_address = λ seeds. (length seeds, 254);
  find_entropy_address = λ seeds. (300 + length seeds, 255);
  treasury = 106;
  mint = 107;
  associated_token_address = λ owner mint. 1000 * owner + mint;
  find_ore_address = λ seeds. (200 + length seeds, 255);
  create_program_address = λ seeds. some (length seeds);
  minimum_balance = λ size. 6960 * (128 + size);
  default_minimum_balance = λ size. 6960 * (128 + size);
  invoke_signed = sample_invoke;
  spl_token_id = 104;
  spl_ata_id = 105;
  as_token_account = λ owner mint key a. ok (from_le_bytes (slice a.bytes 64 72));
  account_data = header_read;
  instruction_data = sized invalid_instruction_data;
  as_account = read_account;
  as_account_mut = read_account;
}

read_account-reads :
    (owner d size : ℕ) (a : Account) (bytes : List ℕ)
    → read_account owner d size a ≡ ok bytes
    → (a.owner ≡ owner) × (length a.bytes ≡ 8 + size) × (bytes ≡ drop 8 a.bytes)
unfolding read_account
read_account-reads owner d size a bytes h = ground arith

pub sample-AsAccountReads : AsAccountReads sample
sample-AsAccountReads owner d size a bytes (inl h) = read_account-reads owner d size a bytes h
sample-AsAccountReads owner d size a bytes (inr h) = read_account-reads owner d size a bytes h

-- The accounts: the authority 50, the manager 51, the deployer 2, the managed authority 3.
abbrev pub account_info : Pubkey → Bool → AccountInfo
account_info key is_signer = record { key = key; is_signer = is_signer; is_writable = true }

abbrev pub deployer : Deployer
deployer = record {
  manager_key = 51;
  deploy_authority = 60;
  bps_fee = 100;
  flat_fee = 5000;
  expected_bps_fee = 200;
  expected_flat_fee = 5000;
  max_per_round = 1000000;
}

abbrev pub manager_bytes : List ℕ
manager_bytes = 100 ∷ replicate 7 0 ++ key_bytes 50

abbrev pub deployer_bytes : List ℕ
deployer_bytes = 101 ∷ replicate 7 0 ++ deployer_to_bytes deployer

-- Round 7, until slot 1150.
abbrev pub board_bytes : List ℕ
board_bytes =
    105 ∷ replicate 7 0
    ++ to_le_bytes 8 7
    ++ to_le_bytes 8 1000
    ++ to_le_bytes 8 1150
    ++ to_le_bytes 8 1

abbrev pub round_bytes : List ℕ
round_bytes = 109 ∷ replicate 7 0 ++ to_le_bytes 8 7 ++ replicate 552 0

abbrev pub data_account : (owner : Pubkey) → List ℕ → Account
data_account owner bytes = record { lamports = 1; owner = owner; bytes = bytes }

abbrev pub ledger : Ledger
ledger k =
    if k == 51
    then data_account 100 manager_bytes
    else (if k == 2
        then data_account 100 deployer_bytes
        else (if k == 80
            then data_account 101 board_bytes
            else (if k == 81
                then data_account 101 round_bytes
                else record { lamports = 20000000; owner = 0; bytes = [] })))

abbrev pub start : Tx
start = record { ledger = ledger; slot = 1148; calls = [] }

allocated : (ledger : Ledger) (to : Pubkey) (a : Account) → update ledger to a to ≡ a
allocated ledger to a = ground arith

pub sample-CreatesSpace : CreatesSpace sample
sample-CreatesSpace from to lamports space owner seeds before after h =
    let a : Account = record { lamports = lamports; owner = owner; bytes = replicate space 0 } in
    let e : update before to a ≡ after = cc in
    ap (λ (l : Ledger). length (l to).bytes) (sym e)
    ∙ ap (λ (b : Account). length b.bytes) (allocated before to a)
    ∙ length-replicate space 0

pub sample-DataReads : DataReads sample
sample-DataReads size bytes h = ground arith

pub sample-AccountDataReads : AccountDataReads sample
sample-AccountDataReads discriminator size bytes struct h = ground arith
