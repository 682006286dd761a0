-- ===== src/Processor/Deployer/Fields.antt =====
-- The byte writes of a deployer update, read through the layout of the struct.
use evore_program.Prelude.{
  ℕ, ◌^◌, ◌<◌, ◌≡◌, refl, ◌∙◌, arith, inl, inr, Bool, true, false, List, length, to_le_bytes,
  if◌then◌else◌,
}
use evore_program.OreApi.{Pubkey}
use evore_program.Runtime.{key_bytes}
use evore_program.Runtime.Bytes.{write_at, length-write_at}
use evore_program.State.{Deployer, deployer_of_bytes}
use evore_program.State.Layout.{number-write_self, number-write_ne}
use evore_program.Processor.Reads.{deployer_in}
use evore_program.Processor.Deployer.{
  UpdateDeployer, manager_writes, deploy_authority_writes, update_bytes,
}

module _ (n : ℕ) (bytes : List ℕ) (len : length bytes ≡ 112) where
  pub write-deploy_authority :
      n < 256 ^ 32
      → deployer_in (write_at 40 (to_le_bytes 32 n) bytes)
        ≡ record (deployer_in bytes) { deploy_authority = n }
  unfolding deployer_in deployer_of_bytes
  write-deploy_authority fits = rw (
    number-write_ne 0 32 40 32 n bytes (omega arith) (inl (omega arith)),
    number-write_self 32 32 n bytes fits (omega (arith, len)),
    number-write_ne 64 72 40 32 n bytes (omega arith) (inr (omega arith)),
    number-write_ne 72 80 40 32 n bytes (omega arith) (inr (omega arith)),
    number-write_ne 80 88 40 32 n bytes (omega arith) (inr (omega arith)),
    number-write_ne 88 96 40 32 n bytes (omega arith) (inr (omega arith)),
    number-write_ne 96 104 40 32 n bytes (omega arith) (inr (omega arith)),
  )

  pub write-bps_fee :
      n < 256 ^ 8
      → deployer_in (write_at 72 (to_le_bytes 8 n) bytes)
        ≡ record (deployer_in bytes) { bps_fee = n }
  unfolding deployer_in deployer_of_bytes
  write-bps_fee fits = rw (
    number-write_ne 0 32 72 8 n bytes (omega arith) (inl (omega arith)),
    number-write_ne 32 64 72 8 n bytes (omega arith) (inl (omega arith)),
    number-write_self 64 8 n bytes fits (omega (arith, len)),
    number-write_ne 72 80 72 8 n bytes (omega arith) (inr (omega arith)),
    number-write_ne 80 88 72 8 n bytes (omega arith) (inr (omega arith)),
    number-write_ne 88 96 72 8 n bytes (omega arith) (inr (omega arith)),
    number-write_ne 96 104 72 8 n bytes (omega arith) (inr (omega arith)),
  )

  pub write-flat_fee :
      n < 256 ^ 8
      → deployer_in (write_at 80 (to_le_bytes 8 n) bytes)
        ≡ record (deployer_in bytes) { flat_fee = n }
  unfolding deployer_in deployer_of_bytes
  write-flat_fee fits = rw (
    number-write_ne 0 32 80 8 n bytes (omega arith) (inl (omega arith)),
    number-write_ne 32 64 80 8 n bytes (omega arith) (inl (omega arith)),
    number-write_ne 64 72 80 8 n bytes (omega arith) (inl (omega arith)),
    number-write_self 72 8 n bytes fits (omega (arith, len)),
    number-write_ne 80 88 80 8 n bytes (omega arith) (inr (omega arith)),
    number-write_ne 88 96 80 8 n bytes (omega arith) (inr (omega arith)),
    number-write_ne 96 104 80 8 n bytes (omega arith) (inr (omega arith)),
  )

  pub write-expected_bps_fee :
      n < 256 ^ 8
      → deployer_in (write_at 88 (to_le_bytes 8 n) bytes)
        ≡ record (deployer_in bytes) { expected_bps_fee = n }
  unfolding deployer_in deployer_of_bytes
  write-expected_bps_fee fits = rw (
    number-write_ne 0 32 88 8 n bytes (omega arith) (inl (omega arith)),
    number-write_ne 32 64 88 8 n bytes (omega arith) (inl (omega arith)),
    number-write_ne 64 72 88 8 n bytes (omega arith) (inl (omega arith)),
    number-write_ne 72 80 88 8 n bytes (omega arith) (inl (omega arith)),
    number-write_self 80 8 n bytes fits (omega (arith, len)),
    number-write_ne 88 96 88 8 n bytes (omega arith) (inr (omega arith)),
    number-write_ne 96 104 88 8 n bytes (omega arith) (inr (omega arith)),
  )

  pub write-expected_flat_fee :
      n < 256 ^ 8
      → deployer_in (write_at 96 (to_le_bytes 8 n) bytes)
        ≡ record (deployer_in bytes) { expected_flat_fee = n }
  unfolding deployer_in deployer_of_bytes
  write-expected_flat_fee fits = rw (
    number-write_ne 0 32 96 8 n bytes (omega arith) (inl (omega arith)),
    number-write_ne 32 64 96 8 n bytes (omega arith) (inl (omega arith)),
    number-write_ne 64 72 96 8 n bytes (omega arith) (inl (omega arith)),
    number-write_ne 72 80 96 8 n bytes (omega arith) (inl (omega arith)),
    number-write_ne 80 88 96 8 n bytes (omega arith) (inl (omega arith)),
    number-write_self 88 8 n bytes fits (omega (arith, len)),
    number-write_ne 96 104 96 8 n bytes (omega arith) (inr (omega arith)),
  )

  pub write-max_per_round :
      n < 256 ^ 8
      → deployer_in (write_at 104 (to_le_bytes 8 n) bytes)
        ≡ record (deployer_in bytes) { max_per_round = n }
  unfolding deployer_in deployer_of_bytes
  write-max_per_round fits = rw (
    number-write_ne 0 32 104 8 n bytes (omega arith) (inl (omega arith)),
    number-write_ne 32 64 104 8 n bytes (omega arith) (inl (omega arith)),
    number-write_ne 64 72 104 8 n bytes (omega arith) (inl (omega arith)),
    number-write_ne 72 80 104 8 n bytes (omega arith) (inl (omega arith)),
    number-write_ne 80 88 104 8 n bytes (omega arith) (inl (omega arith)),
    number-write_ne 88 96 104 8 n bytes (omega arith) (inl (omega arith)),
    number-write_self 96 8 n bytes fits (omega (arith, len)),
  )

-- The arguments of an update fit their widths.
pub record Fits (new_authority : Pubkey) (args : UpdateDeployer) : Type 0 where
  pub key : new_authority < 256 ^ 32
  pub bps_fee : args.bps_fee < 256 ^ 8
  pub flat_fee : args.flat_fee < 256 ^ 8
  pub expected_bps_fee : args.expected_bps_fee < 256 ^ 8
  pub expected_flat_fee : args.expected_flat_fee < 256 ^ 8
  pub max_per_round : args.max_per_round < 256 ^ 8

-- The fields that the manager's authority sets.
abbrev pub managed : Pubkey → UpdateDeployer → Deployer → Deployer
managed new_authority args d = record d {
  deploy_authority = new_authority;
  expected_bps_fee = args.expected_bps_fee;
  expected_flat_fee = args.expected_flat_fee;
  max_per_round = args.max_per_round;
}

-- The fields that the deploy authority sets.
abbrev pub charged : Pubkey → UpdateDeployer → Deployer → Deployer
charged new_authority args d = record d {
  deploy_authority = new_authority;
  bps_fee = args.bps_fee;
  flat_fee = args.flat_fee;
}

module _ (new_authority : Pubkey) (args : UpdateDeployer) (fits : Fits new_authority args)
    (bytes : List ℕ) (len : length bytes ≡ 112) where
  manager_writes-managed :
      (deployer_in (manager_writes new_authority args bytes)
        ≡ managed new_authority args (deployer_in bytes))
      × (length (manager_writes new_authority args bytes) ≡ 112)
  unfolding manager_writes
  manager_writes-managed =
      let b1 = write_at 40 (key_bytes new_authority) bytes in
      let b2 = write_at 88 (to_le_bytes 8 args.expected_bps_fee) b1 in
      let b3 = write_at 96 (to_le_bytes 8 args.expected_flat_fee) b2 in
      let l1 = length-write_at 40 (key_bytes new_authority) bytes ∙ len in
      let l2 = length-write_at 88 (to_le_bytes 8 args.expected_bps_fee) b1 ∙ l1 in
      let l3 = length-write_at 96 (to_le_bytes 8 args.expected_flat_fee) b2 ∙ l2 in
      (
        rw (
          write-max_per_round args.max_per_round b3 l3 fits.max_per_round,
          write-expected_flat_fee args.expected_flat_fee b2 l2 fits.expected_flat_fee,
          write-expected_bps_fee args.expected_bps_fee b1 l1 fits.expected_bps_fee,
          write-deploy_authority new_authority bytes len fits.key,
        ),
        length-write_at 104 (to_le_bytes 8 args.max_per_round) b3 ∙ l3,
      )

  deploy_authority_writes-charged :
      (deployer_in (deploy_authority_writes new_authority args bytes)
        ≡ charged new_authority args (deployer_in bytes))
      × (length (deploy_authority_writes new_authority args bytes) ≡ 112)
  unfolding deploy_authority_writes
  deploy_authority_writes-charged =
      let b1 = write_at 40 (key_bytes new_authority) bytes in
      let b2 = write_at 72 (to_le_bytes 8 args.bps_fee) b1 in
      let l1 = length-write_at 40 (key_bytes new_authority) bytes ∙ len in
      let l2 = length-write_at 72 (to_le_bytes 8 args.bps_fee) b1 ∙ l1 in
      (
        rw (
          write-flat_fee args.flat_fee b2 l2 fits.flat_fee,
          write-bps_fee args.bps_fee b1 l1 fits.bps_fee,
          write-deploy_authority new_authority bytes len fits.key,
        ),
        length-write_at 80 (to_le_bytes 8 args.flat_fee) b2 ∙ l2,
      )

-- What an update does to the deployer: each signer sets its own fields.
abbrev pub updated : (is_manager is_deploy : Bool) → Pubkey → UpdateDeployer → Deployer → Deployer
updated is_manager is_deploy new_authority args d =
    let d' = if is_manager then managed new_authority args d else d in
    if is_deploy then charged new_authority args d' else d'

pub update_bytes-updated :
    (is_manager is_deploy : Bool) (new_authority : Pubkey) (args : UpdateDeployer) (bytes : List ℕ)
    → Fits new_authority args
    → length bytes ≡ 112
    → deployer_in (update_bytes is_manager is_deploy new_authority args bytes)
      ≡ updated is_manager is_deploy new_authority args (deployer_in bytes)
unfolding update_bytes
update_bytes-updated true true new args bytes fits len =
    let (e, l) = manager_writes-managed new args fits bytes len in
    rw ((deploy_authority_writes-charged new args fits (manager_writes new args bytes) l).0, e)
update_bytes-updated true false new args bytes fits len =
    (manager_writes-managed new args fits bytes len).0
update_bytes-updated false true new args bytes fits len =
    (deploy_authority_writes-charged new args fits bytes len).0
update_bytes-updated false false new args bytes fits len = refl
