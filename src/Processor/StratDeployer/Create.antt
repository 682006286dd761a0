-- ===== src/Processor/StratDeployer/Create.antt =====
-- Who may create a strategy deployer, and that its strategy is a checked one from the start.
use evore_program.Prelude.{
  ℕ, zero, suc, ◌+◌, ◌<◌, ◌≡◌, ◌∙◌, refl, ap, arith, Bool, true, false, not, List, [], ◌∷◌, ◌++◌,
  length, take, drop, slice, replicate, from_le_bytes, to_le_bytes,
}
use evore_program.Error.{
  evore, manager_not_initialized, not_authorized, incorrect_program_id, already_initialized,
  invalid_pda, ok,
}
use evore_program.OreApi.{Pubkey}
use evore_program.Validation.{check_strategy}
use evore_program.Runtime.{
  AccountInfo, Runtime, AsAccountReads, Seeds, Tx, Ledger, create_account, is_empty_data,
  after_call,
}
use evore_program.Runtime.Bytes.{write_at, length-write_at}
use evore_program.Runtime.Chain.{reject_if-ok, lift-ok, invoke-ok, write_bytes-ok, written_self}
use evore_program.State.{
  StrategyDeployer, strategy_deployer_of_bytes, strategy_deployer_to_bytes,
  strategy_deployer_discriminator, strategy_deployer_pda,
}
use evore_program.Processor.Reads.{
  manager_at, require_signer-ok, require_data-ok, same_key-ok, load_manager-ok,
}
use evore_program.Processor.StratDeployer.{
  CreateStratDeployer, new_strat_deployer, process_create_strat_deployer,
}
use evore_program.Processor.StratDeployer.Terms.{strat_deployer_in, strat_deployer_at, IsChecked}

-- The system program's `create_account` allocates the space asked for.
abbrev pub CreatesSpace : Runtime → Type 0
CreatesSpace rt =
    (from to : Pubkey) (lamports space : ℕ) (owner : Pubkey) (seeds : Seeds) (before after : Ledger)
    → rt.invoke_signed (create_account from to lamports space owner) seeds before ≡ ok after
    → length (after to).bytes ≡ space

drop-write_at :
    (off : ℕ) (bs bytes : List ℕ)
    → length bytes ≡ off + length bs
    → drop off (write_at off bs bytes) ≡ bs
unfolding write_at
drop-write_at zero [] [] h = refl
drop-write_at zero [] (x ∷ bytes) h = absurd (omega (arith, h))
drop-write_at zero (b ∷ bs) [] h = absurd (omega (arith, h))
drop-write_at zero (b ∷ bs) (x ∷ bytes) h =
    ap (λ r. b ∷ r) (drop-write_at zero bs bytes (omega (arith, h)))
drop-write_at (suc off) bs [] h = absurd (omega (arith, h))
drop-write_at (suc off) bs (x ∷ bytes) h = drop-write_at off bs bytes (omega (arith, h))

take-append : (n : ℕ) (xs ys : List ℕ) → length xs ≡ n → take n (xs ++ ys) ≡ xs
take-append zero [] ys h = refl
take-append zero (x ∷ xs) ys h = absurd (omega (arith, h))
take-append (suc n) [] ys h = absurd (omega (arith, h))
take-append (suc n) (x ∷ xs) ys h = ap (λ r. x ∷ r) (take-append n xs ys (omega (arith, h)))

length-append : (xs ys : List ℕ) → length (xs ++ ys) ≡ length xs + length ys
length-append [] ys = omega arith
length-append (x ∷ xs) ys = omega (arith, length-append xs ys)

module _ (d : StrategyDeployer) (width : length d.strategy_data ≡ 64) where
  length-strategy_deployer_to_bytes : length (strategy_deployer_to_bytes d) ≡ 176
  unfolding strategy_deployer_to_bytes to_le_bytes
  length-strategy_deployer_to_bytes =
      omega (arith, length-append d.strategy_data (replicate 7 0), width)

  -- The strategy is read back from the struct's bytes.
  strategy_of_bytes-to_bytes :
      d.strategy_type < 256
      → let e = strategy_deployer_of_bytes (strategy_deployer_to_bytes d) in
        (e.strategy_type ≡ d.strategy_type) × (e.strategy_data ≡ d.strategy_data)
  unfolding strategy_deployer_of_bytes strategy_deployer_to_bytes to_le_bytes from_le_bytes slice
  strategy_of_bytes-to_bytes fits =
      (omega (arith, fits), take-append 64 d.strategy_data (replicate 7 0) width)

module _ (rt : Runtime) (reads : AsAccountReads rt) (creates : CreatesSpace rt)
    (signer manager deployer authority system : AccountInfo) (args : CreateStratDeployer)
    (s : Tx) where
  -- With a runtime that reads accounts as steel does and whose account creation allocates the space
  -- asked for, a type of one byte and a strategy of 64 bytes: a creation that succeeds was signed by
  -- the manager's authority, at the manager's own address for a strategy deployer, which was empty,
  -- and the strategy stored there passes the check.
  pub create_strat_deployer-IsChecked :
      {t : Tx}
      → args.strategy_type < 256
      → length args.strategy_data ≡ 64
      → process_create_strat_deployer rt signer manager deployer authority system args s
        ≡ ok (tt, t)
      → (signer.is_signer ≡ true)
        × ((manager_at s manager.key).authority ≡ signer.key)
        × ((strategy_deployer_pda rt manager.key).0 ≡ deployer.key)
        × (is_empty_data (s.ledger deployer.key).bytes ≡ true)
        × IsChecked (strat_deployer_at t deployer.key)
  unfolding process_create_strat_deployer strat_deployer_in new_strat_deployer
  create_strat_deployer-IsChecked fits width h =
      let (sig, h1) = require_signer-ok s signer _ h in
      let (_, h2) = same_key-ok s system.key rt.system_id incorrect_program_id _ h1 in
      let h3 = require_data-ok s manager (evore manager_not_initialized) _ h2 in
      let h4 = load_manager-ok s rt reads manager _ h3 in
      let (mine, h5) =
        same_key-ok s (manager_at s manager.key).authority signer.key (evore not_authorized) _ h4 in
      let (fresh, h6) =
        reject_if-ok (not (is_empty_data (s.ledger deployer.key).bytes)) (evore already_initialized)
          _ s h5 in
      let (_, checked, h7) =
        lift-ok (check_strategy args.strategy_type args.strategy_data) _ s h6 in
      let (pda, h8) =
        same_key-ok s (strategy_deployer_pda rt manager.key).0 deployer.key (evore invalid_pda) _
          h7 in
      let (ledger, e1, h9) = invoke-ok rt _ _ _ s h8 in
      let space = creates _ _ _ _ _ _ _ _ e1 in
      let d = new_strat_deployer manager.key authority.key args in
      let base =
        write_at 0 (to_le_bytes 8 strategy_deployer_discriminator) (ledger deployer.key).bytes in
      let now = write_at 8 (strategy_deployer_to_bytes d) base in
      let s1 = after_call _ s ledger in
      let e2 = write_bytes-ok deployer now s1 h9 in
      let len =
        length-write_at 0 (to_le_bytes 8 strategy_deployer_discriminator)
          (ledger deployer.key).bytes
        ∙ space in
      let (ty, strategy) = strategy_of_bytes-to_bytes d width fits in
      (
        sig,
        mine,
        pda,
        empty_of (is_empty_data (s.ledger deployer.key).bytes) fresh,
        rw
            (
              e2,
              written_self s1 deployer.key now,
              drop-write_at 8 (strategy_deployer_to_bytes d) base
                  (omega (arith, len, length-strategy_deployer_to_bytes d width)),
              ty,
              strategy,
            )
            checked,
      )
    where
      empty_of : (b : Bool) → not b ≡ false → b ≡ true
      empty_of b h = ground arith
