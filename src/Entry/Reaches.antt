-- ===== src/Entry/Reaches.antt =====
-- What `process_instruction` does with the bytes it is given.
use evore_program.Prelude.{
  ℕ, ◌≡◌, ◌≢◌, ◌⊎◌, inl, inr, refl, ◌∙◌, ap, Bool-cases, Option, none, some, List, [], ◌∷◌, ◌==◌,
  arith,
}
use evore_program.Error.{incorrect_program_id, invalid_instruction_data, ok, err}
use evore_program.OreApi.{Pubkey}
use evore_program.Runtime.{AccountInfo, Runtime, Tx}
use evore_program.Instruction.{Instructions, instruction_code}
use evore_program.Entry.{
  instruction_in, instruction_try_from, instructions, decoded, handled, dispatched,
  process_instruction,
}

-- The discriminator of an instruction is read back as it.
instruction_try_from-code : (i : Instructions) → instruction_try_from (instruction_code i) ≡ some i
unfolding instruction_try_from instruction_in instruction_code
instruction_try_from-code Instructions.create_manager = refl
instruction_try_from-code Instructions.mm_deploy = refl
instruction_try_from-code Instructions.mm_checkpoint = refl
instruction_try_from-code Instructions.mm_claim_sol = refl
instruction_try_from-code Instructions.mm_claim_ore = refl
instruction_try_from-code Instructions.create_deployer = refl
instruction_try_from-code Instructions.update_deployer = refl
instruction_try_from-code Instructions.mm_autodeploy = refl
instruction_try_from-code Instructions.deposit_autodeploy_balance = refl
instruction_try_from-code Instructions.recycle_sol = refl
instruction_try_from-code Instructions.withdraw_autodeploy_balance = refl
instruction_try_from-code Instructions.mm_autocheckpoint = refl
instruction_try_from-code Instructions.mm_full_autodeploy = refl
instruction_try_from-code Instructions.transfer_manager = refl
instruction_try_from-code Instructions.mm_create_miner = refl
instruction_try_from-code Instructions.withdraw_tokens = refl
instruction_try_from-code Instructions.create_strat_deployer = refl
instruction_try_from-code Instructions.update_strat_deployer = refl
instruction_try_from-code Instructions.mm_strat_autodeploy = refl
instruction_try_from-code Instructions.mm_strat_full_autodeploy = refl
instruction_try_from-code Instructions.mm_strat_autocheckpoint = refl
instruction_try_from-code Instructions.recycle_strat_sol = refl

-- A search by discriminator yields an instruction that has it.
instruction_in-code :
    (is : List Instructions) (tag : ℕ) (i : Instructions)
    → instruction_in is tag ≡ some i
    → instruction_code i ≡ tag
unfolding instruction_in
instruction_in-code [] tag i e = ground arith
instruction_in-code (j ∷ is) tag i e = let ih = instruction_in-code is tag i in ground arith

-- Bytes that do not begin with an instruction's discriminator.
abbrev pub HasNoInstruction : List ℕ → Type 0
HasNoInstruction bytes = (i : Instructions) (rest : List ℕ) → bytes ≢ instruction_code i ∷ rest

pub decoded-code :
    (i : Instructions) (rest : List ℕ) → decoded (instruction_code i ∷ rest) ≡ ok (i, rest)
unfolding decoded
decoded-code i rest = rw (instruction_try_from-code i, decoded) refl

Option-cases : {A : Type 0} (o : Option A) → (o ≡ none) ⊎ ((a : A) × (o ≡ some a))
Option-cases none = inl refl
Option-cases (some a) = inr (a, refl)

decoded-cases :
    (bytes : List ℕ)
    → ((i : Instructions) × (rest : List ℕ) × (bytes ≡ instruction_code i ∷ rest))
      ⊎ (HasNoInstruction bytes × (decoded bytes ≡ err invalid_instruction_data))
unfolding decoded instruction_try_from
decoded-cases [] = inr ((λ i rest e. ground arith), refl)
decoded-cases (tag ∷ bytes) = elim (Option-cases (instruction_try_from tag)) [
  | inr (i, e) ↦ let same = instruction_in-code instructions tag i e in inl (i, bytes, ground arith)
  | inl e ↦ inr (
    (λ i rest same.
        let read = instruction_try_from-code i in
        let head : tag ≡ instruction_code i = ground arith in
        let found : instruction_try_from tag ≡ some i = cc in ground arith),
    rw (e, decoded) refl,
  )
]

module _ (rt : Runtime) (program_id : Pubkey) (accounts : List AccountInfo) (bytes : List ℕ)
    (s : Tx) where
  pub process_instruction-here :
      program_id ≡ rt.evore_id
      → process_instruction rt program_id accounts bytes s
        ≡ dispatched rt accounts s (decoded bytes)
  unfolding process_instruction
  process_instruction-here same = ground arith

  process_instruction-foreign :
      program_id ≢ rt.evore_id
      → process_instruction rt program_id accounts bytes s ≡ err incorrect_program_id
  unfolding process_instruction
  process_instruction-foreign other = ground arith

-- The entry point either refuses to run under a foreign program's id, or runs the handler of the one
-- instruction whose discriminator the data begins with, on the rest of the data, or refuses data that
-- begin with no instruction's discriminator.
pub process_instruction-dispatches :
    (rt : Runtime) (program_id : Pubkey) (accounts : List AccountInfo) (bytes : List ℕ) (s : Tx)
    → ((program_id ≢ rt.evore_id)
        × (process_instruction rt program_id accounts bytes s ≡ err incorrect_program_id))
      ⊎ (((i : Instructions) × (rest : List ℕ) × (program_id ≡ rt.evore_id)
            × (bytes ≡ instruction_code i ∷ rest)
            × (process_instruction rt program_id accounts bytes s ≡ handled rt i accounts rest s))
          ⊎ ((program_id ≡ rt.evore_id)
              × HasNoInstruction bytes
              × (process_instruction rt program_id accounts bytes s
                  ≡ err invalid_instruction_data)))
process_instruction-dispatches rt program_id accounts bytes s =
    elim (Bool-cases (program_id == rt.evore_id)) [
      | inl same ↦
          let here : program_id ≡ rt.evore_id = ground arith in
          let runs = process_instruction-here rt program_id accounts bytes s here in
          elim (decoded-cases bytes) [
            | inl (i, rest, e) ↦
                let read : decoded bytes ≡ ok (i, rest) = ap decoded e ∙ decoded-code i rest in
                inr (inl (i, rest, here, e, runs ∙ ap (dispatched rt accounts s) read))
            | inr (unknown, e) ↦ inr (inr (here, unknown, runs ∙ ap (dispatched rt accounts s) e))
          ]
      | inr differs ↦
          let other : program_id ≢ rt.evore_id = ground arith in
          inl (other, process_instruction-foreign rt program_id accounts bytes s other)
    ]
