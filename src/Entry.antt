-- ===== src/Entry.antt =====
-- `process_instruction` of program/src/lib.rs: the program's entry point, which decodes an instruction and
-- calls its handler.
pub mod Handlers
pub mod Dispatch
pub mod Reaches
mod Tests
use evore_program.Prelude.{ℕ, Option, none, some, List, [], ◌∷◌, ◌==◌, if◌then◌else◌}
use evore_program.Error.{
  incorrect_program_id, invalid_instruction_data, Result, ok, err, ◌>>=◌, ◌>>◌,
}
use evore_program.OreApi.{Pubkey}
use evore_program.Runtime.{AccountInfo, Runtime, Tx, M}
use evore_program.Instruction.{Instructions, instruction_code, get_strategy}
use evore_program.Processor.{◌!=◌}
use evore_program.Processor.MmDeploy.{parsed}
use evore_program.Entry.Handlers.{mm_deploy_args_of, args_size}
use evore_program.Entry.Dispatch.{run}

abbrev pub instructions : List Instructions
instructions =
    Instructions.create_manager ∷ Instructions.mm_deploy ∷ Instructions.mm_checkpoint
    ∷ Instructions.mm_claim_sol ∷ Instructions.mm_claim_ore ∷ Instructions.create_deployer
    ∷ Instructions.update_deployer ∷ Instructions.mm_autodeploy
    ∷ Instructions.deposit_autodeploy_balance ∷ Instructions.recycle_sol
    ∷ Instructions.withdraw_autodeploy_balance ∷ Instructions.mm_autocheckpoint
    ∷ Instructions.mm_full_autodeploy ∷ Instructions.transfer_manager ∷ Instructions.mm_create_miner
    ∷ Instructions.withdraw_tokens ∷ Instructions.create_strat_deployer
    ∷ Instructions.update_strat_deployer ∷ Instructions.mm_strat_autodeploy
    ∷ Instructions.mm_strat_full_autodeploy ∷ Instructions.mm_strat_autocheckpoint
    ∷ Instructions.recycle_strat_sol ∷ []

unfoldable pub instruction_in : List Instructions → ℕ → Option Instructions
instruction_in [] tag = none
instruction_in (instruction ∷ rest) tag =
    if instruction_code instruction == tag then some instruction else instruction_in rest tag

-- `Instructions::try_from`: the instruction of a discriminator.
unfoldable pub instruction_try_from : ℕ → Option Instructions
instruction_try_from tag = instruction_in instructions tag

-- `split_first` and the discriminator
unfoldable pub decoded : List ℕ → Result (Instructions × List ℕ)
decoded [] = err invalid_instruction_data
decoded (tag ∷ bytes) = elim (instruction_try_from tag) [
  | none ↦ err invalid_instruction_data
  | some instruction ↦ ok (instruction, bytes)
]

module _ (rt : Runtime) where
  -- `T::try_from_bytes(instruction_data)`, and the strategy of a deployment. The handlers of managers
  -- do not look at their data.
  unfoldable pub read_arguments : Instructions → List ℕ → Result (List ℕ)
  read_arguments Instructions.create_manager bytes = ok []
  read_arguments Instructions.transfer_manager bytes = ok []
  read_arguments Instructions.mm_deploy bytes = do
    args ← rt.instruction_data (args_size Instructions.mm_deploy) bytes
    _strategy ← parsed (get_strategy (mm_deploy_args_of args))
    ok args
  read_arguments instruction bytes = rt.instruction_data (args_size instruction) bytes

  -- An instruction's handler on its accounts and its bytes.
  unfoldable pub handled : Instructions → List AccountInfo → List ℕ → M (Unit {0})
  handled instruction accounts bytes s = elim (read_arguments instruction bytes) [
    | ok args ↦ run rt instruction accounts args s
    | err e ↦ err e
  ]

  -- The handler of what is decoded.
  abbrev pub dispatched :
      List AccountInfo → Tx → Result (Instructions × List ℕ) → Result (Unit {0} × Tx)
  dispatched accounts s (ok (instruction, rest)) = handled instruction accounts rest s
  dispatched accounts s (err e) = err e

  unfoldable pub process_instruction :
      (program_id : Pubkey) → List AccountInfo → List ℕ → M (Unit {0})
  process_instruction program_id accounts bytes s =
      if program_id != rt.evore_id
      then err incorrect_program_id
      else dispatched accounts s (decoded bytes)
