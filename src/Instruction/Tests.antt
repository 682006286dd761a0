-- ===== src/Instruction/Tests.antt =====
-- Runs of the strategy codec.
use evore_program.Prelude.{◌≡◌, true, some, ◌∷◌, arith, replicate}
use evore_program.Instruction.{DeployStrategy, new_mm_deploy, get_strategy, get_allow_multi_deploy}
use evore_program.Instruction.RoundTrip.{get_strategy-new_mm_deploy}
use evore_program.Prelude.{from_le_bytes}

abbrev some_amounts : DeployStrategy
some_amounts = DeployStrategy.manual (300 ∷ replicate 24 70000)

get_strategy-new_mm_deploy_example :
    (get_strategy (new_mm_deploy 77 254 true some_amounts) ≡ some some_amounts)
    × (get_allow_multi_deploy (new_mm_deploy 77 254 true some_amounts) ≡ true)
    × (from_le_bytes (new_mm_deploy 77 254 true some_amounts).auth_id ≡ 77)
get_strategy-new_mm_deploy_example =
    get_strategy-new_mm_deploy 77 254 true some_amounts (ground arith) (omega arith)
