-- ===== src/MmDeploy/Sqrt.antt =====
-- `isqrt_u128` of program/src/processor/process_mm_deploy.rs: Newton's iteration from above. The
-- loop recurs on the accessibility of `x0`, which falls in every round, so it needs no fuel.
pub mod Newton
use evore_program.Prelude.{ℕ, ◌+◌, ◌/◌, ◌<◌, ltb, if◌then◌else◌, dec_lt}
use evore_program.Prelude.Order.{lt_wf}
use mathlib.Core.WellFounded.{Acc}
use mathlib.Core.Logic.{dite}

-- `x1 = (x1 + n / x1) >> 1`
unfoldable pub newton_step : ℕ → ℕ → ℕ
newton_step n x = (x + n / x) / 2

-- `while x1 < x0 { x0 = x1; x1 = … }; x0`
unfoldable pub isqrt_loop : (n x0 x1 : ℕ) → Acc ◌<◌ x0 → ℕ
isqrt_loop n x0 x1 (Acc.intro _ smaller) =
    dite (dec_lt x1 x0) (λ h. isqrt_loop n x1 (newton_step n x1) (smaller x1 h)) (λ _. x0)

unfoldable pub isqrt_u128 : ℕ → ℕ
unfolding isqrt_loop newton_step lt_wf dec_lt
isqrt_u128 n = if ltb n 2 then n else isqrt_loop n n (n / 2 + 1) (lt_wf.apply n)
