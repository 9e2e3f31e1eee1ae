-- ===== src/Remediation/Executor/Levels.antt =====
-- The switches and the level resolution of remediation/executor.py.
use Prim.Native.Nat.{max}
use engineering_intelligence.Base.{
  ℕ, Bool, true, ◌&&◌, Option, none, some, zero, suc, ltb, ◌==◌, if◌then◌else◌,
}
use engineering_intelligence.Base.Int.{ℤ, pos, negsuc}
use engineering_intelligence.Base.Result.{Result, ok, ◌>>=◌}
use engineering_intelligence.Base.Text.{reads_as}
use engineering_intelligence.ControlPlane.Runtime.{
  Environ, Mode, ControlPlaneConfigurationError, reference, get_or, control_plane_mode,
}
use engineering_intelligence.Remediation.Catalog.{
  AutonomyLevel, observe, recommend, human_execute, approve_and_execute, bounded_autonomous, rank,
}
use engineering_intelligence.Remediation.Policy.{
  Reason, level_unreadable, level_exceeds, level_not_downgrade,
}

unfoldable pub autonomy_kill_switch_engaged : Environ → Bool
autonomy_kill_switch_engaged source =
    reads_as "true" (get_or "false" (source "EIP_AUTONOMY_KILL_SWITCH"))

required_in : Environ → Mode → Bool
required_in source reference = reads_as "true" (get_or "false" (source "EIP_REQUIRE_OPA"))
required_in source _ = true

unfoldable pub opa_evaluator_required : Environ → Result ControlPlaneConfigurationError Bool
unfolding required_in
opa_evaluator_required source = control_plane_mode source >>= λ mode. ok (required_in source mode)

-- What a caller may declare: a level, an `int`, another value that `int()` takes to a number, or one
-- that is no level: a fractional float, or what `int()` refuses.
pub data LevelClaim : Type 0 where
  level : AutonomyLevel → LevelClaim
  integer coerced : ℤ → LevelClaim
  unreadable : LevelClaim

-- `AutonomyLevel(n)`
unfoldable pub level_of : ℕ → Option AutonomyLevel
level_of zero = some observe
level_of (suc zero) = some recommend
level_of (suc (suc zero)) = some human_execute
level_of (suc (suc (suc zero))) = some approve_and_execute
level_of (suc (suc (suc (suc zero)))) = some bounded_autonomous
level_of _ = none

level_at : ℤ → Option AutonomyLevel
level_at (pos n) = level_of n
level_at (negsuc n) = none

readable_level : LevelClaim → Option AutonomyLevel
unfolding level_at
readable_level (level l) = some l
readable_level (integer z) = level_at z
readable_level (coerced z) = level_at z
readable_level unreadable = none

-- `_claimed_level_value`; a negative claim counts as 0, which `max` with the policy's level ignores.
at_least_zero : ℤ → ℕ
at_least_zero (pos n) = n
at_least_zero (negsuc n) = 0

unfoldable pub claimed_level_value : Option LevelClaim → ℕ
unfolding at_least_zero
claimed_level_value none = 0
claimed_level_value (some (level l)) = rank l
claimed_level_value (some (integer z)) = at_least_zero z
claimed_level_value (some (coerced z)) = 0
claimed_level_value (some unreadable) = 0

resolve : AutonomyLevel → Option AutonomyLevel → AutonomyLevel × Option Reason
resolve granted none = (granted, some level_unreadable)
resolve granted (some claimed) =
    if rank claimed == rank granted
    then (granted, none)
    else if ltb (rank granted) (rank claimed)
    then (granted, some (level_exceeds claimed granted))
    else if rank claimed == 3 && rank granted == 4
    then (claimed, none)
    else (granted, some (level_not_downgrade claimed granted))

-- `_effective_level`
unfoldable pub resolve_level : Option LevelClaim → AutonomyLevel → AutonomyLevel × Option Reason
unfolding resolve readable_level
resolve_level none granted = (granted, none)
resolve_level (some claim) granted = resolve granted (readable_level claim)

-- `switch_level`
abbrev pub switch_level : AutonomyLevel → Option LevelClaim → ℕ
switch_level granted declared = max (rank granted) (claimed_level_value declared)
