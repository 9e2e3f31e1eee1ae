-- ===== src/ControlPlane/Runtime.antt =====
-- control_plane/runtime.py: the mode of the control plane, read from the process environment.
use engineering_intelligence.Base.{String, Option, none, some, if◌then◌else◌}
use engineering_intelligence.Base.Result.{Result, ok, raised, ◌>>=◌}
use engineering_intelligence.Base.Text.{reads_as}

-- `source.get(name)`
abbrev pub Environ : Type 0
Environ = String → Option String

pub data Mode : Type 0 where
  reference temporal disabled : Mode

pub data ControlPlaneConfigurationError : Type 0 where
  invalid_mode : ControlPlaneConfigurationError
  reference_only : String → ControlPlaneConfigurationError

-- `source.get(name, default)`
abbrev pub get_or : String → Option String → String
get_or default none = default
get_or default (some value) = value

mode_of : String → Result ControlPlaneConfigurationError Mode
mode_of text =
    if reads_as "reference" text
    then ok reference
    else if reads_as "temporal" text
    then ok temporal
    else if reads_as "disabled" text
    then ok disabled
    else raised invalid_mode

unfoldable pub control_plane_mode : Environ → Result ControlPlaneConfigurationError Mode
unfolding mode_of
control_plane_mode source = mode_of (get_or "reference" (source "EIP_CONTROL_PLANE_MODE"))

refuse_temporal : String → Mode → Result ControlPlaneConfigurationError (Unit {0})
refuse_temporal component temporal = raised (reference_only component)
refuse_temporal component _ = ok tt

unfoldable pub require_reference_storage :
    String → Environ → Result ControlPlaneConfigurationError (Unit {0})
unfolding refuse_temporal
require_reference_storage component source = control_plane_mode source >>= refuse_temporal component
