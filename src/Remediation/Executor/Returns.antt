-- ===== src/Remediation/Executor/Returns.antt =====
-- Results of remediation/executor.py, and early returns over the host state.
use engineering_intelligence.Base.{String, Bool, true, false, Option, none, some, List}
use engineering_intelligence.Base.Result.{Result, ok, raised}
use engineering_intelligence.ControlPlane.Runtime.{ControlPlaneConfigurationError}
use engineering_intelligence.Remediation.Catalog.{CatalogError}
use engineering_intelligence.Remediation.Policy.{PolicyDecision, Reason}
use engineering_intelligence.Remediation.Lock.{Leases, LockoutRefusal}
use engineering_intelligence.Remediation.Adapter.{Trace}
use engineering_intelligence.Remediation.Canary.{CanaryError}

pub data Status : Type 0 where
  succeeded rolled_back_ escalate denied blocked deferred : Status

pub data ErrorText : Type 0 where
  switch_text : ErrorText
  reason_text : Reason → ErrorText
  lockout : LockoutRefusal → ErrorText
  canary_error : CanaryError → ErrorText
  execution_failed verification_failed rollback_failed : String → ErrorText

-- `error` lists the texts that are joined with "; "; the empty list is `None`.
pub record ExecutionResult : Type 0 where
  pub status : Status
  pub policy : PolicyDecision
  pub execution_ref : Option String
  pub verified : Bool
  pub rollback_ref : Option String
  pub error : List ErrorText

pub data ExecutorError : Type 0 where
  catalog_error : CatalogError → ExecutorError
  configuration : ControlPlaneConfigurationError → ExecutorError

pub record Host : Type 0 where
  pub trace : Trace
  pub leases : Option Leases

pub data Flow (A : Type 0) : Type 0 where
  continue : A → Flow A
  exit : ExecutionResult → Flow A
  raises : ExecutorError → Flow A

abbrev pub Loop : Type 0 → Type 0
Loop A = Host → Flow A × Host

infixl 5 ◌>>=◌ ◌>>◌
abbrev pub ◌>>=◌ : {A B : Type 0} → Loop A → (A → Loop B) → Loop B
◌>>=◌ m f host =
    let (r, after) = m host in
    elim r [
      | continue a ↦ f a after
      | exit result ↦ (exit result, after)
      | raises e ↦ (raises e, after)
    ]

abbrev pub ◌>>◌ : {B : Type 0} → Loop (Unit {0}) → Loop B → Loop B
m >> k = m >>= λ _. k

-- A return before the action: a status, a decision, and the texts of the error.
abbrev pub stopped : Status → PolicyDecision → List ErrorText → ExecutionResult
stopped status policy error = record {
  status = status;
  policy = policy;
  execution_ref = none;
  verified = false;
  rollback_ref = none;
  error = error;
}

abbrev pub exit_if : Bool → ExecutionResult → Loop (Unit {0})
exit_if true result host = (exit result, host)
exit_if false result host = (continue tt, host)

abbrev pub exit_when : {A : Type 0} → Option A → (A → ExecutionResult) → Loop (Unit {0})
exit_when none result host = (continue tt, host)
exit_when (some a) result host = (exit (result a), host)

abbrev pub or_raise : {A E : Type 0} → (E → ExecutorError) → Result E A → Loop A
or_raise wrap (ok a) host = (continue a, host)
or_raise wrap (raised e) host = (raises (wrap e), host)
