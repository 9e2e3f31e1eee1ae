-- ===== src/Remediation/Adapter.antt =====
-- The action adapter of remediation/executor.py and remediation/canary.py, and the calls made of it.
-- An adapter acts on a cluster: what it answers may depend on every call made before, so it is given
-- the calls so far, the latest first. `raised` carries the exception's text.
use engineering_intelligence.Base.{
  ◌≡◌, ◌⊎◌, String, Bool, Option, none, some, List, [], ◌∷◌, str_eq, if◌then◌else◌,
}
use engineering_intelligence.Base.Result.{Result}
use engineering_intelligence.Remediation.Catalog.{Runbook}
use engineering_intelligence.Remediation.Policy.{ActionRequest}

-- `consulted` is a call of the policy evaluator.
pub data Call : Type 0 where
  consulted preflighted : Call
  executed verified rolled_back : String → Call

abbrev pub Trace : Type 0
Trace = List Call

-- A preflight hook answers with a truth value, alone or with a reason.
pub data PreflightAnswer : Type 0 where
  verdict : Bool → PreflightAnswer
  explained : Bool → String → PreflightAnswer

pub record ActionAdapter : Type 0 where
  pub preflight : Option (Trace → Runbook → ActionRequest → Result String PreflightAnswer)
  pub execute : Trace → String → ActionRequest → Result String String
  pub verify : Trace → String → ActionRequest → Result String Bool
  pub rollback : Trace → String → ActionRequest → Result String String

-- A text that Python takes for true.
abbrev pub truthy : Option String → Option String
truthy none = none
truthy (some text) = if str_eq text "" then none else some text

-- The call was made.
abbrev pub Made : Call → Trace → Type 0
Made call [] = ⊥
Made call (c ∷ trace) = (call ≡ c) ⊎ Made call trace
