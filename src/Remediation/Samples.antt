-- ===== src/Remediation/Samples.antt =====
-- A runbook, a policy, a request, a library and an adapter, for the tests of the remediation parts.
use engineering_intelligence.Base.{true, false, none, some, [], ◌∷◌, str_eq, if◌then◌else◌}
use engineering_intelligence.Base.Int.{pos}
use engineering_intelligence.Base.Result.{ok}
use engineering_intelligence.Resilience.Scope.{Library, aware}
use engineering_intelligence.Resilience.Certification.{L4CertificationRecord}
use engineering_intelligence.Remediation.Catalog.{
  Runbook, RunbookCatalog, AutonomyLevel, approve_and_execute,
}
use engineering_intelligence.Remediation.Policy.{ServiceAutonomy, ActionRequest}
use engineering_intelligence.Remediation.Opa.{PolicyControlState}
use engineering_intelligence.Remediation.Adapter.{ActionAdapter, verdict}

abbrev pub restart : Runbook
restart = record {
  id = "aks.restart.workload";
  description = "Restart a bounded Kubernetes deployment";
  environments = "dev" ∷ "prod" ∷ [];
  max_blast_radius = pos 5;
  reversible = true;
  required_level = approve_and_execute;
  verify_signal = "deployment.ready_replicas";
  rollback_id = some "aks.rollout.redo";
  failure_class = "bounded-workload-recovery";
  preconditions = "deployment.exists" ∷ [];
  postconditions = "deployment.ready_replicas" ∷ [];
  idempotency_scope = "durable-workflow";
}

abbrev pub items : RunbookCatalog
items = ("aks.restart.workload", restart) ∷ []

abbrev pub policy_at : AutonomyLevel → ServiceAutonomy
policy_at level = record {
  service = "checkout";
  environment = "prod";
  level = level;
  certified_runbooks = "aks.restart.workload" ∷ [];
  max_blast_radius = pos 3;
  kill_switch = false;
}

abbrev pub request : ActionRequest
request = record {
  service = "checkout";
  environment = "prod";
  runbook_id = "aks.restart.workload";
  blast_radius = pos 2;
  approval_token = some "token";
  error_budget_remaining = pos 1;
}

abbrev pub available : PolicyControlState
available = record { audit_available = true; verification_defined = true }

-- Digests name what they are taken of; "now" is instant 100 and "later" instant 200.
abbrev pub library : Library
library = record {
  sha256 = λ text. text;
  dumps_scope = λ scope. scope.service;
  dumps_inputs = λ inputs. inputs.policy_bundle_version;
  fromisoformat = λ text.
      if str_eq text "now"
      then some (aware 100)
      else if str_eq text "later"
      then some (aware 200)
      else none;
  isoformat = λ instant. "now";
}

abbrev pub certificate : L4CertificationRecord
certificate = record {
  scope = record {
    service = "checkout";
    environment = "prod";
    runbook_id = "aks.restart.workload";
    blast_radius_budget = pos 3;
  };
  scope_hash = "checkout";
  inputs_hash = "local-reference";
  exercises_digest = "digest";
  issued_on = "now";
  expires_on = "later";
  issued_by = "reviewer";
  evidence_ids = [];
}

-- Everything works.
abbrev pub healthy : ActionAdapter
healthy = record {
  preflight = some (λ trace runbook request. ok (verdict true));
  execute = λ trace id request. ok "ref";
  verify = λ trace signal request. ok true;
  rollback = λ trace id request. ok "undo";
}

-- The action runs, its verification fails, and the rollback works.
abbrev pub unhealthy : ActionAdapter
unhealthy = record {
  preflight = none;
  execute = λ trace id request. ok "ref";
  verify = λ trace signal request. ok false;
  rollback = λ trace id request. ok "undo";
}
