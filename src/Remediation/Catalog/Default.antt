-- ===== src/Remediation/Catalog/Default.antt =====
-- `default_catalog` of remediation/catalog.py: the shipped runbooks, registered one by one.
use engineering_intelligence.Base.{◌≡◌, refl, true, none, some, List, [], ◌∷◌, map}
use engineering_intelligence.Base.Int.{pos}
use engineering_intelligence.Base.Result.{Result, ok}
use engineering_intelligence.Remediation.Catalog.{
  Runbook, RunbookCatalog, CatalogError, register, approve_and_execute, bounded_autonomous,
}
use engineering_intelligence.Remediation.Catalog.Admission.{
  IsValid, empty-IsValid, register_all, register_all-IsValid,
}

abbrev aks_rollout_undo : Runbook
aks_rollout_undo = record {
  id = "aks.rollout.undo";
  description = "Undo the current Kubernetes deployment rollout";
  environments = "dev" ∷ "stage" ∷ "prod" ∷ [];
  max_blast_radius = pos 10;
  reversible = true;
  required_level = approve_and_execute;
  verify_signal = "deployment.available_replicas";
  rollback_id = some "aks.rollout.redo";
  failure_class = "deployment-regression";
  preconditions = "deployment.exists" ∷ "rollout.history_available" ∷ "deployment.degraded" ∷ [];
  postconditions = "deployment.available_replicas" ∷ [];
  idempotency_scope = "durable-workflow";
}

abbrev aks_rollback_readiness : Runbook
aks_rollback_readiness = record {
  id = "aks.rollback.readiness";
  description = "Rollback a deployment when readiness regressed after a release";
  environments = "stage" ∷ "prod" ∷ [];
  max_blast_radius = pos 5;
  reversible = true;
  required_level = approve_and_execute;
  verify_signal = "deployment.ready_replicas";
  rollback_id = some "aks.rollout.redo";
  failure_class = "readiness-regression";
  preconditions = "deployment.exists" ∷ "rollout.history_available" ∷ "deployment.degraded" ∷ [];
  postconditions = "deployment.ready_replicas" ∷ [];
  idempotency_scope = "durable-workflow";
}

abbrev aks_restart_workload : Runbook
aks_restart_workload = record {
  id = "aks.restart.workload";
  description = "Restart a bounded Kubernetes deployment";
  environments = "dev" ∷ "stage" ∷ "prod" ∷ [];
  max_blast_radius = pos 5;
  reversible = true;
  required_level = approve_and_execute;
  verify_signal = "deployment.ready_replicas";
  rollback_id = none;
  failure_class = "bounded-workload-recovery";
  preconditions = "deployment.exists" ∷ "deployment.degraded" ∷ [];
  postconditions = "deployment.ready_replicas" ∷ [];
  idempotency_scope = "durable-workflow";
}

abbrev aks_restart_crashloop : Runbook
aks_restart_crashloop = record {
  id = "aks.restart.crashloop";
  description = "Restart a bounded deployment after CrashLoopBackOff evidence";
  environments = "stage" ∷ "prod" ∷ [];
  max_blast_radius = pos 3;
  reversible = true;
  required_level = approve_and_execute;
  verify_signal = "deployment.ready_replicas";
  rollback_id = none;
  failure_class = "crashloop";
  preconditions = "deployment.exists" ∷ "pods.crashloop_present" ∷ [];
  postconditions = "deployment.ready_replicas" ∷ "pods.crashloop_absent" ∷ [];
  idempotency_scope = "durable-workflow";
}

abbrev aks_restart_oom : Runbook
aks_restart_oom = record {
  id = "aks.restart.oom";
  description =
      "Restart a bounded deployment after OOMKilled evidence while preserving resource policy";
  environments = "stage" ∷ "prod" ∷ [];
  max_blast_radius = pos 3;
  reversible = true;
  required_level = approve_and_execute;
  verify_signal = "deployment.ready_replicas";
  rollback_id = none;
  failure_class = "oomkilled";
  preconditions = "deployment.exists" ∷ "pods.oomkilled_present" ∷ [];
  postconditions = "deployment.ready_replicas" ∷ [];
  idempotency_scope = "durable-workflow";
}

abbrev aks_scale_memory : Runbook
aks_scale_memory = record {
  id = "aks.scale.memory";
  description = "Apply a pre-approved memory limit profile";
  environments = "dev" ∷ "stage" ∷ [];
  max_blast_radius = pos 5;
  reversible = true;
  required_level = bounded_autonomous;
  verify_signal = "container.oom_count";
  rollback_id = some "aks.scale.memory.rollback";
  failure_class = "memory-pressure";
  preconditions =
      "deployment.exists" ∷ "pods.oomkilled_present" ∷ "memory.profile_preapproved" ∷ [];
  postconditions = "container.oom_count" ∷ [];
  idempotency_scope = "durable-workflow";
}

abbrev k8s_etcd_defrag_and_alarm_clear : Runbook
k8s_etcd_defrag_and_alarm_clear = record {
  id = "k8s.etcd.defrag_and_alarm_clear";
  description = "Defragment etcd bbolt storage and clear alarms after quota compaction";
  environments = "stage" ∷ "prod" ∷ [];
  max_blast_radius = pos 1;
  reversible = true;
  required_level = approve_and_execute;
  verify_signal = "etcd.alarm_absent";
  rollback_id = some "k8s.etcd.restore_snapshot";
  failure_class = "etcd-quorum-pressure";
  preconditions = "etcd.member_healthy" ∷ "etcd.alarm_present" ∷ [];
  postconditions = "etcd.alarm_absent" ∷ [];
  idempotency_scope = "durable-workflow";
}

abbrev k8s_webhook_bypass_deadlock : Runbook
k8s_webhook_bypass_deadlock = record {
  id = "k8s.webhook.bypass_deadlock";
  description =
      "Emergency bypass for failing-closed admission webhooks deadlocking cluster scheduling";
  environments = "dev" ∷ "stage" ∷ "prod" ∷ [];
  max_blast_radius = pos 5;
  reversible = true;
  required_level = approve_and_execute;
  verify_signal = "apiserver.admission_healthy";
  rollback_id = some "k8s.webhook.restore";
  failure_class = "webhook-deadlock";
  preconditions = "webhook.failing_closed" ∷ "webhook.endpoint_unreachable" ∷ [];
  postconditions = "apiserver.admission_healthy" ∷ [];
  idempotency_scope = "durable-workflow";
}

abbrev k8s_coredns_autopath_scale : Runbook
k8s_coredns_autopath_scale = record {
  id = "k8s.coredns.autopath_scale";
  description = "Mitigate CoreDNS query storms by enabling autopath and scaling replicas";
  environments = "dev" ∷ "stage" ∷ "prod" ∷ [];
  max_blast_radius = pos 10;
  reversible = true;
  required_level = approve_and_execute;
  verify_signal = "dns.query_latency_normal";
  rollback_id = some "k8s.coredns.rollback";
  failure_class = "dns-amplification-storm";
  preconditions = "dns.query_drop_rate_high" ∷ "coredns.cpu_saturated" ∷ [];
  postconditions = "dns.query_latency_normal" ∷ [];
  idempotency_scope = "durable-workflow";
}

abbrev k8s_node_drain_with_pdb_eviction : Runbook
k8s_node_drain_with_pdb_eviction = record {
  id = "k8s.node.drain_with_pdb_eviction";
  description =
      "Safely evict workload pods during node maintenance under strict PodDisruptionBudgets";
  environments = "stage" ∷ "prod" ∷ [];
  max_blast_radius = pos 5;
  reversible = true;
  required_level = approve_and_execute;
  verify_signal = "node.unschedulable_and_empty";
  rollback_id = some "k8s.node.uncordon";
  failure_class = "node-maintenance-eviction";
  preconditions = "node.ready" ∷ "pdb.budget_available" ∷ [];
  postconditions = "node.unschedulable_and_empty" ∷ [];
  idempotency_scope = "durable-workflow";
}

abbrev pub shipped_runbooks : List Runbook
shipped_runbooks =
    aks_rollout_undo ∷ aks_rollback_readiness ∷ aks_restart_workload ∷ aks_restart_crashloop
    ∷ aks_restart_oom ∷ aks_scale_memory ∷ k8s_etcd_defrag_and_alarm_clear
    ∷ k8s_webhook_bypass_deadlock ∷ k8s_coredns_autopath_scale ∷ k8s_node_drain_with_pdb_eviction
    ∷ []

unfoldable pub default_catalog : Result CatalogError RunbookCatalog
unfolding register_all register
default_catalog = register_all shipped_runbooks []

abbrev pub keyed : RunbookCatalog
keyed = map (λ (r : Runbook). (r.id, r)) shipped_runbooks

pub default_catalog_lem : default_catalog ≡ ok keyed
unfolding default_catalog
default_catalog_lem = refl

-- The shipped catalog can be built: no registration raises, and every runbook in it is stored under
-- its own id and, when automated, is reversible and declares preconditions and postconditions.
pub default_catalog-IsValid : (default_catalog ≡ ok keyed) × IsValid keyed
default_catalog-IsValid = (
  default_catalog_lem,
  unfold default_catalog in
      register_all-IsValid shipped_runbooks [] keyed empty-IsValid default_catalog_lem,
)
