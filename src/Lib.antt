-- ===== src/Lib.antt =====
-- Engineering Intelligence Platform: verification library.
--
-- The platform answers operational questions about services and, under policy, repairs them. Modelled
-- here is the part that acts and the state it stands on:
--
-- * Remediation models remediation/: the runbook catalog (catalog.py: Catalog), the autonomy
--   policy (policy.py: Policy), the local policy evaluator (opa_policy.py: Opa), the blast-radius
--   locks (concurrency_lock.py: Lock), the calls of an adapter (Adapter), the canary rollout
--   (canary.py: Canary), the control loop that uses them all (executor.py: Executor and its
--   children), and the planner (planner.py: Planner).
-- * Intelligence models the analysis of an incident in intelligence/incidents.py (Incidents).
-- * Resilience models resilience/: the scope of an L4 certification and its hashes (scope.py: Scope) and the
--   gate of the execution path (certification.py: Certification).
-- * ControlPlane models control_plane/: the runtime modes (runtime.py: Runtime) and the workflows that are
--   prepared, approved and finished (remediation.py: Remediation).
-- * State models state/: records (models.py: Models), the workflow lifecycle (lifecycle.py: Lifecycle), the
--   SQLite state store (store.py: Payload, Store) and the hash-chained audit log (audit.py: Audit).
-- * Orchestration models orchestration/: the durable job queue (jobs.py: Jobs), signed approvals
--   (approvals.py: Approvals), the remediation workflow (remediation_workflow.py: RemediationWorkflow, its
--   loop in Run, the wait for signals in Signals and Deadline) and its activities (control_plane_activities.py:
--   Activities for the boundary that persists an event, Evidence and Steps for the activities).
-- * Base has what these share: Boolean tests, lists, dictionaries, texts, integers, choosing from lists,
--   `Result`, a call that returns or raises, and `Stateful`, one that also changes a state.
--
-- How they interact: a request for a runbook reaches execute_control_loop, which reads the catalog, asks
-- the evaluator, checks the certification, takes a lease of the lock manager, and calls the adapter, alone
-- or as a canary. Workflows are recorded by events, which the lifecycle validates and the store applies
-- with a version check and a receipt; audit events are chained by their hashes; jobs are leased from the
-- queue. The remediation workflow runs its activities one after the other: evidence is collected, the
-- analysis of the incident gives a plan, an approval is awaited and verified, the policy is asked, the plan
-- rehearsed and the action run, and the outcome recorded. The activities that change state send lifecycle
-- events through the boundary, which commits the state before it exports the audit record.
--
-- How code is read. A class with fields is a record of the same name, an enum a data type, a Python
-- function or method a function of the same name in the module of its file. A function that may raise gives
-- a `Result`; one that changes an object or a table takes it and gives it back. A method with early returns
-- is cut at them into helpers that are called in its order. A dict or a table with a text key is a list of
-- pairs in insertion order, another table a list of rows. A SQLite transaction is one step: it commits what
-- its body gives or, when the body raises, keeps the tables as they were.
--
-- Values. Counts, levels and versions are natural numbers, a budget that may be negative an integer.
-- Instants are microseconds, and the times of the queue natural numbers of one unit. The text of an error
-- message is a constructor that names it. A generated identifier, the time of a call and the configuration
-- of a process are arguments.
--
-- Parameters. hashlib, json and datetime are Python's: each part has a record `Library` of the functions it
-- uses, and a theorem that needs more says so: `IsLossless`, what is read from JSON is what was written,
-- and `IsCollisionFree`, no two contents have one hash. An adapter answers each call by a function of the
-- calls before it, so it may fail at any call. The policy evaluator of the control loop is any function.
-- Temporal is a `World`: what an activity answers may depend on all that ran before, and signals arrive in a
-- finite list of batches with their times, of which the wait reads those before its deadline. Of a run is
-- modelled what its code does until it returns or raises, and not what Temporal does after that: a run that
-- raised for a request that is not valid is tried again. An audit sink is any function of its log. Floats
-- are a type with the operations that the analysis uses; one that is only carried is in millionths. HMAC and
-- the printing of numbers are parameters, and so are, for the activities, the provider of evidence and the
-- answer of the control loop.
--
-- Bounds. All recursion is structural, on lists and texts, so that nothing runs on fuel. Python's integers
-- have no width, and neither have those of the model.
--
-- Not modelled: HTTP clients and servers (app/, portal/, integrations/, the OPA client), cloud and cluster
-- adapters (Azure, Cosmos DB, Kubernetes), the client and worker of Temporal, the other engines (the rest of
-- intelligence/, company_brain/, product/, finops/, ingestion/, retrieval), evaluation and demonstration code,
-- infrastructure and scripts; of orchestration/, the activities that ask the evaluator and the digital twin,
-- and the reading of their configuration; of resilience/, exercises and reports.
pub mod Base
pub mod ControlPlane
pub mod Orchestration
pub mod Intelligence
pub mod Remediation
pub mod Resilience
pub mod State
