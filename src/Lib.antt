-- ===== src/Lib.antt =====
-- certificate-job-operator runs a workflow of Kubernetes Jobs whenever a cert-manager Certificate
-- changes. A CertificateJob holds job templates and edges between them. For each matching
-- certificate the controller computes a hash of its input, starts a run when the hash is new, and
-- in every pass looks at the Jobs of the run, applies the failure policy, creates Jobs for the
-- nodes that may run, and derives the phase of the run. A webhook fills in defaults and refuses
-- templates that would weaken the security of the pods.
--
-- The files, and the code that each models:
-- - Api: the custom resource (api/v1alpha1/certificatejob_types.go) as records and data types, and
--   the fields of the Kubernetes objects that the code reads or writes. A pointer is an option; a
--   string type with constants is a data type with one more constructor for any other string.
-- - JobSecurity: internal/jobsecurity/security.go. Policy states what the validation accepts,
--   Hardening what the defaults establish, Labels the reserved labels.
-- - Webhook: internal/webhook/v1alpha1/certificatejob_webhook.go, Default and the validators, with
--   what they admit in Admission. Templates has the checks that the webhook and the controller share.
-- - Workflow: the parts of internal/controller/certificatejob_controller.go that are about nodes and
--   edges: Nodes (nodeStateMap, ensureWorkflowNodeStates, initializeNodeStates, isTerminalPhase),
--   Phase (deriveWorkflowPhase), Runnable (runnableNodes), Failure (applyFailurePolicy), Descendants
--   (descendantNodes), Graph (buildWorkflowGraph), Acyclic (validateAcyclic). Ready is about an
--   acyclic workflow that waits, OwnNodes and InOrder about the names and the order of the nodes.
-- - Jobs: the same file, the Job that is created for a node: Name (buildJobName, sanitizeDNS1123,
--   shortHash) with Label about the names as DNS labels, Merge (mergeMaps,
--   mergeMapsWithBasePrecedence), Secret (injectCertificateSecret).
-- - Run: the same file, reconcileCertificateRun, with observeWorkflowNodeJobs in Observe and
--   scheduleRunnableNodes in Schedule. Slots, Launched, Ordered and Names follow what the scheduling
--   does, Safety and Progress the whole pass, Removed a pass that misses a Job, and Exceeded one
--   over Jobs without an active pod.
-- - Certificates: the same file, reconcileObservedCertificate, applyInputHashTransition and
--   buildInputHash. Kept, Nodes and Reports follow the state and the progress through all branches.
-- - Status: the same file, the observed states (observedStateIndex, ensureObservedCertificateState,
--   filterObservedStates) and the conditions (applyCertificateJobConditions,
--   applyInvalidSpecConditions); meta.SetStatusCondition is a parameter.
-- - Reconcile: the same file, Reconcile, reconcileCertificateJob and its loop over the certificates,
--   buildWorkflowContext, buildWorkflowSpecHash, listMatchingCertificates with its helpers,
--   equalCertificateJobStatus. Entries, Rounds, Total and Hidden follow the observed states from one
--   round to a whole reconcile, Tally, Counted and Truthful the progress up to the conditions; OwnNodes
--   follows the nodes, and History is about sequences of edits and reconciles.
-- - Triggers: the same file, the two functions that map an event of a Certificate or of a Secret to
--   requests, and the index by secret name; Enqueued and Secrets are about the one and the other,
--   Reached about an event of a Secret up to the reconcile.
-- - Namespaces: cmd/main.go, watchNamespaceCacheConfig and parseWatchNamespaces, over Go's TrimSpace
--   and Split on byte strings; the environment and the zero configuration are parameters.
-- - Client: what the controller calls and does not implement: the API server behind
--   controller-runtime's client, SetControllerReference, the clock, json.Marshal and SHA-256. It is a
--   record that the definitions take as a parameter. A call passes a world on, which may change in
--   any way; the session beside it lists the Jobs created and the events recorded.
-- - Prelude: shared names, strings, maps, sorting and lists; Tests: concrete inputs.
--
-- How the code is rendered. A mutated object is passed on as a new value, on the error paths too,
-- so what an early return leaves behind is in the result. An error is a value; `none` of an
-- `Option` result is a panic on a nil pointer where a comment says so. A map is an association list
-- whose order stands for the order in which a `range` visits it: a statement for every list holds
-- for every order. A string is its list of bytes, and names are ASCII, so a byte is a rune. An
-- `int32` or `int` that is only compared, counted up by one for each node, or subtracted from a
-- parallelism cannot overflow with fewer than 2^31 nodes, and is an integer without bounds.
--
-- Fuel. The loop of validateAcyclic runs on one unit for each key of the dependency map, that of
-- descendantNodes on one for each root and each entry of the reverse map; that both are enough is
-- proved. All other loops are structural recursions.
--
-- Not modelled: the rest of cmd/main.go and of SetupWithManager, which wire the manager; the
-- registration of the scheme; generated deep copies, for which a record is a value already; charts,
-- manifests and tests. Logging is left out.
pub mod Prelude
pub mod Api
pub mod JobSecurity
pub mod Templates
pub mod Webhook
pub mod Workflow
pub mod Jobs
pub mod Client
pub mod Run
pub mod Certificates
pub mod Tests
pub mod Status
pub mod Reconcile
pub mod Triggers
pub mod Namespaces
