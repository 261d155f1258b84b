-- ===== src/Run/Schedule.antt =====
-- `scheduleRunnableNodes`: the runnable nodes in order of their names, as far as the slots go.
use certificate_job_operator.Prelude.{
  ℕ, zero, suc, Option, none, some, List, [], ◌∷◌, ◌++◌, Str, Map, sort_strings,
}
use certificate_job_operator.Api.{
  Time, Job, Certificate, CertificateJob, WorkflowNodeState, running,
}
use certificate_job_operator.Client.{
  Client, Session, ApiError, not_found, api_error, ok, failed_with,
}
use certificate_job_operator.Workflow.Nodes.{update_node}
use certificate_job_operator.Workflow.Runnable.{runnable_nodes}
use certificate_job_operator.Jobs.{new_job}
use certificate_job_operator.Jobs.Name.{build_job_name}

abbrev pub start_node : Str → Time → WorkflowNodeState → WorkflowNodeState
start_node job_name t n = record n {
  job_name = job_name;
  phase = running;
  message = [];
  started_at = some t;
}

module _ (c : Client) (cjob : CertificateJob) (cert : Certificate) (run_id : Str) where
  open c use {World, get_job, create_job, set_controller_reference, hash_string}

  unfoldable pub job_name_of : Str → Str
  unfolding build_job_name
  job_name_of node = build_job_name hash_string cjob.name cert.name node run_id

  abbrev pub job_of : Str → Job
  job_of node = new_job cjob cert node run_id (job_name_of node)

  pub record Scheduled : Type 0 where
    pub nodes : List WorkflowNodeState
    pub session : Session World
    pub scheduled : ℕ
    pub error : Option ApiError

  -- `r.Create` and the event that follows it.
  unfoldable pub create_with : Job → Session World → Session World × Option ApiError
  create_with job s =
      let s' = record s { world = (create_job s.world job).0 } in
      elim ((create_job s.world job).1) [
        | some e ↦ (s', some e)
        | none ↦ (
          record s' {
            created = s'.created ++ job ∷ [];
            events = s'.events ++ (job.name, cert.namespace, cert.name) ∷ [];
          },
          none,
        )
      ]

  -- The block under `if apierrors.IsNotFound(err)`.
  unfoldable pub create_missing : Str → Session World → Session World × Option ApiError
  unfolding create_with new_job job_name_of
  create_missing node s = elim (set_controller_reference cjob (job_of node)) [
    | failed_with e ↦ (s, some e)
    | ok job ↦ create_with job s
  ]

  -- One round of the loop, up to the assignments to the node.
  unfoldable pub launch : Str → Session World → Session World × Option ApiError
  unfolding create_missing
  launch node s =
      let s' = record s { world = (get_job s.world cert.namespace (job_name_of node)).0 } in
      elim ((get_job s.world cert.namespace (job_name_of node)).1) [
        | ok _ ↦ (s', none)
        | failed_with not_found ↦ create_missing node s'
        | failed_with (api_error m) ↦ (s', some (api_error m))
      ]

  abbrev pub count_one : Scheduled → Scheduled
  count_one sch = record sch { scheduled = suc sch.scheduled }

  unfoldable pub schedule_from :
      List Str → Time → ℕ → List WorkflowNodeState → Session World → Scheduled
  unfolding launch update_node
  schedule_from [] t slots nodes s = record {
    nodes = nodes;
    session = s;
    scheduled = 0;
    error = none;
  }
  schedule_from (name ∷ names) t zero nodes s = record {
    nodes = nodes;
    session = s;
    scheduled = 0;
    error = none;
  }
  schedule_from (name ∷ names) t (suc slots) nodes s = elim ((launch name s).1) [
    | some e ↦ record { nodes = nodes; session = (launch name s).0; scheduled = 0; error = some e }
    | none ↦ count_one (
        schedule_from names t slots (update_node name (start_node (job_name_of name) t) nodes)
          (launch name s).0)
  ]

  -- `availableSlots` is positive where it is called. `none` is a panic in `runnableNodes`.
  unfoldable pub schedule_runnable_nodes :
      Map (List Str) → Time → ℕ → List WorkflowNodeState → Session World → Option Scheduled
  unfolding schedule_from runnable_nodes sort_strings
  schedule_runnable_nodes deps t slots nodes s =
      elim (runnable_nodes cjob.spec.failure_policy nodes deps) [
        | none ↦ none
        | some names ↦ some (schedule_from (sort_strings names) t slots nodes s)
      ]
