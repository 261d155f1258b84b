-- ===== src/Run/Observe.antt =====
-- `observeWorkflowNodeJobs`, `isJobComplete` and `isJobFailed`.
pub mod Effect
use certificate_job_operator.Prelude.{
  ℕ, zero, suc, Bool, true, false, ◌&&◌, Option, none, some, List, [], ◌∷◌, Str, str, ◌==◌, any,
  is_some, if◌then◌else◌,
}
use certificate_job_operator.Prelude.Int.{ℤ, pos, ltb_ℤ}
use certificate_job_operator.Api.{
  Time, Job, JobCondition, WorkflowNodeState, running, succeeded, failed,
}
use certificate_job_operator.Client.{
  Client, Session, ApiError, not_found, api_error, Response, ok, failed_with,
}
use certificate_job_operator.Workflow.Nodes.{is_pending}

abbrev has_condition : Str → JobCondition → Bool
has_condition type cond = cond.type == type && cond.status == str "True"

unfoldable pub is_job_complete : Job → Bool
unfolding ◌==◌
is_job_complete job = any (has_condition (str "Complete")) job.status.conditions

unfoldable pub is_job_failed : Job → Bool
unfolding ◌==◌
is_job_failed job = any (has_condition (str "Failed")) job.status.conditions

-- What one round of the loop does: the node, and whether `activeCount` and `failedNodes` grow.
pub record Verdict : Type 0 where
  pub node : WorkflowNodeState
  pub counts : Bool
  pub fails : Bool

abbrev pub end_node : WorkflowNodeState → Str → Time → WorkflowNodeState
end_node n message t = record n { phase = failed; message = message; completed_at = some t }

unfoldable pub judge : Time → WorkflowNodeState → Job → Verdict
unfolding is_job_complete is_job_failed
judge t n job =
    if is_job_complete job
    then record {
      node = record n { phase = succeeded; message = []; completed_at = some t };
      counts = false;
      fails = false;
    }
    else if is_job_failed job
    then record { node = end_node n (str "job failed") t; counts = false; fails = true }
    else if ltb_ℤ (pos 0) job.status.active
    then record { node = record n { phase = running }; counts = true; fails = false }
    else if is_pending n.phase
    then record { node = record n { phase = running }; counts = true; fails = false }
    else record { node = n; counts = false; fails = false }

abbrev pub disappeared : Time → WorkflowNodeState → Verdict
disappeared t n = record {
  node = end_node n (str "job disappeared") t;
  counts = false;
  fails = true;
}

module _ (c : Client) where
  open c use {World, get_job}

  pub record Observation : Type 0 where
    pub nodes : List WorkflowNodeState
    pub active : ℕ
    pub failed_nodes : List Str
    pub error : Option ApiError
    pub session : Session World

  -- The results of the rounds after a node, with the node's own.
  abbrev pub note : Verdict → Observation → Observation
  note v o = record o {
    nodes = v.node ∷ o.nodes;
    active = if v.counts then suc o.active else o.active;
    failed_nodes = if v.fails then v.node.name ∷ o.failed_nodes else o.failed_nodes;
  }

  -- The loop. An error ends it, with the nodes before it already written.
  unfoldable pub observe_nodes : Str → Time → List WorkflowNodeState → Session World → Observation
  unfolding judge ◌==◌
  observe_nodes namespace t [] s = record {
    nodes = [];
    active = 0;
    failed_nodes = [];
    error = none;
    session = s;
  }
  observe_nodes namespace t (n ∷ ns) s =
      let unchanged : Verdict = record { node = n; counts = false; fails = false } in
      let s' = record s { world = (get_job s.world namespace n.job_name).0 } in
      let skipped = note unchanged (observe_nodes namespace t ns s) in
      if n.job_name == [] then skipped else elim ((get_job s.world namespace n.job_name).1) [
        | failed_with not_found ↦ note (disappeared t n) (observe_nodes namespace t ns s')
        | failed_with (api_error m) ↦ record {
          nodes = n ∷ ns;
          active = 0;
          failed_nodes = [];
          error = some (api_error m);
          session = s';
        }
        | ok job ↦ note (judge t n job) (observe_nodes namespace t ns s')
      ]

  -- With an error the count is 0 and the set nil.
  unfoldable pub observe_workflow_node_jobs :
      Str → Time → List WorkflowNodeState → Session World → Observation
  unfolding observe_nodes
  observe_workflow_node_jobs namespace t nodes s =
      let o = observe_nodes namespace t nodes s in
      if is_some o.error then record o { active = 0; failed_nodes = [] } else o
