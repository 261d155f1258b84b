-- ===== src/Workflow/Phase.antt =====
-- `deriveWorkflowPhase`: the phase of a run from the phases of its nodes.
use certificate_job_operator.Prelude.{
  Bool, true, false, List, [], ◌∷◌, map, ◌≡◌, ◌≢◌, ◌↔◌, ◌⊎◌, inl, ⊎_elim, All, Memᴰ, Memᴰ-cons,
  arith, if◌then◌else◌,
}
use mathlib.Core.List.Memᴰ
use certificate_job_operator.Api.{
  ExecutionPhase, pending, running, succeeded, failed, skipped, other_phase, WorkflowNodeState,
}

record Flags : Type 0 where
  has_running : Bool
  has_pending : Bool
  has_failed : Bool
  all_terminal : Bool

-- The `switch` in the loop.
see : ExecutionPhase → Flags → Flags
see failed f = record f { has_failed = true }
see running f = record f { has_running = true; all_terminal = false }
see pending f = record f { has_pending = true; all_terminal = false }
see succeeded f = f
see skipped f = f
see (other_phase _) f = record f { all_terminal = false }

see_all : List WorkflowNodeState → Flags → Flags
see_all [] f = f
see_all (n ∷ ns) f = see_all ns (see n.phase f)

conclude : Flags → ExecutionPhase
conclude f =
    if f.has_failed
    then failed
    else if f.has_running
    then running
    else if f.has_pending
    then pending
    else if f.all_terminal
    then succeeded
    else pending

abbrev no_flags : Flags
no_flags = record {
  has_running = false;
  has_pending = false;
  has_failed = false;
  all_terminal = true;
}

unfoldable pub derive_workflow_phase : List WorkflowNodeState → ExecutionPhase
unfolding conclude see_all see
derive_workflow_phase nodes = conclude (see_all nodes no_flags)

-- Some node is in the phase.
abbrev pub SomeNode : ExecutionPhase → List WorkflowNodeState → Type 0
SomeNode p nodes = Memᴰ p (map (λ n. n.phase) nodes)

abbrev pub IsDone : WorkflowNodeState → Type 0
IsDone n = (n.phase ≡ succeeded) ⊎ (n.phase ≡ skipped)

-- A phase that is neither failed nor one of the two that count as done.
abbrev IsOpen : WorkflowNodeState → Type 0
IsOpen n = (n.phase ≢ succeeded) × (n.phase ≢ skipped) × (n.phase ≢ failed)

see-failed :
    (p : ExecutionPhase) (f : Flags)
    → ((see p f).has_failed ≡ true) ↔ ((f.has_failed ≡ true) ⊎ (failed ≡ p))
unfolding see
see-failed p f = ground arith

see-running :
    (p : ExecutionPhase) (f : Flags)
    → ((see p f).has_running ≡ true) ↔ ((f.has_running ≡ true) ⊎ (running ≡ p))
unfolding see
see-running p f = ground arith

see-pending :
    (p : ExecutionPhase) (f : Flags)
    → ((see p f).has_pending ≡ true) ↔ ((f.has_pending ≡ true) ⊎ (pending ≡ p))
unfolding see
see-pending p f = ground arith

see_all-failed :
    (ns : List WorkflowNodeState) (f : Flags)
    → ((see_all ns f).has_failed ≡ true) ↔ ((f.has_failed ≡ true) ⊎ SomeNode failed ns)
unfolding see_all
see_all-failed [] f = (inl, ⊎_elim (λ h. h) (λ m. absurd (Memᴰ.not-nil m)))
see_all-failed (n ∷ ns) f = ground (
  arith,
  see-failed n.phase f,
  see_all-failed ns (see n.phase f),
  Memᴰ-cons failed n.phase (map (λ (m : WorkflowNodeState). m.phase) ns),
)

see_all-running :
    (ns : List WorkflowNodeState) (f : Flags)
    → ((see_all ns f).has_running ≡ true) ↔ ((f.has_running ≡ true) ⊎ SomeNode running ns)
unfolding see_all
see_all-running [] f = (inl, ⊎_elim (λ h. h) (λ m. absurd (Memᴰ.not-nil m)))
see_all-running (n ∷ ns) f = ground (
  arith,
  see-running n.phase f,
  see_all-running ns (see n.phase f),
  Memᴰ-cons running n.phase (map (λ (m : WorkflowNodeState). m.phase) ns),
)

see_all-pending :
    (ns : List WorkflowNodeState) (f : Flags)
    → ((see_all ns f).has_pending ≡ true) ↔ ((f.has_pending ≡ true) ⊎ SomeNode pending ns)
unfolding see_all
see_all-pending [] f = (inl, ⊎_elim (λ h. h) (λ m. absurd (Memᴰ.not-nil m)))
see_all-pending (n ∷ ns) f = ground (
  arith,
  see-pending n.phase f,
  see_all-pending ns (see n.phase f),
  Memᴰ-cons pending n.phase (map (λ (m : WorkflowNodeState). m.phase) ns),
)

-- With no failed node, `allTerminal` says that every node is done.
see_all-terminal :
    (ns : List WorkflowNodeState) (f : Flags)
    → (¬ SomeNode failed ns)
    → ((see_all ns f).all_terminal ≡ true) ↔ ((f.all_terminal ≡ true) × All IsDone ns)
unfolding see_all see
see_all-terminal [] f h = ((λ t. (t, tt)), λ t. t.0)
see_all-terminal (n ∷ ns) f h = ground (
  arith,
  see_all-terminal ns (see n.phase f) (λ m. h (Memᴰ.tail m)),
  Memᴰ-cons failed n.phase (map (λ (m : WorkflowNodeState). m.phase) ns),
)

no_node-failed-done :
    (p : ExecutionPhase) (ns : List WorkflowNodeState)
    → All IsDone ns
    → SomeNode p ns
    → (p ≡ succeeded) ⊎ (p ≡ skipped)
no_node-failed-done p [] h m = absurd (Memᴰ.not-nil m)
no_node-failed-done p (n ∷ ns) h m =
    ⊎_elim (λ e. rw e h.0) (λ r. no_node-failed-done p ns h.1 r) (Memᴰ.cases_cons m)

-- The precedence by which a run's phase follows from its nodes, exactly: failed if and only if some
-- node failed; running if and only if none failed and some node runs; succeeded if and only if
-- every node succeeded or was skipped; and pending in every other case, so a run is never skipped.
pub derive_workflow_phase_iff :
    (nodes : List WorkflowNodeState)
    → ((derive_workflow_phase nodes ≡ failed) ↔ SomeNode failed nodes)
      × ((derive_workflow_phase nodes ≡ running)
          ↔ ((¬ SomeNode failed nodes) × SomeNode running nodes))
      × ((derive_workflow_phase nodes ≡ succeeded) ↔ All IsDone nodes)
      × ((derive_workflow_phase nodes ≡ pending)
          ↔ ((¬ SomeNode failed nodes) × (¬ SomeNode running nodes) × (¬ All IsDone nodes)))
unfolding derive_workflow_phase
derive_workflow_phase_iff nodes = ground (
  arith,
  see_all-failed nodes no_flags,
  see_all-running nodes no_flags,
  see_all-pending nodes no_flags,
  see_all-terminal nodes no_flags,
  no_node-failed-done failed nodes,
  no_node-failed-done running nodes,
  no_node-failed-done pending nodes,
)

conclude-cases :
    (f : Flags)
    → (conclude f ≡ failed)
      ⊎ ((conclude f ≡ running) ⊎ ((conclude f ≡ succeeded) ⊎ (conclude f ≡ pending)))
unfolding conclude
conclude-cases f = ground arith

-- The phases that a run can have.
pub derive_workflow_phase-cases :
    (nodes : List WorkflowNodeState)
    → (derive_workflow_phase nodes ≡ failed)
      ⊎ ((derive_workflow_phase nodes ≡ running)
          ⊎ ((derive_workflow_phase nodes ≡ succeeded) ⊎ (derive_workflow_phase nodes ≡ pending)))
unfolding derive_workflow_phase
derive_workflow_phase-cases nodes = conclude-cases (see_all nodes no_flags)
