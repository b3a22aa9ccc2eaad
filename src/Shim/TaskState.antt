-- ===== src/Shim/TaskState.antt =====
-- crates/containerd-shim-wasm/src/sandbox/shim/task_state.rs. A method on `&mut self` returns the
-- state that it leaves behind beside its result.
use containerd_wasm.Base.{
  ◌↔◌, ◌≢◌, subst, ap, Text, codes, ◌++◌, ◌≡◌, ok, err, Outcome, arith, Exec,
}
use containerd_wasm.Sandbox.Error.{Error, failed_precondition}

pub data TaskState : Type 0 where
  created starting started exited deleting : TaskState

-- `#[derive(Debug)]`.
debug : TaskState → Text
debug created = codes "Created"
debug starting = codes "Starting"
debug started = codes "Started"
debug exited = codes "Exited"
debug deleting = codes "Deleting"

-- The second text is the `Debug` form of the target.
unfoldable pub state_transition_error : {A : Type 0} → TaskState → Text → Outcome Error A
unfolding debug
state_transition_error from to = err (
    failed_precondition
      (codes "invalid state transition: " ++ (debug from ++ (codes " => " ++ to))))

abbrev TaskExec : Type 0
TaskExec = Exec TaskState Error (Unit {0})

-- `*self = match self { ... }?`.
abbrev become : TaskState → TaskExec
become t s = (t, ok tt)

abbrev refuse : Text → TaskExec
unfolding state_transition_error
refuse to s = (s, state_transition_error s to)

unfoldable pub start : TaskExec
unfolding state_transition_error
start created = become starting created
start s = refuse (codes "Starting") s

-- The target of `kill` is a string, so its `Debug` form has quotation marks.
unfoldable pub kill : TaskExec
unfolding state_transition_error
kill started = become started started
kill s = refuse (codes "\"Killing\"") s

unfoldable pub delete : TaskExec
unfolding state_transition_error
delete created = become deleting created
delete exited = become deleting exited
delete s = refuse (codes "Deleting") s

unfoldable pub mark_started : TaskExec
unfolding state_transition_error
mark_started starting = become started starting
mark_started s = refuse (codes "Started") s

unfoldable pub stop : TaskExec
unfolding state_transition_error
stop started = become exited started
stop starting = become exited starting
stop deleting = become exited deleting
stop s = refuse (codes "Exited") s

pub data Event : Type 0 where
  starts kills deletes is_started stops : Event

unfoldable pub apply : Event → TaskExec
unfolding start kill delete mark_started stop
apply starts = start
apply kills = kill
apply deletes = delete
apply is_started = mark_started
apply stops = stop

-- The diagram of the life of a task.
pub data Edge : TaskState → Event → TaskState → Type 0 where
  start_created : Edge created starts starting
  kill_started : Edge started kills started
  delete_created : Edge created deletes deleting
  delete_exited : Edge exited deletes deleting
  started_starting : Edge starting is_started started
  stop_started : Edge started stops exited
  stop_starting : Edge starting stops exited
  stop_deleting : Edge deleting stops exited

ruleset edges = (
  start_created, kill_started, delete_created, delete_exited, started_starting, stop_started,
  stop_starting, stop_deleting,
)

apply_complete : {s t : TaskState} {e : Event} → Edge s e t → apply e s ≡ (t, ok tt)
unfolding apply
apply_complete start_created = ground arith
apply_complete kill_started = ground arith
apply_complete delete_created = ground arith
apply_complete delete_exited = ground arith
apply_complete started_starting = ground arith
apply_complete stop_started = ground arith
apply_complete stop_starting = ground arith
apply_complete stop_deleting = ground arith

apply-Edge : (s : TaskState) (e : Event) → (apply e s).1 ≡ ok tt → Edge s e (apply e s).0
unfolding apply
apply-Edge s e h = grind (arith, edges)

-- A transition succeeds exactly along an edge of the diagram, and then leads to the edge's target.
-- A transition that does not succeed leaves the state as it was, with a FailedPrecondition error.
pub apply_diagram :
    (s t : TaskState) (e : Event)
    → ((apply e s ≡ (t, ok tt)) ↔ Edge s e t)
      × ((apply e s).1 ≢ ok tt
          → ((apply e s).0 ≡ s)
            × ((text : Text) × ((apply e s).1 ≡ err (failed_precondition text))))
apply_diagram s t e = (
  (
    λ h. subst (λ u. Edge s e u) (ap (λ p. p.0) h) (apply-Edge s e (ap (λ p. p.1) h)),
    apply_complete,
  ),
  λ h. unfold apply in ground arith,
)
