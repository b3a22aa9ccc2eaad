-- ===== src/StressTest.antt =====
-- crates/stress-test/src: how main.rs counts the tasks of a run, and utils.rs and mocks/task.rs on what
-- is done once for a task.
pub mod Verdict
pub mod Once
pub mod Client
pub mod Run
pub mod Tasks
pub mod Mocks
pub mod Unmounts
pub mod Lives
use containerd_wasm.Base.{
  ℕ, zero, suc, ◌+◌, ◌-◌, ◌==◌, Text, codes, ◌++◌, Option, none, some, List, [], ◌∷◌, Bool, true,
  false, if◌then◌else◌, Outcome, ok, err, panic, Exec, ◌>>=◌, ◌>>◌, pure, attempt, print_nat,
  is_empty, head?, ◌^◌, ◌%◌,
}

-- The counters of `run_stress_test`, and whether a task has set `start`.
pub record Counts : Type 0 where
  pub incomplete : ℕ
  pub success : ℕ
  pub failed : ℕ

-- The branches of its `select!`. A result of a task tells whether it succeeded; the stream of results
-- has one for each task and then ends.
pub data Event : Type 0 where
  setup_done timeout cancelled : Event
  result : Bool → Event

unfoldable pub initial : ℕ → Counts
initial count = record { incomplete = count; success = 0; failed = 0 }

abbrev count_result : Bool → ℕ → Counts → Counts
count_result true n c = record { incomplete = n; success = suc c.success; failed = c.failed }
count_result false n c = record { incomplete = n; success = c.success; failed = suc c.failed }

-- One round of the loop: the counters, and whether the loop goes on. The branch of the watchdog is off
-- until the setup is done.
unfoldable pub round : Bool → Event → Counts → Counts × Bool
round done setup_done c = (c, true)
round done timeout c = (c, if done then false else true)
round done cancelled c = (c, false)
round done (result b) c = elim c.incomplete [
  | zero ↦ (c, false)
  | suc n ↦ (count_result b n c, true)
]

abbrev is_setup_done : Event → Bool
is_setup_done setup_done = true
is_setup_done e = false

-- The counters when the loop ends; nothing if it still runs after these events.
unfoldable pub loop : Bool → List Event → Counts → Option Counts
unfolding round
loop done [] c = none
loop done (e ∷ events) c =
    let (c', goes_on) = round done e c in
    let rest = loop (if is_setup_done e then true else done) events c' in
    if goes_on then rest else some c'

-- What follows the loop. A task that has succeeded has set `start`.
unfoldable pub verdict : ℕ → Counts → Outcome Text (Unit {0})
verdict count c =
    if c.success == count
    then elim c.success [ zero ↦ panic | suc n ↦ ok tt ]
    else err (codes "Some tasks did not succeed")

-- `RunOnce::try_run`, where the mutex is held for the whole of `fut`.
abbrev mark : {W : Type 0} → W → Outcome Text (Unit {0}) → (W × Bool) × Outcome Text (Unit {0})
mark w (ok u) = ((w, true), ok u)
mark w (err e) = ((w, false), err e)
mark w panic = ((w, false), panic)

unfoldable pub try_run : {W : Type 0} → Exec W Text (Unit {0}) → Exec (W × Bool) Text (Unit {0})
try_run fut (w, true) = ((w, true), ok tt)
try_run fut (w, false) = let (w', r) = fut w in mark w' r

pub record TaskState (W : Type 0) : Type 0 where
  pub world : W
  pub deleted : Bool
  pub unmounted : Bool

-- `res1.and(res2)`.
abbrev and : Outcome Text (Unit {0}) → Outcome Text (Unit {0}) → Outcome Text (Unit {0})
and (ok u) r = r
and (err e) r = err e
and panic r = panic

module _ {W : Type 0} (delete_request unmount_recursive : Exec W Text (Unit {0})) where
  abbrev then_unmount :
      W → Bool → Bool → Outcome Text (Unit {0}) → TaskState W × Outcome Text (Unit {0})
  then_unmount w deleted unmounted panic =
      (record { world = w; deleted = deleted; unmounted = unmounted }, panic)
  then_unmount w deleted unmounted r =
      let ((w', unmounted'), r') = try_run unmount_recursive (w, unmounted) in
      (record { world = w'; deleted = deleted; unmounted = unmounted' }, and r r')

  -- `delete` of a task of the mocks.
  unfoldable pub delete : Exec (TaskState W) Text (Unit {0})
  unfolding try_run
  delete t =
      let ((w, deleted), r) = try_run delete_request (t.world, t.deleted) in
      then_unmount w deleted t.unmounted r

-- `make_task_id`: the counter wraps at the size of a word.
unfoldable pub make_task_id : ℕ → ℕ → ℕ × Text
make_task_id pid counter = (
  (counter + 1) % 2 ^ 64,
  codes "shim-stress-test-" ++ (print_nat pid ++ (codes "-task-" ++ print_nat counter)),
)
