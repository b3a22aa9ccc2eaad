-- ===== src/StressTest/Run.antt =====
-- The tasks of `run_stress_test` in crates/stress-test/src/main.rs, which run at the same time: the
-- barrier that they and the main function meet at once they are set up, and the semaphore that limits
-- how many are created and started at a time.
pub mod Edges
pub mod Totals
pub mod Fair
pub mod Hang
pub mod Progress
use containerd_wasm.Base.{
  ℕ, zero, suc, ◌+◌, ◌==◌, Option, none, some, List, [], ◌∷◌, Bool, true, false, ◌&&◌, ◌||◌,
  if◌then◌else◌, length, get_elem?, set,
}

-- Where the future of a task is.
pub data Phase : Type 0 where
  -- In `shim.task`.
  setting_up : Phase
  -- `shim.task` has failed, and the task has ended.
  not_set_up : Phase
  -- In `barrier.wait`.
  at_barrier : Phase
  -- In `semaphore.acquire_owned`.
  ready : Phase
  -- In `task.create` or `task.start`, with a permit.
  creating : Phase
  -- In `task.wait` or `task.delete`.
  waiting : Phase
  -- It has ended, with success or not.
  ended : Bool → Phase

pub record Run : Type 0 where
  pub phases : List Phase
  -- The permits of the semaphore that nobody holds.
  pub free : ℕ
  -- The main function waits at the barrier.
  pub main : Bool
  -- The barrier has let everybody through.
  pub opened : Bool

abbrev pub total : (Phase → ℕ) → List Phase → ℕ
total w [] = 0
total w (p ∷ ps) = w p + total w ps

abbrev pub arrives : Phase → ℕ
arrives at_barrier = 1
arrives p = 0

abbrev pub repeat : {A : Type 0} → ℕ → A → List A
repeat zero a = []
repeat (suc n) a = a ∷ repeat n a

abbrev pub permits : ℕ → ℕ → ℕ
permits parallel count = if parallel == 0 then count else parallel

unfoldable pub start : ℕ → ℕ → Run
start parallel count = record {
  phases = repeat count setting_up;
  free = permits parallel count;
  main = false;
  opened = false;
}

-- The barrier is for the tasks and the main function, and opens when the last of them arrives.
unfoldable pub meet : Run → Run
meet s = record s { opened = s.opened || (s.main && (total arrives s.phases == length s.phases)) }

-- What a future does when it goes on; a Boolean tells whether its calls have succeeded.
pub data Turn : Type 0 where
  sets_up : Bool → Turn
  passes acquires : Turn
  starts : Bool → Turn
  finishes : Bool → Turn

pub data Move : Type 0 where
  main_arrives : Move
  task : ℕ → Turn → Move

abbrev pub put : ℕ → Phase → Run → Run
put i p s = record s { phases = set s.phases i p }

abbrev acquire : ℕ → ℕ → Run → Option Run
acquire i zero s = none
acquire i (suc n) s = some (record (put i creating s) { free = n })

-- The permit is dropped, by its name or with the future.
abbrev pub release : ℕ → Phase → Run → Run
release i p s = record (put i p s) { free = suc s.free }

unfoldable pub turn : ℕ → Option Phase → Turn → Run → Option Run
unfolding meet
turn i (some setting_up) (sets_up true) s = some (meet (put i at_barrier s))
turn i (some setting_up) (sets_up false) s = some (put i not_set_up s)
turn i (some at_barrier) passes s = if s.opened then some (put i ready s) else none
turn i (some ready) acquires s = acquire i s.free s
turn i (some creating) (starts true) s = some (release i waiting s)
turn i (some creating) (starts false) s = some (release i (ended false) s)
turn i (some waiting) (finishes b) s = some (put i (ended b) s)
turn i p t s = none

-- The run after a move; nothing if the future cannot make it.
unfoldable pub step : Move → Run → Option Run
unfolding turn meet
step main_arrives s = if s.main then none else some (meet (record s { main = true }))
step (task i t) s = turn i (get_elem? s.phases i) t s

abbrev and_then : (Run → Option Run) → Option Run → Option Run
and_then f none = none
and_then f (some s) = f s

unfoldable pub moves : List Move → Run → Option Run
unfolding step
moves [] s = some s
moves (m ∷ ms) s = and_then (moves ms) (step m s)
