-- ===== src/Shim/InstanceData/Lifecycle.antt =====
-- What a task can go through: the invariant of `InstanceData`, and what an end means.
use containerd_wasm.Base.{
  ℕ, ◌≡◌, ◌≢◌, refl, ◌⊎◌, true, Option, none, Outcome, arith, is_some, List, [], ◌∷◌, ◌∙◌,
}
use containerd_wasm.Sandbox.Instance
use containerd_wasm.Shim.TaskState.{TaskState, created, starting, started, exited, deleting}
use containerd_wasm.Shim.InstanceData.{InstanceData, start, kill, delete, wait, wait_timeout}

-- Between two methods a task is never `starting`, has no process id before it is started, and has
-- one while it is started.
pub record IsValid {S : Type 0} (d : InstanceData S) : Type 0 where
  pub not_starting : d.state ≢ starting
  pub created_without_pid : d.state ≡ created → d.pid ≡ none
  pub started_with_pid : d.state ≡ started → is_some d.pid ≡ true

-- The methods that change the data, as calls.
pub data Call : Type 0 where
  starts deletes waits : Call
  kills : ℕ → Call
  waits_for : Option ℕ → Call

abbrev pub HasEnded : TaskState → Type 0
HasEnded s = (s ≡ exited) ⊎ (s ≡ deleting)

module _ {W S : Type 0} (host : Instance.Instance W S) where
  -- What a call leaves behind, whether it returns, fails or panics.
  unfoldable pub after : Call → W × InstanceData S → W × InstanceData S
  unfolding start kill delete wait wait_timeout
  after starts o = (start host o).0
  after deletes o = (delete host o).0
  after waits o = (wait host o).0
  after (kills signal) o = (kill host signal o).0
  after (waits_for t) o = (wait_timeout host t o).0

  unfoldable pub after_all : List Call → W × InstanceData S → W × InstanceData S
  after_all [] o = o
  after_all (c ∷ cs) o = after_all cs (after c o)

  -- No call breaks the invariant. This is where the source says that the transitions after the
  -- instance's own `start` and `delete` always succeed under the lock. A panic inside the
  -- instance's `start` is the one way to be left `starting`, so it is excluded.
  after-IsValid :
      (c : Call) (w : W) (d : InstanceData S)
      → (host.start d.instance w).1 ≢ Outcome.panic
      → IsValid d
      → IsValid (after c (w, d)).1
  unfolding after
  after-IsValid starts w d np v = ground arith
  after-IsValid deletes w d np v = ground arith
  after-IsValid waits w d np v = ground arith
  after-IsValid (kills signal) w d np v = ground arith
  after-IsValid (waits_for t) w d np v = ground arith

  -- A call on a task that has ended leaves it ended, with its instance and process id.
  after-HasEnded :
      (c : Call) (w : W) (d : InstanceData S)
      → HasEnded d.state
      → HasEnded (after c (w, d)).1.state × ((after c (w, d)).1.pid ≡ d.pid)
  unfolding after
  after-HasEnded starts w d e = ground arith
  after-HasEnded deletes w d e = ground arith
  after-HasEnded waits w d e = ground arith
  after-HasEnded (kills signal) w d e = ground arith
  after-HasEnded (waits_for t) w d e = ground arith

  -- Once a task has ended, whatever calls follow, it is never started again: it stays exited or
  -- being deleted, and keeps its process id.
  pub after_all-HasEnded :
      (cs : List Call) (w : W) (d : InstanceData S)
      → HasEnded d.state
      → HasEnded (after_all cs (w, d)).1.state × ((after_all cs (w, d)).1.pid ≡ d.pid)
  unfolding after_all
  after_all-HasEnded [] w d e = (e, refl)
  after_all-HasEnded (c ∷ cs) w d e =
      let (w', d') = after c (w, d) in
      let (e', p) = after-HasEnded c w d e in
      let (e'', q) = after_all-HasEnded cs w' d' e' in (e'', q ∙ p)

  -- No calls break the invariant, if the instance's `start` never panics. The transitions that the
  -- source makes behind the instance's own `start` and `delete` always succeed.
  pub after_all-IsValid :
      (cs : List Call) (w : W) (d : InstanceData S)
      → ((i : S) (v : W) → (host.start i v).1 ≢ Outcome.panic)
      → IsValid d
      → IsValid (after_all cs (w, d)).1
  unfolding after_all
  after_all-IsValid [] w d np v = v
  after_all-IsValid (c ∷ cs) w d np v =
      let (w', d') = after c (w, d) in
      after_all-IsValid cs w' d' np (after-IsValid c w d (np d.instance w) v)
