-- ===== src/Shim/InstanceData.antt =====
-- crates/containerd-shim-wasm/src/sandbox/shim/instance_data.rs: an instance behind the state
-- machine of its task. A method takes the write lock for its whole body, so it is one action on the
-- outside world and the data. A panic under the lock poisons it, and the next `write().unwrap()` panics.
pub mod Lifecycle
use containerd_wasm.Base.{
  ℕ, Text, Bool, true, false, Option, none, some, Outcome, ok, err, panic, Exec, ◌>>=◌, ◌>>◌, pure,
  lift, gets, modify, attempt, ignore,
}
use containerd_wasm.Sandbox.Error.{Error}
use containerd_wasm.Sandbox.Config.{InstanceConfig}
use containerd_wasm.Sandbox.Instance
use containerd_wasm.Sandbox.Instance.{Exit}
use containerd_wasm.Shim.TaskState
use containerd_wasm.Shim.TaskState.{TaskState, created, exited}

pub record InstanceData (S : Type 0) : Type 0 where
  pub instance : S
  pub cfg : InstanceConfig
  pub pid : Option ℕ
  pub state : TaskState
  -- Whether the lock of `state` is poisoned: a panic happened under its guard.
  pub poisoned : Bool

abbrev pub Method : Type 0 → Type 0 → Type 0 → Type 0
Method W S A = Exec (W × InstanceData S) Error A

-- `OnceLock::set` leaves a value that is there.
abbrev pub set_pid : {S : Type 0} → ℕ → InstanceData S → InstanceData S
set_pid p d = elim d.pid [ none ↦ record d { pid = some p } | some q ↦ d ]

-- A guard that is dropped while its thread panics poisons the lock.
abbrev after_unlock : {A S : Type 0} → Outcome Error A → InstanceData S → InstanceData S
after_unlock panic d = record d { poisoned = true }
after_unlock _ d = d

module _ {W S : Type 0} where
  abbrev with_lock : {A : Type 0} → Method W S A → Bool → Method W S A
  with_lock m true (w, d) = ((w, d), panic)
  with_lock m false (w, d) = let ((w', d'), r) = m (w, d) in ((w', after_unlock r d'), r)

  -- `self.state.write().unwrap()`, with the rest of the method under the guard.
  abbrev locked : {A : Type 0} → Method W S A → Method W S A
  locked m (w, d) = with_lock m d.poisoned (w, d)

  -- A method of the state, on the field `state`.
  abbrev on_state : Exec TaskState Error (Unit {0}) → Method W S (Unit {0})
  on_state m (w, d) = let (t, r) = m d.state in ((w, record d { state = t }), r)

  -- A method of the instance, on the world.
  abbrev on_instance : {A : Type 0} → (S → Exec W Error A) → Method W S A
  on_instance m (w, d) = let (w', r) = m d.instance w in ((w', d), r)

  -- What `start` does with the result of the instance's own `start`.
  abbrev settle : Outcome Error ℕ → Method W S (Unit {0})
  settle (ok p) = do modify (λ (w, d). (w, set_pid p d)); ignore (on_state TaskState.mark_started)
  settle (err e) = ignore (on_state TaskState.stop)
  settle panic = pure tt

  abbrev undo_delete : Outcome Error (Unit {0}) → Method W S (Unit {0})
  undo_delete (err e) = ignore (on_state TaskState.stop)
  undo_delete _ = pure tt

  -- `*s = TaskState::Exited`.
  abbrev mark_exited : Method W S (Unit {0})
  mark_exited (w, d) = ((w, record d { state = exited }), ok tt)

  abbrev note_exit : Option Exit → Method W S (Unit {0})
  note_exit none = pure tt
  note_exit (some e) = locked mark_exited

  module _ (host : Instance.Instance W S) where
    unfoldable pub new : Text → InstanceConfig → Exec W Error (InstanceData S)
    new id cfg = do
      i ← host.new id cfg
      pure (record { instance = i; cfg = cfg; pid = none; state = created; poisoned = false })

    unfoldable pub start : Method W S ℕ
    unfolding TaskState.start TaskState.mark_started TaskState.stop
    start =
        locked (do
          on_state TaskState.start
          res ← attempt (on_instance host.start)
          settle res
          lift res)

    unfoldable pub kill : ℕ → Method W S (Unit {0})
    unfolding TaskState.kill
    kill signal = locked (do on_state TaskState.kill; on_instance (λ i. host.kill i signal))

    unfoldable pub delete : Method W S (Unit {0})
    unfolding TaskState.delete TaskState.stop
    delete = locked (do
      on_state TaskState.delete
      res ← attempt (on_instance host.delete)
      undo_delete res
      lift res)

    -- The lock is taken only after the instance's `wait` returns.
    unfoldable pub wait : Method W S Exit
    unfolding Instance.wait
    wait = do res ← on_instance (Instance.wait host); locked mark_exited; pure res

    unfoldable pub wait_timeout : Option ℕ → Method W S (Option Exit)
    wait_timeout t = do
      res ← on_instance (λ i w. let (w', r) = host.wait_timeout i t w in (w', ok r))
      note_exit res
      pure res
