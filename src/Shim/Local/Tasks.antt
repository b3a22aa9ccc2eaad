-- ===== src/Shim/Local/Tasks.antt =====
-- How each method of local.rs changes the service: the fields of the shared state.
use containerd_wasm.Base.{
  ℕ, Text, ◌++◌, ◌≡◌, ◌⊎◌, inl, inr, Option, some, [], ◌∷◌, true, arith, length, length-set,
  get_elem?, set, is_empty, Bool-cases, Option-cases, Outcome-cases, Outcome, unwrap_or,
  get_elem?-set_of_some, get_elem?-some, false, none, ◌<◌,
}
use containerd_wasm.Base.Dict
use containerd_wasm.Sandbox.Error.{Error}
use containerd_wasm.Sandbox.Instance
use containerd_wasm.Sandbox.Instance.{Exit}
use containerd_wasm.Shim.InstanceData
use containerd_wasm.Shim.Api.{ExecRequest, KillRequest, Event, Timestamp, to_timestamp}
use containerd_wasm.Shim.Local.{
  Host, Local, Waiter, wait_thread, task_start, task_kill, task_delete, task_wait, task_state,
  task_stats, connect, shutdown, exit_status, exited_at,
}

-- Nothing of the service changed but the outside world, what is on the heap, and the exit signal.
pub record IsQuiet {W S : Type 0} (l l' : Local W S) : Type 0 where
  pub instances : l'.instances ≡ l.instances
  pub events : l'.events ≡ l.events
  pub waiters : l'.waiters ≡ l.waiters
  pub size : length l'.heap ≡ length l.heap

module _ {W S : Type 0} where
  -- What a start that reached a process has changed.
  pub record HasStarted (id : Text) (h p : ℕ) (l l' : Local W S) : Type 0 where
    pub mapped : Dict.get id l.instances ≡ some h
    pub instances : l'.instances ≡ l.instances
    pub size : length l'.heap ≡ length l.heap
    pub events : l'.events ≡ l.events ++ Event.task_start id p ∷ []
    pub waiters :
        (l'.waiters ≡ l.waiters)
        ⊎ (l'.waiters ≡ l.waiters ++ record { id = id; handle = h; pid = p } ∷ [])

  -- What a delete that the instance agreed to has changed.
  pub record HasDeleted (id : Text) (l l' : Local W S) : Type 0 where
    pub instances : l'.instances ≡ Dict.remove id l.instances
    pub size : length l'.heap ≡ length l.heap
    pub waiters : l'.waiters ≡ l.waiters
    pub event :
        (p : ℕ) × (status : ℕ) × (t : Option Timestamp) × (l'.events
          ≡ l.events ++ Event.task_delete id p status t ∷ [])

  -- What a waiting thread that saw an exit has changed.
  pub record HasExited (w : Waiter) (l l' : Local W S) : Type 0 where
    pub instances : l'.instances ≡ l.instances
    pub waiters : l'.waiters ≡ l.waiters
    pub size : length l'.heap ≡ length l.heap
    pub event :
        (status : ℕ) × (t : Option Timestamp) × (l'.events
          ≡ l.events ++ Event.task_exit w.id status t w.pid w.id ∷ [])

module _ {W S : Type 0} (host : Host W S) where
  pub task_kill-IsQuiet : (req : KillRequest) (l : Local W S) → IsQuiet l (task_kill host req l).0
  unfolding task_kill
  task_kill-IsQuiet req l = grind (arith, length-set)

  pub task_wait-IsQuiet : (req : ExecRequest) (l : Local W S) → IsQuiet l (task_wait host req l).0
  unfolding task_wait
  task_wait-IsQuiet req l = grind (arith, length-set)

  pub task_state-IsQuiet : (req : ExecRequest) (l : Local W S) → IsQuiet l (task_state host req l).0
  unfolding task_state
  task_state-IsQuiet req l = grind (arith, length-set)

  pub task_stats-IsQuiet : (id : Text) (l : Local W S) → IsQuiet l (task_stats host id l).0
  unfolding task_stats
  task_stats-IsQuiet id l = grind (arith, length-set)

  pub connect-IsQuiet : (id : Text) (l : Local W S) → IsQuiet l (connect host id l).0
  unfolding connect
  connect-IsQuiet id l = grind (arith, length-set)

  pub shutdown-IsQuiet : (l : Local W S) → IsQuiet l (shutdown host l).0
  unfolding shutdown
  shutdown-IsQuiet l = ground arith

  -- How a start ends, with the reason where no thread waits.
  pub task_start_waits :
      (req : ExecRequest) (l : Local W S)
      → IsQuiet l (task_start host req l).0
        ⊎ ((h : ℕ) × (p : ℕ) × HasStarted req.id h p l (task_start host req l).0
            × ((host.can_spawn (task_start host req l).0.world ≡ false)
                ⊎ ((task_start host req l).0.waiters
                    ≡ l.waiters ++ record { id = req.id; handle = h; pid = p } ∷ [])))
  unfolding task_start
  task_start_waits req l = elim (Bool-cases (is_empty req.exec_id)) [
    | inr e ↦ inl (ground arith)
    | inl e ↦ elim (Option-cases (Dict.get req.id l.instances)) [
      | inl f ↦ inl (ground arith)
      | inr (h, f) ↦ elim (Option-cases (get_elem? l.heap h)) [
        | inl g ↦ inl (ground arith)
        | inr (d, g) ↦
            let o = InstanceData.start host.runtime (l.world, d) in
            elim (Outcome-cases o.1) [
              | inl (p, k) ↦ inr (h, p, ground (arith, length-set l.heap h o.0.1), ground arith)
              | inr k ↦ inl (ground (arith, length-set l.heap h o.0.1))
            ]
      ]
    ]
  ]

  pub task_start_cases :
      (req : ExecRequest) (l : Local W S)
      → IsQuiet l (task_start host req l).0
        ⊎ ((h : ℕ) × (p : ℕ) × HasStarted req.id h p l (task_start host req l).0)
  task_start_cases req l = elim (task_start_waits req l) [
    | inl q ↦ inl q
    | inr (h, p, s, waits) ↦ inr (h, p, s)
  ]

  delete_found :
      (req : ExecRequest) (l : Local W S) (h : ℕ) (d : InstanceData.InstanceData S)
      → is_empty req.exec_id ≡ true
      → Dict.get req.id l.instances ≡ some h
      → get_elem? l.heap h ≡ some d
      → IsQuiet l (task_delete host req l).0 ⊎ HasDeleted req.id l (task_delete host req l).0
  unfolding task_delete
  delete_found req l h d e f g =
      let ((w, d'), r) = InstanceData.delete host.runtime (l.world, d) in
      let heap = set l.heap h d' in
      let again = get_elem?-set_of_some l.heap h d' g in
      let again' = get_elem?-set_of_some heap h d' again in
      let size = length-set l.heap h d' in
      let size' = length-set heap h d' in
      let ((w', d''), r') = InstanceData.wait_timeout host.runtime (some 0) (w, d') in
      let size'' = length-set (set heap h d') h d'' in
      elim (Outcome-cases r) [
        | inl (u, k) ↦ elim (Outcome-cases r') [
          | inl (exit, k') ↦ inr (record {
            instances = ground arith;
            size = ground arith;
            waiters = ground arith;
            event = (unwrap_or d'.pid 0, exit_status exit, exited_at exit, ground arith);
          })
          | inr k' ↦ inl (ground arith)
        ]
        | inr k ↦ inl (ground arith)
      ]

  pub task_delete_cases :
      (req : ExecRequest) (l : Local W S)
      → IsQuiet l (task_delete host req l).0 ⊎ HasDeleted req.id l (task_delete host req l).0
  unfolding task_delete
  task_delete_cases req l = elim (Bool-cases (is_empty req.exec_id)) [
    | inr e ↦ inl (ground arith)
    | inl e ↦ elim (Option-cases (Dict.get req.id l.instances)) [
      | inl f ↦ inl (ground arith)
      | inr (h, f) ↦ elim (Option-cases (get_elem? l.heap h)) [
        | inl g ↦ inl (ground arith)
        | inr (d, g) ↦ delete_found req l h d e f g
      ]
    ]
  ]

  pub wait_thread_cases :
      (w : Waiter) (l : Local W S)
      → IsQuiet l (wait_thread host w l).0 ⊎ HasExited w l (wait_thread host w l).0
  unfolding wait_thread
  wait_thread_cases w l = elim (Option-cases (get_elem? l.heap w.handle)) [
    | inl g ↦ inl (ground arith)
    | inr (d, g) ↦
        let o : (W × InstanceData.InstanceData S) × Outcome Error Exit =
          InstanceData.wait host.runtime (l.world, d) in
        elim (Outcome-cases o.1) [
          | inl ((status, t), k) ↦ inr (record {
            instances = ground arith;
            waiters = ground arith;
            size = ground (arith, length-set l.heap w.handle o.0.1);
            event = (status, some (to_timestamp t), ground arith);
          })
          | inr k ↦ inl (ground (arith, length-set l.heap w.handle o.0.1))
        ]
  ]

  -- A waiting thread announces the exit, unless a wait without a timeout ends without one, or the lock
  -- of the instance is poisoned.
  pub wait_thread_ends :
      (w : Waiter) (l : Local W S)
      → w.handle < length l.heap
      → HasExited w l (wait_thread host w l).0
        ⊎ (IsQuiet l (wait_thread host w l).0
            × (((i : S) × (v : W) × ((host.runtime.wait_timeout i none v).1 ≡ none))
                ⊎ ((d : InstanceData.InstanceData S) × (get_elem? l.heap w.handle ≡ some d)
                    × (d.poisoned ≡ true))))
  unfolding wait_thread InstanceData.wait Instance.wait
  wait_thread_ends w l bound =
      let (d, g) = get_elem?-some l.heap w.handle bound in
      let o = InstanceData.wait host.runtime (l.world, d) in
      let size = length-set l.heap w.handle o.0.1 in
      elim (Option-cases (host.runtime.wait_timeout d.instance none l.world).1) [
        | inl e ↦ inr (ground (arith, size), inl (d.instance, l.world, e))
        | inr ((status, t), e) ↦ elim (Bool-cases d.poisoned) [
          | inl p ↦ inr (ground (arith, size), inr (d, g, p))
          | inr p ↦ inl (record {
            instances = ground arith;
            waiters = ground arith;
            size = ground (arith, size);
            event = (status, some (to_timestamp t), ground arith);
          })
        ]
      ]
