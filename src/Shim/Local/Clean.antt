-- ===== src/Shim/Local/Clean.antt =====
-- The locks of the instances of local.rs, when no method of the runtime panics under them.
use containerd_wasm.Base.{
  Text, Option, refl, set_same, ℕ, zero, suc, ◌≡◌, ◌≢◌, ◌++◌, inl, inr, none, some, List, [], ◌∷◌,
  false, arith, All, Outcome, get_elem?, set, Option-cases, get_elem?-set_of_some,
}
use containerd_wasm.Base.Dict
use containerd_wasm.Sandbox.Instance
use containerd_wasm.Shim.Api.{Request, CreateTaskRequest, ExecRequest, KillRequest}
use containerd_wasm.Shim.InstanceData
use containerd_wasm.Shim.InstanceData.{InstanceData}
use containerd_wasm.Shim.Local.{
  Host, Local, Waiter, handle, task_create, task_start, task_kill, task_delete, task_wait,
  task_state, task_stats, connect, shutdown, wait_thread,
}
use containerd_wasm.Shim.Local.Create.{task_create_cases}
use containerd_wasm.Shim.Local.Steps.{Action, requests, resumes, elsewhere, resume, step}

-- The runtime panics in no method that is called under the lock.
pub record NeverPanics {W S : Type 0} (host : Instance.Instance W S) : Type 0 where
  pub start : (i : S) (w : W) → (host.start i w).1 ≢ Outcome.panic
  pub kill : (i : S) (signal : ℕ) (w : W) → (host.kill i signal w).1 ≢ Outcome.panic
  pub delete : (i : S) (w : W) → (host.delete i w).1 ≢ Outcome.panic

-- No lock is poisoned.
abbrev pub IsClean : {S : Type 0} → List (InstanceData S) → Type 0
IsClean heap = All (λ d. d.poisoned ≡ false) heap

module _ {S : Type 0} where
  pub IsClean-get :
      (heap : List (InstanceData S)) (h : ℕ) {d : InstanceData S}
      → IsClean heap
      → get_elem? heap h ≡ some d
      → d.poisoned ≡ false
  IsClean-get [] h c e = absurd (ground arith)
  IsClean-get (x ∷ xs) zero (p, c) e = ground arith
  IsClean-get (x ∷ xs) (suc h) (p, c) e = IsClean-get xs h c e

  set-IsClean :
      (heap : List (InstanceData S)) (h : ℕ) (d : InstanceData S)
      → IsClean heap
      → d.poisoned ≡ false
      → IsClean (set heap h d)
  set-IsClean [] h d c e = c
  set-IsClean (x ∷ xs) zero d (p, c) e = (e, c)
  set-IsClean (x ∷ xs) (suc h) d (p, c) e = (p, set-IsClean xs h d c e)

  append-IsClean :
      (heap : List (InstanceData S)) (d : InstanceData S)
      → IsClean heap
      → d.poisoned ≡ false
      → IsClean (heap ++ d ∷ [])
  append-IsClean [] d c e = (e, tt)
  append-IsClean (x ∷ xs) d (p, c) e = (p, append-IsClean xs d c e)

module _ {W S : Type 0} (host : Instance.Instance W S) where
  wait_clean :
      (w : W) (d : InstanceData S)
      → d.poisoned ≡ false
      → (InstanceData.wait host (w, d)).0.1.poisoned ≡ false
  unfolding InstanceData.wait Instance.wait
  wait_clean w d e = ground arith

  wait_timeout_clean :
      (t : _) (w : W) (d : InstanceData S)
      → d.poisoned ≡ false
      → (InstanceData.wait_timeout host t (w, d)).0.1.poisoned ≡ false
  unfolding InstanceData.wait_timeout
  wait_timeout_clean t w d e = ground arith

  module _ (n : NeverPanics host) where
    start_clean :
        (w : W) (d : InstanceData S)
        → d.poisoned ≡ false
        → (InstanceData.start host (w, d)).0.1.poisoned ≡ false
    unfolding InstanceData.start
    start_clean w d e = ground (arith, n.start d.instance w)

    kill_clean :
        (signal : ℕ) (w : W) (d : InstanceData S)
        → d.poisoned ≡ false
        → (InstanceData.kill host signal (w, d)).0.1.poisoned ≡ false
    unfolding InstanceData.kill
    kill_clean signal w d e = ground (arith, n.kill d.instance signal w)

    delete_clean :
        (w : W) (d : InstanceData S)
        → d.poisoned ≡ false
        → (InstanceData.delete host (w, d)).0.1.poisoned ≡ false
    unfolding InstanceData.delete
    delete_clean w d e = ground (arith, n.delete d.instance w)

module _ {W S : Type 0} (host : Host W S) where
  task_wait-IsClean :
      (req : ExecRequest) (l : Local W S) → IsClean l.heap → IsClean (task_wait host req l).0.heap
  unfolding task_wait
  task_wait-IsClean req l c = elim (Option-cases (Dict.get req.id l.instances)) [
    | inl e ↦ ground arith
    | inr (h, e) ↦ elim (Option-cases (get_elem? l.heap h)) [
      | inl g ↦ ground arith
      | inr (d, g) ↦
          let o = InstanceData.wait host.runtime (l.world, d) in
          ground (
            arith,
            set-IsClean l.heap h o.0.1 c
                (wait_clean host.runtime l.world d (IsClean-get l.heap h c g)),
          )
    ]
  ]

  task_start-IsClean :
      NeverPanics host.runtime
      → (req : ExecRequest) (l : Local W S) → IsClean l.heap
      → IsClean (task_start host req l).0.heap
  unfolding task_start
  task_start-IsClean n req l c = elim (Option-cases (Dict.get req.id l.instances)) [
    | inl e ↦ ground arith
    | inr (h, e) ↦ elim (Option-cases (get_elem? l.heap h)) [
      | inl g ↦ ground arith
      | inr (d, g) ↦
          let o = InstanceData.start host.runtime (l.world, d) in
          ground (
            arith,
            set-IsClean l.heap h o.0.1 c
                (start_clean host.runtime n l.world d (IsClean-get l.heap h c g)),
          )
    ]
  ]

  task_kill-IsClean :
      NeverPanics host.runtime
      → (req : KillRequest) (l : Local W S) → IsClean l.heap
      → IsClean (task_kill host req l).0.heap
  unfolding task_kill
  task_kill-IsClean n req l c = elim (Option-cases (Dict.get req.id l.instances)) [
    | inl e ↦ ground arith
    | inr (h, e) ↦ elim (Option-cases (get_elem? l.heap h)) [
      | inl g ↦ ground arith
      | inr (d, g) ↦
          let o = InstanceData.kill host.runtime req.signal (l.world, d) in
          ground (
            arith,
            set-IsClean l.heap h o.0.1 c
                (kill_clean host.runtime n req.signal l.world d (IsClean-get l.heap h c g)),
          )
    ]
  ]

  task_delete-IsClean :
      NeverPanics host.runtime
      → (req : ExecRequest) (l : Local W S) → IsClean l.heap
      → IsClean (task_delete host req l).0.heap
  unfolding task_delete
  task_delete-IsClean n req l c = elim (Option-cases (Dict.get req.id l.instances)) [
    | inl e ↦ ground arith
    | inr (h, e) ↦ elim (Option-cases (get_elem? l.heap h)) [
      | inl g ↦ ground arith
      | inr (d, g) ↦
          let o = InstanceData.delete host.runtime (l.world, d) in
          let o' = InstanceData.wait_timeout host.runtime (some 0) o.0 in
          let again = get_elem?-set_of_some l.heap h o.0.1 g in
          let deleted = delete_clean host.runtime n l.world d (IsClean-get l.heap h c g) in
          let first = set-IsClean l.heap h o.0.1 c deleted in
          let ended = wait_timeout_clean host.runtime (some 0) o.0.0 o.0.1 deleted in
          ground (
            arith,
            again,
            set_same (set l.heap h o.0.1) h again,
            first,
            set-IsClean (set l.heap h o.0.1) h o'.0.1 first ended,
          )
    ]
  ]

  task_state-IsClean :
      (req : ExecRequest) (l : Local W S) → IsClean l.heap → IsClean (task_state host req l).0.heap
  unfolding task_state
  task_state-IsClean req l c = elim (Option-cases (Dict.get req.id l.instances)) [
    | inl e ↦ ground arith
    | inr (h, e) ↦ elim (Option-cases (get_elem? l.heap h)) [
      | inl g ↦ ground arith
      | inr (d, g) ↦
          let o = InstanceData.wait_timeout host.runtime (some 0) (l.world, d) in
          let again = get_elem?-set_of_some l.heap h o.0.1 g in
          let ended =
            wait_timeout_clean host.runtime (some 0) l.world d (IsClean-get l.heap h c g) in
          ground (
            arith,
            set_same l.heap h g,
            again,
            set_same (set l.heap h o.0.1) h again,
            set-IsClean l.heap h o.0.1 c ended,
          )
    ]
  ]

  task_stats-IsClean :
      (id : Text) (l : Local W S) → IsClean l.heap → IsClean (task_stats host id l).0.heap
  unfolding task_stats
  task_stats-IsClean id l c = elim (Option-cases (Dict.get id l.instances)) [
    | inl e ↦ ground arith
    | inr (h, e) ↦ elim (Option-cases (get_elem? l.heap h)) [
      | inl g ↦ ground arith
      | inr (d, g) ↦ ground (arith, set_same l.heap h g)
    ]
  ]

  connect-IsClean :
      (id : Text) (l : Local W S) → IsClean l.heap → IsClean (connect host id l).0.heap
  unfolding connect
  connect-IsClean id l c = elim (Option-cases (Dict.get id l.instances)) [
    | inl e ↦ ground arith
    | inr (h, e) ↦ elim (Option-cases (get_elem? l.heap h)) [
      | inl g ↦ ground arith
      | inr (d, g) ↦ ground (arith, set_same l.heap h g)
    ]
  ]

  shutdown-IsClean : (l : Local W S) → IsClean l.heap → IsClean (shutdown host l).0.heap
  unfolding shutdown
  shutdown-IsClean l c = ground arith

  task_create-IsClean :
      (req : CreateTaskRequest) (l : Local W S)
      → IsClean l.heap
      → IsClean (task_create host req l).0.heap
  task_create-IsClean req l c = elim (task_create_cases host req l) [
    | inl u ↦ ground arith
    | inr (free, r) ↦ rw r.fresh.1 (append-IsClean l.heap _ c refl)
  ]

  handle-IsClean :
      NeverPanics host.runtime
      → (r : Request) (l : Local W S) → IsClean l.heap
      → IsClean (handle host r l).0.heap
  unfolding handle
  handle-IsClean n (Request.create req) l c = task_create-IsClean req l c
  handle-IsClean n (Request.start req) l c = task_start-IsClean n req l c
  handle-IsClean n (Request.kill req) l c = task_kill-IsClean n req l c
  handle-IsClean n (Request.delete req) l c = task_delete-IsClean n req l c
  handle-IsClean n (Request.wait req) l c = task_wait-IsClean req l c
  handle-IsClean n (Request.state req) l c = task_state-IsClean req l c
  handle-IsClean n (Request.stats id) l c = task_stats-IsClean id l c
  handle-IsClean n (Request.connect id) l c = connect-IsClean id l c
  handle-IsClean n Request.shutdown l c = shutdown-IsClean l c

  resume-IsClean :
      (i : ℕ) (w : Option Waiter) (l : Local W S)
      → IsClean l.heap
      → IsClean (resume host i w l).heap
  unfolding wait_thread
  resume-IsClean i none l c = c
  resume-IsClean i (some w) l c = elim (Option-cases (get_elem? l.heap w.handle)) [
    | inl g ↦ ground arith
    | inr (d, g) ↦
        let o = InstanceData.wait host.runtime (l.world, d) in
        ground (
          arith,
          set-IsClean l.heap w.handle o.0.1 c
              (wait_clean host.runtime l.world d (IsClean-get l.heap w.handle c g)),
        )
  ]

  -- No step poisons a lock.
  pub step-IsClean :
      NeverPanics host.runtime
      → (a : Action W) (l : Local W S) → IsClean l.heap
      → IsClean (step host a l).heap
  unfolding step
  step-IsClean n (requests r) l c = handle-IsClean n r l c
  step-IsClean n (resumes i) l c = resume-IsClean i (get_elem? l.waiters i) l c
  step-IsClean n (elsewhere w) l c = c
