-- ===== src/Shim/Local/Registry/Methods.antt =====
-- The methods of local.rs against the registry that they promise: their heap and their map are
-- seen through `view`.
use containerd_wasm.Base.{
  set-set, none, set_same, codes, modify, ◌++◌, lift, reads, ok_or, map_error, [], ◌∷◌, pure, gets,
  unwrap_or, some, is_empty, Bool, Outcome, ok, err, panic, continue, guard, ◌>>=◌, ◌>>◌, Exec, ◌≢◌,
  ℕ, Text, ◌≡◌, refl, ap, fun_ext, none, some, [], ◌∷◌, true, false, arith, get_elem?, set,
  get_elem?-set_of_some, get_elem?-set_ne, get_elem?-some, set_same, text_eq, text_eq_iff,
  Option-cases, Bool-cases, inl, inr,
}
use containerd_wasm.Base.Dict
use containerd_wasm.Shim.InstanceData
use containerd_wasm.Shim.InstanceData.{InstanceData}
use containerd_wasm.Shim.Api.{ExecRequest, KillRequest, Event, Response, to_timestamp}
use containerd_wasm.Sandbox.Error.{Error}
use containerd_wasm.Shim.Local.{
  Host, Local, Handler, exit_status, exited_at, exec_is_not_supported, send, get_instance, on_data,
  task_start, task_kill, task_delete, task_wait, task_state, task_stats, connect,
}
use containerd_wasm.Shim.Local.Valid.{IsValid}
use containerd_wasm.Shim.Local.Registry
use containerd_wasm.Shim.Local.Registry.{Registry, view, update, deref}

-- The service does what the registry does: the same answer, and what is seen afterwards.
abbrev pub Agrees :
    {W S E A : Type 0} → Exec (Local W S) E A → Exec (Registry W S) E A → Local W S → Type 0
Agrees m n l = ((m l).1 ≡ (n (view l)).1) × (view (m l).0 ≡ (n (view l)).0)

module _ {W S : Type 0} where
  -- A write to the instance of an id is seen at this id alone.
  deref-set :
      (l : Local W S) (id : Text) (h : ℕ) (d d' : InstanceData S)
      → IsValid l
      → Dict.get id l.instances ≡ some h
      → get_elem? l.heap h ≡ some d
      → (λ id'. deref (set l.heap h d') (Dict.get id' l.instances))
        ≡ update id (some d') (λ id'. deref l.heap (Dict.get id' l.instances))
  deref-set l id h d d' v e f = fun_ext (λ id'. elim (Bool-cases (text_eq id id')) [
    | inl t ↦ ground (arith, text_eq_iff id id', get_elem?-set_of_some l.heap h d' f)
    | inr t ↦ elim (Option-cases (Dict.get id' l.instances)) [
      | inl g ↦ ground arith
      | inr (k, g) ↦
          let apart : h ≢ k =
            λ q. ground (arith, text_eq_iff id id', v.distinct id id' k (rw q at e) g) in
          ground (arith, get_elem?-set_ne l.heap h k d' apart)
    ]
  ])

  -- An id is known exactly where it leads to an instance, which is there.
  pub known :
      (l : Local W S) (id : Text) (h : ℕ)
      → IsValid l
      → Dict.get id l.instances ≡ some h
      → (d : InstanceData S) × (get_elem? l.heap h ≡ some d)
  known l id h v e = get_elem?-some l.heap h (v.mapped id h e)

  pub continue-Agrees :
      {A B : Type 0} (f : A → Handler W S B) (g : A → Registry.Action W S B) (r : Outcome Error A)
      (l : Local W S) (s : Registry W S)
      → view l ≡ s
      → ((a : A) → Agrees (f a) (g a) l)
      → ((continue r f l).1 ≡ (continue r g s).1) × (view (continue r f l).0 ≡ (continue r g s).0)
  continue-Agrees f g (ok a) l s e k = rw (← e) (k a)
  continue-Agrees f g (err x) l s e k = (refl, e)
  continue-Agrees f g panic l s e k = (refl, e)

  guard-Agrees :
      {A : Type 0} (b : Bool) (e : Error) (m : Handler W S A) (n : Registry.Action W S A)
      (l : Local W S)
      → Agrees m n l
      → Agrees (guard b e >> m) (guard b e >> n) l
  guard-Agrees true e m n l h = h
  guard-Agrees false e m n l h = (refl, refl)

  -- A method on the instance that an id leads to is the action on the task with this id.
  at-Agrees :
      {A B : Type 0} (id : Text) (m : InstanceData.Method W S A) (f : ℕ → A → Handler W S B)
      (g : A → Registry.Action W S B) (l : Local W S)
      → IsValid l
      → ((i : ℕ) (a : A) (l' : Local W S) → Agrees (f i a) (g a) l')
      → Agrees (do i ← get_instance id; a ← on_data i m; f i a) (do a ← Registry.at id m; g a) l
  unfolding get_instance view
  at-Agrees id m f g l v k = elim (Option-cases (Dict.get id l.instances)) [
    | inl e ↦ (ground arith, ground arith)
    | inr (h, e) ↦
        let (d, x) = known l id h v e in
        let o = m (l.world, d) in
        let seen : view (record l { world = o.0.0; heap = set l.heap h o.0.1 })
            ≡ record (view l) { world = o.0.0; task = update id (some o.0.1) (view l).task } =
          ap (λ t. record (view l) { world = o.0.0; task = t }) (deref-set l id h d o.0.1 v e x) in
        rw (e, x) (continue-Agrees (f h) g o.1 _ _ seen (λ a. k h a _))
  ]

module _ {W S : Type 0} (host : Host W S) where
  pub kill-Agrees :
      (req : KillRequest) (l : Local W S)
      → IsValid l
      → Agrees (task_kill host req) (Registry.kill host req) l
  unfolding task_kill Registry.kill
  kill-Agrees req l v = guard-Agrees (is_empty req.exec_id) _ _ _ l (
      at-Agrees req.id (InstanceData.kill host.runtime req.signal) (λ i a. pure Response.empty)
        (λ a. pure Response.empty) l v (λ i a l'. (refl, refl)))

  pub wait-Agrees :
      (req : ExecRequest) (l : Local W S)
      → IsValid l
      → Agrees (task_wait host req) (Registry.wait host req) l
  unfolding task_wait Registry.wait
  wait-Agrees req l v = guard-Agrees (is_empty req.exec_id) _ _ _ l (
      at-Agrees req.id (InstanceData.wait host.runtime)
        (λ i (code, t). pure (Response.waited code (some (to_timestamp t))))
        (λ (code, t). pure (Response.waited code (some (to_timestamp t)))) l v
        (λ i a l'. (refl, refl)))

  pub start-Agrees :
      (req : ExecRequest) (l : Local W S)
      → IsValid l
      → Agrees (task_start host req) (Registry.start host req) l
  unfolding task_start Registry.start view
  start-Agrees req l v = guard-Agrees (is_empty req.exec_id) _ _ _ l (
      at-Agrees req.id (InstanceData.start host.runtime)
        (λ i pid. do
          send (Event.task_start req.id pid)
          spawned ← gets (λ l'. host.can_spawn l'.world)
          guard spawned (Error.any (codes "could not spawn thread to wait exit"))
          modify (λ l'. record l' {
            waiters = l'.waiters ++ record { id = req.id; handle = i; pid = pid } ∷ [];
          })
          pure (Response.started pid))
        (λ pid. do
          modify (Registry.announce (Event.task_start req.id pid))
          spawned ← gets (λ s. host.can_spawn s.world)
          guard spawned (Error.any (codes "could not spawn thread to wait exit"))
          pure (Response.started pid))
        l v (λ i a l'. (ground arith, ground arith)))

  pub stats-Agrees :
      (id : Text) (l : Local W S)
      → IsValid l
      → Agrees (task_stats host id) (Registry.stats host id) l
  unfolding task_stats Registry.stats view
  stats-Agrees id l v =
      at-Agrees id (gets (λ (w, d). d.pid))
        (λ i pid. do
          p ← lift (ok_or pid (Error.invalid_argument (codes "task is not running")))
          metrics ← map_error Error.any (reads (λ l'. host.get_metrics p l'.world))
          pure (Response.stats metrics))
        (λ pid. do
          p ← lift (ok_or pid (Error.invalid_argument (codes "task is not running")))
          metrics ← map_error Error.any (reads (λ s. host.get_metrics p s.world))
          pure (Response.stats metrics))
        l v (λ i a l'. (ground arith, ground arith))

  pub connect-Agrees :
      (id : Text) (l : Local W S)
      → IsValid l
      → Agrees (connect host id) (Registry.connect host id) l
  unfolding connect Registry.connect
  connect-Agrees id l v =
      at-Agrees id (gets (λ (w, d). d.pid))
        (λ i p. pure (Response.connected host.processes.id (unwrap_or p 0)))
        (λ p. pure (Response.connected host.processes.id (unwrap_or p 0))) l v
        (λ i a l'. (refl, refl))

  -- What the state handler does to the instance is one action.
  state_once :
      (req : ExecRequest) (l : Local W S)
      → IsValid l
      → task_state host req l
        ≡ (do
          guard (is_empty req.exec_id) (Error.invalid_argument exec_is_not_supported)
          i ← get_instance req.id
          answer ← on_data i (Registry.describe host)
          pure (Response.state answer))
            l
  unfolding task_state InstanceData.wait_timeout get_instance
  state_once req l v = elim (Option-cases (Dict.get req.id l.instances)) [
    | inl e ↦ ground arith
    | inr (h, e) ↦
        let (d, x) = known l req.id h v e in
        let o = InstanceData.wait_timeout host.runtime (some 0) (l.world, d) in
        ground (
          arith,
          set_same l.heap h x,
          get_elem?-set_of_some l.heap h o.0.1 x,
          set-set l.heap h o.0.1 o.0.1,
        )
  ]

  delete_once :
      (req : ExecRequest) (l : Local W S)
      → IsValid l
      → task_delete host req l
        ≡ (do
          guard (is_empty req.exec_id) (Error.invalid_argument exec_is_not_supported)
          i ← get_instance req.id
          (pid, exit) ← on_data i (Registry.end_of host)
          modify (λ l'. record l' { instances = Dict.remove req.id l'.instances })
          send (Event.task_delete req.id pid (exit_status exit) (exited_at exit))
          pure (Response.deleted pid (exit_status exit) (exited_at exit)))
            l
  unfolding task_delete get_instance
  delete_once req l v = elim (Option-cases (Dict.get req.id l.instances)) [
    | inl e ↦ ground arith
    | inr (h, e) ↦
        let (d, x) = known l req.id h v e in
        let o = InstanceData.delete host.runtime (l.world, d) in
        let o' = InstanceData.wait_timeout host.runtime (some 0) o.0 in
        let again = get_elem?-set_of_some l.heap h o.0.1 x in
        ground (arith, again, set_same (set l.heap h o.0.1) h again, set-set l.heap h o.0.1 o'.0.1)
  ]

  pub state-Agrees :
      (req : ExecRequest) (l : Local W S)
      → IsValid l
      → Agrees (task_state host req) (Registry.state host req) l
  unfolding Registry.state
  state-Agrees req l v = rw (state_once req l v) (
      guard-Agrees (is_empty req.exec_id) _ _ _ l (
        at-Agrees req.id (Registry.describe host) (λ i answer. pure (Response.state answer))
          (λ answer. pure (Response.state answer)) l v (λ i a l'. (refl, refl))))

  remove-view :
      (id : Text) (l : Local W S)
      → view (record l { instances = Dict.remove id l.instances })
        ≡ record (view l) { task = update id none (view l).task }
  unfolding view
  remove-view id l =
      ap (λ t. record (view l) { task = t })
        (fun_ext (λ id'. ground (arith, Dict.get-remove id' id l.instances)))

  pub delete-Agrees :
      (req : ExecRequest) (l : Local W S)
      → IsValid l
      → Agrees (task_delete host req) (Registry.delete host req) l
  unfolding Registry.delete view
  delete-Agrees req l v = rw (delete_once req l v) (
      guard-Agrees (is_empty req.exec_id) _ _ _ l (
        at-Agrees req.id (Registry.end_of host)
          (λ i (pid, exit). do
            modify (λ l'. record l' { instances = Dict.remove req.id l'.instances })
            send (Event.task_delete req.id pid (exit_status exit) (exited_at exit))
            pure (Response.deleted pid (exit_status exit) (exited_at exit)))
          (λ (pid, exit). do
            modify (λ s.
                Registry.announce (Event.task_delete req.id pid (exit_status exit) (exited_at exit))
                  (record s { task = update req.id none s.task }))
            pure (Response.deleted pid (exit_status exit) (exited_at exit)))
          l v
          (λ i (pid, exit) l'. (
            refl,
            ap
                (Registry.announce
                  (Event.task_delete req.id pid (exit_status exit) (exited_at exit)))
                (remove-view req.id l'),
          ))))
