-- ===== src/Shim/Local/Registry.antt =====
-- What the task service of local.rs promises to containerd, without its heap, its `Arc`s and the
-- order of its map: a function from ids to tasks, the events so far, and the outside world. What a
-- request does here to a task, it does in one action.
pub mod Methods
pub mod Creation
pub mod Refinement
use containerd_wasm.Base.{
  ℕ, Text, codes, ◌++◌, Option, none, some, List, [], ◌∷◌, Bool, not, ◌&&◌, is_empty, is_some,
  unwrap_or, if◌then◌else◌, Outcome, err, ok_or, Exec, ◌>>=◌, ◌>>◌, pure, lift, reads, gets, modify,
  guard, map_error, get_elem?, path_join, text_eq,
}
use containerd_wasm.Base.Dict
use containerd_wasm.Sandbox.Error.{Error, ShimError, shim, unimplemented, TtrpcError, to_ttrpc}
use containerd_wasm.Sandbox.Config
use containerd_wasm.Sandbox.Instance.{Exit}
use containerd_wasm.Sandbox.Oci
use containerd_wasm.Sandbox.Oci.{Spec}
use containerd_wasm.Shim.InstanceData
use containerd_wasm.Shim.InstanceData.{InstanceData, Method}
use containerd_wasm.Shim.Api.{
  Mount, CreateTaskRequest, ExecRequest, KillRequest, Request, Response, StateResponse,
  to_timestamp, Event,
}
use containerd_wasm.Shim.Local.{
  Host, Local, none_if_empty, config_for, exit_status, exited_at, status_of, exec_is_not_supported,
}

pub record Registry (W S : Type 0) : Type 0 where
  pub world : W
  pub task : Text → Option (InstanceData S)
  pub events : List Event
  pub namespace : Text
  pub containerd_address : Text

abbrev pub deref : {S : Type 0} → List (InstanceData S) → Option ℕ → Option (InstanceData S)
deref heap none = none
deref heap (some h) = get_elem? heap h

module _ {W S : Type 0} where
  -- What a service is, seen from outside.
  unfoldable pub view : Local W S → Registry W S
  view l = record {
    world = l.world;
    task = λ id. deref l.heap (Dict.get id l.instances);
    events = l.events;
    namespace = l.namespace;
    containerd_address = l.containerd_address;
  }

abbrev pub update : {V : Type 0} → Text → V → (Text → V) → Text → V
update id v f id' = if text_eq id id' then v else f id'

abbrev pub Action : Type 0 → Type 0 → Type 0 → Type 0
Action W S A = Exec (Registry W S) Error A

module _ {W S : Type 0} where
  -- An action on the outside world alone.
  abbrev pub outside : {A : Type 0} → Exec W Error A → Action W S A
  outside m s = let (w, r) = m s.world in (record s { world = w }, r)

  abbrev pub announce : Event → Registry W S → Registry W S
  announce e s = record s { events = s.events ++ e ∷ [] }

  abbrev pub on_task : {A : Type 0} → Text → Method W S A → Option (InstanceData S) → Action W S A
  on_task id m none s = (s, err (Error.not_found id))
  on_task id m (some d) s =
      let ((w, d'), r) = m (s.world, d) in
      (record s { world = w; task = update id (some d') s.task }, r)

  -- One action on the task with this id, which is not found where there is none.
  abbrev pub at : {A : Type 0} → Text → Method W S A → Action W S A
  at id m s = on_task id m (s.task id) s

module _ {W S : Type 0} (host : Host W S) where
  unfoldable pub mounts : Text → List Mount → Exec W Error (Unit {0})
  mounts rootfs [] = pure tt
  mounts rootfs (m ∷ ms) = do
    map_error shim
        (host.mount_rootfs (none_if_empty m.mount_type) (none_if_empty m.source) m.options rootfs)
    mounts rootfs ms

  -- What a create checks and does outside before there is a task.
  unfoldable pub setup : CreateTaskRequest → Bool → Exec W Error Spec
  unfolding mounts
  setup req taken = do
    guard (is_empty req.checkpoint && is_empty req.parent_checkpoint)
        (shim (unimplemented (codes "checkpoint is not supported")))
    guard (not req.terminal) (Error.invalid_argument (codes "terminal is not supported"))
    guard (not taken) (Error.already_exists req.id)
    loaded ←
        map_error (λ e. Error.invalid_argument (codes "could not load runtime spec: " ++ e))
          (reads (host.spec_load (path_join req.bundle (codes "config.json"))))
    spec ←
        map_error
          (λ e. shim (ShimError.invalid_argument (codes "could not canonicalize rootfs: " ++ e)))
          (reads (host.canonicalize_rootfs loaded req.bundle))
    rootfs ←
        lift (ok_or spec.root (Error.invalid_argument (codes "rootfs is not set in runtime spec")))
    modify (host.create_dir_all rootfs)
    mounts rootfs req.rootfs
    pure spec

  unfoldable pub create : CreateTaskRequest → Action W S Response
  unfolding Config.new InstanceData.new
  create req = do
    taken ← gets (λ s. is_some (s.task req.id))
    spec ← outside (setup req taken)
    cfg ← gets (λ s. config_for req (Config.new s.namespace s.containerd_address))
    d ← outside (InstanceData.new host.runtime req.id cfg)
    modify (λ s.
        announce (Event.task_create req.id req.bundle req.rootfs req.stdin req.stdout req.stderr)
          (record s { task = update req.id (some d) s.task }))
    outside (Oci.setup_prestart_hooks host.processes spec.hooks)
    pure (Response.created host.processes.id)

  unfoldable pub start : ExecRequest → Action W S Response
  start req = do
    guard (is_empty req.exec_id) (shim (unimplemented exec_is_not_supported))
    pid ← at req.id (InstanceData.start host.runtime)
    modify (announce (Event.task_start req.id pid))
    spawned ← gets (λ s. host.can_spawn s.world)
    guard spawned (Error.any (codes "could not spawn thread to wait exit"))
    pure (Response.started pid)

  unfoldable pub kill : KillRequest → Action W S Response
  kill req = do
    guard (is_empty req.exec_id) (Error.invalid_argument exec_is_not_supported)
    at req.id (InstanceData.kill host.runtime req.signal)
    pure Response.empty

  -- A delete of the instance, and the process and the exit that it has afterwards.
  abbrev pub end_of : Method W S (ℕ × Option Exit)
  end_of = do
    InstanceData.delete host.runtime
    pid ← gets (λ (w, d). d.pid)
    exit ← InstanceData.wait_timeout host.runtime (some 0)
    pure (unwrap_or pid 0, exit)

  unfoldable pub delete : ExecRequest → Action W S Response
  delete req = do
    guard (is_empty req.exec_id) (Error.invalid_argument exec_is_not_supported)
    (pid, exit) ← at req.id end_of
    modify (λ s.
        announce (Event.task_delete req.id pid (exit_status exit) (exited_at exit))
          (record s { task = update req.id none s.task }))
    pure (Response.deleted pid (exit_status exit) (exited_at exit))

  unfoldable pub wait : ExecRequest → Action W S Response
  wait req = do
    guard (is_empty req.exec_id) (Error.invalid_argument exec_is_not_supported)
    (exit_code, timestamp) ← at req.id (InstanceData.wait host.runtime)
    pure (Response.waited exit_code (some (to_timestamp timestamp)))

  -- The instance is asked for its exit, and all else is read off its data.
  abbrev pub describe : Method W S StateResponse
  describe = do
    exit ← InstanceData.wait_timeout host.runtime (some 0)
    gets (λ (w, d). record {
      bundle = d.cfg.bundle;
      stdin = d.cfg.stdin;
      stdout = d.cfg.stdout;
      stderr = d.cfg.stderr;
      pid = unwrap_or d.pid 0;
      exit_status = exit_status exit;
      exited_at = exited_at exit;
      status = status_of d.pid exit;
    })

  unfoldable pub state : ExecRequest → Action W S Response
  state req = do
    guard (is_empty req.exec_id) (Error.invalid_argument exec_is_not_supported)
    answer ← at req.id describe
    pure (Response.state answer)

  unfoldable pub stats : Text → Action W S Response
  stats id = do
    pid ← at id (gets (λ (w, d). d.pid))
    p ← lift (ok_or pid (Error.invalid_argument (codes "task is not running")))
    metrics ← map_error Error.any (reads (λ s. host.get_metrics p s.world))
    pure (Response.stats metrics)

  unfoldable pub connect : Text → Action W S Response
  connect id = do
    pid ← at id (gets (λ (w, d). d.pid))
    pure (Response.connected host.processes.id (unwrap_or pid 0))

  abbrev pub dispatch : Request → Action W S Response
  dispatch (Request.create req) = create req
  dispatch (Request.start req) = start req
  dispatch (Request.kill req) = kill req
  dispatch (Request.delete req) = delete req
  dispatch (Request.wait req) = wait req
  dispatch (Request.state req) = state req
  dispatch (Request.stats id) = stats id
  dispatch (Request.connect id) = connect id
  dispatch Request.shutdown = pure Response.empty

  unfoldable pub handle : Request → Exec (Registry W S) TtrpcError Response
  handle req = map_error (to_ttrpc host.display_shim) (dispatch req)
