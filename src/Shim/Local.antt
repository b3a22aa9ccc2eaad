-- ===== src/Shim/Local.antt =====
-- crates/containerd-shim-wasm/src/sandbox/shim/local.rs: the task service. Its instances are shared
-- (`Arc`) between the map and the threads that wait for them, so they lie on a heap and are known by
-- their place on it.
pub mod Create
pub mod Tasks
pub mod Answers
pub mod Steps
pub mod Valid
pub mod Invariant
pub mod Frame
pub mod Registry
pub mod Clean
pub mod Counts
pub mod Once
pub mod Races
use containerd_wasm.Base.{
  ℕ, suc, Text, codes, ◌++◌, Option, none, some, List, [], ◌∷◌, Bool, true, false, not, ◌&&◌,
  is_empty, is_some, unwrap_or, map_some, if◌then◌else◌, Outcome, ok, err, panic, ok_or, map_err,
  Exec, ◌>>=◌, ◌>>◌, pure, fail, lift, reads, gets, modify, guard, map_error, length, get_elem?,
  set, path_join,
}
use containerd_wasm.Base.Dict
use containerd_wasm.Base.Dict.{Dict}
use containerd_wasm.Sandbox.Error.{Error, ShimError, shim, unimplemented, TtrpcError, to_ttrpc}
use containerd_wasm.Sandbox.Config
use containerd_wasm.Sandbox.Config.{InstanceConfig}
use containerd_wasm.Sandbox.Instance
use containerd_wasm.Sandbox.Instance.{Exit, DateTime}
use containerd_wasm.Sandbox.Oci
use containerd_wasm.Sandbox.Oci.{Spec}
use containerd_wasm.Shim.InstanceData
use containerd_wasm.Shim.InstanceData.{InstanceData, Method}
use containerd_wasm.Shim.Api.{
  Mount, CreateTaskRequest, ExecRequest, KillRequest, Request, Response, StateResponse, Status,
  Timestamp, to_timestamp, Event,
}

-- What the service uses that is not its own: the runtime, hooks, the file system, threads, metrics.
pub record Host (W S : Type 0) : Type 0 where
  pub runtime : Instance.Instance W S
  pub processes : Oci.Processes W
  pub spec_load : Text → W → Outcome Text Spec
  pub canonicalize_rootfs : Spec → Text → W → Outcome Text Spec
  pub create_dir_all : Text → W → W
  pub mount_rootfs : Option Text → Option Text → List Text → Text → Exec W ShimError (Unit {0})
  pub get_metrics : ℕ → W → Outcome Text Text
  pub can_spawn : W → Bool
  pub display_shim : ShimError → Text

-- A thread that `start` left behind to wait for an instance.
pub record Waiter : Type 0 where
  pub id : Text
  pub handle : ℕ
  pub pid : ℕ

pub record Local (W S : Type 0) : Type 0 where
  pub world : W
  pub heap : List (InstanceData S)
  pub instances : Dict ℕ
  pub events : List Event
  pub waiters : List Waiter
  pub exit_signalled : Bool
  pub namespace : Text
  pub containerd_address : Text

abbrev pub Handler : Type 0 → Type 0 → Type 0 → Type 0
Handler W S A = Exec (Local W S) Error A

unfoldable pub new : {W S : Type 0} → W → Text → Text → Local W S
new world namespace containerd_address = record {
  world = world;
  heap = [];
  instances = [];
  events = [];
  waiters = [];
  exit_signalled = false;
  namespace = namespace;
  containerd_address = containerd_address;
}

abbrev pub none_if_empty : Text → Option Text
none_if_empty [] = none
none_if_empty (a ∷ s) = some (a ∷ s)

abbrev pub exec_is_not_supported : Text
exec_is_not_supported = codes "exec is not supported"

module _ {W S : Type 0} where
  unfoldable pub get_instance : Text → Handler W S ℕ
  get_instance id = reads (λ l. ok_or (Dict.get id l.instances) (Error.not_found id))

  unfoldable pub has_instance : Text → Local W S → Bool
  has_instance id l = is_some (Dict.get id l.instances)

  unfoldable pub instance_config : Local W S → InstanceConfig
  unfolding Config.new
  instance_config l = Config.new l.namespace l.containerd_address

  -- `events.send`.
  abbrev pub send : Event → Handler W S (Unit {0})
  send e = modify (λ l. record l { events = l.events ++ e ∷ [] })

  -- An action on the outside world alone.
  abbrev pub on_world : {E A : Type 0} → Exec W E A → Exec (Local W S) E A
  on_world m l = let (w, r) = m l.world in (record l { world = w }, r)

  -- The rest of `i.method()`, when the data of `i` is found; a handle always is.
  abbrev pub on_found : {A : Type 0} → ℕ → Method W S A → Option (InstanceData S) → Handler W S A
  on_found h m none l = (l, panic)
  on_found h m (some d) l =
      let ((w, d'), r) = m (l.world, d) in (record l { world = w; heap = set l.heap h d' }, r)

  abbrev pub on_data : {A : Type 0} → ℕ → Method W S A → Handler W S A
  on_data h m l = on_found h m (get_elem? l.heap h) l

  abbrev pub pid_of : ℕ → Handler W S (Option ℕ)
  pid_of h = on_data h (gets (λ (w, d). d.pid))

  abbrev pub config_of : ℕ → Handler W S InstanceConfig
  config_of h = on_data h (gets (λ (w, d). d.cfg))

  -- A new `Arc` in the map.
  abbrev pub insert_instance : Text → InstanceData S → Handler W S (Unit {0})
  insert_instance id d = modify (λ l. record l {
    heap = l.heap ++ d ∷ [];
    instances = Dict.put id (length l.heap) l.instances;
  })

abbrev pub exit_status : Option Exit → ℕ
exit_status none = 0
exit_status (some (code, t)) = code

abbrev pub exited_at : Option Exit → Option Timestamp
exited_at none = none
exited_at (some (code, t)) = some (to_timestamp t)

abbrev pub status_of : Option ℕ → Option Exit → Status
status_of none e = Status.created
status_of (some p) none = Status.running
status_of (some p) (some e) = Status.stopped

abbrev pub config_for : CreateTaskRequest → InstanceConfig → InstanceConfig
config_for req cfg =
    Config.set_stderr req.stderr
      (Config.set_stdout req.stdout (Config.set_stdin req.stdin (Config.set_bundle req.bundle cfg)))

module _ {W S : Type 0} (host : Host W S) where
  unfoldable pub mount_all : Text → List Mount → Handler W S (Unit {0})
  mount_all rootfs [] = pure tt
  mount_all rootfs (m ∷ ms) = do
    map_error shim (
        on_world (
          host.mount_rootfs (none_if_empty m.mount_type) (none_if_empty m.source) m.options rootfs))
    mount_all rootfs ms

  -- What `task_create` does before it makes the instance: its guards, the spec and the mounts.
  unfoldable pub prepare : CreateTaskRequest → Handler W S Spec
  unfolding has_instance mount_all
  prepare req = do
    guard (is_empty req.checkpoint && is_empty req.parent_checkpoint)
        (shim (unimplemented (codes "checkpoint is not supported")))
    guard (not req.terminal) (Error.invalid_argument (codes "terminal is not supported"))
    taken ← gets (has_instance req.id)
    guard (not taken) (Error.already_exists req.id)
    loaded ←
        map_error (λ e. Error.invalid_argument (codes "could not load runtime spec: " ++ e))
          (reads (λ l. host.spec_load (path_join req.bundle (codes "config.json")) l.world))
    spec ←
        map_error
          (λ e. shim (ShimError.invalid_argument (codes "could not canonicalize rootfs: " ++ e)))
          (reads (λ l. host.canonicalize_rootfs loaded req.bundle l.world))
    rootfs ←
        lift (ok_or spec.root (Error.invalid_argument (codes "rootfs is not set in runtime spec")))
    modify (λ l. record l { world = host.create_dir_all rootfs l.world })
    mount_all rootfs req.rootfs
    pure spec

  -- What it does after that.
  unfoldable pub register : CreateTaskRequest → Spec → Handler W S Response
  unfolding instance_config InstanceData.new
  register req spec = do
    cfg ← gets (λ l. config_for req (instance_config l))
    instance_data ← on_world (InstanceData.new host.runtime req.id cfg)
    insert_instance req.id instance_data
    send (Event.task_create req.id req.bundle req.rootfs req.stdin req.stdout req.stderr)
    on_world (Oci.setup_prestart_hooks host.processes spec.hooks)
    pure (Response.created host.processes.id)

  unfoldable pub task_create : CreateTaskRequest → Handler W S Response
  unfolding register
  task_create req = do spec ← prepare req; register req spec

  unfoldable pub task_start : ExecRequest → Handler W S Response
  unfolding get_instance
  task_start req = do
    guard (is_empty req.exec_id) (shim (unimplemented exec_is_not_supported))
    i ← get_instance req.id
    pid ← on_data i (InstanceData.start host.runtime)
    send (Event.task_start req.id pid)
    spawned ← gets (λ l. host.can_spawn l.world)
    guard spawned (Error.any (codes "could not spawn thread to wait exit"))
    modify (λ l. record l {
      waiters = l.waiters ++ record { id = req.id; handle = i; pid = pid } ∷ [];
    })
    pure (Response.started pid)

  -- The body of the thread that `task_start` spawns.
  unfoldable pub wait_thread : Waiter → Handler W S (Unit {0})
  wait_thread w = do
    (exit_code, timestamp) ← on_data w.handle (InstanceData.wait host.runtime)
    send (Event.task_exit w.id exit_code (some (to_timestamp timestamp)) w.pid w.id)

  unfoldable pub task_kill : KillRequest → Handler W S Response
  unfolding get_instance
  task_kill req = do
    guard (is_empty req.exec_id) (Error.invalid_argument exec_is_not_supported)
    i ← get_instance req.id
    on_data i (InstanceData.kill host.runtime req.signal)
    pure Response.empty

  unfoldable pub task_delete : ExecRequest → Handler W S Response
  unfolding get_instance
  task_delete req = do
    guard (is_empty req.exec_id) (Error.invalid_argument exec_is_not_supported)
    i ← get_instance req.id
    on_data i (InstanceData.delete host.runtime)
    pid ← pid_of i
    exit ← on_data i (InstanceData.wait_timeout host.runtime (some 0))
    modify (λ l. record l { instances = Dict.remove req.id l.instances })
    send (Event.task_delete req.id (unwrap_or pid 0) (exit_status exit) (exited_at exit))
    pure (Response.deleted (unwrap_or pid 0) (exit_status exit) (exited_at exit))

  unfoldable pub task_wait : ExecRequest → Handler W S Response
  unfolding get_instance
  task_wait req = do
    guard (is_empty req.exec_id) (Error.invalid_argument exec_is_not_supported)
    i ← get_instance req.id
    (exit_code, timestamp) ← on_data i (InstanceData.wait host.runtime)
    pure (Response.waited exit_code (some (to_timestamp timestamp)))

  unfoldable pub task_state : ExecRequest → Handler W S Response
  unfolding get_instance
  task_state req = do
    guard (is_empty req.exec_id) (Error.invalid_argument exec_is_not_supported)
    i ← get_instance req.id
    pid ← pid_of i
    exit ← on_data i (InstanceData.wait_timeout host.runtime (some 0))
    cfg ← config_of i
    pure (
        Response.state (record {
          bundle = cfg.bundle;
          stdin = cfg.stdin;
          stdout = cfg.stdout;
          stderr = cfg.stderr;
          pid = unwrap_or pid 0;
          exit_status = exit_status exit;
          exited_at = exited_at exit;
          status = status_of pid exit;
        }))

  unfoldable pub task_stats : Text → Handler W S Response
  unfolding get_instance
  task_stats id = do
    i ← get_instance id
    pid ← pid_of i
    p ← lift (ok_or pid (Error.invalid_argument (codes "task is not running")))
    metrics ← map_error Error.any (reads (λ l. host.get_metrics p l.world))
    pure (Response.stats metrics)

  unfoldable pub connect : Text → Handler W S Response
  unfolding get_instance
  connect id = do
    i ← get_instance id
    pid ← pid_of i
    pure (Response.connected host.processes.id (unwrap_or pid 0))

  unfoldable pub shutdown : Handler W S Response
  shutdown = do
    modify (λ l. if is_empty l.instances then record l { exit_signalled = true } else l)
    pure Response.empty

  abbrev pub dispatch : Request → Handler W S Response
  dispatch (Request.create req) = task_create req
  dispatch (Request.start req) = task_start req
  dispatch (Request.kill req) = task_kill req
  dispatch (Request.delete req) = task_delete req
  dispatch (Request.wait req) = task_wait req
  dispatch (Request.state req) = task_state req
  dispatch (Request.stats id) = task_stats id
  dispatch (Request.connect id) = connect id
  dispatch Request.shutdown = shutdown

  -- `impl Task for Local`: each method is the one above, with its error as a status.
  unfoldable pub handle : Request → Exec (Local W S) TtrpcError Response
  handle req = map_error (to_ttrpc host.display_shim) (dispatch req)
