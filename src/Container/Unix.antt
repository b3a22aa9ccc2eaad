-- ===== src/Container/Unix.antt =====
-- crates/containerd-shim-wasm/src/sys/unix/container: instance.rs, and container.rs with the slot in
-- the zygote process that holds youki's container. The zygote itself is taken to stay alive.
pub mod Codes
use containerd_wasm.Base.{
  ℕ, Text, codes, ◌++◌, Option, none, some, List, [], ◌∷◌, Outcome, ok, err, panic, unwrap_or,
  ok_or, Exec, ◌>>=◌, ◌>>◌, pure, fail, lift, attempt, map_error, map_err, FilePath, path_join,
}
use containerd_wasm.Sandbox.Error.{Error, any, display}
use containerd_wasm.Sandbox.Config.{InstanceConfig}
use containerd_wasm.Sandbox.Instance.{DateTime, Exit}
use containerd_wasm.Sandbox.Oci.{WasmLayer}
use containerd_wasm.Sandbox.RootDir.{OptionsFile, determine_rootdir}
use containerd_wasm.Sandbox.Sync
use containerd_wasm.Sandbox.Sync.{Cell, Wake, Waited}
use containerd_wasm.Containerd.Services.{Services, Engine, Platform}
use containerd_wasm.Containerd.Client.{load_modules}
use containerd_wasm.Container.Executor.{Executor, new as new_executor}

-- What the builder of youki is given.
pub record BuildConfig : Type 0 where
  pub id : Text
  pub executor : Executor
  pub root_path : FilePath
  pub stdin : Option ℕ
  pub stdout : Option ℕ
  pub stderr : Option ℕ
  pub bundle : FilePath

-- Youki's containers, and the files that an instance opens. A file is its descriptor.
pub record Youki (W Y : Type 0) : Type 0 where
  pub connect : Text → Text → Exec W Error (Unit {0})
  pub open_options : W → FilePath → OptionsFile
  pub open_file : Text → W → Outcome Text ℕ
  pub with_root_path : FilePath → Exec W Text (Unit {0})
  pub build : BuildConfig → Exec W Text Y
  pub pid : Y → Option ℕ
  pub start : Exec (W × Y) Text (Unit {0})
  pub signal : ℕ → Option ℕ
  -- With `all` and `force` set.
  pub kill : ℕ → Exec (W × Y) Text (Unit {0})
  pub delete : Exec (W × Y) Text (Unit {0})

-- The world, and the slot for the container.
abbrev pub Zygote : Type 0 → Type 0 → Type 0
Zygote W Y = W × Option Y

-- `Container::run`: the container is taken out of its slot, and put back changed.
abbrev pub run : {W Y A : Type 0} → Exec (W × Y) Text A → Exec (Zygote W Y) Text A
run f (w, none) = ((w, none), panic)
run f (w, some y) = let ((w', y'), r) = f (w, y) in ((w', some y'), r)

-- `Container::run_init`.
abbrev pub filled :
    {W Y : Type 0} → Option Y → W → Outcome Text Y → Zygote W Y × Outcome Text (Unit {0})
filled old w (ok y) = ((w, some y), ok tt)
filled old w (err e) = ((w, old), err e)
filled old w panic = ((w, old), panic)

abbrev pub run_init : {W Y : Type 0} → Exec W Text Y → Exec (Zygote W Y) Text (Unit {0})
run_init f (w, old) = let (w', r) = f w in filled old w' r

module _ {W Y : Type 0} (y : Youki W Y) where
  unfoldable pub container_pid : Exec (Zygote W Y) Text ℕ
  container_pid = do
    p ← run (λ (w, c). ((w, c), ok (y.pid c)))
    lift (ok_or p (codes "Failed to obtain PID"))

  unfoldable pub container_start : Exec (Zygote W Y) Text (Unit {0})
  container_start = run y.start

  abbrev pub send_signal : ℕ → Exec (W × Y) Text (Unit {0})
  send_signal signal = do
    s ← lift (ok_or (y.signal signal) (codes "invalid signal number"))
    y.kill s

  unfoldable pub container_kill : ℕ → Exec (Zygote W Y) Text (Unit {0})
  container_kill signal = run (send_signal signal)

  unfoldable pub container_delete : Exec (Zygote W Y) Text (Unit {0})
  container_delete = run y.delete

  abbrev opened : W → Text → Option ℕ
  opened w path = elim (y.open_file path w) [ ok f ↦ some f | err e ↦ none | panic ↦ none ]

  -- The root directory is never missed with an error of the shim library.
  abbrev shown : {A : Type 0} → Outcome Error A → Outcome Text A
  shown r = map_err (display (λ e. [])) r

  abbrev build_config : Text → InstanceConfig → List WasmLayer → FilePath → W → BuildConfig
  build_config id cfg modules rootdir w = record {
    id = id;
    executor = new_executor modules;
    root_path = rootdir;
    stdin = opened w cfg.stdin;
    stdout = opened w cfg.stdout;
    stderr = opened w cfg.stderr;
    bundle = cfg.bundle;
  }

  -- The closure that `new` gives to `Container::build`.
  unfoldable pub build_container : Engine → Text → InstanceConfig → List WasmLayer → Exec W Text Y
  unfolding determine_rootdir
  build_container engine id cfg modules w =
      (do
        rootdir ← lift (
            shown (
              determine_rootdir (y.open_options w) cfg.bundle cfg.namespace
                (path_join (codes "/run/containerd") engine.name)))
        _ ← y.with_root_path rootdir
        (λ w'. y.build (build_config id cfg modules rootdir w') w'))
        w

-- The fields of `Instance` that change, with the world.
pub record Instance (W Y : Type 0) : Type 0 where
  pub zygote : Zygote W Y
  pub exit_code : Cell Exit

module _ {W Y : Type 0} (c : Services W) (engine : Engine) (y : Youki W Y) where
  abbrev layers_or_none : Outcome Error (List WasmLayer × Platform) → Outcome Error (List WasmLayer)
  layers_or_none (ok (modules, platform)) = ok modules
  layers_or_none (err e) = ok []
  layers_or_none panic = panic

  abbrev loaded : Text → Exec W Error (List WasmLayer)
  loaded id w = let (w', r) = load_modules c engine id w in (w', layers_or_none r)

  abbrev built : Text → InstanceConfig → List WasmLayer → W → W × Outcome Error (Option Y)
  built id cfg modules w =
      let ((w', slot), r) = run_init (build_container y engine id cfg modules) (w, none) in
      (w', elim r [ ok u ↦ ok slot | err e ↦ err (any e) | panic ↦ panic ])

  unfoldable pub new : Text → InstanceConfig → W → W × Outcome Error (Option Y × Cell Exit)
  new id cfg = do
    _ ← y.connect cfg.containerd_address cfg.namespace
    modules ← loaded id
    slot ← built id cfg modules
    pure (slot, Sync.new)

module _ {W Y : Type 0} (y : Youki W Y) where
  abbrev on_zygote : {A : Type 0} → Exec (Zygote W Y) Text A → Exec (Instance W Y) Error A
  on_zygote f i = let (z, r) = f i.zygote in (record i { zygote = z }, map_err any r)

  abbrev drop : DateTime → Instance W Y → Instance W Y
  drop now i = record i { exit_code = Sync.drop_guard (137, now) i.exit_code }

  -- The guard of the exit code is dropped where the call fails, else it is moved into the thread.
  abbrev settle :
      {A : Type 0} → DateTime → Instance W Y → Outcome Error A → Instance W Y × Outcome Error A
  settle now i (ok a) = (i, ok a)
  settle now i (err e) = (drop now i, err e)
  settle now i panic = (drop now i, panic)

  abbrev started : Exec (Instance W Y) Error ℕ
  started = do pid ← on_zygote (container_pid y); _ ← on_zygote (container_start y); pure pid

  -- `start`, up to the thread that it leaves behind, which is `reap`.
  unfoldable pub start : DateTime → Exec (Instance W Y) Error ℕ
  start now i = let (i', r) = started i in settle now i' r

  unfoldable pub kill : ℕ → Exec (Instance W Y) Error (Unit {0})
  kill signal = on_zygote (container_kill y signal)

  unfoldable pub delete : Exec (Instance W Y) Error (Unit {0})
  delete = on_zygote (container_delete y)

-- What `waitid` gives. Numbers are taken as `u32`.
pub data WaitResult : Type 0 where
  exited signaled : ℕ → WaitResult
  other_status no_child : WaitResult
  failed : Text → WaitResult

unfoldable pub status_of : WaitResult → ℕ
status_of (exited status) = status
status_of (signaled sig) = sig
status_of other_status = 0
status_of no_child = 0
status_of (failed e) = 137

-- The thread of `start`. Without a result of `waitid`, it has panicked.
abbrev pub reported : Option WaitResult → DateTime → Cell Exit → Cell Exit
reported none now cell = cell
reported (some r) now cell = (Sync.set (status_of r, now) cell).0

unfoldable pub reap : Option WaitResult → DateTime → Cell Exit → Cell Exit
reap result now cell = Sync.drop_guard (137, now) (reported result now cell)

unfoldable pub wait_timeout :
    {W Y : Type 0} → Option ℕ → Instance W Y → List (Wake Exit) → Waited Exit
wait_timeout t i wakes = Sync.wait_timeout t i.exit_code wakes
