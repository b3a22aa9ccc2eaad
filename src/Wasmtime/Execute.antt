-- ===== src/Wasmtime/Execute.antt =====
-- `ComponentTarget`, `execute` and what it calls, `handle_signals` and `into_error_code` of
-- crates/containerd-shim-wasmtime/src/instance.rs. The crates that compile and run Wasm are an
-- interface.
use containerd_wasm.Base.{
  map_err, map_some, ℕ, ◌+◌, Text, codes, Option, none, some, List, [], ◌∷◌, ◌++◌, Bool, true,
  false, if◌then◌else◌, Outcome, ok, err, panic, ok_or, ◌>>?◌, map_ok, starts_with, map, ◌==◌,
  split_once_or,
}
use containerd_wasm.Container.Files.{FileSystem}
use containerd_wasm.Container.Context.{WasiContext, args, envs, entrypoint, as_bytes}
use containerd_wasm.Wasmtime.Compile.{
  Precompiler, WasmBinaryType, module_type, component_type, from_bytes,
}

pub data ComponentTarget : Type 0 where
  command http_proxy : ComponentTarget
  core : Text → ComponentTarget

-- The function that `find_map` is given.
abbrev pub target_of : Text → Option ComponentTarget
target_of name =
    if starts_with (codes "wasi:http/incoming-handler") name
    then some http_proxy
    else if starts_with (codes "wasi:cli/run") name
    then some command
    else none

abbrev or_target : Option ComponentTarget → ComponentTarget → ComponentTarget
or_target (some t) u = t
or_target none u = u

-- `ComponentTarget::new`.
unfoldable pub new : List Text → Text → ComponentTarget
new [] func = core func
new (name ∷ exports) func = or_target (target_of name) (new exports func)

-- `anyhow::Error`, by what `into_error_code` asks of it.
pub data Failure : Type 0 where
  i32_exit : ℕ → Failure
  other : Text → Failure

unfoldable pub into_error_code : Outcome Failure ℕ → Outcome Failure ℕ
into_error_code (err (i32_exit code)) = ok code
into_error_code r = r

-- Of `Result<()>`.
unfoldable pub unit_into_error_code : Outcome Failure (Unit {0}) → Outcome Failure ℕ
unfolding into_error_code
unit_into_error_code r = into_error_code (map_ok (λ _. 0) r)

unfoldable pub envs_from_ctx : WasiContext → List (Text × Text)
envs_from_ctx ctx = map (λ v. split_once_or b'=' v) (envs ctx)

-- `WasiCtx`, by what `wasi_builder` gives it beside the root directory and the network.
pub record WasiCtx : Type 0 where
  pub args : List Text
  pub envs : List (Text × Text)

pub record Runtime (M C I F : Type 0) : Type 0 where
  pub precompiler : Precompiler
  pub module_from_binary : List ℕ → Outcome Failure M
  pub component_from_binary : List ℕ → Outcome Failure C
  pub deserialize_module : List ℕ → Outcome Failure M
  pub deserialize_component : List ℕ → Outcome Failure C
  pub preopened_dir : Outcome Failure (Unit {0})
  pub add_wasi_to_linker : Outcome Failure (Unit {0})
  pub add_http_to_linker : Outcome Failure (Unit {0})
  pub instantiate_module : WasiCtx → M → Outcome Failure I
  pub instantiate_component : WasiCtx → C → Outcome Failure I
  pub proxy_pre : C → Outcome Failure C
  -- By whether the shutdown was requested before it ended.
  pub serve_conn : Bool → WasiContext → C → Outcome Failure (Unit {0})
  -- The outer result is a trap, the inner one what the program says.
  pub call_run : I → Outcome Failure (Outcome (Unit {0}) (Unit {0}))
  pub exports : C → List Text
  pub get_func : I → Text → Option F
  pub call : F → Outcome Failure (Unit {0})

abbrev run_error : Outcome (Unit {0}) (Unit {0}) → Outcome Failure (Unit {0})
run_error (ok u) = ok tt
run_error (err e) = err (other (codes "failed to run component targeting `wasi:cli/command` world"))
run_error panic = panic

module _ {M C I F : Type 0} (rt : Runtime M C I F) where
  unfoldable pub wasi_builder : WasiContext → Outcome Failure WasiCtx
  wasi_builder ctx =
      rt.preopened_dir >>? λ _. ok (record { args = args ctx; envs = envs_from_ctx ctx })

  unfoldable pub execute_module : WasiContext → M → Text → Outcome Failure ℕ
  execute_module ctx m func = wasi_builder ctx >>? λ wasi. rt.add_wasi_to_linker >>? λ _.
      rt.instantiate_module wasi m >>? λ instance.
      ok_or (rt.get_func instance func) (other (codes "module does not have a WASI start function"))
      >>? λ start. unit_into_error_code (rt.call start)

  unfoldable pub run_target : Bool → WasiContext → C → ComponentTarget → Outcome Failure (Unit {0})
  run_target cancelled ctx c http_proxy = rt.add_wasi_to_linker >>? λ _.
      rt.add_http_to_linker >>? λ _. rt.proxy_pre c >>? λ pre. rt.serve_conn cancelled ctx pre
  run_target cancelled ctx c command = wasi_builder ctx >>? λ wasi. rt.add_wasi_to_linker >>? λ _.
      rt.instantiate_component wasi c >>? λ i. rt.call_run i >>? λ said. run_error said
  run_target cancelled ctx c (core func) = wasi_builder ctx >>? λ wasi.
      rt.add_wasi_to_linker >>? λ _. rt.instantiate_component wasi c >>? λ i.
      ok_or (rt.get_func i func)
        (other (codes "component does not have exported function " ++ func))
      >>? λ start. rt.call start

  unfoldable pub execute_component_async : Bool → WasiContext → C → Text → Outcome Failure ℕ
  unfolding run_target new unit_into_error_code
  execute_component_async cancelled ctx c func =
      unit_into_error_code (run_target cancelled ctx c (new (rt.exports c) func))

-- What `wait_for_signal` listens for, once its handlers are registered, which is taken to succeed.
pub data Signal : Type 0 where
  quit terminate interrupt : Signal

-- `libc::SIGINT` is 2 and `libc::SIGTERM` is 15.
unfoldable pub wait_for_signal : Signal → ℕ
wait_for_signal quit = 2
wait_for_signal terminate = 15
wait_for_signal interrupt = 2

-- One signal in `handle_signals`, by whether it has requested a shutdown before: whether it has now,
-- and the code that it returns.
unfoldable pub handle_signal : Bool → Signal → Bool × Option ℕ
unfolding wait_for_signal
handle_signal true s = (true, some (wait_for_signal s))
handle_signal false s =
    if wait_for_signal s == 2 then (true, none) else (false, some (128 + wait_for_signal s))

-- What happens to a component that runs: it finishes, or the process gets a signal.
pub data Event : Type 0 where
  finishes : Event
  receives : Signal → Event

-- The `select!` of `execute_component`. What the run comes to depends on whether it was cancelled.
unfoldable pub select : (Bool → Outcome Failure ℕ) → Bool → List Event → Option (Outcome Failure ℕ)
unfolding handle_signal
select run cancelled [] = none
select run cancelled (finishes ∷ events) = some (run cancelled)
select run cancelled (receives s ∷ events) =
    let (cancelled', code) = handle_signal cancelled s in
    let rest = select run cancelled' events in elim code [ none ↦ rest | some c ↦ some (ok c) ]

module _ {M C I F : Type 0} (rt : Runtime M C I F) where
  abbrev run_component : WasiContext → Text → List Event → C → Option (Outcome Failure ℕ)
  run_component ctx func events c =
      select (λ cancelled. execute_component_async rt cancelled ctx c func) false events

  abbrev loaded :
      {T : Type 0}
      → Outcome Failure T
      → (T → Option (Outcome Failure ℕ))
      → Option (Outcome Failure ℕ)
  loaded (ok t) run = run t
  loaded (err e) run = some (err e)
  loaded panic run = some panic

  abbrev execute_precompiled :
      WasiContext → List ℕ → Text → List Event → Option WasmBinaryType → Option (Outcome Failure ℕ)
  execute_precompiled ctx bytes func events (some module_type) =
      loaded (rt.deserialize_module bytes) λ m. some (execute_module rt ctx m func)
  execute_precompiled ctx bytes func events (some component_type) =
      loaded (rt.deserialize_component bytes) (run_component ctx func events)
  execute_precompiled ctx bytes func events none =
      some (err (other (codes "invalid precompiled module")))

  abbrev execute_as :
      WasiContext → List ℕ → Text → List Event → Option WasmBinaryType → Option (Outcome Failure ℕ)
  execute_as ctx bytes func events (some module_type) =
      loaded (rt.module_from_binary bytes) λ m. some (execute_module rt ctx m func)
  execute_as ctx bytes func events (some component_type) =
      loaded (rt.component_from_binary bytes) (run_component ctx func events)
  execute_as ctx bytes func events none =
      execute_precompiled ctx bytes func events (rt.precompiler.detect_precompiled bytes)

  -- Nothing while a component still runs after these events.
  unfoldable pub execute : WasiContext → List ℕ → Text → List Event → Option (Outcome Failure ℕ)
  execute ctx bytes func events = execute_as ctx bytes func events (from_bytes rt.precompiler bytes)

  -- `run_wasi` of the engine.
  unfoldable pub run_wasi : FileSystem → WasiContext → List Event → Option (Outcome Failure ℕ)
  unfolding execute entrypoint as_bytes into_error_code
  run_wasi fs ctx events =
      loaded (map_err other (as_bytes fs (entrypoint ctx).source))
        λ bytes. map_some into_error_code (execute ctx bytes (entrypoint ctx).func events)
