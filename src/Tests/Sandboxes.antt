-- ===== src/Tests/Sandboxes.antt =====
-- Errors, hooks, cells and instances of crates/containerd-shim-wasm at concrete inputs.
use containerd_wasm.Base.{ℕ, Text, codes, ◌≡◌, refl, none, some, List, [], ◌∷◌, ok, err, true}
use containerd_wasm.Sandbox.Oci
use containerd_wasm.Sandbox.Oci.{parse_env, run_hooks, WasmLayer}
use containerd_wasm.Sandbox.Oci.Prestart.{run_hooks_any_status}
use containerd_wasm.Sandbox.Sync.{Wake, sets, spurious, returns}
use containerd_wasm.Container.Files.{FileSystem}
use containerd_wasm.Container.Context.{WasiContext}
use containerd_wasm.Container.Executor.{
  Runner, Executor, ExecutorError, validate, exec, ctx, is_linux_container, returned, exited,
}
use containerd_wasm.Container.Executor.Choice.{exec-validate}
use containerd_wasm.Container.Engine.{can_handle}
use containerd_wasm.Container.Unix.{
  Youki, Instance, start, kill, delete, WaitResult, signaled, reap,
}
use containerd_wasm.Container.Unix
use containerd_wasm.Sandbox.RootDir.{absent}
use containerd_wasm.Container.Unix.Codes.{reap-wait}
use containerd_wasm.Tests.Fixture.{World, processes, plain_spec, noon}

abbrev hook : Oci.Hook
hook = record { path = codes "/bin/false"; args = none; env = none }

run_hooks_any_status_example : (run_hooks processes (hook ∷ hook ∷ []) none).1 ≡ ok tt
run_hooks_any_status_example =
    run_hooks_any_status processes (hook ∷ hook ∷ []) none (λ c v. (5, refl)) (λ child v. (1, refl))

abbrev wakes : List (Wake ℕ)
wakes = spurious ∷ sets 3 ∷ sets 4 ∷ []

abbrev layer : WasmLayer
layer = record {
  config = record { digest = codes "sha256:a"; media_type = codes "application/wasm" };
  layer = 7 ∷ [];
}

abbrev files : FileSystem
files = record {
  current_dir = some (codes "/");
  path_var = none;
  canonicalize = λ p. some p;
  is_dir = λ p. true;
  is_file = λ p. true;
  mode = λ p. some 0o755;
  read = λ p. ok (0 ∷ codes "asm");
}

abbrev process : Oci.Process
process = record { args = some (codes "/app.wasm#main" ∷ codes "x" ∷ []); env = none }

abbrev web : WasiContext
web = record { spec = record plain_spec { process = some process }; wasm_layers = [] }

abbrev web_path : Text
web_path = codes "/app.wasm"

abbrev runner : Runner
runner = record {
  fs = files;
  parse_wat = λ p. err (codes "not text");
  engine_name = codes "wasmtime";
  run_wasi = λ c. ok 3;
  exec_linux = λ s. ok tt;
}

abbrev executor : Executor
executor = record { inner = none; wasm_layers = layer ∷ [] }

exec-validate_example :
    let c = ctx executor plain_spec in
    let e' = (validate runner plain_spec executor).0 in
    let refused = ExecutorError.cant_handle (codes "wasmtime") in
    (is_linux_container files c ≡ ok tt
      → ((validate runner plain_spec executor).1 ≡ ok tt)
        × (exec runner web.spec e' ≡ (e', ok returned)))
    × ((x : Text)
        → is_linux_container files c ≡ err x
        → can_handle files runner.parse_wat c ≡ ok tt
        → ((validate runner plain_spec executor).1 ≡ ok tt)
          × (exec runner web.spec e' ≡ (e', ok (exited 3))))
    × ((x y : Text)
        → is_linux_container files c ≡ err x
        → can_handle files runner.parse_wat c ≡ err y
        → ((validate runner plain_spec executor).1 ≡ err refused)
          × (exec runner web.spec e' ≡ (e', err refused)))
exec-validate_example = exec-validate runner executor plain_spec web.spec refl

-- A container is the number of its process; its start fails.
abbrev youki : Youki World ℕ
youki = record {
  connect = λ address namespace w. (w, ok tt);
  open_options = λ w path. absent;
  open_file = λ path w. err (codes "no file");
  with_root_path = λ path w. (w, ok tt);
  build = λ config w. (w, ok 42);
  pid = λ c. some c;
  start = λ wc. (wc, err (codes "no start"));
  signal = λ n. some n;
  kill = λ n wc. (wc, ok tt);
  delete = λ wc. (wc, ok tt);
}

abbrev instance_42 : Instance World ℕ
instance_42 = record { zygote = (none, some 42); exit_code = none }

reap-wait_example :
    Unix.wait_timeout
      (some 0)
      (record instance_42 { exit_code = reap (some (signaled 9)) noon none })
      []
    ≡ returns (some (9, noon))
unfolding Unix.status_of
reap-wait_example = reap-wait instance_42 (some (signaled 9)) noon (some 0) []
