-- ===== src/Tests/Engines.antt =====
-- The Wasmtime shim at concrete inputs.
use containerd_wasm.Base.{
  ℕ, zero, codes, ◌≡◌, ◌≢◌, refl, Option, none, some, List, [], ◌∷◌, ok, err, true, false, Bool,
  length, ◌<◌, ◌%◌, ◌^◌,
}
use containerd_wasm.Base.Dict
use containerd_wasm.Sandbox.Error.{failed_precondition}
use containerd_wasm.Sandbox.Oci.{WasmLayer, Process}
use containerd_wasm.Containerd.Client.{compiled_or_original}
use containerd_wasm.Container.Files.{FileSystem}
use containerd_wasm.Container.Context.{WasiContext}
use containerd_wasm.Wasmtime.Compile.{Precompiler, from_bytes, compile_layer, precompile}
use containerd_wasm.Wasmtime.Layers.{count_known, precompile-unknown}
use containerd_wasm.Wasmtime.Execute.{
  i32_exit, Runtime, Signal, quit, terminate, finishes, receives, select, wait_for_signal,
}
use containerd_wasm.Wasmtime.Exits.{select-signals}
use containerd_wasm.Wasmtime.HttpProxy.{next_req_id}
use containerd_wasm.Wasmtime.HttpProxy.Requests.{requests, next_req_id-distinct}
use containerd_wasm.Tests.Fixture.{plain_spec}
use containerd_wasm.Tests.Store.{services}

-- Bytes are a module if they begin with a zero.
abbrev is_module : List ℕ → Bool
is_module (zero ∷ bytes) = true
is_module _ = false

abbrev precompiler : Precompiler
precompiler = record {
  is_component = λ b. false;
  is_core_wasm = is_module;
  detect_precompiled = λ b. none;
  precompile_module = λ b. ok (9 ∷ b);
  precompile_component = λ b. ok b;
}

abbrev layer : List ℕ → WasmLayer
layer bytes = record {
  config = record { digest = codes "sha256:a"; media_type = [] };
  layer = bytes;
}

abbrev layers : List WasmLayer
layers = layer (0 ∷ []) ∷ layer (5 ∷ []) ∷ []

abbrev compiled : List (Option (List ℕ))
compiled = some (9 ∷ 0 ∷ []) ∷ []

precompile-unknown_example :
    (length compiled < length layers)
    × (compiled_or_original services
          (codes "id")
          (codes "sha256:i")
          layers
          (precompile precompiler layers)
          []
        ≡ ([], err (failed_precondition (codes "precompile returned wrong number of layers"))))
precompile-unknown_example =
    precompile-unknown precompiler services (codes "id") (codes "sha256:i") layers compiled []
      (unfold count_known from_bytes in λ e. cc)
      (unfold precompile compile_layer from_bytes in refl)

-- A program, by what its start function comes to.
abbrev runtime : Runtime (List ℕ) (List ℕ) (List ℕ) (List ℕ)
runtime = record {
  precompiler = precompiler;
  module_from_binary = λ b. ok b;
  component_from_binary = λ b. ok b;
  deserialize_module = λ b. ok b;
  deserialize_component = λ b. ok b;
  preopened_dir = ok tt;
  add_wasi_to_linker = ok tt;
  add_http_to_linker = ok tt;
  instantiate_module = λ wasi m. ok m;
  instantiate_component = λ wasi c. ok c;
  proxy_pre = λ c. ok c;
  serve_conn = λ cancelled ctx c. ok tt;
  call_run = λ i. ok (ok tt);
  exports = λ c. [];
  get_func = λ i f. some i;
  call = λ f. err (i32_exit 3);
}

abbrev process : Process
process = record { args = none; env = some (codes "A=1" ∷ codes "WASMTIME_HTTP_BACKLOG=7" ∷ []) }

abbrev web : WasiContext
web = record { spec = record plain_spec { process = some process }; wasm_layers = [] }

abbrev layered : WasiContext
layered = record web { wasm_layers = layer (0 ∷ []) ∷ [] }

abbrev files : FileSystem
files = record {
  current_dir = none;
  path_var = none;
  canonicalize = λ p. none;
  is_dir = λ p. false;
  is_file = λ p. false;
  mode = λ p. none;
  read = λ p. err (codes "no file");
}

select-signals_example :
    (select (λ c. ok 1) false (receives terminate ∷ []) ≡ some (ok 143))
    × (quit ≢ terminate
        → (select (λ c. ok 1) false (receives quit ∷ finishes ∷ []) ≡ some (ok 1))
          × ((s' : Signal)
              → select (λ c. ok 1) false (receives quit ∷ receives s' ∷ [])
                ≡ some (ok (wait_for_signal s'))))
    × ((s' : Signal) → select (λ c. ok 1) false (receives quit ∷ receives s' ∷ []) ≢ none)
select-signals_example = select-signals (λ c. ok 1) quit []

next_req_id-distinct_example :
    ((next_req_id (requests 2 0)).1 ≡ 2 % (2 ^ 64))
    × (1 < 2 → 2 < 2 ^ 64 → (next_req_id (requests 1 0)).1 ≢ (next_req_id (requests 2 0)).1)
next_req_id-distinct_example = next_req_id-distinct 1 2
