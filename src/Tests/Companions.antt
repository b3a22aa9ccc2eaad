-- ===== src/Tests/Companions.antt =====
-- The image builder and the stress test at concrete inputs.
use containerd_wasm.Base.{
  length, ℕ, ◌+◌, ◌<◌, Text, codes, ◌≡◌, ◌↔◌, refl, Option, none, some, List, [], ◌∷◌, ok, err,
  panic, true, false, contains, Exec, text_eq, if◌then◌else◌,
}
use containerd_wasm.TarBuilder.{Tools, Builder, OciConfig, ref_name, image_config}
use containerd_wasm.TarBuilder.Image.{Args, name_of}
use containerd_wasm.TarBuilder.Options.{ref_name-name_of}
use containerd_wasm.Otel.{
  Env, traces_enabled, traces_endpoint_from_env, traces_endpoint_name, endpoint_name,
}
use containerd_wasm.Otel.Settings.{traces_enabled-traces_endpoint_from_env}
use containerd_wasm.Sandbox.Oci.{WasmLayer}
use containerd_wasm.Container.Files.{FileSystem}
use containerd_wasm.Container.Context.{WasiContext}
use containerd_wasm.Engines.{Crates, exit}
use containerd_wasm.Tests.Fixture.{plain_spec}
use containerd_wasm.StressTest.{
  Counts, Event, setup_done, result, timeout, loop, round, initial, verdict, TaskState,
}
use containerd_wasm.StressTest.Verdict.{verdict-ok}

abbrev pub tools : Tools
tools = record {
  read_file = λ path. ok path;
  metadata = λ path. ok (length path);
  open_file = λ path. ok path;
  digest = λ bytes. bytes;
  parse_digest = λ d. ok tt;
  set_path = λ path. ok tt;
  append = λ archive e. ok tt;
  finish = λ archive. ok tt;
  manifest_json = λ m. ok (codes "{}");
  index_json = λ m. ok (codes "[]");
  layout_json = ok (codes "{}");
  docker_json = λ m. ok (codes "[]");
}

abbrev pub config : OciConfig ℕ
config = record {
  os = λ c. codes "wasip1";
  architecture = λ c. codes "wasm";
  to_string = λ c. codes "{}";
}

abbrev builder : Builder ℕ
builder = record {
  configs = (1, codes "r/app:1", image_config) ∷ [];
  layers = (codes "a.wasm", []) ∷ (codes "b.wasm", []) ∷ (codes "a.wasm", []) ∷ [];
}

abbrev events : List Event
events = setup_done ∷ result true ∷ result false ∷ timeout ∷ []

abbrev counts : Counts
counts = record { incomplete = 1; success = 1; failed = 1 }

abbrev three : ℕ
three = 3

verdict-ok_example :
    (((1 + 1) + 1) ≡ 3)
    × (0 < 3 → (verdict 3 counts ≡ ok tt) ↔ ((counts.failed ≡ 0) × (counts.incomplete ≡ 0)))
    × (three ≡ 0 → verdict 3 counts ≡ panic)
verdict-ok_example = verdict-ok 3 events counts (unfold loop round initial in refl)

-- The world counts the calls.
abbrev refused : Exec ℕ Text (Unit {0})
refused n = (n + 1, err (codes "refused"))

abbrev unmounted : Exec ℕ Text (Unit {0})
unmounted n = (n + 10, ok tt)

abbrev task : TaskState ℕ
task = record { world = 0; deleted = false; unmounted = false }

abbrev pub args : Args
args = record {
  name = codes "app";
  tag = codes "1";
  repo = codes "host:80";
  modules = codes "a.wasm" ∷ [];
  layer = [];
  components = none;
  as_artifact = false;
}

ref_name-name_of_example :
    (args.repo ≡ codes "host" → ref_name (name_of args) ≡ some (codes "1"))
    × (args.repo ≡ codes "host:80" → ref_name (name_of args) ≡ some (codes "80/app"))
ref_name-name_of_example =
    ref_name-name_of args (codes "host") (codes "80") (unfold contains in refl)
      (unfold contains in refl) (unfold contains in refl) (unfold contains in refl)

-- The variable for traces is set to nothing.
abbrev empty_traces : Text → Option Text
empty_traces name =
    if text_eq name traces_endpoint_name
    then some []
    else if text_eq name endpoint_name
    then some (codes "http://host")
    else none

abbrev env : Env
env = record { var_os = empty_traces; is_unicode = λ v. true }

traces_enabled-traces_endpoint_from_env_example :
    (endpoint : Text) × (traces_endpoint_from_env env ≡ ok endpoint)
    × ((endpoint ≡ []) ↔ (env.var_os traces_endpoint_name ≡ some []))
traces_enabled-traces_endpoint_from_env_example =
    traces_enabled-traces_endpoint_from_env env (unfold traces_enabled text_eq in refl) (λ v. refl)

abbrev no_files : FileSystem
no_files = record {
  current_dir = none;
  path_var = none;
  canonicalize = λ p. none;
  is_dir = λ p. false;
  is_file = λ p. false;
  mode = λ p. none;
  read = λ p. err (codes "no file");
}

-- A program, whose run ends in an exit.
abbrev crates : Crates (Text × Text) (List ℕ) (List ℕ) Text
crates = record {
  prepare = ok tt;
  load = λ name bytes. ok bytes;
  instantiate = λ setup m. ok m;
  get_function = λ i f. ok f;
  call = λ i f. err (exit 3);
  exit_code = λ i. 0;
}

abbrev layer : WasmLayer
layer = record { config = record { digest = codes "sha256:a"; media_type = [] }; layer = 7 ∷ [] }

abbrev no_args : WasiContext
no_args = record { spec = plain_spec; wasm_layers = layer ∷ [] }
