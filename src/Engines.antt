-- ===== src/Engines.antt =====
-- The engines of crates/containerd-shim-wasmer, crates/containerd-shim-wasmedge and
-- crates/containerd-shim-wamr (src/instance.rs of each): `run_wasi`, over what the engines' crates do.
use containerd_wasm.Base.{
  ℕ, Text, codes, Option, none, some, List, [], ◌∷◌, Outcome, ok, err, panic, unwrap_or, ◌>>?◌,
  map_err, map, split_once,
}
use containerd_wasm.Container.Files.{FileSystem}
use containerd_wasm.Container.Context.{WasiContext, args, envs, entrypoint, as_bytes}

-- The error of a run: the exit of a program, where the crate tells it apart, or a text.
pub data RunError : Type 0 where
  exit : ℕ → RunError
  failed : Text → RunError

-- What an engine is given about the container.
pub record Setup (V : Type 0) : Type 0 where
  pub mod_name : Text
  pub args : List Text
  pub envs : List V

-- The steps that the crates do. `prepare` stands for the set-up that does not look at the container.
pub record Crates (V M I F : Type 0) : Type 0 where
  pub prepare : Outcome Text (Unit {0})
  pub load : Text → List ℕ → Outcome Text M
  pub instantiate : Setup V → M → Outcome Text I
  pub get_function : I → Text → Outcome Text F
  pub call : I → F → Outcome RunError (Unit {0})
  -- Of the WASI module, after a run that succeeds.
  pub exit_code : I → ℕ

abbrev pub module_name : Option Text → Text
module_name name = unwrap_or name (codes "main")

abbrev failed_text : {A : Type 0} → Outcome Text A → Outcome RunError A
failed_text r = map_err failed r

-- `&args[1..]`, which panics where there is no first argument.
abbrev pub args_from_1 : List Text → Outcome RunError (List Text)
args_from_1 [] = panic
args_from_1 (a ∷ args) = ok args

abbrev env_pair : Text → Text × Text
env_pair v = elim (split_once b'=' v) [ none ↦ (v, []) | some kv ↦ kv ]

abbrev exit_status : Outcome RunError (Unit {0}) → Outcome RunError ℕ
exit_status (ok u) = ok 0
exit_status (err (exit code)) = ok code
exit_status (err (failed e)) = err (failed e)
exit_status panic = panic

module _ {M I F : Type 0} (fs : FileSystem) where
  unfoldable pub wasmer_run_wasi : Crates (Text × Text) M I F → WasiContext → Outcome RunError ℕ
  unfolding as_bytes entrypoint
  wasmer_run_wasi c ctx =
      let entry = entrypoint ctx in
      failed_text (as_bytes fs entry.source) >>? λ wasm_bytes.
      failed_text (c.load (module_name entry.name) wasm_bytes) >>? λ m.
      failed_text c.prepare >>? λ _. args_from_1 (args ctx) >>? λ rest.
      failed_text (
        c.instantiate
          (record {
            mod_name = module_name entry.name;
            args = rest;
            envs = map env_pair (envs ctx);
          })
          m)
      >>? λ instance. failed_text (c.get_function instance entry.func) >>? λ start.
          exit_status (c.call instance start)

  -- WasmEdge makes its WASI module, by `prepare`, before it reads the bytes.
  unfoldable pub wasmedge_run_wasi : Crates Text M I F → WasiContext → Outcome RunError ℕ
  unfolding as_bytes entrypoint
  wasmedge_run_wasi c ctx =
      let entry = entrypoint ctx in
      failed_text c.prepare >>? λ _. failed_text (as_bytes fs entry.source) >>? λ wasm_bytes.
      failed_text (c.load (module_name entry.name) wasm_bytes) >>? λ m.
      failed_text (
        c.instantiate
          (record { mod_name = module_name entry.name; args = args ctx; envs = envs ctx }) m)
      >>? λ vm. failed_text (c.get_function vm entry.func) >>? λ f.
          c.call vm f >>? λ _. ok (c.exit_code vm)

  unfoldable pub wamr_run_wasi : Crates Text M I F → WasiContext → Outcome RunError ℕ
  unfolding as_bytes entrypoint
  wamr_run_wasi c ctx =
      let entry = entrypoint ctx in
      failed_text (as_bytes fs entry.source) >>? λ wasm_bytes.
      failed_text (c.load (module_name entry.name) wasm_bytes) >>? λ m.
      failed_text (
        c.instantiate
          (record { mod_name = module_name entry.name; args = args ctx; envs = envs ctx }) m)
      >>? λ instance.
          failed_text (c.get_function instance entry.func) >>? λ f. c.call instance f >>? λ _. ok 0
