-- ===== src/Container/Context.antt =====
-- crates/containerd-shim-wasm/src/container/context.rs: what an engine is told about the container.
pub mod Parts
use containerd_wasm.Base.{
  ℕ, Text, codes, Option, none, some, List, [], ◌∷◌, Bool, true, false, if◌then◌else◌, Outcome, ok,
  err, ok_or, and_then, unwrap_or, head?, split_once, file_stem, ◌>>?◌, FilePath,
}
use containerd_wasm.Sandbox.Oci.{Spec, Process, WasmLayer}
use containerd_wasm.Container.Files.{FileSystem, resolve_in_path_or_cwd}

pub data Source : Type 0 where
  file : FilePath → Source
  oci : List WasmLayer → Source

pub record WasiContext : Type 0 where
  pub spec : Spec
  pub wasm_layers : List WasmLayer

pub record Entrypoint : Type 0 where
  pub func : Text
  pub name : Option Text
  pub arg0 : Option Text
  pub source : Source

unfoldable pub args : WasiContext → List Text
args ctx = unwrap_or (and_then ctx.spec.process (λ p. p.args)) []

unfoldable pub envs : WasiContext → List Text
envs ctx = unwrap_or (and_then ctx.spec.process (λ p. p.env)) []

-- `entry_point.split_once('#').unwrap_or((entry_point, "_start"))`.
abbrev pub path_and_func : Text → Text × Text
path_and_func entry_point = unwrap_or (split_once b'#' entry_point) (entry_point, codes "_start")

abbrev pub source_of : List WasmLayer → FilePath → Source
source_of [] path = file path
source_of (l ∷ ls) path = oci (l ∷ ls)

unfoldable pub entrypoint : WasiContext → Entrypoint
unfolding args
entrypoint ctx =
    let arg0 = head? (args ctx) in
    let (path, func) = path_and_func (unwrap_or arg0 []) in
    record {
      func = func;
      name = file_stem path;
      arg0 = arg0;
      source = source_of ctx.wasm_layers path;
    }

unfoldable pub as_bytes : FileSystem → Source → Outcome Text (List ℕ)
as_bytes fs (file path) =
    ok_or (head? (resolve_in_path_or_cwd fs path)) (codes "module not found") >>? λ p. fs.read p
as_bytes fs (oci (layer ∷ [])) = ok layer.layer
as_bytes fs (oci modules) =
    err (codes "only a single module is supported when using images with OCI layers")
