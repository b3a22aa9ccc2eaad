-- ===== src/Wasmtime/Compile.antt =====
-- `WasmBinaryType::from_bytes` of container/wasm.rs and `precompile` of the Wasmtime engine.
use containerd_wasm.Base.{
  ℕ, Text, Option, none, some, List, [], ◌∷◌, ◌++◌, Bool, if◌then◌else◌, Outcome, ok, ◌>>?◌, map_ok,
  is_some,
}
use containerd_wasm.Sandbox.Oci.{WasmLayer}

pub data WasmBinaryType : Type 0 where
  module_type component_type : WasmBinaryType

-- What the engine asks of the crates `wasmparser` and `wasmtime`.
pub record Precompiler : Type 0 where
  pub is_component : List ℕ → Bool
  pub is_core_wasm : List ℕ → Bool
  pub detect_precompiled : List ℕ → Option WasmBinaryType
  pub precompile_module : List ℕ → Outcome Text (List ℕ)
  pub precompile_component : List ℕ → Outcome Text (List ℕ)

module _ (p : Precompiler) where
  unfoldable pub from_bytes : List ℕ → Option WasmBinaryType
  from_bytes bytes =
      if p.is_component bytes
      then some component_type
      else if p.is_core_wasm bytes
      then some module_type
      else none

  abbrev pub compile_as : List ℕ → Option WasmBinaryType → Outcome Text (List (Option (List ℕ)))
  compile_as bytes (some module_type) = map_ok (λ b. some b ∷ []) (p.precompile_module bytes)
  compile_as bytes (some component_type) = map_ok (λ b. some b ∷ []) (p.precompile_component bytes)
  compile_as bytes none = ok []

  -- What one round of the loop pushes.
  unfoldable pub compile_layer : WasmLayer → Outcome Text (List (Option (List ℕ)))
  unfolding from_bytes
  compile_layer l =
      if is_some (p.detect_precompiled l.layer)
      then ok (none ∷ [])
      else compile_as l.layer (from_bytes l.layer)

  unfoldable pub precompile : List WasmLayer → Outcome Text (List (Option (List ℕ)))
  unfolding compile_layer
  precompile [] = ok []
  precompile (l ∷ ls) =
      compile_layer l >>? λ pushed. precompile ls >>? λ others. ok (pushed ++ others)
