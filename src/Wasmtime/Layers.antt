-- ===== src/Wasmtime/Layers.antt =====
-- How many layers `precompile` of the Wasmtime engine answers with, and what client.rs does then.
use containerd_wasm.Base.{
  ℕ, suc, ◌<◌, ◌≤◌, Text, codes, ◌≡◌, ◌≢◌, inl, inr, Option, List, [], ◌∷◌, Bool, true, false,
  if◌then◌else◌, Outcome-cases, ok, err, length, is_some, length-append, arith,
}
use containerd_wasm.Sandbox.Error.{failed_precondition}
use containerd_wasm.Sandbox.Oci.{WasmLayer}
use containerd_wasm.Containerd.Services.{Services}
use containerd_wasm.Containerd.Client.{compiled_or_original}
use containerd_wasm.Containerd.Client.Loading.{compiled_or_original-wrong_number}
use containerd_wasm.Wasmtime.Compile.{Precompiler, from_bytes, compile_layer, precompile}

module _ (p : Precompiler) where
  -- The layer is Wasm, compiled or not.
  abbrev pub is_known : WasmLayer → Bool
  is_known l =
      if is_some (p.detect_precompiled l.layer) then true else is_some (from_bytes p l.layer)

  unfoldable pub count_known : List WasmLayer → ℕ
  count_known [] = 0
  count_known (l ∷ ls) = let rest = count_known ls in if is_known l then suc rest else rest

  abbrev count_one : Bool → ℕ
  count_one true = 1
  count_one false = 0

  compile_layer-count :
      (l : WasmLayer) (pushed : List (Option (List ℕ)))
      → compile_layer p l ≡ ok pushed
      → length pushed ≡ count_one (is_known l)
  unfolding compile_layer from_bytes
  compile_layer-count l pushed h = elim (Outcome-cases (p.precompile_module l.layer)) [
    | inl m ↦ elim (Outcome-cases (p.precompile_component l.layer)) [
      | inl c ↦ ground arith
      | inr c ↦ ground arith
    ]
    | inr m ↦ elim (Outcome-cases (p.precompile_component l.layer)) [
      | inl c ↦ ground arith
      | inr c ↦ ground arith
    ]
  ]

  -- The engine answers with one entry for each layer that it knows to be Wasm, and with none for any
  -- other layer.
  pub precompile-count :
      (ls : List WasmLayer) (out : List (Option (List ℕ)))
      → precompile p ls ≡ ok out
      → length out ≡ count_known ls
  unfolding precompile count_known compile_layer from_bytes
  precompile-count [] out h = ground arith
  precompile-count (l ∷ ls) out h = elim (Outcome-cases (compile_layer p l)) [
    | inl (pushed, e) ↦ elim (Outcome-cases (precompile p ls)) [
      | inl (others, e') ↦
          let rest = precompile-count ls others e' in
          let both = length-append pushed others in
          let one = compile_layer-count l pushed e in ground arith
      | inr e' ↦ absurd (ground arith)
    ]
    | inr e ↦ absurd (ground arith)
  ]

  count_known-bound : (ls : List WasmLayer) → count_known ls ≤ length ls
  unfolding count_known
  count_known-bound [] = ground arith
  count_known-bound (l ∷ ls) = ground (arith, count_known-bound ls)

  -- If one of the layers is not Wasm, the engine's answer is too short, and client.rs fails to load the
  -- container's layers at all.
  pub precompile-unknown :
      {W : Type 0} (c : Services W) (id image : Text) (ls : List WasmLayer)
      (out : List (Option (List ℕ))) (w : W)
      → count_known ls ≢ length ls
      → precompile p ls ≡ ok out
      → (length out < length ls)
        × (compiled_or_original c id image ls (precompile p ls) w
            ≡ (w, err (failed_precondition (codes "precompile returned wrong number of layers"))))
  precompile-unknown c id image ls out w ne h =
      let count = precompile-count ls out h in
      let bound = count_known-bound ls in
      (ground arith, rw h (compiled_or_original-wrong_number c id image ls out w (ground arith)))
