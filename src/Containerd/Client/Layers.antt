-- ===== src/Containerd/Client/Layers.antt =====
-- Which layers `load_modules` of client.rs hands to the runtime.
use containerd_wasm.Base.{
  ℕ, suc, Text, ◌≡◌, inl, inr, ◌∙◌, Option, List, [], ◌∷◌, Bool, true, false, ok, err, Outcome,
  Outcome-cases, Bool-cases, arith, length, map, keep, is_some, ◌==◌, ==_iff, ◌&&◌, not,
}
use containerd_wasm.Base.Dict
use containerd_wasm.Sandbox.Oci.{Descriptor, WasmLayer}
use containerd_wasm.Containerd.Services.{Services, Manifest, Engine}
use containerd_wasm.Containerd.Client.{
  read_wasm_layer, read_wasm_layers, store_layer, store_layers, load_layers, compiled_or_original,
  for_runtime, supported, precompile_id, get_info,
}

abbrev pub config_of : WasmLayer → Descriptor
config_of l = l.config

module _ {W : Type 0} (c : Services W) where
  -- A layer that is read keeps the descriptor of the manifest.
  read_wasm_layer-config :
      (d : Descriptor) (can : Bool) (id : Text) (needs : Bool) (w : W) (r : WasmLayer × Bool)
      → (read_wasm_layer c d can id needs w).1 ≡ ok r
      → r.0.config ≡ d
  unfolding read_wasm_layer
  read_wasm_layer-config d can id needs w r h = ground arith

  read_wasm_layers-config :
      (ds : List Descriptor) (can : Bool) (id : Text) (needs : Bool) (w : W)
      (r : List WasmLayer × Bool)
      → (read_wasm_layers c ds can id needs w).1 ≡ ok r
      → map config_of r.0 ≡ ds
  unfolding read_wasm_layers
  read_wasm_layers-config [] can id needs w r h = ground arith
  read_wasm_layers-config (d ∷ ds) can id needs w r h =
      let one = read_wasm_layer c d can id needs w in
      elim (Outcome-cases one.1) [
        | inl ((layer, needs'), e) ↦
            let more = read_wasm_layers c ds can id needs' one.0 in
            elim (Outcome-cases more.1) [
              | inl ((layers, needs''), f) ↦
                  let first = read_wasm_layer-config d can id needs w (layer, needs') e in
                  let rest = read_wasm_layers-config ds can id needs' one.0 (layers, needs'') f in
                  ground arith
              | inr f ↦ absurd (ground arith)
            ]
        | inr e ↦ absurd (ground arith)
      ]

  store_layer-config :
      (i : ℕ) (id image : Text) (l : WasmLayer) (o : Option (List ℕ)) (w : W) (r : WasmLayer)
      → (store_layer c i id image l o w).1 ≡ ok r
      → r.config ≡ l.config
  unfolding store_layer
  store_layer-config i id image l o w r h = ground arith

  store_layers-config :
      (i : ℕ) (id image : Text) (ls : List WasmLayer) (os : List (Option (List ℕ))) (w : W)
      (r : List WasmLayer)
      → length os ≡ length ls
      → (store_layers c i id image ls os w).1 ≡ ok r
      → map config_of r ≡ map config_of ls
  unfolding store_layers
  store_layers-config i id image [] [] w r s h = ground arith
  store_layers-config i id image [] (o ∷ os) w r s h = ground arith
  store_layers-config i id image (l ∷ ls) [] w r s h = absurd (omega arith)
  store_layers-config i id image (l ∷ ls) (o ∷ os) w r s h =
      let one = store_layer c i id image l o w in
      elim (Outcome-cases one.1) [
        | inl (layer, e) ↦
            let more = store_layers c (suc i) id image ls os one.0 in
            elim (Outcome-cases more.1) [
              | inl (layers, f) ↦
                  let first = store_layer-config i id image l o w layer e in
                  let rest =
                    store_layers-config (suc i) id image ls os one.0 layers (omega arith) f in
                  ground arith
              | inr f ↦ absurd (ground arith)
            ]
        | inr e ↦ absurd (ground arith)
      ]

  compiled_or_original-config :
      (id image : Text) (layers : List WasmLayer) (o : Outcome Text (List (Option (List ℕ))))
      (w : W) (r : List WasmLayer)
      → (compiled_or_original c id image layers o w).1 ≡ ok r
      → map config_of r ≡ map config_of layers
  compiled_or_original-config id image layers (err e) w r h = ground arith
  compiled_or_original-config id image layers Outcome.panic w r h = ground arith
  compiled_or_original-config id image layers (ok compiled) w r h =
      elim (Bool-cases (length compiled == length layers)) [
        | inl e ↦ store_layers-config 0 id image layers compiled w r ((==_iff _ _).0 e) (rw e at h)
        | inr e ↦ absurd (ground arith)
      ]

  for_runtime-config :
      (engine : Engine) (image : Text) (layers : List WasmLayer) (needs : Bool) (w : W)
      (r : List WasmLayer)
      → (for_runtime c engine image layers needs w).1 ≡ ok r
      → map config_of r ≡ map config_of layers
  for_runtime-config engine image [] needs w r h = ground arith
  for_runtime-config engine image (l ∷ ls) false w r h = ground arith
  for_runtime-config engine image (l ∷ ls) true w r h =
      compiled_or_original-config (precompile_id c engine) image (l ∷ ls)
        (engine.precompile (l ∷ ls)) w r h

  -- The layers that the runtime gets have the descriptors of the manifest's supported layers, all of
  -- them and in the manifest's order, whether each was read as it is, was compiled before, fell back
  -- to the original, or was compiled just now.
  pub load_layers-config :
      (engine : Engine) (manifest : Manifest) (image : Text) (w : W) (r : List WasmLayer)
      → (load_layers c engine manifest image w).1 ≡ ok r
      → map config_of r ≡ keep (supported c engine) manifest.layers
  unfolding load_layers
  load_layers-config engine manifest image w r h =
      let info = get_info c image w in
      elim (Outcome-cases info.1) [
        | inl (i, e) ↦
            let can = is_some engine.can_precompile in
            let id = precompile_id c engine in
            let start = can && not (Dict.contains_key id i.labels) in
            let read =
              read_wasm_layers c (keep (supported c engine) manifest.layers) can id start info.0 in
            elim (Outcome-cases read.1) [
              | inl ((layers, needs), f) ↦
                  let same =
                    read_wasm_layers-config (keep (supported c engine) manifest.layers) can id start
                      info.0 (layers, needs) f in
                  for_runtime-config engine image layers needs read.0 r (ground arith) ∙ same
              | inr f ↦ absurd (ground arith)
            ]
        | inr e ↦ absurd (ground arith)
      ]
