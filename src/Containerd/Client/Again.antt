-- ===== src/Containerd/Client/Again.antt =====
-- Two loads of client.rs after each other: what the first has compiled, the second reads.
use containerd_wasm.Base.{
  In, All, ℕ, suc, Text, ◌≡◌, ◌≢◌, refl, inl, inr, ◌∙◌, sym, Option, some, List, [], ◌∷◌, ok,
  Outcome-cases, Bool, Bool-cases, ==_iff, ◌==◌, true, false, arith, length, length-map, is_some,
  map, keep,
}
use containerd_wasm.Sandbox.Oci.{WasmLayer}
use containerd_wasm.Containerd.Services.{Services, Manifest, Engine}
use containerd_wasm.Containerd.Client.{
  store_layer, store_layers, read_wasm_layers, load_layers, for_runtime, precompile_id, supported,
}
use containerd_wasm.Containerd.Client.Layers.{config_of}
use containerd_wasm.Containerd.Client.Loading.{KeepsLabels}
use containerd_wasm.Containerd.Client.Keeping.{KeepsContent}
use containerd_wasm.Containerd.Client.Cache.{IsCached, IsKnown, get_info_of}
use containerd_wasm.Containerd.Client.Stored.{
  IsStored, store_layer-IsStored, stored-IsCached, stored-IsCached_other, stored-IsKnown,
  IsCached-read_wasm_layer,
}

-- No other layer has this digest.
abbrev pub IsApart : Text → List WasmLayer → Type 0
IsApart d [] = Unit {0}
IsApart d (l ∷ ls) = (d ≢ l.config.digest) × IsApart d ls

-- The image and its layers have digests of their own.
abbrev pub IsDistinct : Text → List WasmLayer → Type 0
IsDistinct image [] = Unit {0}
IsDistinct image (l ∷ ls) =
    (image ≢ l.config.digest) × IsApart l.config.digest ls × IsDistinct image ls

-- Images refer to the layers.
abbrev pub AreReferenced : List Text → List WasmLayer → Type 0
AreReferenced referenced layers = All (λ l. In l.config.digest referenced) layers

module _ {W : Type 0} (c : Services W) where
  -- The first round of the loop, and the others.
  store_layers-first :
      (n : ℕ) (id image : Text) (l : WasmLayer) (ls : List WasmLayer) (b : List ℕ)
      (os : List (Option (List ℕ))) (w w' : W) {r : List WasmLayer}
      → store_layers c n id image (l ∷ ls) (some b ∷ os) w ≡ (w', ok r)
      → (w1 : W) × (layers : List WasmLayer) × IsStored c n id image l b w w1
        × (store_layers c (suc n) id image ls os w1 ≡ (w', ok layers))
        × (r ≡ record { config = l.config; layer = b } ∷ layers)
  unfolding store_layers
  store_layers-first n id image l ls b os w w' h =
      let first = store_layer c n id image l (some b) w in
      elim (Outcome-cases first.1) [
        | inr e ↦ absurd (ground arith)
        | inl (layer, e) ↦
            let more = store_layers c (suc n) id image ls os first.0 in
            elim (Outcome-cases more.1) [
              | inr f ↦ absurd (ground arith)
              | inl (layers, f) ↦
                  let (s, same) =
                    store_layer-IsStored c n id image l b w first.0 {r = layer} (ground arith) in
                  (first.0, layers, s, ground arith, ground arith)
            ]
      ]

  module _ (labels : KeepsLabels c) {referenced : List Text}
      (contents : KeepsContent c referenced) where
    -- Storing other layers leaves a layer in the cache.
    store_layers-IsCached :
        {m : ℕ} {d : Text} {bytes : List ℕ} (n : ℕ) (id image : Text) (ls : List WasmLayer)
        (compiled : List (List ℕ)) (w w' : W) {r : List WasmLayer}
        → IsApart d ls
        → d ≢ image
        → In d referenced
        → store_layers c n id image ls (map some compiled) w ≡ (w', ok r)
        → IsCached c m id d bytes w
        → IsCached c m id d bytes w'
    unfolding store_layers
    store_layers-IsCached n id image ls [] w w' apart ne root h x = rw (← ended) x
      where
        ended : w ≡ w'
        ended = ground arith
    store_layers-IsCached n id image [] (b ∷ compiled) w w' apart ne root h x =
        absurd (ground arith)
    store_layers-IsCached n id image (l ∷ ls) (b ∷ compiled) w w' apart ne root h x =
        let (w1, layers, s, more, e) =
          store_layers-first n id image l ls b (map some compiled) w w' h in
        store_layers-IsCached (suc n) id image ls compiled w1 w' apart.1 ne root more
          (stored-IsCached_other c labels contents apart.0 ne root s x)

    store_layers-IsKnown :
        (n : ℕ) (id image : Text) (ls : List WasmLayer) (compiled : List (List ℕ)) (w w' : W)
        {r : List WasmLayer}
        → In image referenced
        → IsKnown c id image w
        → store_layers c n id image ls (map some compiled) w ≡ (w', ok r)
        → IsKnown c id image w'
    unfolding store_layers
    store_layers-IsKnown n id image ls [] w w' root known h = rw (← ended) known
      where
        ended : w ≡ w'
        ended = ground arith
    store_layers-IsKnown n id image [] (b ∷ compiled) w w' root known h = absurd (ground arith)
    store_layers-IsKnown n id image (l ∷ ls) (b ∷ compiled) w w' root known h =
        let (w1, layers, s, more, e) =
          store_layers-first n id image l ls b (map some compiled) w w' h in
        store_layers-IsKnown (suc n) id image ls compiled w1 w' root
          (stored-IsKnown c labels contents root s) more

    -- The layers that were stored are read the next time as they were handed over.
    store_layers-read_wasm_layers :
        (n : ℕ) (id image : Text) (ls : List WasmLayer) (compiled : List (List ℕ)) (needs : Bool)
        (w w' : W) {r : List WasmLayer}
        → length compiled ≡ length ls
        → IsDistinct image ls
        → AreReferenced referenced ls
        → store_layers c n id image ls (map some compiled) w ≡ (w', ok r)
        → read_wasm_layers c (map config_of ls) true id needs w' ≡ (w', ok (r, needs))
    unfolding store_layers read_wasm_layers
    store_layers-read_wasm_layers n id image [] [] needs w w' size distinct roots h = ground arith
    store_layers-read_wasm_layers n id image [] (b ∷ compiled) needs w w' size distinct roots h =
        absurd (omega arith)
    store_layers-read_wasm_layers n id image (l ∷ ls) [] needs w w' size distinct roots h =
        absurd (omega arith)
    store_layers-read_wasm_layers n id image (l ∷ ls) (b ∷ compiled) needs w w' size distinct roots
          h =
        let (w1, layers, s, more, e) =
          store_layers-first n id image l ls b (map some compiled) w w' h in
        let cached =
          store_layers-IsCached (suc n) id image ls compiled w1 w' distinct.1
            (λ g. distinct.0 (sym g)) roots.0 more
            (stored-IsCached c labels contents distinct.0 roots.0 s) in
        let rest =
          store_layers-read_wasm_layers (suc n) id image ls compiled needs w1 w' (omega arith)
            distinct.2 roots.1 more in
        ground (arith, IsCached-read_wasm_layer c labels contents id l.config b needs w' cached)

    stored-load_layers :
        (engine : Engine) (manifest : Manifest) (image version : Text) (l : WasmLayer)
        (ls : List WasmLayer) (compiled : List (List ℕ)) (w w' : W) {r : List WasmLayer}
        → engine.can_precompile ≡ some version
        → keep (supported c engine) manifest.layers ≡ map config_of (l ∷ ls)
        → IsDistinct image (l ∷ ls)
        → In image referenced
        → AreReferenced referenced (l ∷ ls)
        → length compiled ≡ length (l ∷ ls)
        → store_layers c 0 (precompile_id c engine) image (l ∷ ls) (map some compiled) w
          ≡ (w', ok r)
        → load_layers c engine manifest image w' ≡ (w', ok r)
    unfolding load_layers
    stored-load_layers engine manifest image version l ls [] w w' can from distinct root roots size
          h =
        absurd (omega arith)
    stored-load_layers engine manifest image version l ls (b ∷ compiled) w w' can from distinct root
          roots size h =
        let id = precompile_id c engine in
        let (w1, layers, s, more, e) =
          store_layers-first 0 id image l ls b (map some compiled) w w' h in
        let known =
          store_layers-IsKnown 1 id image ls compiled w1 w' root
            (stored-IsKnown c labels contents root s) more in
        let seen = get_info_of c labels image w' known.read in
        let again =
          store_layers-read_wasm_layers 0 id image (l ∷ ls) (b ∷ compiled) false w w' size distinct
            roots h in
        let able : is_some engine.can_precompile ≡ true = rw can refl in
        rw (seen, from, able, known.label, again, e) refl

    -- If a load has compiled every layer of an image, and what it has stored for them succeeded, then
    -- the next load of the image by the same engine gives the same layers from containerd: it compiles
    -- nothing and changes nothing. The image has such a layer, the digests of the image and of the
    -- layers differ, images in containerd refer to them, and containerd keeps its promises.
    pub for_runtime-load_layers :
        (engine : Engine) (manifest : Manifest) (image version : Text) (l : WasmLayer)
        (ls : List WasmLayer) (compiled : List (List ℕ)) (w w' : W) {r : List WasmLayer}
        → engine.can_precompile ≡ some version
        → engine.precompile (l ∷ ls) ≡ ok (map some compiled)
        → keep (supported c engine) manifest.layers ≡ map config_of (l ∷ ls)
        → IsDistinct image (l ∷ ls)
        → In image referenced
        → AreReferenced referenced (l ∷ ls)
        → for_runtime c engine image (l ∷ ls) true w ≡ (w', ok r)
        → load_layers c engine manifest image w' ≡ (w', ok r)
    unfolding load_layers
    for_runtime-load_layers engine manifest image version l ls compiled w w' can p from distinct
          root roots h =
        let id = precompile_id c engine in
        elim (Bool-cases (length (map some compiled) == length (l ∷ ls))) [
          | inr e ↦ absurd (ground arith)
          | inl e ↦
              stored-load_layers engine manifest image version l ls compiled w w' can from distinct
                root roots (sym (length-map some compiled) ∙ (==_iff _ _).0 e) (ground arith)
        ]
