-- ===== src/Containerd/Client.antt =====
-- `Client::load_modules` of crates/containerd-shim-wasm/src/sandbox/containerd/client.rs: the Wasm
-- layers of a container's image, compiled where the engine can, with what was compiled kept for the
-- next time. The client's connection and namespace do not change; log lines are left out.
pub mod Layers
pub mod Loading
pub mod Keeping
pub mod Kept
pub mod Cache
pub mod Stored
pub mod Again
use containerd_wasm.Base.{
  ℕ, zero, suc, ◌+◌, Text, codes, ◌++◌, Option, none, some, List, [], ◌∷◌, Bool, true, false, not,
  ◌&&◌, ◌||◌, ◌==◌, if◌then◌else◌, is_empty, is_some, text_eq, Outcome, ok, err, panic, ok_or, Exec,
  ◌>>=◌, ◌>>◌, pure, fail, lift, map_error, attempt, ignore, length, keep, print_nat,
}
use containerd_wasm.Base.Dict
use containerd_wasm.Base.Dict.{Dict}
use containerd_wasm.Sandbox.Error.{Error, containerd, oci, json, failed_precondition}
use containerd_wasm.Sandbox.Oci.{Descriptor, WasmLayer}
use containerd_wasm.Containerd.Services.{
  Services, Image, Info, Manifest, Arch, wasm, Platform, Engine,
}
use containerd_wasm.Containerd.Write.{WriteContent, save_content, or_drop}

abbrev precompile_prefix : Text
precompile_prefix = codes "runwasi.io/precompiled"

unfoldable pub precompile_label : Text → Text → Text
precompile_label name version = precompile_prefix ++ (codes "/" ++ (name ++ (codes "/" ++ version)))

unfoldable pub is_wasm_layer : List Text → Text → Bool
is_wasm_layer [] media_type = false
is_wasm_layer (t ∷ ts) media_type = text_eq t media_type || is_wasm_layer ts media_type

abbrev pub is_wasm : Arch → Bool
is_wasm wasm = true
is_wasm _ = false

abbrev pub gc_label : ℕ → Text
gc_label i = codes "containerd.io/gc.ref.content.precompile." ++ print_nat i

module _ {W : Type 0} (c : Services W) where
  unfoldable pub read_content : Text → Exec W Error (List ℕ)
  read_content digest = map_error containerd (c.read digest)

  unfoldable pub get_info : Text → Exec W Error Info
  get_info digest = do
    info ← map_error containerd (c.info digest)
    lift (ok_or info (containerd (codes "failed to get info for content " ++ digest)))

  unfoldable pub update_info : Info → Exec W Error Info
  update_info info = do
    updated ← map_error containerd (c.update info)
    lift (ok_or updated (containerd (codes "failed to update info for content " ++ info.digest)))

  unfoldable pub get_image : Text → Exec W Error Image
  get_image name = do
    image ← map_error containerd (c.get_image name)
    lift (ok_or image (containerd (codes "failed to get image for image " ++ name)))

  unfoldable pub extract_image_content_sha : Image → Outcome Error Text
  extract_image_content_sha image =
      ok_or image.target
        (containerd (codes "failed to get image content sha for image " ++ image.name))

  unfoldable pub get_container : Text → Exec W Error Text
  get_container name = do
    image ← map_error containerd (c.get_container name)
    lift (ok_or image (containerd (codes "failed to get image for container " ++ name)))

  unfoldable pub get_image_manifest_and_digest : Text → Exec W Error (Manifest × Text)
  unfolding get_image extract_image_content_sha read_content
  get_image_manifest_and_digest image_name = do
    image ← get_image image_name
    sha ← lift (extract_image_content_sha image)
    image_digest ← map_error oci (lift (c.parse_digest sha))
    content ← read_content image_digest
    manifest ← map_error oci (lift (c.parse_manifest content))
    pure (manifest, image_digest)

  abbrev pub labelled : Descriptor → Option Text → Exec W Error Text
  labelled original none = pure original.digest
  labelled original (some label) = map_error oci (lift (c.parse_digest label))

  -- The digest to load: the label's, where content was compiled before.
  unfoldable pub digest_to_load : Descriptor → Bool → Text → Exec W Error Text
  digest_to_load original false precompile_id = pure original.digest
  digest_to_load original true precompile_id = do
    info ← get_info original.digest
    labelled original (Dict.get precompile_id info.labels)

  abbrev pub as_layer : Descriptor → Exec W Error (List ℕ) → Exec W Error WasmLayer
  as_layer original m = do
    module_bytes ← m
    pure (record { config = original; layer = module_bytes })

  -- The answer of a read, or the original where compiled content cannot be read. The second part is
  -- the new value of `needs_precompile`.
  abbrev pub or_original :
      Descriptor → Bool → Bool → Text → Outcome Error WasmLayer → Exec W Error (WasmLayer × Bool)
  or_original original can_precompile needs loaded (ok layer) = pure (layer, needs)
  or_original original can_precompile needs loaded panic = lift panic
  or_original original can_precompile needs loaded (err e) =
      if text_eq loaded original.digest then fail e else (do
        layer ← as_layer original (read_content original.digest)
        pure (layer, can_precompile))

  unfoldable pub read_wasm_layer : Descriptor → Bool → Text → Bool → Exec W Error (WasmLayer × Bool)
  unfolding read_content
  read_wasm_layer original can_precompile precompile_id needs = do
    digest ← digest_to_load original can_precompile precompile_id
    res ← attempt (as_layer original (read_content digest))
    or_original original can_precompile needs digest res

  -- The loop over the layers of the manifest that the engine supports.
  unfoldable pub read_wasm_layers :
      List Descriptor → Bool → Text → Bool → Exec W Error (List WasmLayer × Bool)
  read_wasm_layers [] can_precompile precompile_id needs = pure ([], needs)
  read_wasm_layers (d ∷ ds) can_precompile precompile_id needs = do
    (layer, needs') ← read_wasm_layer d can_precompile precompile_id needs
    (layers, needs'') ← read_wasm_layers ds can_precompile precompile_id needs'
    pure (layer ∷ layers, needs'')

  -- The labels of the original layer and of the image, by which the content is found and kept.
  unfoldable pub link_content : ℕ → Text → Text → Descriptor → Text → Exec W Error (Unit {0})
  link_content i precompile_id image_digest original digest = do
    original_layer ← get_info original.digest
    update_info (record original_layer {
      labels = Dict.put (gc_label i) digest (Dict.put precompile_id digest original_layer.labels);
    })
    image_content ← get_info image_digest
    update_info (record image_content {
      labels =
          Dict.put precompile_id (codes "true") (Dict.put (gc_label i) digest image_content.labels);
    })
    pure tt

  -- One round of the loop over what was compiled.
  unfoldable pub store_layer :
      ℕ → Text → Text → WasmLayer → Option (List ℕ) → Exec W Error WasmLayer
  store_layer i precompile_id image_digest layer none = pure layer
  store_layer i precompile_id image_digest layer (some compiled) = do
    saved ←
        save_content c compiled precompile_id
          ((precompile_id ++ codes "/original", layer.config.digest) ∷ [])
    or_drop c saved.lease (link_content i precompile_id image_digest layer.config saved.digest)
    ignore (c.delete_lease saved.lease)
    pure (record { config = layer.config; layer = compiled })

  -- The two lists have one length; an index out of bounds would panic.
  unfoldable pub store_layers :
      ℕ → Text → Text → List WasmLayer → List (Option (List ℕ)) → Exec W Error (List WasmLayer)
  store_layers i precompile_id image_digest layers [] = pure []
  store_layers i precompile_id image_digest [] (o ∷ os) = lift panic
  store_layers i precompile_id image_digest (l ∷ ls) (o ∷ os) = do
    layer ← store_layer i precompile_id image_digest l o
    layers ← store_layers (suc i) precompile_id image_digest ls os
    pure (layer ∷ layers)

  -- What is done with the answer of `engine.precompile`.
  abbrev pub compiled_or_original :
      Text
      → Text
      → List WasmLayer
      → Outcome Text (List (Option (List ℕ)))
      → Exec W Error (List WasmLayer)
  compiled_or_original precompile_id image_digest layers (err e) = pure layers
  compiled_or_original precompile_id image_digest layers panic = lift panic
  compiled_or_original precompile_id image_digest layers (ok compiled) =
      if length compiled == length layers
      then store_layers 0 precompile_id image_digest layers compiled
      else fail (failed_precondition (codes "precompile returned wrong number of layers"))

  module _ (engine : Engine) where
    abbrev pub precompile_id : Text
    precompile_id = elim engine.can_precompile [
      | none ↦ []
      | some version ↦ precompile_label engine.name version
    ]

    abbrev pub supported : Descriptor → Bool
    supported d = is_wasm_layer engine.supported_layers_types d.media_type

    -- What follows the loop over the layers.
    abbrev pub for_runtime : Text → List WasmLayer → Bool → Exec W Error (List WasmLayer)
    for_runtime image_digest layers needs =
        if is_empty layers
        then pure []
        else if needs
        then compiled_or_original precompile_id image_digest layers (engine.precompile layers)
        else pure layers

    -- From `get_info` of the image on: the layers of a manifest in Wasm format.
    unfoldable pub load_layers : Manifest → Text → Exec W Error (List WasmLayer)
    load_layers manifest image_digest = do
      image_info ← get_info image_digest
      let can_precompile = is_some engine.can_precompile
      (layers, needs) ←
          read_wasm_layers (keep supported manifest.layers) can_precompile precompile_id
            (can_precompile && not (Dict.contains_key precompile_id image_info.labels))
      for_runtime image_digest layers needs

    unfoldable pub load_modules : Text → Exec W Error (List WasmLayer × Platform)
    unfolding read_content get_container
    load_modules containerd_id = do
      image ← get_container containerd_id
      (manifest, image_digest) ← get_image_manifest_and_digest image
      image_config ← read_content manifest.config.digest
      platform ← map_error json (lift (c.parse_platform image_config))
      if is_wasm platform.architecture
          then (do layers ← load_layers manifest image_digest; pure (layers, platform))
          else pure ([], platform)
