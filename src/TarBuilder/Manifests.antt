-- ===== src/TarBuilder/Manifests.antt =====
-- The manifests of an archive of oci-tar-builder's lib.rs.
use containerd_wasm.Base.{ℕ, Text, ◌≡◌, List, ok, In, All, FilePath}
use containerd_wasm.Base.Dict
use containerd_wasm.Base.Dict.{Dict}
use containerd_wasm.TarBuilder.{
  Descriptor, Manifest, Tools, Entry, State, OciConfig, sha256, blob, manifest_descriptor,
}
use containerd_wasm.TarBuilder.Blobs.{HasBlob}

-- The archive and the index keep what they have, and the layers stay as they are.
record Grows (s s' : State) : Type 0 where
  archive : (e : Entry) → In e s.archive → In e s'.archive
  manifests : (d : Descriptor) → In d s.manifests → In d s'.manifests
  layer_digests : s'.layer_digests ≡ s.layer_digests

module _ (t : Tools) where
  -- A manifest of the config is in the archive, under its digest, and in the index. It has the layers of
  -- the builder, and each layer that it names, as well as its config, is in the archive with the digest
  -- and the size that the manifest gives.
  pub record HasManifest {C : Type 0} (oci : OciConfig C) (s : State)
      (layers : List (FilePath × Text)) (config : C) (name : Text) : Type 0 where
    pub manifest : Manifest
    pub json : Text
    pub printed : t.manifest_json manifest ≡ ok json
    pub written : In (blob (t.digest json) json) s.archive
    pub indexed : In (manifest_descriptor t oci config name json) s.manifests
    pub config_blob : HasBlob t s.archive manifest.config
    pub layer_blobs : All (HasBlob t s.archive) manifest.layers
    pub all_layers :
        All
          (λ (path, media_type).
            (bytes : List ℕ) × (d : Descriptor) × (t.read_file path ≡ ok bytes)
            × In d manifest.layers
            × (d.digest ≡ sha256 (t.digest bytes)))
          layers
