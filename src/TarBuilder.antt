-- ===== src/TarBuilder.antt =====
-- crates/oci-tar-builder/src/lib.rs: the archive of an image. What is written before a failure stays
-- written; of an entry whose own `append` fails, nothing counts as written.
pub mod Blobs
pub mod Manifests
pub mod Names
pub mod Image
pub mod Command
pub mod Artifacts
pub mod Options
use containerd_wasm.Base.{
  ℕ, ◌<◌, Text, codes, ◌++◌, Option, none, some, List, [], ◌∷◌, Bool, true, false, if◌then◌else◌,
  ltb, Outcome, ok, err, panic, Exec, ◌>>=◌, ◌>>◌, pure, fail, lift, gets, modify, guard, length,
  map, is_empty, contains, split, get_elem?, map_err, FilePath, leb,
}
use containerd_wasm.Base.Dict
use containerd_wasm.Base.Dict.{Dict}

pub data MediaType : Type 0 where
  image_layer image_manifest image_index image_config : MediaType
  other : Text → MediaType

pub record Platform : Type 0 where
  pub os : Text
  pub architecture : Text

pub record Descriptor : Type 0 where
  pub media_type : MediaType
  pub size : ℕ
  pub digest : Text
  pub annotations : Dict Text
  pub platform : Option Platform

pub record Manifest : Type 0 where
  pub config : Descriptor
  pub layers : List Descriptor
  pub annotations : Dict Text

pub record DockerManifest : Type 0 where
  pub config : Text
  pub repo_tags : List Text
  pub layers : List Text

-- The trait `OciConfig`, less the list of layers that only warnings are made of.
pub record OciConfig (C : Type 0) : Type 0 where
  pub os : C → Text
  pub architecture : C → Text
  pub to_string : C → Text

-- A file in the archive: path, mode and size in its header, and its bytes.
pub record Entry : Type 0 where
  pub path : FilePath
  pub mode : ℕ
  pub size : ℕ
  pub bytes : List ℕ

-- The crates for digests, for JSON and for archives, and the files. A file is read for its digest,
-- measured, and opened, one after the other. `append` and `finish` are told what is in the archive.
pub record Tools : Type 0 where
  pub read_file : FilePath → Outcome Text (List ℕ)
  pub metadata : FilePath → Outcome Text ℕ
  pub open_file : FilePath → Outcome Text (List ℕ)
  pub digest : List ℕ → Text
  pub parse_digest : Text → Outcome Text (Unit {0})
  pub set_path : FilePath → Outcome Text (Unit {0})
  pub append : List Entry → Entry → Outcome Text (Unit {0})
  pub finish : List Entry → Outcome Text (Unit {0})
  pub manifest_json : Manifest → Outcome Text Text
  pub index_json : List Descriptor → Outcome Text Text
  pub layout_json : Outcome Text Text
  pub docker_json : DockerManifest → Outcome Text Text

pub record Builder (C : Type 0) : Type 0 where
  pub configs : List (C × Text × MediaType)
  pub layers : List (FilePath × Text)

unfoldable pub add_config : {C : Type 0} → C → Text → MediaType → Builder C → Builder C
add_config config name media_type b = record b {
  configs = b.configs ++ (config, name, media_type) ∷ [];
}

unfoldable pub add_layer : {C : Type 0} → FilePath → Builder C → Builder C
add_layer layer b = record b { layers = b.layers ++ (layer, []) ∷ [] }

unfoldable pub add_layer_with_media_type : {C : Type 0} → FilePath → Text → Builder C → Builder C
add_layer_with_media_type layer media_type b = record b {
  layers = b.layers ++ (layer, media_type) ∷ [];
}

-- The archive with the locals of `build`.
pub record State : Type 0 where
  pub archive : List Entry
  pub layer_digests : Dict Descriptor
  pub manifests : List Descriptor
  pub docker : DockerManifest

abbrev pub sha256 : Text → Text
sha256 dgst = codes "sha256:" ++ dgst

abbrev pub blob_path : Text → FilePath
blob_path dgst = codes "blobs/sha256/" ++ dgst

abbrev pub blob : Text → List ℕ → Entry
blob dgst bytes = record { path = blob_path dgst; mode = 0o444; size = length bytes; bytes = bytes }

abbrev pub meta_file : Text → List ℕ → Entry
meta_file name bytes = record { path = name; mode = 0o644; size = length bytes; bytes = bytes }

abbrev pub media_type_of : Text → MediaType
media_type_of media_type = if is_empty media_type then image_layer else other media_type

abbrev pub descriptor : MediaType → Text → ℕ → Descriptor
descriptor media_type digest size = record {
  media_type = media_type;
  size = size;
  digest = digest;
  annotations = [];
  platform = none;
}

-- `io.containerd.image.name`, and the part between the first and the second colon of the name.
unfoldable pub ref_name : Text → Option Text
ref_name name = if contains b':' name then get_elem? (split b':' name) 1 else none

abbrev with_ref : Option Text → Dict Text
with_ref none = []
with_ref (some r) = Dict.put (codes "org.opencontainers.image.ref.name") r []

unfoldable pub annotations_of : Text → Dict Text
unfolding ref_name
annotations_of name = Dict.put (codes "io.containerd.image.name") name (with_ref (ref_name name))

abbrev pub initial : State
initial = record {
  archive = [];
  layer_digests = [];
  manifests = [];
  docker = record { config = []; repo_tags = []; layers = [] };
}

module _ (t : Tools) where
  -- `tb.append`.
  abbrev pub append : Entry → Exec State Text (Unit {0})
  append e s =
      (do lift (t.append s.archive e); modify (λ s'. record s' { archive = s'.archive ++ e ∷ [] }))
        s

  -- `th.set_path` and `tb.append`.
  abbrev pub put_entry : Entry → Exec State Text (Unit {0})
  put_entry e = do lift (t.set_path e.path); append e

  -- `layer_digests.insert`.
  abbrev pub record_layer : Text → Text → ℕ → State → State
  record_layer dgst media_type size s = record s {
    layer_digests =
        Dict.put (sha256 dgst) (descriptor (media_type_of media_type) (sha256 dgst) size)
          s.layer_digests;
  }

  abbrev pub push_layer : FilePath → State → State
  push_layer p s = record s { docker = record s.docker { layers = s.docker.layers ++ p ∷ [] } }

  -- One round of the first loop.
  unfoldable pub build_layer : FilePath → Text → Exec State Text (Unit {0})
  build_layer path media_type = do
    bytes ← lift (t.read_file path)
    let dgst = t.digest bytes
    size ← lift (t.metadata path)
    lift (t.parse_digest (sha256 dgst))
    modify (record_layer dgst media_type size)
    lift (t.set_path (blob_path dgst))
    f ← lift (t.open_file path)
    append (record { path = blob_path dgst; mode = 0o444; size = size; bytes = f })
    modify (push_layer (blob_path dgst))

  unfoldable pub build_layers : List (FilePath × Text) → Exec State Text (Unit {0})
  unfolding build_layer
  build_layers [] = pure tt
  build_layers ((path, media_type) ∷ layers) = build_layer path media_type >> build_layers layers

  abbrev pub write_json : Text → (State → Outcome Text Text) → Exec State Text (Unit {0})
  write_json name json s = (do text ← lift (json s); put_entry (meta_file name text)) s

  -- The index, the layout and the manifest for Docker, and the end of the archive.
  unfoldable pub build_meta : Exec State Text (Unit {0})
  build_meta = do
    write_json (codes "index.json") (λ s. t.index_json s.manifests)
    write_json (codes "oci-layout") (λ s. t.layout_json)
    write_json (codes "manifest.json") (λ s. t.docker_json s.docker)
    (λ s. lift (t.finish s.archive) s)

  module _ {C : Type 0} (oci : OciConfig C) where
    abbrev pub manifest_of : C → Text → MediaType → State → Manifest
    manifest_of config name media_type s =
        let b = oci.to_string config in
        record {
          config = descriptor media_type (sha256 (t.digest b)) (length b);
          layers = map (λ kv. kv.1) s.layer_digests;
          annotations = annotations_of name;
        }

    abbrev pub record_config : C → State → State
    record_config config s = record s {
      docker = record s.docker { config = blob_path (t.digest (oci.to_string config)) };
    }

    abbrev pub push_tag : Text → State → State
    push_tag name s = record s {
      docker = record s.docker { repo_tags = s.docker.repo_tags ++ name ∷ [] };
    }

    abbrev pub manifest_descriptor : C → Text → Text → Descriptor
    manifest_descriptor config name json = record {
      media_type = image_manifest;
      size = length json;
      digest = sha256 (t.digest json);
      annotations = annotations_of name;
      platform = some (record { os = oci.os config; architecture = oci.architecture config });
    }

    abbrev pub record_manifest : C → Text → Text → State → State
    record_manifest config name json s = record s {
      manifests = s.manifests ++ manifest_descriptor config name json ∷ [];
    }

    abbrev pub write_manifest : C → Text → MediaType → Exec State Text (Unit {0})
    write_manifest config name media_type s =
        (do
          json ← lift (t.manifest_json (manifest_of config name media_type s))
          put_entry (blob (t.digest json) json)
          lift (t.parse_digest (sha256 (t.digest json)))
          modify (record_manifest config name json))
          s

    -- One round of the second loop.
    unfoldable pub build_config : C → Text → MediaType → Exec State Text (Unit {0})
    unfolding annotations_of
    build_config config name media_type = do
      let b = oci.to_string config
      put_entry (blob (t.digest b) b)
      modify (record_config config)
      lift (t.parse_digest (sha256 (t.digest b)))
      modify (push_tag name)
      write_manifest config name media_type

    unfoldable pub build_configs : List (C × Text × MediaType) → Exec State Text (Unit {0})
    unfolding build_config
    build_configs [] = pure tt
    build_configs ((config, name, media_type) ∷ configs) =
        build_config config name media_type >> build_configs configs

    abbrev steps : Builder C → Exec State Text (Unit {0})
    steps b = do
      guard (leb (length b.configs) 1) (codes "only one config is supported")
      build_layers b.layers
      build_configs b.configs
      build_meta

    unfoldable pub build : Builder C → State × Outcome Text (Unit {0})
    unfolding build_layers build_configs build_meta
    build b = steps b initial
