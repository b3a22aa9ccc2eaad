-- ===== src/TarBuilder/Image.antt =====
-- crates/oci-tar-builder/src/bin.rs: the image that `generate_wasi_image` builds from its options.
-- Digests are texts in hexadecimal; a directory is the list of its paths.
use containerd_wasm.Base.{
  Text, codes, ◌++◌, Option, none, some, List, [], ◌∷◌, Bool, if◌then◌else◌, Outcome, ok, Exec,
  ◌>>=◌, ◌>>◌, pure, lift, modify, split, FilePath, text_eq, is_empty, is_some, not, ◌&&◌,
}
use containerd_wasm.Base.Dict.{Dict}
use containerd_wasm.TarBuilder.{Builder, image_config, add_config, add_layer_with_media_type}

pub record Args : Type 0 where
  pub name : Text
  pub tag : Text
  pub repo : Text
  pub modules : List Text
  pub layer : List Text
  pub components : Option Text
  pub as_artifact : Bool

-- What `main` does after it has its directory.
pub data Mode : Type 0 where
  refuses : Text → Mode
  artifact image : Mode

unfoldable pub mode_of : Args → Mode
mode_of args =
    if not (is_empty args.modules) && is_some args.components
    then refuses (codes "Mutually exclusive flags: module and components")
    else if is_empty args.modules && not (is_some args.components)
    then refuses (codes "Must supply module or components")
    else if args.as_artifact
    then artifact
    else image

abbrev wasm_layer_media_type : Text
wasm_layer_media_type = codes "application/vnd.bytecodealliance.wasm.component.layer.v0+wasm"

unfoldable pub last : Text → List Text → Text
last w [] = w
last w (v ∷ ws) = last v ws

abbrev pub first_and_last : List Text → Text × Text
first_and_last [] = ([], [])
first_and_last (w ∷ ws) = (w, last w ws)

-- A layer's option: what stands before its first `=` is the type, behind its last the path.
unfoldable pub layer_option : Text → Text × FilePath
unfolding last
layer_option option = first_and_last (split b'=' option)

pub record ImageConfig : Type 0 where
  pub entrypoint : List Text
  pub labels : Dict Text

-- `try_digest`, `digest`, and the directory of the components with the extension of each path.
pub record Files : Type 0 where
  pub try_digest : FilePath → Outcome Text Text
  pub digest : Text → Text
  pub read_dir : FilePath → Outcome Text (List (FilePath × Text))

-- The builder with the digests of its layers.
abbrev pub State : Type 0
State = Builder ImageConfig × List Text

abbrev pub concat : List Text → Text
concat [] = []
concat (w ∷ ws) = w ++ concat ws

unfoldable pub name_of : Args → Text
name_of args = args.repo ++ (codes "/" ++ (args.name ++ b':' ∷ args.tag))

module _ (files : Files) where
  unfoldable pub add_digested : FilePath → Text → Exec State Text (Unit {0})
  add_digested path media_type = do
    modify (λ (b, ds). (add_layer_with_media_type path media_type b, ds))
    d ← lift (files.try_digest path)
    modify (λ (b, ds). (b, ds ++ d ∷ []))

  unfoldable pub add_modules : List Text → Exec State Text (Unit {0})
  unfolding add_digested
  add_modules [] = pure tt
  add_modules (m ∷ ms) = add_digested m wasm_layer_media_type >> add_modules ms

  unfoldable pub add_options : List Text → Exec State Text (Unit {0})
  unfolding add_digested layer_option
  add_options [] = pure tt
  add_options (o ∷ os) =
      let (media_type, path) = layer_option o in add_digested path media_type >> add_options os

  -- A path of another extension is skipped.
  unfoldable pub add_components : List (FilePath × Text) → Exec State Text (Unit {0})
  unfolding add_digested
  add_components [] = pure tt
  add_components ((path, ext) ∷ paths) =
      (if text_eq ext (codes "wasm") then add_digested path wasm_layer_media_type else pure tt)
      >> add_components paths

  abbrev pub config_of : Args → List Text → ImageConfig
  config_of args digests = record {
    entrypoint = (args.name ++ codes ".wasm") ∷ [];
    labels = (codes "containerd.runwasi.layers", files.digest (concat digests)) ∷ [];
  }

  abbrev read_components : Option Text → Outcome Text (List (FilePath × Text))
  read_components none = ok []
  read_components (some dir) = files.read_dir dir

  -- The builder that is built.
  unfoldable pub generate_wasi_image : Args → Exec State Text (Unit {0})
  unfolding add_modules add_options add_components name_of
  generate_wasi_image args = do
    add_modules args.modules
    add_options args.layer
    paths ← lift (read_components args.components)
    add_components paths
    modify (λ (b, ds). (add_config (config_of args ds) (name_of args) image_config b, ds))
