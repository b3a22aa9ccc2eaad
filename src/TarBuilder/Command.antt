-- ===== src/TarBuilder/Command.antt =====
-- crates/oci-tar-builder/src/bin.rs: `main`, the artifact that it builds of one file, and the file that it
-- writes. The configuration of an artifact is made by the oci_wasm crate.
use containerd_wasm.Base.{
  ℕ, Text, codes, ◌++◌, ◌==◌, if◌then◌else◌, Option, none, some, List, [], ◌∷◌, Outcome, ok, err,
  panic, Exec, ◌>>=◌, ◌>>◌, pure, lift, modify, ignore, FilePath, unwrap,
}
use containerd_wasm.TarBuilder.{
  Tools, OciConfig, Builder, State, other, add_config, add_layer_with_media_type, build,
}
use containerd_wasm.TarBuilder.Image
use containerd_wasm.TarBuilder.Image.{
  Args, Mode, refuses, artifact, image, mode_of, ImageConfig, Files, generate_wasi_image,
}

-- What the command uses of its host, and of the oci_wasm crate with its configurations `C`.
pub record Host (W C : Type 0) : Type 0 where
  pub tools : Tools
  pub files : Files
  pub image_oci : OciConfig ImageConfig
  pub artifact_oci : OciConfig C
  pub print : Text → W → W
  -- How many entries the directory has.
  pub count_dir : FilePath → W → Outcome Text ℕ
  pub from_component : FilePath → Exec W Text C
  pub from_module : FilePath → Exec W Text C
  pub wasm_manifest_config_media_type : Text
  pub wasm_layer_media_type : Text
  pub parent : FilePath → Option FilePath
  pub create_dir_all : FilePath → Exec W Text (Unit {0})
  pub current_dir : Exec W Text FilePath
  pub create_file : FilePath → Exec W Text (Unit {0})
  -- The archive goes to the file as far as it was built.
  pub write_archive : FilePath → State → W → W
  pub remove_file : FilePath → Exec W Text (Unit {0})

-- `r.unwrap()`.
abbrev pub or_panic : {W A : Type 0} → Exec W Text A → Exec W Text A
or_panic m w =
    let (w', r) = m w in elim r [ ok a ↦ (w', ok a) | err e ↦ (w', panic) | panic ↦ (w', panic) ]

module _ {W C : Type 0} (host : Host W C) where
  abbrev say : Text → Exec W Text (Unit {0})
  say text = modify (host.print text)

  -- The file is taken away if the build fails; the failure is only printed. The message that the file
  -- is left is printed in any case.
  unfoldable pub finish : Text → FilePath → State × Outcome Text (Unit {0}) → Exec W Text (Unit {0})
  finish left out (s, ok u) = do
    modify (host.write_archive out s)
    say (codes "Successfully created oci tar file " ++ out)
  finish left out (s, err e) = do
    modify (host.write_archive out s)
    say (codes "Building oci tar file " ++ (out ++ (codes " failed: " ++ e)))
    ignore (host.remove_file out)
    say left
  finish left out (s, panic) = do modify (host.write_archive out s); lift panic

  abbrev first_module : List FilePath → Outcome Text FilePath
  first_module [] = panic
  first_module (m ∷ ms) = ok m

  abbrev pub one_file : FilePath → ℕ → Exec W Text (Unit {0})
  one_file path n =
      if n == 1
      then pure tt
      else say (codes "Currently only supports a single component file " ++ path)

  -- The configuration with the path of its file.
  abbrev config_and_path : Option FilePath → List FilePath → Exec W Text (C × FilePath)
  config_and_path (some path) modules = do
    n ← (λ w. (w, host.count_dir path w))
    one_file path n
    conf ← host.from_component path
    pure (conf, path)
  config_and_path none modules = do
    module_path ← lift (first_module modules)
    conf ← host.from_module module_path
    pure (conf, module_path)

  abbrev artifact_builder : Args → C → FilePath → Builder C
  artifact_builder args conf path = add_layer_with_media_type path host.wasm_layer_media_type (
      add_config conf (args.repo ++ (codes "/" ++ (args.name ++ (codes ":" ++ args.tag))))
        (other host.wasm_manifest_config_media_type) (record { configs = []; layers = [] }))

  unfoldable pub generate_wasm_artifact : Args → FilePath → Exec W Text (Unit {0})
  unfolding finish add_config add_layer_with_media_type build
  generate_wasm_artifact args out = do
    say (codes "Generating wasm artifact")
    (conf, path) ← config_and_path args.components args.modules
    say (codes "Creating oci tar file " ++ out)
    host.create_file out
    finish (codes "Failed to clean up oci tar file on error") out
        (build host.tools host.artifact_oci (artifact_builder args conf path))

  abbrev built_image : Image.State × Outcome Text (Unit {0}) → Exec W Text (Builder ImageConfig)
  built_image ((b, ds), ok u) = pure b
  built_image ((b, ds), err e) = lift (err e)
  built_image ((b, ds), panic) = lift panic

  unfoldable pub generate_image : Args → FilePath → Exec W Text (Unit {0})
  unfolding finish generate_wasi_image build
  generate_image args out = do
    say (codes "Generating wasm oci image")
    b ← built_image (generate_wasi_image host.files args (record { configs = []; layers = [] }, []))
    say (codes "Creating oci tar file " ++ out)
    or_panic (host.create_file out)
    finish (codes "Failed to remove temporary file") out (build host.tools host.image_oci b)

  abbrev out_dir : Option FilePath → Exec W Text FilePath
  out_dir none = or_panic host.current_dir
  out_dir (some out) = do
    dir ← lift (unwrap (host.parent out))
    or_panic (host.create_dir_all dir)
    pure out

  abbrev run_mode : Mode → Args → FilePath → Exec W Text (Unit {0})
  run_mode (refuses text) args out = say text
  run_mode artifact args out = or_panic (generate_wasm_artifact args out)
  run_mode image args out = or_panic (generate_image args out)

  -- The option for the output comes with the arguments.
  unfoldable pub main : Option FilePath → Args → Exec W Text (Unit {0})
  unfolding mode_of generate_wasm_artifact generate_image
  main out_path args = do out ← out_dir out_path; run_mode (mode_of args) args out
