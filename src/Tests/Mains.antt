-- ===== src/Tests/Mains.antt =====
-- The main functions of crates/containerd-shim-wasm/src/sandbox/cli.rs and crates/oci-tar-builder at
-- concrete inputs.
use containerd_wasm.Base.{ℕ, ◌+◌, Text, codes, ◌≡◌, refl, none, some, [], ◌∷◌, true, ok, err, panic}
use containerd_wasm.Base.Dict
use containerd_wasm.Otel.{Sdk}
use containerd_wasm.Shim.Main
use containerd_wasm.Shim.Main.{Process, Ended, exit, take_part, trace_context_name, shim_main_inner}
use containerd_wasm.Shim.Main.Traces.{take_part-take_part}
use containerd_wasm.TarBuilder.Image.{Args, Files}
use containerd_wasm.TarBuilder.Command
use containerd_wasm.TarBuilder.Command.{main}
use containerd_wasm.TarBuilder.Artifacts.{main_artifact_of_components}
use containerd_wasm.Tests.Companions.{tools, config, args}

-- The world is the context of the current span, which JSON writes as it is.
abbrev sdk : Sdk Text
sdk = record {
  install_batch = λ e w. (w, ok tt);
  set_text_map_propagator = λ w. w;
  env_filter = λ f. ok tt;
  set_global_default = λ w. (w, ok tt);
  shutdown_tracer_provider = λ w. w;
  inject_context = λ w. (codes "traceparent", w) ∷ [];
  set_parent = λ c w. elim c [ [] ↦ w | entry ∷ entries ↦ entry.1 ];
  to_json = λ c. elim c [ [] ↦ ok [] | entry ∷ entries ↦ ok entry.1 ];
  from_json = λ t. ok ((codes "traceparent", t) ∷ []);
}

abbrev shim_host : Main.Host Text
shim_host = record {
  sdk = sdk;
  is_unicode = λ t. true;
  default_protocol = codes "grpc";
  zygote_init = λ w. w;
  runtime_new = λ w. true;
  args_os = λ w. codes "/bin/containerd-shim-wasmtime-v1" ∷ codes "-v" ∷ [];
  parse = λ flags. ok true;
  print = λ lines w. w;
  run = λ id p. (p, ok tt);
  pid = 1;
  zygote_pid = λ w. ok 2;
  read_to_string = λ w path. some [];
}

abbrev outer : Process Text
outer = record { vars = []; world = codes "span 1" }

take_part-take_part_example :
    let parent = (take_part shim_host outer).0 in
    take_part shim_host (record parent { world = codes "span 2" })
    ≡ (record { vars = parent.vars; world = codes "span 1" }, ok tt)
take_part-take_part_example =
    take_part-take_part shim_host outer (codes "span 2") {ctx = codes "span 1"}
      (unfold Dict.get in refl) refl refl refl

version_run :
    (shim_main_inner shim_host (codes "wasmtime") (codes "1.0") none none outer).1 ≡ err (exit 0)
unfolding shim_main_inner Dict.get
version_run = refl

abbrev tar_files : Files
tar_files = record { try_digest = λ path. ok path; digest = λ text. text; read_dir = λ path. ok [] }

abbrev tar_host : Command.Host ℕ ℕ
tar_host = record {
  tools = tools;
  files = tar_files;
  image_oci = record {
    os = λ c. codes "wasip1";
    architecture = λ c. codes "wasm";
    to_string = λ c. codes "{}";
  };
  artifact_oci = config;
  print = λ text w. w + 1;
  count_dir = λ path w. ok 1;
  from_component = λ path w. (w, err (codes "Is a directory"));
  from_module = λ path w. (w, ok 5);
  wasm_manifest_config_media_type = codes "config";
  wasm_layer_media_type = codes "layer";
  parent = λ path. some (codes "/");
  create_dir_all = λ path w. (w, ok tt);
  current_dir = λ w. (w, ok (codes "/"));
  create_file = λ path w. (w, ok tt);
  write_archive = λ path s w. w;
  remove_file = λ path w. (w, ok tt);
}

abbrev of_components : Args
of_components = record args { modules = []; components = some (codes "/parts"); as_artifact = true }

main_artifact_of_components_example :
    (main tar_host (some (codes "/out.tar")) of_components 0).1 ≡ panic
main_artifact_of_components_example =
    main_artifact_of_components tar_host (codes "/out.tar") of_components (codes "/parts") 0 refl
      refl refl (λ n v v' e. (codes "Is a directory", refl))
