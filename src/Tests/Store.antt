-- ===== src/Tests/Store.antt =====
-- A small containerd: the labels of its content are kept, one content is missing, and all that is
-- written has the same digest.
use containerd_wasm.Base.{
  Text, codes, none, some, [], ◌∷◌, if◌then◌else◌, ok, err, map_some, text_eq,
}
use containerd_wasm.Base.Dict
use containerd_wasm.Base.Dict.{Dict}
use containerd_wasm.Containerd.Services.{Services, Manifest, Engine, opened, wasm}

-- The labels of each content.
abbrev pub Store : Type 0
Store = Dict (Dict Text)

abbrev pub manifest : Manifest
manifest = record {
  config = record { digest = codes "sha256:c"; media_type = codes "config" };
  layers =
      record { digest = codes "sha256:a"; media_type = codes "application/wasm" }
      ∷ record { digest = codes "sha256:t"; media_type = codes "text" }
      ∷ record { digest = codes "sha256:b"; media_type = codes "application/wasm" }
      ∷ [];
}

abbrev pub services : Services Store
services = record {
  get_container = λ name w. (w, ok (some (codes "image")));
  get_image = λ name w. (w, ok (some (record { name = name; target = some (codes "sha256:i") })));
  info = λ digest w.
      (w, ok (map_some (λ l. record { digest = digest; labels = l }) (Dict.get digest w)));
  update = λ i w. (Dict.put i.digest i.labels w, ok (some i));
  read = λ digest w.
      (w, if text_eq digest (codes "sha256:gone") then err (codes "gone") else ok (7 ∷ []));
  create_lease = λ name w. (w, ok (some (codes "lease")));
  delete_lease = λ id w. (w, ok tt);
  send = λ request w. (w, ok tt);
  open_write = λ id w. (w, opened);
  message = λ w. (w, ok (some (record { offset = 2; digest = codes "sha256:d" })));
  digest = λ bytes. codes "d";
  parse_digest = λ d. ok d;
  parse_manifest = λ bytes. ok manifest;
  parse_platform = λ bytes. ok (record { architecture = wasm; os = codes "wasip1" });
}

abbrev pub engine : Engine
engine = record {
  name = codes "wasmtime";
  can_precompile = none;
  supported_layers_types = codes "application/wasm" ∷ [];
  precompile = λ layers. ok [];
}
