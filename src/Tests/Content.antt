-- ===== src/Tests/Content.antt =====
-- Content and layers of crates/containerd-shim-wasm/src/sandbox/containerd over the small containerd.
use containerd_wasm.Base.{ℕ, Text, codes, ◌≡◌, refl, List, [], ◌∷◌, map, keep, text_eq}
use containerd_wasm.Base.Dict
use containerd_wasm.Sandbox.Oci.{WasmLayer}
use containerd_wasm.Containerd.Write.{
  save_content, expected_digest, send_chunks, write_content, upload, lease, send_message,
}
use containerd_wasm.Containerd.Write.Chunks.{send_chunks-plan, plan, payload, send_all, Follows}
use containerd_wasm.Containerd.Write.Digest.{save_content_digest}
use containerd_wasm.Containerd.Client.{
  load_layers, supported, read_wasm_layer, get_info, read_content, digest_to_load, read_wasm_layers,
  is_wasm_layer,
}
use containerd_wasm.Containerd.Client.Layers.{load_layers-config, config_of}
use containerd_wasm.Tests.Store.{Store, services, engine, manifest}

abbrev two_bytes : List ℕ
two_bytes = 5 ∷ 6 ∷ []

send_chunks-plan_example :
    ((w : Store)
      → send_chunks services 3 two_bytes (codes "sha256:d") 1 w
        ≡ send_all services (plan 3 two_bytes 1) (codes "sha256:d") w)
    × (payload (plan 3 two_bytes 1) ≡ 6 ∷ [])
    × Follows 1 (plan 3 two_bytes 1)
send_chunks-plan_example = send_chunks-plan services two_bytes (codes "sha256:d") 1

save_content_digest_example : codes "sha256:d" ≡ expected_digest services two_bytes
save_content_digest_example =
    save_content_digest services two_bytes (codes "id") [] []
      {saved = record { lease = codes "lease"; digest = codes "sha256:d" }}
      (unfold save_content lease upload write_content send_chunks send_message text_eq in refl)

abbrev store : Store
store = (codes "sha256:i", []) ∷ (codes "sha256:a", (codes "id", codes "sha256:gone") ∷ []) ∷ []

abbrev layer_of : Text → List ℕ → WasmLayer
layer_of digest bytes = record {
  config = record { digest = digest; media_type = codes "application/wasm" };
  layer = bytes;
}

load_layers-config_example :
    map config_of (layer_of (codes "sha256:a") (7 ∷ []) ∷ layer_of (codes "sha256:b") (7 ∷ []) ∷ [])
    ≡ keep (supported services engine) manifest.layers
load_layers-config_example =
    load_layers-config services engine manifest (codes "sha256:i") store
      (layer_of (codes "sha256:a") (7 ∷ []) ∷ layer_of (codes "sha256:b") (7 ∷ []) ∷ [])
      (unfold load_layers get_info Dict.get text_eq keep is_wasm_layer read_wasm_layers
          read_wasm_layer digest_to_load read_content in
        refl)
