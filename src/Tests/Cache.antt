-- ===== src/Tests/Cache.antt =====
-- A containerd that keeps content, for the cache of client.rs. The digest of bytes is the bytes
-- themselves, and the store knows the last request that was sent.
use containerd_wasm.Base.{
  none, Option, Option-cases, inl, inr, here, there, true, err, ℕ, Text, codes, ◌++◌, ◌≡◌, ◌≢◌,
  refl, List, [], ◌∷◌, some, ok, Bool, if◌then◌else◌, is_some, map_some, drop, keep, arith, text_eq,
  text_eq_refl, text_eq_iff,
}
use containerd_wasm.Base.Dict
use containerd_wasm.Base.Dict.{Dict}
use containerd_wasm.Sandbox.Oci.{WasmLayer}
use containerd_wasm.Containerd.Services.{
  Services, WriteContentRequest, Info, Manifest, Engine, WriteAction, WriteStart, stat, write,
  commit, opened, already_exists, wasm,
}
use containerd_wasm.Containerd.Write.{
  save_content, lease, upload, write_content, send_chunks, send_message,
}
use containerd_wasm.Containerd.Client.{
  for_runtime, load_layers, store_layers, store_layer, link_content, get_info, update_info,
  is_wasm_layer,
}
use containerd_wasm.Containerd.Client.Again.{for_runtime-load_layers}
use containerd_wasm.Containerd.Client.Loading.{KeepsLabels}
use containerd_wasm.Containerd.Client.Keeping.{Holds, KeepsContent}

record Store : Type 0 where
  labels : Dict (Dict Text)
  -- The digests of the content that is there.
  blobs : Dict Bool
  expected : Text
  offset : ℕ

abbrev received : WriteAction → Text → Dict Bool → Dict Bool
received commit d blobs = Dict.put d true blobs
received stat d blobs = blobs
received write d blobs = blobs

-- A commit brings the labels of new content.
abbrev unless_there : Option (Dict Text) → Text → Dict Text → Dict (Dict Text) → Dict (Dict Text)
unless_there none d new labels = Dict.put d new labels
unless_there (some old) d new labels = labels

abbrev labelled : WriteAction → Text → Dict Text → Dict (Dict Text) → Dict (Dict Text)
labelled commit d new labels = unless_there (Dict.get d labels) d new labels
labelled stat d new labels = labels
labelled write d new labels = labels

abbrev started : Bool → WriteStart
started b = if b then already_exists else opened

abbrev manifest : Manifest
manifest = record {
  config = record { digest = codes "sha256:c"; media_type = codes "config" };
  layers = record { digest = codes "sha256:a"; media_type = codes "application/wasm" } ∷ [];
}

abbrev keeper : Services Store
keeper = record {
  get_container = λ name w. (w, ok (some (codes "image")));
  get_image = λ name w. (w, ok (some (record { name = name; target = some (codes "sha256:i") })));
  info = λ digest w.
      (w, ok (map_some (λ l. record { digest = digest; labels = l }) (Dict.get digest w.labels)));
  update = λ i w. (record w { labels = Dict.put i.digest i.labels w.labels }, ok (some i));
  read = λ digest w. (
    w,
    if is_some (Dict.get digest w.blobs) then ok (drop 7 digest) else err (codes "not found"),
  );
  create_lease = λ name w. (w, ok (some (codes "lease")));
  delete_lease = λ id w. (w, ok tt);
  send = λ r w. (
    record w {
      labels = labelled r.action r.expected r.labels w.labels;
      blobs = received r.action r.expected w.blobs;
      expected = r.expected;
      offset = r.offset;
    },
    ok tt,
  );
  open_write = λ id w. (w, started (is_some (Dict.get w.expected w.blobs)));
  message = λ w. (w, ok (some (record { offset = w.offset; digest = w.expected })));
  digest = λ bytes. bytes;
  parse_digest = λ d. ok d;
  parse_manifest = λ bytes. ok manifest;
  parse_platform = λ bytes. ok (record { architecture = wasm; os = codes "wasip1" });
}

keeper_other :
    (i : Info) (d : Text) (w : Store)
    → d ≢ i.digest
    → (keeper.info d (keeper.update i w).0).1 ≡ (keeper.info d w).1
keeper_other i d w ne =
    ground (arith, Dict.get-put d i.digest i.labels w.labels, text_eq_iff i.digest d)

keeper-KeepsLabels : KeepsLabels keeper
keeper-KeepsLabels = record {
  update_read = λ i j w h.
      rw (Dict.get-put i.digest i.digest i.labels w.labels) (rw (text_eq_refl i.digest) refl);
  update_other = λ i j d w ne h. keeper_other i d w ne;
  info_world = λ d w. refl;
  info_digest = λ d w i h. ground arith;
}

received_content :
    (a : WriteAction) (d key : Text) (blobs : Dict Bool)
    → is_some (Dict.get key blobs) ≡ true
    → is_some (Dict.get key (received a d blobs)) ≡ true
received_content stat d key blobs h = h
received_content write d key blobs h = h
received_content commit d key blobs h = ground (arith, Dict.get-put key d true blobs)

held :
    (bytes : List ℕ) (w : Store)
    → Holds keeper bytes w
    → is_some (Dict.get (codes "sha256:" ++ bytes) w.blobs) ≡ true
held bytes w h = ground arith

holds :
    (bytes : List ℕ) (w : Store)
    → is_some (Dict.get (codes "sha256:" ++ bytes) w.blobs) ≡ true
    → Holds keeper bytes w
holds bytes w h = rw h refl

labelled_content :
    (a : WriteAction) (d key : Text) (new old : Dict Text) (labels : Dict (Dict Text))
    → Dict.get key labels ≡ some old
    → Dict.get key (labelled a d new labels) ≡ some old
labelled_content stat d key new old labels h = h
labelled_content write d key new old labels h = h
labelled_content commit d key new old labels h = elim (Option-cases (Dict.get d labels)) [
  | inl e ↦ ground (arith, Dict.get-put key d new labels, text_eq_iff d key)
  | inr (old, e) ↦ ground arith
]

keeper_info :
    (d : Text) (i : Info) (r : WriteContentRequest) (w : Store)
    → (keeper.info d w).1 ≡ ok (some i)
    → (keeper.info d (keeper.send r w).0).1 ≡ ok (some i)
keeper_info d i r w h = ground (
  arith,
  λ (e : Dict.get d w.labels ≡ some i.labels).
      labelled_content r.action r.expected d r.labels i.labels w.labels e,
)

keeper-KeepsContent : KeepsContent keeper (codes "sha256:i" ∷ codes "sha256:a" ∷ [])
keeper-KeepsContent = record {
  send = λ r. record {
    info = λ d i w h. keeper_info d i r w h;
    content = λ bytes w h.
        holds bytes (keeper.send r w).0
          (received_content r.action r.expected _ w.blobs (held bytes w h));
  };
  message = record { info = λ d i w h. h; content = λ bytes w h. holds bytes _ (held bytes w h) };
  open_write =
      λ id. record { info = λ d i w h. h; content = λ bytes w h. holds bytes _ (held bytes w h) };
  create_lease = λ reference. record {
    info = λ d i w h. h;
    content = λ bytes w h. holds bytes _ (held bytes w h);
  };
  update_content = λ i bytes w h. holds bytes _ (held bytes w h);
  delete_info = λ id d i w root h. h;
  delete_content = λ id d i n bytes w root e l h. holds bytes _ (held bytes w h);
  committed = λ bytes labels w r s m e. holds bytes _ (
      rw
        (
          Dict.get-put (codes "sha256:" ++ bytes) (codes "sha256:" ++ bytes) true w.blobs,
          text_eq_refl (codes "sha256:" ++ bytes),
        )
        refl);
  existing = λ bytes reference id w e. holds bytes _ (ground arith);
  parsed = λ bytes. refl;
}

abbrev compiler : Engine
compiler = record {
  name = codes "wasmtime";
  can_precompile = some (codes "1");
  supported_layers_types = codes "application/wasm" ∷ [];
  precompile = λ layers. ok (some (9 ∷ []) ∷ []);
}

abbrev module_layer : List ℕ → WasmLayer
module_layer bytes = record {
  config = record { digest = codes "sha256:a"; media_type = codes "application/wasm" };
  layer = bytes;
}

abbrev before : Store
before = record {
  labels = (codes "sha256:i", []) ∷ (codes "sha256:a", []) ∷ [];
  blobs = (codes "sha256:a", true) ∷ [];
  expected = [];
  offset = 0;
}

abbrev after : Store
after = (for_runtime keeper compiler (codes "sha256:i") (module_layer (7 ∷ []) ∷ []) true before).0

for_runtime-load_layers_example :
    load_layers keeper compiler manifest (codes "sha256:i") after
    ≡ (after, ok (module_layer (9 ∷ []) ∷ []))
for_runtime-load_layers_example =
    for_runtime-load_layers keeper keeper-KeepsLabels keeper-KeepsContent compiler manifest
      (codes "sha256:i") (codes "1") (module_layer (7 ∷ [])) [] ((9 ∷ []) ∷ []) before after refl
      refl (unfold keep is_wasm_layer text_eq in refl) (λ e. ground arith, tt, tt) here
      (there here, tt)
      (unfold store_layers store_layer save_content lease upload write_content send_chunks
          send_message link_content get_info update_info Dict.get Dict.put text_eq in
        refl)
