-- ===== src/TarBuilder/Blobs.antt =====
-- What the archive of a build of oci-tar-builder's lib.rs that succeeds has.
use containerd_wasm.Base.{
  ℕ, Text, ◌≡◌, refl, inl, inr, List, [], ◌∷◌, ◌++◌, true, ok, length, In, here, In-append_left,
  In-append_right, All, text_eq, text_eq_refl, FilePath, arith, is_some, Bool-cases, Outcome-cases,
}
use containerd_wasm.Base.Dict
use containerd_wasm.Base.Dict.{Dict}
use containerd_wasm.TarBuilder.{
  Descriptor, Tools, Entry, State, sha256, blob, blob_path, descriptor, media_type_of, build_layers,
  build_layer,
}

module _ (t : Tools) where
  -- A file has the same bytes when it is digested, measured and opened.
  pub record Unchanged : Type 0 where
    pub measured :
        (path : FilePath) (bytes : List ℕ) (size : ℕ)
        → t.read_file path ≡ ok bytes
        → t.metadata path ≡ ok size
        → size ≡ length bytes
    pub opened :
        (path : FilePath) (bytes f : List ℕ)
        → t.read_file path ≡ ok bytes
        → t.open_file path ≡ ok f
        → f ≡ bytes

  -- The state after a round for a layer with these bytes.
  abbrev layer_added : Text → List ℕ → State → State
  layer_added media_type bytes s =
      let dgst = t.digest bytes in
      record s {
        archive = s.archive ++ blob dgst bytes ∷ [];
        layer_digests =
            Dict.put (sha256 dgst)
              (descriptor (media_type_of media_type) (sha256 dgst) (length bytes)) s.layer_digests;
        docker = record s.docker { layers = s.docker.layers ++ blob_path dgst ∷ [] };
      }

  build_layer_ok :
      Unchanged
      → (path : FilePath) (media_type : Text) (s : State)
      → (build_layer t path media_type s).1 ≡ ok tt
      → (bytes : List ℕ) × (t.read_file path ≡ ok bytes)
        × ((build_layer t path media_type s).0 ≡ layer_added media_type bytes s)
  unfolding build_layer
  build_layer_ok u path media_type s h = elim (Outcome-cases (t.read_file path)) [
    | inr e ↦ absurd (ground arith)
    | inl (bytes, e) ↦ elim (Outcome-cases (t.metadata path)) [
      | inr f ↦ absurd (ground arith)
      | inl (size, f) ↦ elim (Outcome-cases (t.open_file path)) [
        | inr g ↦ absurd (ground arith)
        | inl (opened, g) ↦
            let same = u.measured path bytes size e f in
            let same' = u.opened path bytes opened e g in (bytes, e, ground arith)
      ]
    ]
  ]

  -- The archive has the bytes of the descriptor, under the path that its digest names.
  abbrev pub HasBlob : List Entry → Descriptor → Type 0
  HasBlob archive d =
      (bytes : List ℕ) × In (blob (t.digest bytes) bytes) archive
      × (d.digest ≡ sha256 (t.digest bytes))
      × (d.size ≡ length bytes)

  abbrev pub HasLayers : List Entry → Dict Descriptor → Type 0
  HasLayers archive m = All (λ (k, d). HasBlob archive d × (d.digest ≡ k)) m

  -- The digest of the file is among the layers.
  abbrev pub IsNamed : Dict Descriptor → FilePath × Text → Type 0
  IsNamed m (path, media_type) =
      (bytes : List ℕ) × (t.read_file path ≡ ok bytes)
      × (is_some (Dict.get (sha256 (t.digest bytes)) m) ≡ true)

  pub HasBlob-append :
      (archive more : List Entry) (d : Descriptor) → HasBlob archive d → HasBlob (archive ++ more) d
  HasBlob-append archive more d (bytes, i, h, h') = (bytes, In-append_left more i, h, h')

  pub HasLayers-append :
      (archive more : List Entry) (m : Dict Descriptor)
      → HasLayers archive m
      → HasLayers (archive ++ more) m
  HasLayers-append archive more [] all = tt
  HasLayers-append archive more ((k, d) ∷ m) ((b, e), all) =
      ((HasBlob-append archive more d b, e), HasLayers-append archive more m all)

  HasLayers-put :
      (archive : List Entry) (k : Text) (d : Descriptor) (m : Dict Descriptor)
      → HasBlob archive d
      → d.digest ≡ k
      → HasLayers archive m
      → HasLayers archive (Dict.put k d m)
  unfolding Dict.put
  HasLayers-put archive k d [] b e all = ((b, e), tt)
  HasLayers-put archive k d ((j, w) ∷ m) b e (first, rest) = elim (Bool-cases (text_eq j k)) [
    | inl f ↦ rw f ((b, e), rest)
    | inr f ↦ rw f (first, HasLayers-put archive k d m b e rest)
  ]

  layer_added-HasLayers :
      (media_type : Text) (bytes : List ℕ) (s : State)
      → HasLayers s.archive s.layer_digests
      → let s' = layer_added media_type bytes s in HasLayers s'.archive s'.layer_digests
  layer_added-HasLayers media_type bytes s h =
      HasLayers-put _ _ _ s.layer_digests (bytes, In-append_right s.archive here, refl, refl) refl
        (HasLayers-append s.archive (blob (t.digest bytes) bytes ∷ []) s.layer_digests h)

  IsNamed-put :
      (k : Text) (d : Descriptor) (m : Dict Descriptor) (l : FilePath × Text)
      → IsNamed m l
      → IsNamed (Dict.put k d m) l
  IsNamed-put k d m l (bytes, e, f) =
      (bytes, e, ground (arith, Dict.get-put (sha256 (t.digest bytes)) k d m))

  -- What the first loop leaves behind when it succeeds.
  pub record HasBuilt (layers : List (FilePath × Text)) (s s' : State) : Type 0 where
    pub blobs : HasLayers s'.archive s'.layer_digests
    pub named : All (IsNamed s'.layer_digests) layers
    pub kept : (l : FilePath × Text) → IsNamed s.layer_digests l → IsNamed s'.layer_digests l

  pub build_layers-HasBuilt :
      Unchanged
      → (layers : List (FilePath × Text)) (s : State) → HasLayers s.archive s.layer_digests
      → (build_layers t layers s).1 ≡ ok tt
      → HasBuilt layers s (build_layers t layers s).0
  unfolding build_layers
  build_layers-HasBuilt u [] s h e = record { blobs = h; named = tt; kept = λ l n. n }
  build_layers-HasBuilt u ((path, media_type) ∷ layers) s h e =
      let one = build_layer t path media_type s in
      elim (Outcome-cases one.1) [
        | inr f ↦ absurd (ground arith)
        | inl (x, f) ↦
            let (bytes, r, same) = build_layer_ok u path media_type s f in
            let s1 = layer_added media_type bytes s in
            let rest : HasBuilt layers s1 (build_layers t layers s1).0 =
              build_layers-HasBuilt u layers s1 (layer_added-HasLayers media_type bytes s h)
                (ground arith) in
            let here_named : IsNamed s1.layer_digests (path, media_type) = (
              bytes,
              r,
              ground (
                arith,
                text_eq_refl (sha256 (t.digest bytes)),
                Dict.get-put (sha256 (t.digest bytes)) (sha256 (t.digest bytes))
                    (descriptor (media_type_of media_type) (sha256 (t.digest bytes)) (length bytes))
                    s.layer_digests,
              ),
            ) in
            rw (f, same)
              (record {
                blobs = rest.blobs;
                named = (rest.kept (path, media_type) here_named, rest.named);
                kept = λ l n. rest.kept l (IsNamed-put _ _ s.layer_digests l n);
              })
      ]
