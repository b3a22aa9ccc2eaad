-- ===== src/Containerd/Client/Loading.antt =====
-- The cache of `load_modules` of client.rs: fallbacks, refusals, and what is found the next time.
use containerd_wasm.Base.{
  true, ap, ℕ, Text, codes, ◌≡◌, ◌≢◌, inl, inr, ◌∙◌, Option, none, some, List, ok, err,
  Outcome-cases, arith, length, text_eq_refl,
}
use containerd_wasm.Base.Dict
use containerd_wasm.Sandbox.Error.{failed_precondition}
use containerd_wasm.Sandbox.Oci.{Descriptor, WasmLayer}
use containerd_wasm.Containerd.Services.{Services, Info}
use containerd_wasm.Containerd.Client.{
  get_info, update_info, link_content, compiled_or_original, gc_label, digest_to_load,
}

module _ {W : Type 0} (c : Services W) where
  -- If the engine answers with another number of layers than it was given, loading fails, and
  -- nothing is written to containerd.
  pub compiled_or_original-wrong_number :
      (id image : Text) (layers : List WasmLayer) (compiled : List (Option (List ℕ))) (w : W)
      → length compiled ≢ length layers
      → compiled_or_original c id image layers (ok compiled) w
        ≡ (w, err (failed_precondition (codes "precompile returned wrong number of layers")))
  compiled_or_original-wrong_number id image layers compiled w h = ground arith

  -- What containerd promises about the labels of content: an update that succeeds is read back at
  -- once and touches no other content, and reading changes nothing.
  pub record KeepsLabels : Type 0 where
    pub update_read :
        (i j : Info) (w : W)
        → (c.update i w).1 ≡ ok (some j)
        → c.info i.digest (c.update i w).0 ≡ ((c.update i w).0, ok (some i))
    pub update_other :
        (i j : Info) (d : Text) (w : W)
        → d ≢ i.digest
        → (c.update i w).1 ≡ ok (some j)
        → (c.info d (c.update i w).0).1 ≡ (c.info d w).1
    pub info_world : (d : Text) (w : W) → (c.info d w).0 ≡ w
    pub info_digest : (d : Text) (w : W) (i : Info) → (c.info d w).1 ≡ ok (some i) → i.digest ≡ d

  update_info-read :
      KeepsLabels
      → (i j : Info) (w : W) → (update_info c i w).1 ≡ ok j
      → get_info c i.digest (update_info c i w).0 ≡ ((update_info c i w).0, ok i)
  unfolding update_info get_info
  update_info-read k i j w h = elim (Outcome-cases (c.update i w).1) [
    | inl (some j', e) ↦ let found = k.update_read i j' w e in ground arith
    | inl (none, e) ↦ absurd (ground arith)
    | inr e ↦ absurd (ground arith)
  ]

  get_info-digest :
      KeepsLabels → (d : Text) (w : W) (i : Info) → (get_info c d w).1 ≡ ok i → i.digest ≡ d
  unfolding get_info
  get_info-digest k d w i h = elim (Outcome-cases (c.info d w).1) [
    | inl (some j, e) ↦ let same = k.info_digest d w j e in ground arith
    | inl (none, e) ↦ absurd (ground arith)
    | inr e ↦ absurd (ground arith)
  ]

  -- The labels that a link writes: on the original layer and on the image.
  abbrev pub labelled_layer : ℕ → Text → Text → Info → Info
  labelled_layer i id digest layer = record layer {
    labels = Dict.put (gc_label i) digest (Dict.put id digest layer.labels);
  }

  abbrev pub labelled_image : ℕ → Text → Text → Info → Info
  labelled_image i id digest content = record content {
    labels = Dict.put id (codes "true") (Dict.put (gc_label i) digest content.labels);
  }

  -- The two writes of a link that succeeds, with the worlds between them.
  pub record IsLinked (i : ℕ) (id image digest : Text) (original : Descriptor) (w w' : W)
      : Type 0 where
    pub layer : Info
    pub content : Info
    pub j : Info
    pub j' : Info
    pub w1 : W
    pub w3 : W
    pub layer_read : get_info c original.digest w ≡ (w1, ok layer)
    pub layer_written : (update_info c (labelled_layer i id digest layer) w1).1 ≡ ok j
    pub image_read :
        get_info c image (update_info c (labelled_layer i id digest layer) w1).0 ≡ (w3, ok content)
    pub image_written : update_info c (labelled_image i id digest content) w3 ≡ (w', ok j')

  pub link_content-IsLinked :
      (i : ℕ) (id image : Text) (original : Descriptor) (digest : Text) (w w' : W)
      → link_content c i id image original digest w ≡ (w', ok tt)
      → IsLinked i id image digest original w w'
  unfolding link_content
  link_content-IsLinked i id image original digest w w' h =
      let first = get_info c original.digest w in
      elim (Outcome-cases first.1) [
        | inr e ↦ absurd (ground arith)
        | inl (layer, e) ↦
            let second = update_info c (labelled_layer i id digest layer) first.0 in
            elim (Outcome-cases second.1) [
              | inr f ↦ absurd (ground arith)
              | inl (j, f) ↦
                  let third = get_info c image second.0 in
                  elim (Outcome-cases third.1) [
                    | inr g ↦ absurd (ground arith)
                    | inl (content, g) ↦
                        let fourth = update_info c (labelled_image i id digest content) third.0 in
                        elim (Outcome-cases fourth.1) [
                          | inr u ↦ absurd (ground arith)
                          | inl (j', u) ↦ record {
                            layer = layer;
                            content = content;
                            j = j;
                            j' = j';
                            w1 = first.0;
                            w3 = third.0;
                            layer_read = ground arith;
                            layer_written = f;
                            image_read = ground arith;
                            image_written = ground arith;
                          }
                        ]
                  ]
            ]
      ]

  -- Once compiled content is linked, the image is known to be compiled for this engine: its label is
  -- found the next time, so nothing is compiled again.
  pub link_content_found :
      KeepsLabels
      → (i : ℕ) (id image : Text) (original : Descriptor) (digest : Text) (w w' : W)
      → link_content c i id image original digest w ≡ (w', ok tt)
      → (info : Info) × (get_info c image w' ≡ (w', ok info))
        × (Dict.get id info.labels ≡ some (codes "true"))
  link_content_found k i id image original digest w w' h =
      let l = link_content-IsLinked i id image original digest w w' h in
      let kept = labelled_image i id digest l.content in
      let same =
        get_info-digest k image (update_info c (labelled_layer i id digest l.layer) l.w1).0
          l.content in
      (
        kept,
        ground (arith, update_info-read k kept l.j' l.w3, l.image_written, l.image_read, same),
        Dict.get-put id id (codes "true") (Dict.put (gc_label i) digest l.content.labels)
            ∙ rw (text_eq_refl id),
      )

  pub labelled_layer-get :
      (i : ℕ) (id digest : Text) (layer : Info)
      → Dict.get id (labelled_layer i id digest layer).labels ≡ some digest
  labelled_layer-get i id digest layer = ground (
    arith,
    Dict.get-put id (gc_label i) digest (Dict.put id digest layer.labels),
    Dict.get-put id id digest layer.labels,
    text_eq_refl id,
  )

  pub labelled_layer_gc :
      (i : ℕ) (id digest : Text) (layer : Info)
      → Dict.get (gc_label i) (labelled_layer i id digest layer).labels ≡ some digest
  labelled_layer_gc i id digest layer = ground (
    arith,
    Dict.get-put (gc_label i) (gc_label i) digest (Dict.put id digest layer.labels),
    text_eq_refl (gc_label i),
  )

  get_info-other :
      KeepsLabels
      → (i j : Info) (d : Text) (w : W) → d ≢ i.digest
      → (update_info c i w).1 ≡ ok j
      → (get_info c d (update_info c i w).0).1 ≡ (get_info c d w).1
  unfolding get_info update_info
  get_info-other k i j d w ne h = elim (Outcome-cases (c.update i w).1) [
    | inl (some j', e) ↦ let same = k.update_other i j' d w ne e in ground arith
    | inl (none, e) ↦ absurd (ground arith)
    | inr e ↦ absurd (ground arith)
  ]

  pub get_info-world : KeepsLabels → (d : Text) (w : W) → (get_info c d w).0 ≡ w
  unfolding get_info
  get_info-world k d w = let same = k.info_world d w in ground arith

  -- A link leaves the labels of all content but the layer's and the image's.
  pub link_content_other :
      KeepsLabels
      → (i : ℕ) (id image : Text) (original : Descriptor) (digest d : Text) (w w' : W)
      → d ≢ original.digest
      → d ≢ image
      → link_content c i id image original digest w ≡ (w', ok tt)
      → (get_info c d w').1 ≡ (get_info c d w).1
  link_content_other k i id image original digest d w w' ne ne' h =
      let l = link_content-IsLinked i id image original digest w w' h in
      let layer' = labelled_layer i id digest l.layer in
      let w2 = (update_info c layer' l.w1).0 in
      let kept = labelled_image i id digest l.content in
      let layer_digest = get_info-digest k original.digest w l.layer (ap (λ x. x.1) l.layer_read) in
      let image_digest = get_info-digest k image w2 l.content (ap (λ x. x.1) l.image_read) in
      let first = get_info-other k layer' l.j d l.w1 (λ e. ne (e ∙ layer_digest)) l.layer_written in
      let second =
        get_info-other k kept l.j' d l.w3 (λ e. ne' (e ∙ image_digest))
          (ap (λ x. x.1) l.image_written) in
      let start = get_info-world k original.digest w in
      let unmoved = get_info-world k image w2 in
      ground (arith, l.layer_read, l.image_read, l.image_written)

  -- A link leaves the layer with its two labels.
  pub link_content-labelled_layer :
      KeepsLabels
      → (i : ℕ) (id image : Text) (original : Descriptor) (digest : Text) (w w' : W)
      → image ≢ original.digest
      → link_content c i id image original digest w ≡ (w', ok tt)
      → (layer : Info) × (get_info c original.digest w'
          ≡ (w', ok (labelled_layer i id digest layer)))
  link_content-labelled_layer k i id image original digest w w' ne h =
      let l = link_content-IsLinked i id image original digest w w' h in
      let layer' = labelled_layer i id digest l.layer in
      let w2 = (update_info c layer' l.w1).0 in
      let kept = labelled_image i id digest l.content in
      let layer_digest = get_info-digest k original.digest w l.layer (ap (λ x. x.1) l.layer_read) in
      let image_digest = get_info-digest k image w2 l.content (ap (λ x. x.1) l.image_read) in
      let written = update_info-read k layer' l.j l.w1 l.layer_written in
      let unmoved = get_info-world k image w2 in
      let other = get_info-other k kept l.j' original.digest l.w3 in
      let still = get_info-world k original.digest w' in
      (l.layer, ground (arith, l.image_read, l.image_written))

  -- Once compiled content is linked, it is what is loaded for the layer the next time.
  pub link_content-digest_to_load :
      KeepsLabels
      → (i : ℕ) (id image : Text) (original : Descriptor) (digest parsed : Text) (w w' : W)
      → image ≢ original.digest
      → c.parse_digest digest ≡ ok parsed
      → link_content c i id image original digest w ≡ (w', ok tt)
      → digest_to_load c original true id w' ≡ (w', ok parsed)
  unfolding digest_to_load
  link_content-digest_to_load k i id image original digest parsed w w' ne p h =
      let (layer, e) = link_content-labelled_layer k i id image original digest w w' ne h in
      let found = labelled_layer-get i id digest layer in ground arith
