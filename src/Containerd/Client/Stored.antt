-- ===== src/Containerd/Client/Stored.antt =====
-- One round of the loop of client.rs that stores compiled content, and what it leaves behind.
use containerd_wasm.Base.{
  In, ℕ, Text, codes, ◌++◌, ◌≡◌, ◌≢◌, ap, inl, inr, some, List, [], ◌∷◌, ok, Outcome-cases, Bool,
  true, arith,
}
use containerd_wasm.Sandbox.Oci.{Descriptor, WasmLayer}
use containerd_wasm.Containerd.Services.{Services}
use containerd_wasm.Containerd.Write.{WriteContent, save_content}
use containerd_wasm.Containerd.Write.Digest.{save_content_digest}
use containerd_wasm.Containerd.Client.{
  link_content, store_layer, read_wasm_layer, digest_to_load, read_content,
}
use containerd_wasm.Containerd.Client.Loading.{KeepsLabels, link_content_found}
use containerd_wasm.Containerd.Client.Keeping.{KeepsContent, save_content-Holds}
use containerd_wasm.Containerd.Client.Kept.{save_content-Keeps}
use containerd_wasm.Containerd.Client.Cache.{
  IsCached, IsKnown, delete-IsCached, IsCached-IsKept, link-IsCached_other, link-IsCached, info_of,
  get_info_of,
}

module _ {W : Type 0} (c : Services W) where
  -- The steps of a round that has stored compiled content.
  pub record IsStored (n : ℕ) (id image : Text) (layer : WasmLayer) (bytes : List ℕ) (w w' : W)
      : Type 0 where
    pub saved : WriteContent
    pub w2 : W
    pub saves :
        (save_content c bytes id ((id ++ codes "/original", layer.config.digest) ∷ []) w).1
        ≡ ok saved
    pub links :
        link_content c n id image layer.config saved.digest
          (save_content c bytes id ((id ++ codes "/original", layer.config.digest) ∷ []) w).0
        ≡ (w2, ok tt)
    pub ends : w' ≡ (c.delete_lease saved.lease w2).0

  pub store_layer-IsStored :
      (n : ℕ) (id image : Text) (layer : WasmLayer) (bytes : List ℕ) (w w' : W) {r : WasmLayer}
      → store_layer c n id image layer (some bytes) w ≡ (w', ok r)
      → IsStored n id image layer bytes w w' × (r ≡ record { config = layer.config; layer = bytes })
  unfolding store_layer
  store_layer-IsStored n id image layer bytes w w' h =
      let first = save_content c bytes id ((id ++ codes "/original", layer.config.digest) ∷ []) w in
      elim (Outcome-cases first.1) [
        | inr e ↦ absurd (ground arith)
        | inl (saved, e) ↦
            let second = link_content c n id image layer.config saved.digest first.0 in
            elim (Outcome-cases second.1) [
              | inr f ↦ absurd (ground arith)
              | inl (u, f) ↦ (
                record {
                  saved = saved;
                  w2 = second.0;
                  saves = e;
                  links = ground arith;
                  ends = ground arith;
                },
                ground arith,
              )
            ]
      ]

  module _ (labels : KeepsLabels c) {referenced : List Text}
      (contents : KeepsContent c referenced) where
    pub stored-IsCached :
        {n : ℕ} {id image : Text} {layer : WasmLayer} {bytes : List ℕ} {w w' : W}
        → image ≢ layer.config.digest
        → In layer.config.digest referenced
        → IsStored n id image layer bytes w w'
        → IsCached c n id layer.config.digest bytes w'
    stored-IsCached {n} {id} {image} {layer} {bytes} {w} {w'} ne root s =
        let m = (id ++ codes "/original", layer.config.digest) ∷ [] in
        let same = save_content_digest c bytes id m w s.saves in
        let there = save_content-Holds c contents bytes id m w s.saves in
        rw s.ends (
          delete-IsCached c labels contents s.saved.lease s.w2 root (
            link-IsCached c labels contents n id image layer.config bytes
              (save_content c bytes id m w).0 s.w2 ne (rw same at s.links) there))

    pub stored-IsCached_other :
        {n m : ℕ} {id image d : Text} {layer : WasmLayer} {bytes bytes' : List ℕ} {w w' : W}
        → d ≢ layer.config.digest
        → d ≢ image
        → In d referenced
        → IsStored n id image layer bytes w w'
        → IsCached c m id d bytes' w
        → IsCached c m id d bytes' w'
    stored-IsCached_other {n} {m} {id} {image} {d} {layer} {bytes} {bytes'} {w} {w'} ne ne' root s
          x =
        let by = (id ++ codes "/original", layer.config.digest) ∷ [] in
        let saved =
          save_content-Keeps c (IsCached-IsKept c labels contents m id d bytes')
            (λ lease w y. delete-IsCached c labels contents lease w root y) bytes id by w x in
        rw s.ends (
          delete-IsCached c labels contents s.saved.lease s.w2 root (
            link-IsCached_other c labels contents n id image layer.config s.saved.digest
              (save_content c bytes id by w).0 s.w2 ne ne' s.links saved))

    pub stored-IsKnown :
        {n : ℕ} {id image : Text} {layer : WasmLayer} {bytes : List ℕ} {w w' : W}
        → In image referenced
        → IsStored n id image layer bytes w w'
        → IsKnown c id image w'
    stored-IsKnown {n} {id} {image} {layer} {bytes} {w} {w'} root s =
        let by = (id ++ codes "/original", layer.config.digest) ∷ [] in
        let (info, e, label) =
          link_content_found c labels n id image layer.config s.saved.digest
            (save_content c bytes id by w).0 s.w2 s.links in
        record {
          info = info;
          read = rw s.ends (
              contents.delete_info s.saved.lease image info s.w2 root
                (info_of c image s.w2 (ap (λ r. r.1) e)));
          label = label;
        }

    pub IsCached-read_wasm_layer :
        {n : ℕ} (id : Text) (config : Descriptor) (bytes : List ℕ) (needs : Bool) (w : W)
        → IsCached c n id config.digest bytes w
        → read_wasm_layer c config true id needs w
          ≡ (w, ok (record { config = config; layer = bytes }, needs))
    unfolding read_wasm_layer digest_to_load read_content
    IsCached-read_wasm_layer id config bytes needs w x =
        let found = get_info_of c labels config.digest w x.read in
        let name = contents.parsed bytes in ground (arith, x.label, x.content)
