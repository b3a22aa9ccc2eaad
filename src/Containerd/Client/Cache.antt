-- ===== src/Containerd/Client/Cache.antt =====
-- Compiled content in the cache of client.rs: how it gets there, and what keeps it there.
use containerd_wasm.Base.{In, ℕ, Text, codes, ◌≡◌, ◌≢◌, ap, ◌∙◌, some, List, ok, arith}
use containerd_wasm.Base.Dict
use containerd_wasm.Sandbox.Oci.{Descriptor}
use containerd_wasm.Containerd.Services.{Services, Info}
use containerd_wasm.Containerd.Write.{expected_digest}
use containerd_wasm.Containerd.Client.{gc_label, get_info, update_info, link_content}
use containerd_wasm.Containerd.Client.Loading.{
  KeepsLabels, link_content-IsLinked, labelled_layer, labelled_image, labelled_layer-get,
  labelled_layer_gc, link_content-labelled_layer, link_content_other, get_info-world,
}
use containerd_wasm.Containerd.Client.Keeping.{Holds, Leaves, KeepsContent}
use containerd_wasm.Containerd.Client.Kept.{IsKept}

module _ {W : Type 0} (c : Services W) where
  pub info_of :
      (d : Text) (w : W) {i : Info} → (get_info c d w).1 ≡ ok i → (c.info d w).1 ≡ ok (some i)
  unfolding get_info
  info_of d w h = ground arith

  pub get_info_of :
      KeepsLabels c
      → (d : Text) (w : W) {i : Info} → (c.info d w).1 ≡ ok (some i)
      → get_info c d w ≡ (w, ok i)
  unfolding get_info
  get_info_of k d w h = let same = k.info_world d w in ground arith

  -- Compiled content of a layer can be found, is kept from the garbage collector, and can be read.
  pub record IsCached (n : ℕ) (id d : Text) (bytes : List ℕ) (w : W) : Type 0 where
    pub info : Info
    pub read : (c.info d w).1 ≡ ok (some info)
    pub label : Dict.get id info.labels ≡ some (expected_digest c bytes)
    pub gc : Dict.get (gc_label n) info.labels ≡ some (expected_digest c bytes)
    pub content : Holds c bytes w

  -- The image is known to be compiled.
  pub record IsKnown (id image : Text) (w : W) : Type 0 where
    pub info : Info
    pub read : (c.info image w).1 ≡ ok (some info)
    pub label : Dict.get id info.labels ≡ some (codes "true")

  module _ (labels : KeepsLabels c) {referenced : List Text}
      (contents : KeepsContent c referenced) where
    leaves-IsCached :
        {n : ℕ} {id d : Text} {bytes : List ℕ} (f : W → W)
        → Leaves c f
        → (w : W) → IsCached n id d bytes w
        → IsCached n id d bytes (f w)
    leaves-IsCached {d = d} {bytes = bytes} f l w x = record {
      info = x.info;
      read = l.info d x.info w x.read;
      label = x.label;
      gc = x.gc;
      content = l.content bytes w x.content;
    }

    pub delete-IsCached :
        {n : ℕ} {id d : Text} {bytes : List ℕ} (lease : Text) (w : W)
        → In d referenced
        → IsCached n id d bytes w
        → IsCached n id d bytes (c.delete_lease lease w).0
    delete-IsCached {n} {id} {d} {bytes} lease w root x = record {
      info = x.info;
      read = contents.delete_info lease d x.info w root x.read;
      label = x.label;
      gc = x.gc;
      content = contents.delete_content lease d x.info n bytes w root x.read x.gc x.content;
    }

    pub IsCached-IsKept : (n : ℕ) (id d : Text) (bytes : List ℕ) → IsKept c (IsCached n id d bytes)
    IsCached-IsKept n id d bytes = record {
      send = λ r w x. leaves-IsCached (λ v. (c.send r v).0) (contents.send r) w x;
      message = λ w x. leaves-IsCached (λ v. (c.message v).0) contents.message w x;
      open_write = λ lease w x.
          leaves-IsCached (λ v. (c.open_write lease v).0) (contents.open_write lease) w x;
      create_lease =
          λ r w x. leaves-IsCached (λ v. (c.create_lease r v).0) (contents.create_lease r) w x;
    }

    update_info_content :
        (i : Info) (bytes : List ℕ) (w : W) → Holds c bytes w → Holds c bytes (update_info c i w).0
    unfolding update_info
    update_info_content i bytes w x = ground (arith, contents.update_content i bytes w x)

    link_content-Holds :
        (n : ℕ) (id image : Text) (original : Descriptor) (digest : Text) (w w' : W)
        → link_content c n id image original digest w ≡ (w', ok tt)
        → (bytes : List ℕ) → Holds c bytes w
        → Holds c bytes w'
    link_content-Holds n id image original digest w w' h bytes x =
        let l = link_content-IsLinked c n id image original digest w w' h in
        let layer' = labelled_layer c n id digest l.layer in
        let w2 = (update_info c layer' l.w1).0 in
        let start = get_info-world c labels original.digest w in
        let unmoved = get_info-world c labels image w2 in
        let first : Holds c bytes w2 =
          update_info_content layer' bytes l.w1 (ground (arith, l.layer_read)) in
        let there : Holds c bytes l.w3 = ground (arith, l.image_read) in
        ground (
          arith,
          l.image_written,
          update_info_content (labelled_image c n id digest l.content) bytes l.w3 there,
        )

    pub link-IsCached_other :
        {m : ℕ} {id' d : Text} {bytes : List ℕ} (n : ℕ) (id image : Text) (original : Descriptor)
        (digest : Text) (w w' : W)
        → d ≢ original.digest
        → d ≢ image
        → link_content c n id image original digest w ≡ (w', ok tt)
        → IsCached m id' d bytes w
        → IsCached m id' d bytes w'
    link-IsCached_other {d = d} {bytes = bytes} n id image original digest w w' ne ne' h x =
        record {
          info = x.info;
          read = info_of d w' (
              link_content_other c labels n id image original digest d w w' ne ne' h
              ∙ ap (λ r. r.1) (get_info_of labels d w x.read));
          label = x.label;
          gc = x.gc;
          content = link_content-Holds n id image original digest w w' h bytes x.content;
        }

    pub link-IsCached :
        (n : ℕ) (id image : Text) (original : Descriptor) (bytes : List ℕ) (w w' : W)
        → image ≢ original.digest
        → link_content c n id image original (expected_digest c bytes) w ≡ (w', ok tt)
        → Holds c bytes w
        → IsCached n id original.digest bytes w'
    link-IsCached n id image original bytes w w' ne h x =
        let (layer, e) =
          link_content-labelled_layer c labels n id image original (expected_digest c bytes) w w' ne
            h in
        record {
          info = labelled_layer c n id (expected_digest c bytes) layer;
          read = info_of original.digest w' (ap (λ r. r.1) e);
          label = labelled_layer-get c n id (expected_digest c bytes) layer;
          gc = labelled_layer_gc c n id (expected_digest c bytes) layer;
          content = link_content-Holds n id image original (expected_digest c bytes) w w' h bytes x;
        }
