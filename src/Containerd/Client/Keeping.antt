-- ===== src/Containerd/Client/Keeping.antt =====
-- Compiled content of client.rs that containerd keeps: what containerd promises of content, and what
-- `save_content` makes of it.
use containerd_wasm.Base.{
  In, ℕ, suc, Text, codes, ◌++◌, ◌≡◌, refl, inl, inr, none, some, List, ok, Outcome-cases, arith,
  length, text_eq_iff,
}
use containerd_wasm.Base.Dict
use containerd_wasm.Base.Dict.{Dict}
use containerd_wasm.Containerd.Services.{
  Services, Info, WriteContentRequest, WriteContentResponse, WriteStart, already_exists, opened,
  refused,
}
use containerd_wasm.Containerd.Write.{
  WriteContent, lease, upload, write_content, send_chunks, send_message, expected_digest,
  save_content, stat_request, commit_request, after_start,
}
use containerd_wasm.Containerd.Client.{gc_label}

module _ {W : Type 0} (c : Services W) where
  -- A read of the digest of these bytes gives them, and changes nothing.
  abbrev pub Holds : List ℕ → W → Type 0
  Holds bytes w = c.read (expected_digest c bytes) w ≡ (w, ok bytes)

  -- Content that is there stays, with its labels. Other content may come.
  pub record Leaves (f : W → W) : Type 0 where
    pub info :
        (d : Text) (i : Info) (w : W)
        → (c.info d w).1 ≡ ok (some i)
        → (c.info d (f w)).1 ≡ ok (some i)
    pub content : (bytes : List ℕ) (w : W) → Holds bytes w → Holds bytes (f w)

  -- What containerd promises of content, its digests taken as without collisions. A write may bring new
  -- content with its labels, but does not touch content that is there. Bytes are there after a commit
  -- of their digest that is answered with that digest, and when a write of it is refused because it
  -- exists. When a lease is deleted, the garbage collector leaves what images refer to, and what a label
  -- for the garbage collector on such content refers to.
  pub record KeepsContent (referenced : List Text) : Type 0 where
    pub send : (r : WriteContentRequest) → Leaves (λ w. (c.send r w).0)
    pub message : Leaves (λ w. (c.message w).0)
    pub open_write : (id : Text) → Leaves (λ w. (c.open_write id w).0)
    pub create_lease : (reference : Text) → Leaves (λ w. (c.create_lease reference w).0)
    pub update_content :
        (i : Info) (bytes : List ℕ) (w : W) → Holds bytes w → Holds bytes (c.update i w).0
    pub delete_info :
        (id d : Text) (i : Info) (w : W)
        → In d referenced
        → (c.info d w).1 ≡ ok (some i)
        → (c.info d (c.delete_lease id w).0).1 ≡ ok (some i)
    pub delete_content :
        (id d : Text) (i : Info) (n : ℕ) (bytes : List ℕ) (w : W)
        → In d referenced
        → (c.info d w).1 ≡ ok (some i)
        → Dict.get (gc_label n) i.labels ≡ some (expected_digest c bytes)
        → Holds bytes w
        → Holds bytes (c.delete_lease id w).0
    pub committed :
        (bytes : List ℕ) (labels : Dict Text) (w : W) (r : WriteContentResponse)
        → (c.send (commit_request (length bytes) (expected_digest c bytes) labels) w).1 ≡ ok tt
        → (c.message
            (c.send (commit_request (length bytes) (expected_digest c bytes) labels) w).0).1
          ≡ ok (some r)
        → r.digest ≡ expected_digest c bytes
        → Holds bytes
            (c.message
              (c.send (commit_request (length bytes) (expected_digest c bytes) labels) w).0).0
    pub existing :
        (bytes : List ℕ) (reference id : Text) (w : W)
        → (c.open_write id (c.send (stat_request reference (expected_digest c bytes)) w).0).1
          ≡ already_exists
        → Holds bytes
            (c.open_write id (c.send (stat_request reference (expected_digest c bytes)) w).0).0
    pub parsed :
        (bytes : List ℕ) → c.parse_digest (expected_digest c bytes) ≡ ok (expected_digest c bytes)

  write_content-Holds :
      {referenced : List Text}
      → KeepsContent referenced
      → (bytes : List ℕ) (labels : Dict Text) (w : W) {d : Text}
      → (write_content c bytes (expected_digest c bytes) labels w).1 ≡ ok d
      → Holds bytes (write_content c bytes (expected_digest c bytes) labels w).0
  unfolding write_content send_message
  write_content-Holds k bytes labels w {d} h =
      let first = c.message w in
      let expected = expected_digest c bytes in
      elim (Outcome-cases first.1) [
        | inl (none, e) ↦ absurd (ground arith)
        | inl (some r, e) ↦
            let w2 = (send_chunks c (suc (length bytes)) bytes expected r.offset first.0).0 in
            let sent = c.send (commit_request (length bytes) expected labels) w2 in
            elim (Outcome-cases (c.message sent.0).1) [
              | inl (none, f) ↦ absurd (ground arith)
              | inl (some response, f) ↦ ground (
                arith,
                k.committed bytes labels w2 response,
                text_eq_iff response.digest expected,
              )
              | inr f ↦ absurd (ground arith)
            ]
        | inr e ↦ absurd (ground arith)
      ]

  after_start-Holds :
      {referenced : List Text}
      → KeepsContent referenced
      → (bytes : List ℕ) (labels : Dict Text) (start : WriteStart) (w : W) {d : Text}
      → (start ≡ already_exists → Holds bytes w)
      → (after_start c bytes (expected_digest c bytes) labels start w).1 ≡ ok d
      → Holds bytes (after_start c bytes (expected_digest c bytes) labels start w).0
  after_start-Holds k bytes labels opened w there h = write_content-Holds k bytes labels w h
  after_start-Holds k bytes labels already_exists w there h = there refl
  after_start-Holds k bytes labels (refused e) w there h = absurd (ground arith)

  upload-Holds :
      {referenced : List Text}
      → KeepsContent referenced
      → (bytes : List ℕ) (reference id : Text) (labels : Dict Text) (w : W) {d : Text}
      → (upload c bytes (expected_digest c bytes) reference id labels w).1 ≡ ok d
      → Holds bytes (upload c bytes (expected_digest c bytes) reference id labels w).0
  unfolding upload
  upload-Holds k bytes reference id labels w {d} h =
      let w1 = (c.send (stat_request reference (expected_digest c bytes)) w).0 in
      let start = c.open_write id w1 in
      ground (
        arith,
        after_start-Holds k bytes labels start.1 start.0 {d = d} (k.existing bytes reference id w),
      )

  -- Content that is saved can be read.
  pub save_content-Holds :
      {referenced : List Text}
      → KeepsContent referenced
      → (bytes : List ℕ) (unique_id : Text) (labels : Dict Text) (w : W) {saved : WriteContent}
      → (save_content c bytes unique_id labels w).1 ≡ ok saved
      → Holds bytes (save_content c bytes unique_id labels w).0
  unfolding save_content
  save_content-Holds k bytes unique_id labels w h =
      let reference = codes "precompile-" ++ unique_id in
      let leased = lease c reference w in
      elim (Outcome-cases leased.1) [
        | inl (id, e) ↦
            let u = upload c bytes (expected_digest c bytes) reference id labels leased.0 in
            elim (Outcome-cases u.1) [
              | inl (d, f) ↦ ground (arith, upload-Holds k bytes reference id labels leased.0 f)
              | inr f ↦ absurd (ground arith)
            ]
        | inr e ↦ absurd (ground arith)
      ]
