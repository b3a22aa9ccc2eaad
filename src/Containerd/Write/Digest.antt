-- ===== src/Containerd/Write/Digest.antt =====
-- What a successful `save_content` of client.rs has made sure of.
use containerd_wasm.Base.{
  ℕ, Text, ◌≡◌, List, ok, arith, text_eq_iff, Outcome-cases, inl, inr, codes, ◌++◌,
}
use containerd_wasm.Base.Dict.{Dict}
use containerd_wasm.Containerd.Services.{Services}
use containerd_wasm.Containerd.Write.{
  WriteContent, lease, upload, write_content, expected_digest, save_content, stat_request,
}

module _ {W : Type 0} (c : Services W) where
  write_content_digest :
      (bytes : List ℕ) (expected : Text) (labels : Dict Text) (w : W) {d : Text}
      → (write_content c bytes expected labels w).1 ≡ ok d
      → d ≡ expected
  unfolding write_content
  write_content_digest bytes expected labels w h = grind (arith, text_eq_iff)

  upload_digest :
      (bytes : List ℕ) (expected reference id : Text) (labels : Dict Text) (w : W) {d : Text}
      → (upload c bytes expected reference id labels w).1 ≡ ok d
      → d ≡ expected
  unfolding upload
  upload_digest bytes expected reference id labels w {d} h = ground (
    arith,
    λ (k : (write_content c bytes expected labels
            (c.open_write id (c.send (stat_request reference expected) w).0).0).1
          ≡ ok d).
        write_content_digest bytes expected labels
          (c.open_write id (c.send (stat_request reference expected) w).0).0 k,
  )

  -- Content that is saved has the digest of the bytes that were given, whether they were written now
  -- or were there already.
  pub save_content_digest :
      (bytes : List ℕ) (unique_id : Text) (labels : Dict Text) (w : W) {saved : WriteContent}
      → (save_content c bytes unique_id labels w).1 ≡ ok saved
      → saved.digest ≡ expected_digest c bytes
  unfolding save_content
  save_content_digest bytes unique_id labels w h =
      let reference = codes "precompile-" ++ unique_id in
      let leased = lease c reference w in
      elim (Outcome-cases leased.1) [
        | inl (id, e) ↦
            let u = upload c bytes (expected_digest c bytes) reference id labels leased.0 in
            elim (Outcome-cases u.1) [
              | inl (d, f) ↦
                  let same =
                    upload_digest bytes (expected_digest c bytes) reference id labels leased.0 f in
                  ground arith
              | inr f ↦ absurd (ground arith)
            ]
        | inr e ↦ absurd (ground arith)
      ]
