-- ===== src/Containerd/Client/Kept.antt =====
-- What `save_content` of client.rs leaves as it is: whatever the calls of a write leave.
use containerd_wasm.Base.{
  ℕ, zero, suc, Text, codes, ◌++◌, inl, inr, none, some, List, Outcome-cases, Bool, ◌+◌,
  if◌then◌else◌, arith, ltb, true, false, length, Exec, Keeps, then-Keeps, guard,
}
use containerd_wasm.Base.Dict.{Dict}
use containerd_wasm.Sandbox.Error.{Error}
use containerd_wasm.Containerd.Services.{
  Services, WriteContentRequest, WriteStart, already_exists, opened, refused,
}
use containerd_wasm.Containerd.Write.{
  lease, upload, write_content, send_chunks, send_message, expected_digest, save_content,
  stat_request, commit_request, after_start, drop_lease, min, slice, max_write_chunk_size_bytes,
  write_request, or_drop,
}

module _ {W : Type 0} (c : Services W) where
  guard-Keeps : (P : W → Type 0) (b : Bool) (e : Error) → Keeps P (guard b e)
  guard-Keeps P true e w p = p
  guard-Keeps P false e w p = p

  if-Keeps :
      {A : Type 0} (P : W → Type 0) (b : Bool) (m n : Exec W Error A)
      → Keeps P m
      → Keeps P n
      → Keeps P (if b then m else n)
  if-Keeps P true m n h k = h
  if-Keeps P false m n h k = k

  -- A predicate of the world that the calls of a write keep.
  pub record IsKept (P : W → Type 0) : Type 0 where
    pub send : (r : WriteContentRequest) → Keeps P (c.send r)
    pub message : Keeps P c.message
    pub open_write : (id : Text) (w : W) → P w → P (c.open_write id w).0
    pub create_lease : (reference : Text) → Keeps P (c.create_lease reference)

  module _ {P : W → Type 0} (k : IsKept P) where
    send_message-Keeps : (r : WriteContentRequest) (d : Text) → Keeps P (send_message c r d)
    unfolding send_message
    send_message-Keeps r d w p =
        ground (arith, k.message (c.send r w).0 (k.send r w p), k.send r w p)

    send_chunks-Keeps :
        (rounds : ℕ) (bytes : List ℕ) (expected : Text) (offset : ℕ)
        → Keeps P (send_chunks c rounds bytes expected offset)
    unfolding send_chunks
    send_chunks-Keeps zero bytes expected offset = λ w p. p
    send_chunks-Keeps (suc rounds) bytes expected offset =
        let end = min (offset + max_write_chunk_size_bytes) (length bytes) in
        if-Keeps P (ltb offset (length bytes)) _ _
          (then-Keeps P (send_message c (write_request offset (slice bytes offset end)) expected)
            (λ x. send_chunks c rounds bytes expected end)
            (send_message-Keeps (write_request offset (slice bytes offset end)) expected)
            (λ x. send_chunks-Keeps rounds bytes expected end))
          (λ w p. p)

    write_content-Keeps :
        (bytes : List ℕ) (expected : Text) (labels : Dict Text)
        → Keeps P (write_content c bytes expected labels)
    unfolding write_content
    write_content-Keeps bytes expected labels w p =
        let first = c.message w in
        elim (Outcome-cases first.1) [
          | inl (none, e) ↦ ground (arith, k.message w p)
          | inl (some r, e) ↦
              let rounds = suc (length bytes) in
              let sent = send_chunks-Keeps rounds bytes expected r.offset first.0 (k.message w p) in
              let w2 = (send_chunks c rounds bytes expected r.offset first.0).0 in
              let last = commit_request (length bytes) expected labels in
              ground (arith, k.message w p, sent, send_message-Keeps last expected w2 sent)
          | inr e ↦ ground (arith, k.message w p)
        ]

    after_start-Keeps :
        (bytes : List ℕ) (expected : Text) (labels : Dict Text) (start : WriteStart)
        → Keeps P (after_start c bytes expected labels start)
    after_start-Keeps bytes expected labels opened = write_content-Keeps bytes expected labels
    after_start-Keeps bytes expected labels already_exists = λ w p. p
    after_start-Keeps bytes expected labels (refused e) = λ w p. p

    upload-Keeps :
        (bytes : List ℕ) (expected reference id : Text) (labels : Dict Text)
        → Keeps P (upload c bytes expected reference id labels)
    unfolding upload
    upload-Keeps bytes expected reference id labels w p =
        let sent = k.send (stat_request reference expected) w p in
        let w1 = (c.send (stat_request reference expected) w).0 in
        let start = c.open_write id w1 in
        ground (
          arith,
          sent,
          after_start-Keeps bytes expected labels start.1 start.0 (k.open_write id w1 sent),
        )

    or_drop-Keeps :
        {A : Type 0}
        → ((id : Text) (w : W) → P w → P (c.delete_lease id w).0)
        → (id : Text) (m : Exec W Error A) → Keeps P m
        → Keeps P (or_drop c id m)
    unfolding drop_lease
    or_drop-Keeps del id m h w p = ground (arith, h w p, del id (m w).0 (h w p))

    pub save_content-Keeps :
        ((id : Text) (w : W) → P w → P (c.delete_lease id w).0)
        → (bytes : List ℕ) (unique_id : Text) (labels : Dict Text)
        → Keeps P (save_content c bytes unique_id labels)
    unfolding save_content lease
    save_content-Keeps del bytes unique_id labels w p =
        let reference = codes "precompile-" ++ unique_id in
        let made = k.create_lease reference w p in
        let w1 = (c.create_lease reference w).0 in
        let up = λ (id : Text). upload c bytes (expected_digest c bytes) reference id labels in
        elim (Outcome-cases (c.create_lease reference w).1) [
          | inl (none, e) ↦ ground (arith, made)
          | inl (some id, e) ↦
              let kept = upload-Keeps bytes (expected_digest c bytes) reference id labels w1 made in
              ground (
                arith,
                or_drop-Keeps del id (up id) (λ w p. upload-Keeps _ _ reference id labels w p) w1
                    made,
              )
          | inr e ↦ ground (arith, made)
        ]
