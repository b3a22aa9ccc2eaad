-- ===== src/Containerd/Write/Chunks.antt =====
-- The loop of `save_content` of client.rs: what it sends, and that its rounds are enough.
use containerd_wasm.Base.{
  ℕ, zero, suc, ◌+◌, ◌-◌, ◌<◌, ◌≤◌, Text, ◌++◌, ◌≡◌, refl, ◌∙◌, ap, List, [], ◌∷◌, ltb, ltb→lt,
  ltb→ge, if◌then◌else◌, Bool-cases, inl, inr, Exec, ◌>>◌, pure, length, drop, length-drop,
  length-take_le, drop-drop, drop_all, take-append-drop, fun_ext, sym, arith, continue,
}
use containerd_wasm.Sandbox.Error.{Error}
use containerd_wasm.Containerd.Services.{Services, WriteContentRequest}
use containerd_wasm.Containerd.Write.{
  max_write_chunk_size_bytes, min, slice, write_request, send_message, send_chunks,
}

-- The requests that the loop makes.
unfoldable pub plan : ℕ → List ℕ → ℕ → List WriteContentRequest
plan zero bytes offset = []
plan (suc rounds) bytes offset =
    let end = min (offset + max_write_chunk_size_bytes) (length bytes) in
    let rest = plan rounds bytes end in
    if ltb offset (length bytes) then write_request offset (slice bytes offset end) ∷ rest else []

-- All bytes of the requests, in order.
abbrev pub payload : List WriteContentRequest → List ℕ
payload [] = []
payload (r ∷ rs) = r.bytes ++ payload rs

-- Each request holds some bytes, no more than a message may, and starts where the last one ended.
abbrev pub Follows : ℕ → List WriteContentRequest → Type 0
Follows offset [] = Unit
Follows offset (r ∷ rs) =
    (r.offset ≡ offset)
    × (0 < length r.bytes)
    × (length r.bytes ≤ max_write_chunk_size_bytes)
    × Follows (offset + length r.bytes) rs

-- The end of a round lies behind its start, within the content, and not too far away.
end_bounds :
    (offset len : ℕ)
    → offset < len
    → let end = min (offset + max_write_chunk_size_bytes) len in
      (offset < end) × (end ≤ len) × (end ≤ offset + max_write_chunk_size_bytes)
end_bounds offset len h = ground arith

length-slice :
    (bytes : List ℕ) (offset end : ℕ)
    → offset < end
    → end ≤ length bytes
    → length (slice bytes offset end) ≡ end - offset
length-slice bytes offset end h k =
    length-take_le (end - offset) (drop offset bytes) (omega (arith, length-drop offset bytes))

slice-append-drop :
    (bytes : List ℕ) (offset end : ℕ)
    → offset < end
    → slice bytes offset end ++ drop end bytes ≡ drop offset bytes
slice-append-drop bytes offset end h =
    let ends : offset + (end - offset) ≡ end = omega arith in
    ap (λ n. slice bytes offset end ++ drop n bytes) (sym ends)
    ∙ ap (λ d. slice bytes offset end ++ d) (sym (drop-drop (end - offset) offset bytes))
    ∙ take-append-drop (end - offset) (drop offset bytes)

plan_covers :
    (rounds : ℕ) (bytes : List ℕ) (offset : ℕ)
    → length bytes - offset < rounds
    → payload (plan rounds bytes offset) ≡ drop offset bytes
unfolding plan
plan_covers zero bytes offset h = absurd (omega arith)
plan_covers (suc rounds) bytes offset h = elim (Bool-cases (ltb offset (length bytes))) [
  | inr e ↦ rw e (sym (drop_all offset bytes (ltb→ge _ _ e)))
  | inl e ↦
      let end = min (offset + max_write_chunk_size_bytes) (length bytes) in
      let (ahead, within, near) = end_bounds offset (length bytes) (ltb→lt _ _ e) in
      rw e (
        ap (λ d. slice bytes offset end ++ d) (plan_covers rounds bytes end (omega arith))
        ∙ slice-append-drop bytes offset end ahead)
]

plan-Follows :
    (rounds : ℕ) (bytes : List ℕ) (offset : ℕ) → Follows offset (plan rounds bytes offset)
unfolding plan
plan-Follows zero bytes offset = tt
plan-Follows (suc rounds) bytes offset = elim (Bool-cases (ltb offset (length bytes))) [
  | inr e ↦ rw e tt
  | inl e ↦
      let end = min (offset + max_write_chunk_size_bytes) (length bytes) in
      let (ahead, within, near) = end_bounds offset (length bytes) (ltb→lt _ _ e) in
      let size = length-slice bytes offset end ahead within in
      let ends : offset + length (slice bytes offset end) ≡ end = omega (arith, size) in
      rw e (refl, omega (arith, size), omega (arith, size), rw ends (plan-Follows rounds bytes end))
]

module _ {W : Type 0} (c : Services W) where
  -- Sends the requests one by one, and waits for the response to each.
  unfoldable pub send_all : List WriteContentRequest → Text → Exec W Error (Unit {0})
  send_all [] expected = pure tt
  send_all (r ∷ rs) expected = do send_message c r expected; send_all rs expected

  send_chunks-send_all :
      (rounds : ℕ) (bytes : List ℕ) (expected : Text) (offset : ℕ) (w : W)
      → length bytes - offset < rounds
      → send_chunks c rounds bytes expected offset w
        ≡ send_all (plan rounds bytes offset) expected w
  unfolding send_chunks send_all plan
  send_chunks-send_all zero bytes expected offset w h = absurd (omega arith)
  send_chunks-send_all (suc rounds) bytes expected offset w h =
      elim (Bool-cases (ltb offset (length bytes))) [
        | inr e ↦ rw e
        | inl e ↦
            let end = min (offset + max_write_chunk_size_bytes) (length bytes) in
            let (ahead, within, near) = end_bounds offset (length bytes) (ltb→lt _ _ e) in
            let sent = send_message c (write_request offset (slice bytes offset end)) expected w in
            rw e (
              ap (λ k. continue sent.1 (λ _. k) sent.0)
                (fun_ext (λ v. send_chunks-send_all rounds bytes expected end v (omega arith))))
      ]

  -- The loop sends the content from the offset on, whole and in order, in requests that follow one
  -- another without a gap, each of at least one byte and at most 15 MiB, and stops at the first that
  -- fails. Its rounds never run out.
  pub send_chunks-plan :
      (bytes : List ℕ) (expected : Text) (offset : ℕ)
      → let requests = plan (suc (length bytes)) bytes offset in
        ((w : W)
          → send_chunks c (suc (length bytes)) bytes expected offset w
            ≡ send_all requests expected w)
        × (payload requests ≡ drop offset bytes)
        × Follows offset requests
  send_chunks-plan bytes expected offset = (
    λ w. send_chunks-send_all (suc (length bytes)) bytes expected offset w (omega arith),
    plan_covers (suc (length bytes)) bytes offset (omega arith),
    plan-Follows (suc (length bytes)) bytes offset,
  )
