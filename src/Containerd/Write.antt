-- ===== src/Containerd/Write.antt =====
-- `save_content` of crates/containerd-shim-wasm/src/sandbox/containerd/client.rs with the lease of
-- lease.rs: content goes to containerd in chunks under a lease. Offsets and lengths are `i64` there;
-- a length is below 2^63, and containerd's offsets are not negative.
pub mod Chunks
pub mod Digest
use containerd_wasm.Base.{
  ℕ, zero, suc, ◌+◌, ◌-◌, ◌*◌, Text, codes, ◌++◌, Option, none, some, List, [], ◌∷◌, Bool, true,
  false, ltb, ◌==◌, if◌then◌else◌, text_eq, Outcome, ok, err, panic, ok_or, Exec, ◌>>=◌, ◌>>◌, pure,
  fail, lift, guard, map_error, length, take, drop, print_nat, ignore,
}
use containerd_wasm.Base.Dict.{Dict}
use containerd_wasm.Sandbox.Error.{Error, containerd}
use containerd_wasm.Containerd.Services.{
  Services, WriteContentRequest, WriteContentResponse, WriteStart, opened, already_exists, refused,
  stat, write, commit,
}

abbrev pub max_write_chunk_size_bytes : ℕ
max_write_chunk_size_bytes = 1024 * 1024 * 15

-- A lease with the digest of the content that it keeps.
pub record WriteContent : Type 0 where
  pub lease : Text
  pub digest : Text

abbrev pub min : ℕ → ℕ → ℕ
min a b = if ltb a b then a else b

-- `data[offset..end]`.
abbrev pub slice : List ℕ → ℕ → ℕ → List ℕ
slice xs offset end = take (end - offset) (drop offset xs)

abbrev pub stat_request : Text → Text → WriteContentRequest
stat_request reference expected = record {
  action = stat;
  reference = reference;
  total = 0;
  expected = expected;
  offset = 0;
  bytes = [];
  labels = [];
}

abbrev pub write_request : ℕ → List ℕ → WriteContentRequest
write_request offset chunk = record {
  action = write;
  reference = [];
  total = 0;
  expected = [];
  offset = offset;
  bytes = chunk;
  labels = [];
}

abbrev pub commit_request : ℕ → Text → Dict Text → WriteContentRequest
commit_request len expected labels = record {
  action = commit;
  reference = [];
  total = len;
  expected = expected;
  offset = len;
  bytes = [];
  labels = labels;
}

module _ {W : Type 0} (c : Services W) where
  unfoldable pub lease : Text → Exec W Error Text
  lease reference = do
    created ← map_error containerd (c.create_lease reference)
    lift (ok_or created (containerd (codes "unable to create lease for  " ++ reference)))

  -- `release`, and `drop` with the outcome only logged.
  unfoldable pub drop_lease : Text → W → W
  drop_lease id w = (c.delete_lease id w).0

  -- A failure drops the lease that is held.
  abbrev pub or_drop : {A : Type 0} → Text → Exec W Error A → Exec W Error A
  or_drop id m w =
      let (w', r) = m w in
      elim r [
        | ok a ↦ (w', ok a)
        | err e ↦ (drop_lease id w', err e)
        | panic ↦ (drop_lease id w', panic)
      ]

  unfoldable pub send_message : WriteContentRequest → Text → Exec W Error WriteContentResponse
  send_message request digest = do
    map_error (λ e. containerd (codes "commit request error: " ++ e)) (c.send request)
    response ← map_error (λ e. containerd (codes "response stream error: " ++ e)) c.message
    lift (
        ok_or response
          (containerd (codes "no response received after write content request for " ++ digest)))

  -- The loop over the chunks. Each round moves the offset on, so `length bytes` rounds are enough.
  unfoldable pub send_chunks : ℕ → List ℕ → Text → ℕ → Exec W Error (Unit {0})
  send_chunks zero bytes expected offset = lift panic
  send_chunks (suc rounds) bytes expected offset =
      if ltb offset (length bytes)
      then (do
        let end = min (offset + max_write_chunk_size_bytes) (length bytes)
        send_message (write_request offset (slice bytes offset end)) expected
        send_chunks rounds bytes expected end)
      else pure tt

  unfoldable pub write_content : List ℕ → Text → Dict Text → Exec W Error Text
  write_content bytes expected labels = do
    message ← map_error containerd c.message
    first ← lift (
        ok_or message
          (containerd (codes "no response received after write request for " ++ expected)))
    send_chunks (suc (length bytes)) bytes expected first.offset
    response ← send_message (commit_request (length bytes) expected labels) expected
    guard (response.offset == length bytes) (
        containerd (
          codes "failed to write all bytes, expected "
          ++ (print_nat (length bytes) ++ (codes " got " ++ print_nat response.offset))))
    guard (text_eq response.digest expected) (
        containerd (
          codes "unexpected digest, expected " ++ (expected ++ (codes " got " ++ response.digest))))
    pure response.digest

  abbrev pub after_start : List ℕ → Text → Dict Text → WriteStart → Exec W Error Text
  after_start bytes expected labels opened = write_content bytes expected labels
  after_start bytes expected labels already_exists = pure expected
  after_start bytes expected labels (refused e) = fail (containerd e)

  -- The block `'digest`.
  unfoldable pub upload : List ℕ → Text → Text → Text → Dict Text → Exec W Error Text
  upload bytes expected reference id labels = do
    map_error containerd (c.send (stat_request reference expected))
    start ← (λ w. let (w', s) = c.open_write id w in (w', ok s))
    after_start bytes expected labels start

  abbrev pub expected_digest : List ℕ → Text
  expected_digest bytes = codes "sha256:" ++ c.digest bytes

  unfoldable pub save_content : List ℕ → Text → Dict Text → Exec W Error WriteContent
  save_content bytes unique_id labels = do
    let reference = codes "precompile-" ++ unique_id
    id ← lease reference
    digest ← or_drop id (upload bytes (expected_digest bytes) reference id labels)
    pure (record { lease = id; digest = digest })
