-- ===== src/StressTest/Client/Reading.antt =====
-- How client.rs of the stress test puts the messages of a stream together.
use containerd_wasm.Base.{
  ℕ, ◌+◌, ◌==◌, ==_iff, ◌≡◌, refl, List, [], ◌∷◌, ◌++◌, append_assoc, append-nil, length,
  length-append, ok, err, panic, Outcome, map, arith, Text, Bool-cases, inl, inr, sym, ap, ◌∙◌, ◌↔◌,
}
use containerd_wasm.StressTest.Client.{Chunk, append_chunks}

-- The bytes of all chunks, in order.
abbrev pub concat : List Chunk → List ℕ
concat [] = []
concat (c ∷ cs) = c.bytes ++ concat cs

-- Every chunk begins where the one before it ends, the first at `n`.
abbrev pub AreAdjacent : ℕ → List Chunk → Type 0
AreAdjacent n [] = Unit
AreAdjacent n (c ∷ cs) = (c.offset ≡ n) × AreAdjacent (n + length c.bytes) cs

abbrev pub all_ok : List Chunk → List (Outcome Text Chunk)
all_ok cs = map (λ c. ok c) cs

adjacent_read :
    (cs : List Chunk) (bytes : List ℕ)
    → AreAdjacent (length bytes) cs
    → append_chunks (all_ok cs) bytes ≡ ok (bytes ++ concat cs)
unfolding append_chunks
adjacent_read [] bytes h = ap ok (sym (append-nil bytes))
adjacent_read (c ∷ cs) bytes (h, hs) =
    let rest = adjacent_read cs (bytes ++ c.bytes) (rw (length-append bytes c.bytes) hs) in
    ground (arith, rest, append_assoc bytes c.bytes (concat cs))

read_adjacent :
    (messages : List (Outcome Text Chunk)) (bytes all : List ℕ)
    → append_chunks messages bytes ≡ ok all
    → (cs : List Chunk) × (messages ≡ all_ok cs)
      × AreAdjacent (length bytes) cs
      × (all ≡ bytes ++ concat cs)
unfolding append_chunks
read_adjacent [] bytes all h = ([], refl, tt, ground (arith, append-nil bytes))
read_adjacent (err e ∷ messages) bytes all h = absurd (ground arith)
read_adjacent (panic ∷ messages) bytes all h = absurd (ground arith)
read_adjacent (ok c ∷ messages) bytes all h = elim (Bool-cases (c.offset == length bytes)) [
  | inr e ↦ absurd (ground arith)
  | inl e ↦
      let (cs, m, adjacent, whole) = read_adjacent messages (bytes ++ c.bytes) all (ground arith) in
      (
        c ∷ cs,
        ap (λ ms. ok c ∷ ms) m,
        ((==_iff c.offset (length bytes)).0 e, rw (length-append bytes c.bytes) at adjacent),
        whole ∙ append_assoc bytes c.bytes (concat cs),
      )
]

-- A stream is read exactly when it has no error and every chunk begins where the one before it ends, the
-- first at 0; what is read is then the bytes of all chunks, in order.
pub append_chunks-concat :
    (messages : List (Outcome Text Chunk)) (all : List ℕ)
    → (append_chunks messages [] ≡ ok all)
      ↔ ((cs : List Chunk) × (messages ≡ all_ok cs) × AreAdjacent 0 cs × (all ≡ concat cs))
append_chunks-concat messages all = (
  read_adjacent messages [] all,
  λ (cs, m, adjacent, whole). rw (m, whole) (adjacent_read cs [] adjacent),
)
