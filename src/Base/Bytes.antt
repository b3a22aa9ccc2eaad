-- ===== src/Base/Bytes.antt =====
-- Texts of the program as lists of bytes: equality, splitting, joining.
use Prim.Native.Nat.{ℕ}
use Prim.Native.Char.{code}
use Prim.Native.String.{String}
use mathlib.Core.Path.{◌≡◌, refl, ap, ◌∙◌}
use mathlib.Core.Logic.{◌↔◌, ◌≢◌, inl, inr}
use mathlib.Core.Bool.{Bool, true, false, ◌&&◌}
use mathlib.Core.Option.{Option, none, some}
use mathlib.Core.List.{List, [], ◌∷◌, ◌++◌}
use native.Mathlib.Omega.{arith}
use containerd_wasm.Base.Tests.{◌==◌, if◌then◌else◌, Option-cases, Bool-cases, ==_iff, map_some}
use containerd_wasm.Base.Lists.{get_elem?}

abbrev pub Text : Type 0
Text = List ℕ

-- The bytes of a literal; the program's literals are ASCII.
abbrev pub codes : String → Text
codes String.[] = []
codes (String.◌∷◌ c s) = code c ∷ codes s

unfoldable pub text_eq : Text → Text → Bool
text_eq [] [] = true
text_eq (a ∷ s) (b ∷ t) = a == b && text_eq s t
text_eq _ _ = false

pub text_eq_refl : (s : Text) → text_eq s s ≡ true
unfolding text_eq
text_eq_refl [] = refl
text_eq_refl (a ∷ s) = ground (arith, text_eq_refl s)

pub text_eq→eq : (s t : Text) → text_eq s t ≡ true → s ≡ t
unfolding text_eq
text_eq→eq [] [] h = refl
text_eq→eq [] (b ∷ t) h = ground arith
text_eq→eq (a ∷ s) [] h = ground arith
text_eq→eq (a ∷ s) (b ∷ t) h = ground (arith, text_eq→eq s t)

pub text_eq_iff : (s t : Text) → (text_eq s t ≡ true) ↔ (s ≡ t)
text_eq_iff s t = (text_eq→eq s t, λ e. rw e (text_eq_refl t))

-- `s.split_once(c)`: what stands before and behind the first `c`.
abbrev pub cons_left : ℕ → Option (Text × Text) → Option (Text × Text)
cons_left a none = none
cons_left a (some (l, r)) = some (a ∷ l, r)

unfoldable pub split_once : ℕ → Text → Option (Text × Text)
split_once c [] = none
split_once c (a ∷ s) = if a == c then some ([], s) else cons_left a (split_once c s)

-- `s.contains(c)`.
unfoldable pub contains : ℕ → Text → Bool
contains c [] = false
contains c (a ∷ s) = let rest = contains c s in if a == c then true else rest

-- `s.starts_with(p)`.
unfoldable pub starts_with : Text → Text → Bool
starts_with [] s = true
starts_with (a ∷ p) [] = false
starts_with (a ∷ p) (b ∷ s) = a == b && starts_with p s

-- A split gives back the text, and the part before the separator does not hold it.
pub split_once-some :
    (c : ℕ) (s l r : Text)
    → split_once c s ≡ some (l, r)
    → (s ≡ l ++ c ∷ r) × (contains c l ≡ false)
unfolding split_once contains
split_once-some c [] l r h = ground arith
split_once-some c (a ∷ s) l r h = elim (Option-cases (split_once c s)) [
  | inl e ↦ ground arith
  | inr ((l', r'), e) ↦ ground (arith, split_once-some c s l' r' e)
]

pub split_once-none : (c : ℕ) (s : Text) → split_once c s ≡ none → contains c s ≡ false
unfolding split_once contains
split_once-none c [] h = refl
split_once-none c (a ∷ s) h = ground (arith, split_once-none c s)

pub split_once-append :
    (c : ℕ) (l r : Text) → contains c l ≡ false → split_once c (l ++ c ∷ r) ≡ some (l, r)
unfolding split_once contains
split_once-append c [] r h = ground arith
split_once-append c (a ∷ l) r h = ground (arith, split_once-append c l r)

pub split_once-absent : (c : ℕ) (s : Text) → contains c s ≡ false → split_once c s ≡ none
unfolding split_once contains
split_once-absent c [] h = refl
split_once-absent c (a ∷ s) h = ground (arith, split_once-absent c s)

abbrev cons_first : ℕ → List Text → List Text
cons_first a [] = (a ∷ []) ∷ []
cons_first a (w ∷ ws) = (a ∷ w) ∷ ws

-- `s.split(c)`, as a list; there is always a first part.
unfoldable pub split : ℕ → Text → List Text
split c [] = [] ∷ []
split c (a ∷ s) = let rest = split c s in if a == c then [] ∷ rest else cons_first a rest

-- `parts.join(sep)`.
unfoldable pub join : Text → List Text → Text
join sep [] = []
join sep (w ∷ []) = w
join sep (w ∷ v ∷ ws) = w ++ (sep ++ join sep (v ∷ ws))

-- The first part and the rest joined again, which is `split_once` with an empty second part where
-- the separator is missing.
abbrev pub head_and_rest : ℕ → List Text → Text × Text
head_and_rest c [] = ([], [])
head_and_rest c (w ∷ ws) = (w, join (c ∷ []) ws)

split-ne-nil : (c : ℕ) (s : Text) → split c s ≢ []
unfolding split
split-ne-nil c [] = λ e. cc
split-ne-nil c (a ∷ s) = λ e. ground (arith, split-ne-nil c s)

join-cons_first :
    (c a : ℕ) (ws : List Text) → join (c ∷ []) (cons_first a ws) ≡ a ∷ join (c ∷ []) ws
unfolding join
join-cons_first c a [] = refl
join-cons_first c a (w ∷ []) = refl
join-cons_first c a (w ∷ v ∷ ws) = refl

-- Joining undoes splitting.
pub join-split : (c : ℕ) (s : Text) → join (c ∷ []) (split c s) ≡ s
unfolding split
join-split c [] = unfold join in refl
join-split c (a ∷ s) = elim (Bool-cases (a == c)) [
  | inl e ↦ rw e (join_empty (split c s) (split-ne-nil c s) ∙ cc (join-split c s, (==_iff a c).0 e))
  | inr e ↦ rw e (join-cons_first c a (split c s) ∙ ap (λ t. a ∷ t) (join-split c s))
]
  where
    join_empty : (ws : List Text) → ws ≢ [] → join (c ∷ []) ([] ∷ ws) ≡ c ∷ join (c ∷ []) ws
    join_empty [] h = absurd (h refl)
    join_empty (w ∷ ws) h = unfold join in refl

pub starts_with-append : (p s : Text) → starts_with p (p ++ s) ≡ true
unfolding starts_with
starts_with-append [] s = refl
starts_with-append (a ∷ p) s = ground (arith, starts_with-append p s)

-- `s.split_once(c).unwrap_or((s, ""))`.
abbrev pub split_once_or : ℕ → Text → Text × Text
split_once_or c s = elim (split_once c s) [ none ↦ (s, []) | some p ↦ p ]

head_and_rest-cons_first :
    (c a : ℕ) (ws : List Text)
    → ws ≢ []
    → head_and_rest c (cons_first a ws) ≡ (a ∷ (head_and_rest c ws).0, (head_and_rest c ws).1)
head_and_rest-cons_first c a [] h = absurd (h refl)
head_and_rest-cons_first c a (w ∷ ws) h = refl

-- Splitting everywhere and joining all but the first part is splitting once.
pub head_and_rest-split : (c : ℕ) (s : Text) → head_and_rest c (split c s) ≡ split_once_or c s
unfolding split split_once
head_and_rest-split c [] = unfold join in refl
head_and_rest-split c (a ∷ s) = elim (Bool-cases (a == c)) [
  | inl e ↦ ground (arith, join-split c s)
  | inr e ↦ rw e (
      head_and_rest-cons_first c a (split c s) (split-ne-nil c s)
      ∙ ground (arith, head_and_rest-split c s))
]

pub contains-append : (c : ℕ) (l r : Text) → contains c (l ++ c ∷ r) ≡ true
unfolding contains
contains-append c [] r = ground (arith, ==_iff c c)
contains-append c (a ∷ l) r = ground (arith, contains-append c l r)

pub split-append :
    (c : ℕ) (l r : Text) → contains c l ≡ false → split c (l ++ c ∷ r) ≡ l ∷ split c r
unfolding split contains
split-append c [] r h = ground (arith, ==_iff c c)
split-append c (a ∷ l) r h = ground (arith, split-append c l r)

pub split-absent : (c : ℕ) (s : Text) → contains c s ≡ false → split c s ≡ s ∷ []
unfolding split contains
split-absent c [] h = refl
split-absent c (a ∷ s) h = ground (arith, split-absent c s)

first-cons_first :
    (c a : ℕ) (ws : List Text)
    → ws ≢ []
    → get_elem? (cons_first a ws) 0 ≡ map_some (λ w. a ∷ w) (get_elem? ws 0)
first-cons_first c a [] h = absurd (h refl)
first-cons_first c a (w ∷ ws) h = refl

-- The first part is what stands before the first separator.
pub head_of_split : (c : ℕ) (s : Text) → get_elem? (split c s) 0 ≡ some (split_once_or c s).0
unfolding split split_once
head_of_split c [] = refl
head_of_split c (a ∷ s) = elim (Bool-cases (a == c)) [
  | inl e ↦ ground arith
  | inr e ↦
      rw e (ground (arith, first-cons_first c a (split c s) (split-ne-nil c s), head_of_split c s))
]
