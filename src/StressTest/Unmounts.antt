-- ===== src/StressTest/Unmounts.antt =====
-- The order in which mocks/task.rs of the stress test goes through the mounts.
use mathlib.Core.List.{reverse_aux, reverse_perm, Perm}
use mathlib.Core.List.Perm
use containerd_wasm.Base.{
  ◌≤◌, ◌≡◌, refl, Text, List, [], ◌∷◌, arith, length, leb, keep, split, In, here, there, inl, inr,
  ◌⊎◌, Bool-cases,
}
use containerd_wasm.StressTest.Mocks.{
  insert_by_length, sort_by_length, unmount_order, mount_points, is_below,
}

-- No path is shorter than one behind it.
abbrev pub IsDescending : List Text → Type 0
IsDescending [] = Unit
IsDescending (p ∷ ps) = ((q : Text) → In q ps → length q ≤ length p) × IsDescending ps

abbrev IsAscending : List Text → Type 0
IsAscending [] = Unit
IsAscending (p ∷ ps) = ((q : Text) → In q ps → length p ≤ length q) × IsAscending ps

not_In_nil : {A : Type 0} {a : A} → In a [] → ⊥
not_In_nil m = elim m [ ]

In-cons : {A : Type 0} {a b : A} {xs : List A} → In a (b ∷ xs) → (a ≡ b) ⊎ In a xs
In-cons here = inl refl
In-cons (there m) = inr m

In-here : {A : Type 0} {a b : A} {xs : List A} → a ≡ b → In a (b ∷ xs)
In-here e = rw e here

In-insert_by_length :
    (p q : Text) (ps : List Text) → In q (insert_by_length p ps) → (q ≡ p) ⊎ In q ps
unfolding insert_by_length
In-insert_by_length p q [] m = In-cons m
In-insert_by_length p q (r ∷ ps) m = elim (Bool-cases (leb (length p) (length r))) [
  | inl e ↦ In-cons (rw e at m)
  | inr e ↦ elim (In-cons (rw e at m)) [
    | inl f ↦ inr (In-here f)
    | inr n ↦ elim (In-insert_by_length p q ps n) [ inl f ↦ inl f | inr k ↦ inr (there k) ]
  ]
]

insert_by_length-IsAscending :
    (p : Text) (ps : List Text) → IsAscending ps → IsAscending (insert_by_length p ps)
unfolding insert_by_length
insert_by_length-IsAscending p [] a = (λ q m. absurd (not_In_nil m), tt)
insert_by_length-IsAscending p (r ∷ ps) (least, a) = elim (Bool-cases (leb (length p) (length r))) [
  | inl e ↦ rw e (
    λ q m. elim (In-cons m) [
      | inl f ↦ rw f (ground arith)
      | inr n ↦ let below = least q n in ground arith
    ],
    (least, a),
  )
  | inr e ↦ rw e (
    λ q m. elim (In-insert_by_length p q ps m) [ inl f ↦ rw f (ground arith) | inr n ↦ least q n ],
    insert_by_length-IsAscending p ps a,
  )
]

sort_by_length-IsAscending : (ps : List Text) → IsAscending (sort_by_length ps)
unfolding sort_by_length
sort_by_length-IsAscending [] = tt
sort_by_length-IsAscending (p ∷ ps) =
    insert_by_length-IsAscending p (sort_by_length ps) (sort_by_length-IsAscending ps)

insert_by_length-Perm : (p : Text) (ps : List Text) → Perm (insert_by_length p ps) (p ∷ ps)
unfolding insert_by_length
insert_by_length-Perm p [] = Perm.refl (p ∷ [])
insert_by_length-Perm p (r ∷ ps) = elim (Bool-cases (leb (length p) (length r))) [
  | inl e ↦ rw e (Perm.refl (p ∷ r ∷ ps))
  | inr e ↦ rw e (Perm.trans (Perm.cons r (insert_by_length-Perm p ps)) (Perm.swap p r ps))
]

sort_by_length-Perm : (ps : List Text) → Perm (sort_by_length ps) ps
unfolding sort_by_length
sort_by_length-Perm [] = Perm.refl []
sort_by_length-Perm (p ∷ ps) =
    Perm.trans (insert_by_length-Perm p (sort_by_length ps)) (Perm.cons p (sort_by_length-Perm ps))

reverse_aux-IsDescending :
    (ps acc : List Text)
    → IsAscending ps
    → IsDescending acc
    → ((p q : Text) → In p acc → In q ps → length p ≤ length q)
    → IsDescending (reverse_aux ps acc)
reverse_aux-IsDescending [] acc a d below = d
reverse_aux-IsDescending (p ∷ ps) acc (least, a) d below =
    reverse_aux-IsDescending ps (p ∷ acc) a ((λ q m. below q p m here), d)
      (λ r q m n. elim (In-cons m) [ inl e ↦ rw e (least q n) | inr k ↦ below r q k (there n) ])

-- The list that `unmount_recursive` goes through has the mount points at or below the root, each as often
-- as it is mounted, and no others; the longest path comes first, so that a mount comes before the one
-- that it lies in.
pub unmount_order-IsDescending :
    (root mounts : Text)
    → IsDescending (unmount_order root mounts)
      × Perm
          (unmount_order root mounts)
          (keep (λ p. is_below root p) (mount_points (split b'\n' mounts)))
unfolding unmount_order
unmount_order-IsDescending root mounts =
    let kept = keep (λ p. is_below root p) (mount_points (split b'\n' mounts)) in
    (
      reverse_aux-IsDescending (sort_by_length kept) [] (sort_by_length-IsAscending kept) tt
          (λ p q m n. absurd (not_In_nil m)),
      Perm.trans (reverse_perm (sort_by_length kept)) (sort_by_length-Perm kept),
    )
