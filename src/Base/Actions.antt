-- ===== src/Base/Actions.antt =====
-- Methods that change a state and may fail. What was written before the failure stays written, so
-- the state comes back beside the error.
use mathlib.Core.Bool.{Bool, true, false}
use containerd_wasm.Base.Results.{Outcome, ok, err, panic, map_err}

abbrev pub Exec {ℓ} : Type ℓ → Type ℓ → Type ℓ → Type ℓ
Exec S E A = S → S × Outcome E A

module _ {ℓ} {S E A : Type ℓ} where
  abbrev pub pure : A → Exec S E A
  pure a s = (s, ok a)

  abbrev pub fail : E → Exec S E A
  fail e s = (s, err e)

  -- A result that does not touch the state.
  abbrev pub lift : Outcome E A → Exec S E A
  lift r s = (s, r)

  -- A result that is read off the state.
  abbrev pub reads : (S → Outcome E A) → Exec S E A
  reads f s = (s, f s)

  abbrev pub gets : (S → A) → Exec S E A
  gets f s = (s, ok (f s))

module _ {ℓ} {S E A B : Type ℓ} where
  abbrev pub continue : Outcome E A → (A → Exec S E B) → Exec S E B
  continue (ok a) f s = f a s
  continue (err e) f s = (s, err e)
  continue panic f s = (s, panic)

  infixl 5 ◌>>=◌ ◌>>◌
  abbrev pub ◌>>=◌ : Exec S E A → (A → Exec S E B) → Exec S E B
  ◌>>=◌ m f s = let (s', r) = m s in continue r f s'

  abbrev pub ◌>>◌ : Exec S E A → Exec S E B → Exec S E B
  m >> k = m >>= λ _. k

module _ {S E : Type 0} where
  abbrev pub modify : (S → S) → Exec S E (Unit {0})
  modify f s = (f s, ok tt)

  abbrev pub guard : Bool → E → Exec S E (Unit {0})
  guard true e s = (s, ok tt)
  guard false e s = (s, err e)

-- `let res = m;` without `?`: the error becomes a value, and a panic still unwinds.
abbrev caught {ℓ} : {E F A : Type ℓ} → Outcome E A → Outcome F (Outcome E A)
caught (ok a) = ok (ok a)
caught (err e) = ok (err e)
caught panic = panic

abbrev pub attempt {ℓ} : {S E F A : Type ℓ} → Exec S E A → Exec S F (Outcome E A)
attempt m s = let (s', r) = m s in (s', caught r)

-- `let _ = m;`
abbrev forgotten : {E F A : Type 0} → Outcome E A → Outcome F (Unit {0})
forgotten (ok a) = ok tt
forgotten (err e) = ok tt
forgotten panic = panic

abbrev pub ignore : {S E F A : Type 0} → Exec S E A → Exec S F (Unit {0})
ignore m s = let (s', r) = m s in (s', forgotten r)

-- `m.map_err(f)`.
abbrev pub map_error {ℓ} : {S E F A : Type ℓ} → (E → F) → Exec S E A → Exec S F A
map_error f m s = let (s', r) = m s in (s', map_err f r)

-- The action keeps a property of the state, whatever comes of it.
abbrev pub Keeps {ℓ κ} : {S E A : Type ℓ} → (S → Type κ) → Exec S E A → Type (ℓ ⊔ κ)
Keeps {S = S} P m = (s : S) → P s → P (m s).0

module _ {ℓ κ} {S E A B : Type ℓ} (P : S → Type κ) where
  continue-Keeps :
      (r : Outcome E A) (f : A → Exec S E B)
      → ((a : A) → Keeps P (f a))
      → (s : S) → P s
      → P (continue r f s).0
  continue-Keeps (ok a) f k s p = k a s p
  continue-Keeps (err e) f k s p = p
  continue-Keeps panic f k s p = p

  pub then-Keeps :
      (m : Exec S E A) (f : A → Exec S E B)
      → Keeps P m
      → ((a : A) → Keeps P (f a))
      → Keeps P (m >>= f)
  then-Keeps m f h k s p = continue-Keeps (m s).1 f k (m s).0 (h s p)
