-- ===== src/StressTest/Run/Progress.antt =====
-- That a run of main.rs of the stress test does not get stuck.
use containerd_wasm.Base.{
  ℕ, suc, ◌<◌, ◌≡◌, ◌≢◌, refl, some, List, [], ◌∷◌, Bool, true, false, arith, length, length-set,
  get_elem?, Option-cases, Bool-cases, inl, inr, ◌⊎◌,
}
use containerd_wasm.StressTest.Run.{
  Phase, setting_up, not_set_up, at_barrier, ready, creating, waiting, ended, Run, total, arrives,
  permits, start, meet, sets_up, passes, acquires, starts, finishes, Move, task, put, release, turn,
  step, moves,
}
use containerd_wasm.StressTest.Run.Edges.{ℕ-cases, step_cases}
use containerd_wasm.StressTest.Run.Totals.{holds, inside, total-set, total-le}
use containerd_wasm.StressTest.Run.Fair.{IsFair, moves-IsFair, start-IsFair}

-- The barrier opens as soon as all are there.
abbrev IsPrompt : Run → Type 0
IsPrompt s = s.opened ≡ false → s.main ≡ true → total arrives s.phases < length s.phases

meet-IsPrompt : (s : Run) → IsPrompt (meet s)
unfolding meet
meet-IsPrompt s = λ e m. ground (arith, total-le s.phases)

step-IsPrompt : (m : Move) (s s' : Run) → step m s ≡ some s' → IsPrompt s → IsPrompt s'
step-IsPrompt m s s' h prompt = elim (step_cases m s s' h) [
  | inl (e, now) ↦ rw now (meet-IsPrompt (record s { main = true }))
  | inr (i, moved) ↦
      let put_it = record (put i moved.after s) { free = moved.free } in
      let sum = total-set arrives s.phases i moved.before moved.after moved.was in
      elim moved.now [
        | inl (fewer, now) ↦
            rw now (λ o b. omega (arith, prompt o b, length-set s.phases i moved.after))
        | inr now ↦ rw now (meet-IsPrompt put_it)
      ]
]

moves-IsPrompt : (ms : List Move) (s s' : Run) → moves ms s ≡ some s' → IsPrompt s → IsPrompt s'
unfolding moves
moves-IsPrompt [] s s' h prompt = let e : s ≡ s' = cc in rw (← e) prompt
moves-IsPrompt (m ∷ ms) s s' h prompt = elim (Option-cases (step m s)) [
  | inl e ↦ absurd (ground arith)
  | inr (t, e) ↦ moves-IsPrompt ms t s' (ground arith) (step-IsPrompt m s t e prompt)
]

-- Where somebody has not arrived and nobody has passed, somebody is being set up or never will be.
somebody_outside :
    (ps : List Phase)
    → total arrives ps < length ps
    → total inside ps ≡ 0
    → (j : ℕ) × ((get_elem? ps j ≡ some setting_up) ⊎ (get_elem? ps j ≡ some not_set_up))
somebody_outside [] a b = absurd (omega arith)
somebody_outside (setting_up ∷ ps) a b = (0, inl refl)
somebody_outside (not_set_up ∷ ps) a b = (0, inr refl)
somebody_outside (at_barrier ∷ ps) a b =
    let (j, e) = somebody_outside ps (omega arith) (omega arith) in (suc j, e)
somebody_outside (ready ∷ ps) a b = absurd (omega arith)
somebody_outside (creating ∷ ps) a b = absurd (omega arith)
somebody_outside (waiting ∷ ps) a b = absurd (omega arith)
somebody_outside (ended c ∷ ps) a b = absurd (omega arith)

somebody_holds : (ps : List Phase) → 0 < total holds ps → (j : ℕ) × (get_elem? ps j ≡ some creating)
somebody_holds [] a = absurd (omega arith)
somebody_holds (creating ∷ ps) a = (0, refl)
somebody_holds (setting_up ∷ ps) a = let (j, e) = somebody_holds ps (omega arith) in (suc j, e)
somebody_holds (not_set_up ∷ ps) a = let (j, e) = somebody_holds ps (omega arith) in (suc j, e)
somebody_holds (at_barrier ∷ ps) a = let (j, e) = somebody_holds ps (omega arith) in (suc j, e)
somebody_holds (ready ∷ ps) a = let (j, e) = somebody_holds ps (omega arith) in (suc j, e)
somebody_holds (waiting ∷ ps) a = let (j, e) = somebody_holds ps (omega arith) in (suc j, e)
somebody_holds (ended c ∷ ps) a = let (j, e) = somebody_holds ps (omega arith) in (suc j, e)

start-IsPrompt : (parallel count : ℕ) → IsPrompt (start parallel count)
unfolding start
start-IsPrompt parallel count = λ o m. absurd (ground arith)

abbrev pub CanMove : Run → Type 0
CanMove s = (m : Move) × (s' : Run) × (step m s ≡ some s')

-- A move that the task can make where it is.
can_set_up : (s : Run) (i : ℕ) → get_elem? s.phases i ≡ some setting_up → CanMove s
unfolding step turn
can_set_up s i e = (task i (sets_up true), meet (put i at_barrier s), rw e refl)

can_start : (s : Run) (i : ℕ) → get_elem? s.phases i ≡ some creating → CanMove s
unfolding step turn
can_start s i e = (task i (starts true), release i waiting s, rw e refl)

can_finish : (s : Run) (i : ℕ) → get_elem? s.phases i ≡ some waiting → CanMove s
unfolding step turn
can_finish s i e = (task i (finishes true), put i (ended true) s, rw e refl)

can_pass : (s : Run) (i : ℕ) → s.opened ≡ true → get_elem? s.phases i ≡ some at_barrier → CanMove s
unfolding step turn
can_pass s i o e = (task i passes, put i ready s, rw (e, o) refl)

can_acquire : (s : Run) (i n : ℕ) → s.free ≡ suc n → get_elem? s.phases i ≡ some ready → CanMove s
unfolding step turn
can_acquire s i n f e = (task i acquires, record (put i creating s) { free = n }, rw (e, f) refl)

-- A run in which every task was or is being set up never gets stuck: as long as a task has not ended,
-- somebody can make a move, if the main function waits at the barrier and there are permits at all.
pub moves_progress :
    (parallel count : ℕ) (ms : List Move) (s : Run) (i : ℕ) (p : Phase)
    → moves ms (start parallel count) ≡ some s
    → s.main ≡ true
    → 0 < permits parallel count
    → ((j : ℕ) → get_elem? s.phases j ≢ some not_set_up)
    → get_elem? s.phases i ≡ some p
    → ((b : Bool) → p ≢ ended b)
    → CanMove s
moves_progress parallel count ms s i p h main some_permits all_set_up e alive =
    let f = moves-IsFair _ _ ms _ s h (start-IsFair parallel count) in
    elim (Bool-cases s.opened) [
      | inl o ↦ behind f o p e alive
      | inr o ↦
          let missing = moves-IsPrompt ms _ s h (start-IsPrompt parallel count) o main in
          let (j, who) = somebody_outside s.phases missing (f.none_inside o) in
          elim who [ inl g ↦ can_set_up s j g | inr g ↦ absurd (all_set_up j g) ]
    ]
  where
    behind :
        IsFair (permits parallel count) count s
        → s.opened ≡ true
        → (p : Phase) → get_elem? s.phases i ≡ some p
        → ((b : Bool) → p ≢ ended b)
        → CanMove s
    behind f o setting_up g alive = can_set_up s i g
    behind f o not_set_up g alive = absurd (all_set_up i g)
    behind f o at_barrier g alive = can_pass s i o g
    behind f o ready g alive = elim (ℕ-cases s.free) [
      | inl z ↦
          let (j, k) = somebody_holds s.phases (omega (arith, f.permits_kept)) in can_start s j k
      | inr (n, z) ↦ can_acquire s i n z g
    ]
    behind f o creating g alive = can_start s i g
    behind f o waiting g alive = can_finish s i g
    behind f o (ended b) g alive = absurd (alive b refl)
