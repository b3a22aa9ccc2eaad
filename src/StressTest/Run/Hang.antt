-- ===== src/StressTest/Run/Hang.antt =====
-- What becomes of a run of main.rs of the stress test when a task cannot be set up.
use containerd_wasm.Base.{
  ℕ, zero, suc, ◌<◌, ◌≡◌, ◌≢◌, some, List, [], ◌∷◌, Bool, false, arith, get_elem?, get_elem?-set_ne,
  Option-cases, Bool-cases, inl, inr,
}
use containerd_wasm.StressTest.Run.{Phase, not_set_up, Run, total, start, meet, Move, step, moves}
use containerd_wasm.StressTest.Run.Edges.{Edge, step_cases}
use containerd_wasm.StressTest.Run.Totals.{outside, inside}
use containerd_wasm.StressTest.Run.Fair.{moves-IsFair, start-IsFair}

-- The task `i` could not be set up, and stays where it is.
step-not_set_up :
    (m : Move) (s s' : Run) (i : ℕ)
    → step m s ≡ some s'
    → get_elem? s.phases i ≡ some not_set_up
    → get_elem? s'.phases i ≡ some not_set_up
unfolding meet
step-not_set_up m s s' i h e = elim (step_cases m s s' h) [
  | inl (f, now) ↦ rw now e
  | inr (j, moved) ↦
      let apart : j ≢ i = λ q. not_moved moved.edge (cc (moved.was, e, q)) in
      let kept = get_elem?-set_ne s.phases j i moved.after apart in
      elim moved.now [ inl (fewer, now) ↦ rw now (ground arith) | inr now ↦ rw now (ground arith) ]
]
  where
    not_moved : {o : Bool} {p q : Phase} {n n' : ℕ} → Edge o p n q n' → p ≢ not_set_up
    not_moved Edge.arrived = λ e. cc
    not_moved Edge.refused = λ e. cc
    not_moved Edge.passed = λ e. cc
    not_moved Edge.acquired = λ e. cc
    not_moved Edge.started = λ e. cc
    not_moved Edge.not_started = λ e. cc
    not_moved Edge.finished = λ e. cc

moves-not_set_up :
    (ms : List Move) (s s' : Run) (i : ℕ)
    → moves ms s ≡ some s'
    → get_elem? s.phases i ≡ some not_set_up
    → get_elem? s'.phases i ≡ some not_set_up
unfolding moves
moves-not_set_up [] s s' i h e = let same : s ≡ s' = cc in rw (← same) e
moves-not_set_up (m ∷ ms) s s' i h e = elim (Option-cases (step m s)) [
  | inl f ↦ absurd (ground arith)
  | inr (t, f) ↦ moves-not_set_up ms t s' i (ground arith) (step-not_set_up m s t i f e)
]

outside-some : (ps : List Phase) (i : ℕ) → get_elem? ps i ≡ some not_set_up → 0 < total outside ps
outside-some [] i e = absurd (ground arith)
outside-some (p ∷ ps) zero e = let same : p ≡ not_set_up = cc in rw same (omega arith)
outside-some (p ∷ ps) (suc i) e = omega (arith, outside-some ps i e)

-- If a task could not be set up, then whatever moves follow, in any order, the barrier stays closed, and
-- no task is created, started or ended.
pub moves_hang :
    (parallel count : ℕ) (ms ms' : List Move) (s s' : Run) (i : ℕ)
    → moves ms (start parallel count) ≡ some s
    → get_elem? s.phases i ≡ some not_set_up
    → moves ms' s ≡ some s'
    → (s'.opened ≡ false) × (total inside s'.phases ≡ 0)
moves_hang parallel count ms ms' s s' i h e h' =
    let f = moves-IsFair _ _ ms _ s h (start-IsFair parallel count) in
    let f' = moves-IsFair _ _ ms' s s' h' f in
    let some_outside = outside-some s'.phases i (moves-not_set_up ms' s s' i h' e) in
    elim (Bool-cases s'.opened) [
      | inl o ↦ absurd (omega (arith, f'.all_arrived o))
      | inr o ↦ (o, f'.none_inside o)
    ]
