-- ===== src/StressTest/Run/Fair.antt =====
-- What every run of main.rs of the stress test keeps: the permits, and who may be behind the barrier.
use containerd_wasm.Base.{
  ℕ, zero, suc, ◌+◌, ◌≡◌, refl, some, List, [], ◌∷◌, true, false, arith, length, length-set,
  get_elem?, ap, Option-cases, inl, inr,
}
use containerd_wasm.StressTest.Run.{
  Phase, setting_up, Run, total, repeat, permits, start, meet, Move, put, step, moves,
}
use containerd_wasm.StressTest.Run.Edges.{Edge, step_cases}
use containerd_wasm.StressTest.Run.Totals.{holds, outside, inside, total-set, total-le, Edge-totals}

pub record IsFair (permit_count count : ℕ) (s : Run) : Type 0 where
  pub size : length s.phases ≡ count
  pub permits_kept : total holds s.phases + s.free ≡ permit_count
  -- Nobody who has not arrived is missing behind an open barrier, and nobody is behind a closed one.
  pub all_arrived : s.opened ≡ true → total outside s.phases ≡ 0
  pub none_inside : s.opened ≡ false → total inside s.phases ≡ 0

meet-IsFair : (k n : ℕ) (s : Run) → IsFair k n s → IsFair k n (meet s)
unfolding meet
meet-IsFair k n s f = record {
  size = f.size;
  permits_kept = f.permits_kept;
  all_arrived = λ e. ground (arith, total-le s.phases, f.all_arrived);
  none_inside = λ e. ground (arith, f.none_inside);
}

put-IsFair :
    (k n : ℕ) (s : Run) (i : ℕ) (p q : Phase) (free : ℕ)
    → get_elem? s.phases i ≡ some p
    → Edge s.opened p s.free q free
    → IsFair k n s
    → IsFair k n (record (put i q s) { free = free })
put-IsFair k n s i p q free e edge f =
    let (h, o, o', r) = Edge-totals edge in
    record {
      size = ground (arith, length-set s.phases i q, f.size);
      permits_kept = omega (arith, total-set holds s.phases i p q e, f.permits_kept);
      all_arrived = λ x. omega (arith, total-set outside s.phases i p q e, f.all_arrived x);
      none_inside = λ x. omega (arith, total-set inside s.phases i p q e, f.none_inside x, o' x);
    }

step-IsFair : (k n : ℕ) (m : Move) (s s' : Run) → step m s ≡ some s' → IsFair k n s → IsFair k n s'
step-IsFair k n m s s' h f = elim (step_cases m s s' h) [
  | inl (e, now) ↦ rw now (
      meet-IsFair k n (record s { main = true })
        (record {
          size = f.size;
          permits_kept = f.permits_kept;
          all_arrived = f.all_arrived;
          none_inside = f.none_inside;
        }))
  | inr (i, moved) ↦
      let next = put-IsFair k n s i moved.before moved.after moved.free moved.was moved.edge f in
      elim moved.now [ inl (fewer, now) ↦ rw now next | inr now ↦ rw now (meet-IsFair k n _ next) ]
]

pub moves-IsFair :
    (k n : ℕ) (ms : List Move) (s s' : Run) → moves ms s ≡ some s' → IsFair k n s → IsFair k n s'
unfolding moves
moves-IsFair k n [] s s' h f = let e : s ≡ s' = cc in rw (← e) f
moves-IsFair k n (m ∷ ms) s s' h f = elim (Option-cases (step m s)) [
  | inl e ↦ absurd (ground arith)
  | inr (t, e) ↦ moves-IsFair k n ms t s' (ground arith) (step-IsFair k n m s t e f)
]

pub start-IsFair :
    (parallel count : ℕ) → IsFair (permits parallel count) count (start parallel count)
unfolding start
start-IsFair parallel count = record {
  size = size count;
  permits_kept = let none_held = none_of holds refl count in omega arith;
  all_arrived = λ e. absurd (ground arith);
  none_inside = λ e. none_of inside refl count;
}
  where
    size : (n : ℕ) → length (repeat n setting_up) ≡ n
    size zero = refl
    size (suc n) = ap suc (size n)

    none_of : (w : Phase → ℕ) → w setting_up ≡ 0 → (n : ℕ) → total w (repeat n setting_up) ≡ 0
    none_of w e zero = refl
    none_of w e (suc n) = omega (arith, none_of w e n)

-- However the tasks of a run take turns: as many permits are held or free as there were at the start, so
-- no more tasks are created and started at a time than `parallel` asks for, if it is not 0; and no task
-- is behind the barrier before all have arrived there.
pub moves_fair :
    (parallel count : ℕ) (ms : List Move) (s : Run)
    → moves ms (start parallel count) ≡ some s
    → (total holds s.phases + s.free ≡ permits parallel count)
      × (s.opened ≡ false → total inside s.phases ≡ 0)
      × (s.opened ≡ true → total outside s.phases ≡ 0)
moves_fair parallel count ms s h =
    let f = moves-IsFair _ _ ms _ s h (start-IsFair parallel count) in
    (f.permits_kept, f.none_inside, f.all_arrived)
