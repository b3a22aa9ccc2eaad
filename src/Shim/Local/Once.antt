-- ===== src/Shim/Local/Once.antt =====
-- How often the task service of local.rs announces the exit of a process.
use containerd_wasm.Base.{
  ℕ, ◌+◌, ◌≤◌, Text, ◌≡◌, ◌≢◌, refl, inl, inr, List, [], ◌∷◌, arith, true, none,
}
use containerd_wasm.Shim.Local.{Host, Local, new}
use containerd_wasm.Shim.Local.Steps.{Action, step, run}
use containerd_wasm.Shim.Local.Counts.{sum, starts, exits, waits, held, begun, CanMiss, step_move}
use containerd_wasm.Shim.Local.Clean.{NeverPanics, IsClean, IsClean-get, step-IsClean}
use containerd_wasm.Shim.Local.Valid.{IsValid}
use containerd_wasm.Shim.Local.Invariant.{step-IsValid, new-IsValid}

module _ {W S : Type 0} (host : Host W S) where
  step_once :
      (a : Action W) (l : Local W S)
      → IsValid l
      → ((id : Text) (p : ℕ) → held id p l ≤ begun id p l)
      → (id : Text) (p : ℕ) → held id p (step host a l) ≤ begun id p (step host a l)
  step_once a l v o id p = elim (step_move host a l v) [
    | inl s ↦ omega (arith, o id p, s.held_same id p, s.begun_same id p)
    | inr (inl s) ↦ omega (arith, o id p, s.held_up id p, s.begun_up id p)
    | inr (inr (s, reason)) ↦ omega (arith, o id p, s.held_less id p, s.begun_more id p)
  ]

  run_once :
      (actions : List (Action W)) (l : Local W S)
      → IsValid l
      → ((id : Text) (p : ℕ) → held id p l ≤ begun id p l)
      → (id : Text) (p : ℕ) → held id p (run host actions l) ≤ begun id p (run host actions l)
  unfolding run
  run_once [] l v o = o
  run_once (a ∷ actions) l v o =
      run_once actions (step host a l) (step-IsValid host a l v) (step_once a l v o)

  -- From a new service, after any requests, exits of waiting threads and changes outside, in any
  -- order: for each container id and process id, the exits announced are not more than the starts
  -- announced. A start is thus followed by one announced exit at most.
  pub exits-starts :
      (actions : List (Action W)) (world : W) (namespace containerd_address id : Text) (pid : ℕ)
      → sum (exits id pid) (run host actions (new world namespace containerd_address)).events
        ≤ sum (starts id pid) (run host actions (new world namespace containerd_address)).events
  exits-starts actions world namespace containerd_address id pid =
      let fresh = new-IsValid {S = S} world namespace containerd_address in
      let o =
        run_once actions (new world namespace containerd_address) fresh
          (unfold new in λ i q. omega arith) id pid in
      omega (arith, o)

  -- What never happens where no exit is lost.
  record IsSteady : Type 0 where
    can_spawn : (w : W) → host.can_spawn w ≡ true
    ends : (i : S) (w : W) → (host.runtime.wait_timeout i none w).1 ≢ none
    never_panics : NeverPanics host.runtime

  never_misses : IsSteady → (l : Local W S) → IsClean l.heap → CanMiss host l → ⊥
  never_misses s l c (inl (w, refused)) = let can = s.can_spawn w in absurd (ground arith)
  never_misses s l c (inr (inl (i, w, e))) = s.ends i w e
  never_misses s l c (inr (inr (h, d, at_h, p))) =
      let clean = IsClean-get l.heap h c at_h in absurd (ground arith)

  step_exact :
      IsSteady
      → (a : Action W) (l : Local W S) → IsValid l
      → IsClean l.heap
      → ((id : Text) (p : ℕ) → held id p l ≡ begun id p l)
      → (id : Text) (p : ℕ) → held id p (step host a l) ≡ begun id p (step host a l)
  step_exact s a l v c o id p = elim (step_move host a l v) [
    | inl m ↦ omega (arith, o id p, m.held_same id p, m.begun_same id p)
    | inr (inl m) ↦ omega (arith, o id p, m.held_up id p, m.begun_up id p)
    | inr (inr (m, reason)) ↦ absurd (never_misses s l c reason)
  ]

  run_exact :
      IsSteady
      → (actions : List (Action W)) (l : Local W S) → IsValid l
      → IsClean l.heap
      → ((id : Text) (p : ℕ) → held id p l ≡ begun id p l)
      → (id : Text) (p : ℕ) → held id p (run host actions l) ≡ begun id p (run host actions l)
  unfolding run
  run_exact s [] l v c o = o
  run_exact s (a ∷ actions) l v c o =
      run_exact s actions (step host a l) (step-IsValid host a l v)
        (step-IsClean host s.never_panics a l c) (step_exact s a l v c o)

  -- If threads can always be spawned, a wait without a timeout only ends with an exit, and no start,
  -- kill or delete of the runtime panics (which would poison the lock of the instance), then from a
  -- new service, after any requests, exits of waiting threads and changes outside, in any order: for
  -- each container id and process id, the exits announced and the threads that still wait are
  -- together as many as the starts announced. No exit is lost, and none is announced twice.
  pub exits-waits :
      ((w : W) → host.can_spawn w ≡ true)
      → ((i : S) (w : W) → (host.runtime.wait_timeout i none w).1 ≢ none)
      → NeverPanics host.runtime
      → (actions : List (Action W)) (world : W) (namespace containerd_address id : Text) (pid : ℕ)
      → sum (exits id pid) (run host actions (new world namespace containerd_address)).events
          + sum (waits id pid) (run host actions (new world namespace containerd_address)).waiters
        ≡ sum (starts id pid) (run host actions (new world namespace containerd_address)).events
  exits-waits can ends never actions world namespace containerd_address id pid =
      let steady : IsSteady = record { can_spawn = can; ends = ends; never_panics = never } in
      run_exact steady actions (new world namespace containerd_address)
        (new-IsValid {S = S} world namespace containerd_address) (unfold new in tt)
        (unfold new in λ i q. refl) id pid
