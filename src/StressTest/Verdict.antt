-- ===== src/StressTest/Verdict.antt =====
-- How a stress test ends: main.rs of the stress test.
use containerd_wasm.Base.{
  ℕ, ◌+◌, ◌<◌, ◌≡◌, ◌↔◌, refl, some, List, [], ◌∷◌, Bool, true, false, if◌then◌else◌, ok, panic,
  arith,
}
use containerd_wasm.StressTest.{
  Counts, Event, setup_done, timeout, cancelled, result, initial, round, loop, verdict,
  is_setup_done,
}

abbrev pub total : Counts → ℕ
total c = (c.success + c.failed) + c.incomplete

round-total : (done : Bool) (e : Event) (c : Counts) → total (round done e c).0 ≡ total c
unfolding round
round-total done setup_done c = refl
round-total done timeout c = ground arith
round-total done cancelled c = refl
round-total done (result b) c = ground arith

loop-total :
    (done : Bool) (events : List Event) (c c' : Counts)
    → loop done events c ≡ some c'
    → total c' ≡ total c
unfolding loop
loop-total done [] c c' h = absurd (ground arith)
loop-total done (e ∷ events) c c' h =
    let one = round-total done e c in
    let rest = loop-total (if is_setup_done e then true else done) events (round done e c).0 c' in
    ground arith

-- However the loop ends, every task is counted once: as succeeded, failed or incomplete. The run of one
-- task or more is then good exactly when none has failed and none is incomplete; a run of no task
-- panics, where it unwraps the time of the first create.
pub verdict-ok :
    (count : ℕ) (events : List Event) (c : Counts)
    → loop false events (initial count) ≡ some c
    → ((c.success + c.failed) + c.incomplete ≡ count)
      × (0 < count → (verdict count c ≡ ok tt) ↔ ((c.failed ≡ 0) × (c.incomplete ≡ 0)))
      × (count ≡ 0 → verdict count c ≡ panic)
unfolding verdict initial
verdict-ok count events c h =
    let sum = loop-total false events (initial count) c h in
    (ground arith, λ p. (λ v. ground arith, λ v. ground arith), λ p. ground arith)
