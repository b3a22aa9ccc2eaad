-- ===== src/StressTest/Run/Totals.antt =====
-- Sums over the tasks of a run of main.rs of the stress test.
use containerd_wasm.Base.{
  ℕ, zero, suc, ◌+◌, ◌≤◌, ◌<◌, ◌≡◌, refl, some, List, [], ◌∷◌, Bool, false, arith, length,
  get_elem?, set,
}
use containerd_wasm.StressTest.Run.Edges.{
  Edge, arrived, refused, passed, acquired, started, not_started, finished,
}
use containerd_wasm.StressTest.Run.{
  Phase, setting_up, not_set_up, at_barrier, ready, creating, waiting, ended, total, arrives,
}

abbrev pub holds : Phase → ℕ
holds creating = 1
holds p = 0

-- Not at the barrier yet, or never.
abbrev pub outside : Phase → ℕ
outside setting_up = 1
outside not_set_up = 1
outside p = 0

-- Behind the barrier.
abbrev pub inside : Phase → ℕ
inside ready = 1
inside creating = 1
inside waiting = 1
inside (ended b) = 1
inside p = 0

-- The moves that are left to a task, at most.
abbrev pub rank : Phase → ℕ
rank setting_up = 5
rank at_barrier = 4
rank ready = 3
rank creating = 2
rank waiting = 1
rank p = 0

pub total-set :
    (w : Phase → ℕ) (ps : List Phase) (i : ℕ) (p q : Phase)
    → get_elem? ps i ≡ some p
    → total w (set ps i q) + w p ≡ total w ps + w q
total-set w [] i p q h = absurd (ground arith)
total-set w (r ∷ ps) zero p q h = let e : r ≡ p = cc in rw e (omega arith)
total-set w (r ∷ ps) (suc i) p q h = omega (arith, total-set w ps i p q h)

pub total-le : (ps : List Phase) → total arrives ps + total outside ps ≤ length ps
total-le [] = omega arith
total-le (setting_up ∷ ps) = omega (arith, total-le ps)
total-le (not_set_up ∷ ps) = omega (arith, total-le ps)
total-le (at_barrier ∷ ps) = omega (arith, total-le ps)
total-le (ready ∷ ps) = omega (arith, total-le ps)
total-le (creating ∷ ps) = omega (arith, total-le ps)
total-le (waiting ∷ ps) = omega (arith, total-le ps)
total-le (ended b ∷ ps) = omega (arith, total-le ps)

-- What an edge does to each total.
pub Edge-totals :
    {o : Bool} {p q : Phase} {n n' : ℕ}
    → Edge o p n q n'
    → (holds p + n ≡ holds q + n')
      × (outside q ≤ outside p)
      × (o ≡ false → inside q ≤ inside p)
      × (rank q < rank p)
Edge-totals arrived = (refl, omega arith, λ e. omega arith, omega arith)
Edge-totals refused = (refl, omega arith, λ e. omega arith, omega arith)
Edge-totals passed = (refl, omega arith, λ e. absurd (ground arith), omega arith)
Edge-totals acquired = (omega arith, omega arith, λ e. omega arith, omega arith)
Edge-totals started = (omega arith, omega arith, λ e. omega arith, omega arith)
Edge-totals not_started = (omega arith, omega arith, λ e. omega arith, omega arith)
Edge-totals finished = (refl, omega arith, λ e. omega arith, omega arith)
