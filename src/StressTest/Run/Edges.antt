-- ===== src/StressTest/Run/Edges.antt =====
-- The moves of a run of main.rs of the stress test, one by one.
use containerd_wasm.Base.{
  ◌≤◌, ℕ, zero, suc, ◌≡◌, refl, Option, none, some, Bool, true, false, arith, get_elem?, Bool-cases,
  inl, inr, ◌⊎◌,
}
use containerd_wasm.StressTest.Run.{
  arrives, Phase, setting_up, not_set_up, at_barrier, ready, creating, waiting, ended, Run, meet,
  Turn, sets_up, passes, acquires, starts, finishes, Move, main_arrives, task, put, turn, step,
}

pub ℕ-cases : (n : ℕ) → (n ≡ 0) ⊎ ((k : ℕ) × (n ≡ suc k))
ℕ-cases zero = inl refl
ℕ-cases (suc k) = inr (k, refl)

-- What a task can do, and what it does to the free permits.
pub data Edge : Bool → Phase → ℕ → Phase → ℕ → Type 0 where
  arrived : {o : Bool} {n : ℕ} → Edge o setting_up n at_barrier n
  refused : {o : Bool} {n : ℕ} → Edge o setting_up n not_set_up n
  passed : {n : ℕ} → Edge true at_barrier n ready n
  acquired : {o : Bool} {n : ℕ} → Edge o ready (suc n) creating n
  started : {o : Bool} {n : ℕ} → Edge o creating n waiting (suc n)
  not_started : {o : Bool} {n : ℕ} → Edge o creating n (ended false) (suc n)
  finished : {o b : Bool} {n : ℕ} → Edge o waiting n (ended b) n

-- The task `i` has moved along an edge.
pub record HasMoved (i : ℕ) (s s' : Run) : Type 0 where
  pub before : Phase
  pub after : Phase
  pub free : ℕ
  pub was : get_elem? s.phases i ≡ some before
  pub edge : Edge s.opened before s.free after free
  pub now :
      ((arrives after ≤ arrives before) × (s' ≡ record (put i after s) { free = free }))
      ⊎ (s' ≡ meet (record (put i after s) { free = free }))

turn-HasMoved :
    (i : ℕ) (o : Option Phase) (t : Turn) (s s' : Run)
    → get_elem? s.phases i ≡ o
    → turn i o t s ≡ some s'
    → HasMoved i s s'
unfolding turn
turn-HasMoved i none t s s' e h = absurd (ground arith)
turn-HasMoved i (some not_set_up) t s s' e h = absurd (ground arith)
turn-HasMoved i (some (ended b)) t s s' e h = absurd (ground arith)
turn-HasMoved i (some setting_up) (sets_up true) s s' e h = record {
  before = setting_up;
  after = at_barrier;
  free = s.free;
  was = e;
  edge = arrived;
  now = inr (ground arith);
}
turn-HasMoved i (some setting_up) (sets_up false) s s' e h = record {
  before = setting_up;
  after = not_set_up;
  free = s.free;
  was = e;
  edge = refused;
  now = inl (omega arith, ground arith);
}
turn-HasMoved i (some setting_up) passes s s' e h = absurd (ground arith)
turn-HasMoved i (some setting_up) acquires s s' e h = absurd (ground arith)
turn-HasMoved i (some setting_up) (starts b) s s' e h = absurd (ground arith)
turn-HasMoved i (some setting_up) (finishes b) s s' e h = absurd (ground arith)
turn-HasMoved i (some at_barrier) (sets_up b) s s' e h = absurd (ground arith)
turn-HasMoved i (some at_barrier) passes s s' e h = elim (Bool-cases s.opened) [
  | inl o ↦ record {
    before = at_barrier;
    after = ready;
    free = s.free;
    was = e;
    edge = rw o passed;
    now = inl (omega arith, ground arith);
  }
  | inr o ↦ absurd (ground arith)
]
turn-HasMoved i (some at_barrier) acquires s s' e h = absurd (ground arith)
turn-HasMoved i (some at_barrier) (starts b) s s' e h = absurd (ground arith)
turn-HasMoved i (some at_barrier) (finishes b) s s' e h = absurd (ground arith)
turn-HasMoved i (some ready) (sets_up b) s s' e h = absurd (ground arith)
turn-HasMoved i (some ready) passes s s' e h = absurd (ground arith)
turn-HasMoved i (some ready) acquires s s' e h = elim (ℕ-cases s.free) [
  | inl z ↦ absurd (ground arith)
  | inr (n, z) ↦ record {
    before = ready;
    after = creating;
    free = n;
    was = e;
    edge = rw z acquired;
    now = inl (omega arith, ground arith);
  }
]
turn-HasMoved i (some ready) (starts b) s s' e h = absurd (ground arith)
turn-HasMoved i (some ready) (finishes b) s s' e h = absurd (ground arith)
turn-HasMoved i (some creating) (sets_up b) s s' e h = absurd (ground arith)
turn-HasMoved i (some creating) passes s s' e h = absurd (ground arith)
turn-HasMoved i (some creating) acquires s s' e h = absurd (ground arith)
turn-HasMoved i (some creating) (starts true) s s' e h = record {
  before = creating;
  after = waiting;
  free = suc s.free;
  was = e;
  edge = started;
  now = inl (omega arith, ground arith);
}
turn-HasMoved i (some creating) (starts false) s s' e h = record {
  before = creating;
  after = ended false;
  free = suc s.free;
  was = e;
  edge = not_started;
  now = inl (omega arith, ground arith);
}
turn-HasMoved i (some creating) (finishes b) s s' e h = absurd (ground arith)
turn-HasMoved i (some waiting) (sets_up b) s s' e h = absurd (ground arith)
turn-HasMoved i (some waiting) passes s s' e h = absurd (ground arith)
turn-HasMoved i (some waiting) acquires s s' e h = absurd (ground arith)
turn-HasMoved i (some waiting) (starts b) s s' e h = absurd (ground arith)
turn-HasMoved i (some waiting) (finishes b) s s' e h = record {
  before = waiting;
  after = ended b;
  free = s.free;
  was = e;
  edge = finished;
  now = inl (omega arith, ground arith);
}

-- A move is the arrival of the main function, or a task that moves along an edge.
pub step_cases :
    (m : Move) (s s' : Run)
    → step m s ≡ some s'
    → ((s.main ≡ false) × (s' ≡ meet (record s { main = true }))) ⊎ ((i : ℕ) × HasMoved i s s')
unfolding step
step_cases main_arrives s s' h = inl (ground arith)
step_cases (task i t) s s' h = inr (i, turn-HasMoved i (get_elem? s.phases i) t s s' refl h)
