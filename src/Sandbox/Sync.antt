-- ===== src/Sandbox/Sync.antt =====
-- `WaitableCell` of crates/containerd-shim-wasm/src/sandbox/sync.rs. The mutex makes each operation
-- atomic. A wait on the condition variable is run against a schedule of what wakes the thread: a
-- value that another thread sets, a wake-up for no reason, or the end of the timeout.
use containerd_wasm.Base.{
  ℕ, zero, suc, ◌≡◌, refl, Option, none, some, List, [], ◌∷◌, Outcome, ok, err, arith, head?,
  unwrap_or,
}

-- `OnceCell`.
abbrev pub Cell : Type 0 → Type 0
Cell T = Option T

pub data Wake (T : Type 0) : Type 0 where
  sets : T → Wake T
  spurious times_out : Wake T

-- What a wait has come to when the schedule is over.
pub data Waited (T : Type 0) : Type 0 where
  returns : Option T → Waited T
  blocked : Waited T

module _ {T : Type 0} where
  unfoldable pub new : Cell T
  new = none

  -- A value that is there stays, and the new one is given back.
  unfoldable pub set : T → Cell T → Cell T × Outcome T (Unit {0})
  set v none = (some v, ok tt)
  set v (some u) = (some u, err v)

  -- `cvar.wait_while(guard, |_| cell.get().is_none())`, with the read of the cell that follows.
  unfoldable pub wait_while : Cell T → List (Wake T) → Waited T
  unfolding set
  wait_while (some v) wakes = returns (some v)
  wait_while none [] = blocked
  wait_while none (sets v ∷ wakes) = wait_while (set v none).0 wakes
  wait_while none (spurious ∷ wakes) = wait_while none wakes
  wait_while none (times_out ∷ wakes) = wait_while none wakes

  -- `cvar.wait_timeout_while(...)`, with the read of the cell that follows.
  unfoldable pub wait_timeout_while : Cell T → List (Wake T) → Waited T
  unfolding set
  wait_timeout_while (some v) wakes = returns (some v)
  wait_timeout_while none [] = blocked
  wait_timeout_while none (sets v ∷ wakes) = wait_timeout_while (set v none).0 wakes
  wait_timeout_while none (spurious ∷ wakes) = wait_timeout_while none wakes
  wait_timeout_while none (times_out ∷ wakes) = returns none

  unfoldable pub wait_timeout : Option ℕ → Cell T → List (Wake T) → Waited T
  unfolding wait_while wait_timeout_while
  wait_timeout none cell wakes = wait_while cell wakes
  wait_timeout (some zero) cell wakes = returns cell
  wait_timeout (some (suc d)) cell wakes = wait_timeout_while cell wakes

  -- The drop of a guard that `set_guard_with` made: the result of its function is set.
  unfoldable pub drop_guard : T → Cell T → Cell T
  unfolding set
  drop_guard v cell = (set v cell).0

  unfoldable pub set_all : List T → Cell T → Cell T
  unfolding set
  set_all [] cell = cell
  set_all (v ∷ vs) cell = set_all vs (set v cell).0

  -- The first value of a schedule.
  abbrev pub first_set : List (Wake T) → Option T
  first_set [] = none
  first_set (sets v ∷ wakes) = some v
  first_set (spurious ∷ wakes) = first_set wakes
  first_set (times_out ∷ wakes) = first_set wakes

  abbrev pub when_set : Option T → Waited T
  when_set none = blocked
  when_set (some v) = returns (some v)

  wait_while_first : (wakes : List (Wake T)) → wait_while none wakes ≡ when_set (first_set wakes)
  unfolding wait_while
  wait_while_first [] = refl
  wait_while_first (sets v ∷ wakes) = ground arith
  wait_while_first (spurious ∷ wakes) = wait_while_first wakes
  wait_while_first (times_out ∷ wakes) = wait_while_first wakes

  -- A wait without a timeout returns the value of the cell, or the first value that is set while it
  -- waits, and until then it blocks: it never returns without a value, which is what the unchecked
  -- unwrap in `wait` relies on.
  pub wait_first :
      (cell : Cell T) (wakes : List (Wake T))
      → wait_timeout none cell wakes
        ≡ elim cell [ none ↦ when_set (first_set wakes) | some v ↦ returns (some v) ]
  unfolding wait_timeout
  wait_first none wakes = wait_while_first wakes
  wait_first (some v) wakes = ground arith

  set_all-some : (vs : List T) (v : T) → set_all vs (some v) ≡ some v
  unfolding set_all
  set_all-some [] v = refl
  set_all-some (u ∷ vs) v = set_all-some vs v

  -- A cell keeps the first value that it is given. If a guard is dropped after any sets, the cell
  -- has a value, the first that was set or, if there was none, the guard's; later sets change
  -- nothing.
  pub drop_guard_first :
      (before after : List T) (v : T)
      → set_all after (drop_guard v (set_all before new)) ≡ some (unwrap_or (head? before) v)
  unfolding set_all drop_guard new
  drop_guard_first [] after v = set_all-some after v
  drop_guard_first (u ∷ before) after v = rw (set_all-some before u) (set_all-some after u)
