-- ===== src/Container/Unix/Codes.antt =====
-- The exit code of an instance of sys/unix/container/instance.rs, and the slot of its container.
use containerd_wasm.Base.{
  ℕ, Text, ◌≡◌, refl, inl, inr, Option, none, some, List, Outcome, Outcome-cases, ok, err, panic,
  arith, unwrap_or, map_some, ap, ◌∙◌, Exec,
}
use containerd_wasm.Sandbox.Error.{Error}
use containerd_wasm.Sandbox.Instance.{DateTime, Exit}
use containerd_wasm.Sandbox.Sync
use containerd_wasm.Sandbox.Sync.{Cell, Wake, Waited, returns}
use containerd_wasm.Container.Unix.{
  Youki, Zygote, Instance, start, started, kill, delete, status_of, WaitResult, reap, wait_timeout,
  container_pid, container_start, container_kill, container_delete, settle, run, send_signal,
}

-- The slot has its container.
abbrev pub IsFilled : {W Y : Type 0} → Zygote W Y → Type 0
IsFilled {Y = Y} z = (u : Y) × (z.1 ≡ some u)

abbrev pub IsInitialized : {W Y : Type 0} → Instance W Y → Type 0
IsInitialized i = IsFilled i.zygote

run-IsFilled :
    {W Y A : Type 0} (f : Exec (W × Y) Text A) (z : Zygote W Y) → IsFilled z → IsFilled (run f z).0
run-IsFilled f (w, none) (u, h) = absurd (ground arith)
run-IsFilled f (w, some v) h = ((f (w, v)).0.1, refl)

module _ {W Y : Type 0} (y : Youki W Y) where
  -- A start that fails, or panics, leaves the instance with the exit code 137, unless it has one; a
  -- start that succeeds leaves the exit code to the thread.
  pub start-exit_code :
      (now : DateTime) (i : Instance W Y)
      → ((pid : ℕ) → (start y now i).1 ≡ ok pid → (start y now i).0.exit_code ≡ i.exit_code)
        × ((e : Error)
            → (start y now i).1 ≡ err e
            → (start y now i).0.exit_code ≡ some (unwrap_or i.exit_code (137, now)))
        × ((start y now i).1 ≡ panic
            → (start y now i).0.exit_code ≡ some (unwrap_or i.exit_code (137, now)))
  unfolding start Sync.drop_guard Sync.set
  start-exit_code now i = (λ pid h. ground arith, λ e h. ground arith, λ h. ground arith)

  pid-IsFilled : (z : Zygote W Y) → IsFilled z → IsFilled (container_pid y z).0
  unfolding container_pid
  pid-IsFilled (w, none) (u, h) = absurd (ground arith)
  pid-IsFilled (w, some v) h = (v, refl)

  started-IsInitialized : (i : Instance W Y) → IsInitialized i → IsInitialized (started y i).0
  unfolding container_start
  started-IsInitialized i h =
      let p = pid-IsFilled i.zygote h in
      let s = run-IsFilled y.start (container_pid y i.zygote).0 p in
      elim (Outcome-cases (container_pid y i.zygote).1) [
        | inl (pid, e) ↦ elim (Outcome-cases (container_start y (container_pid y i.zygote).0).1) [
          | inl (u, e') ↦ (s.0, grind arith)
          | inr (inl (x, e')) ↦ (s.0, grind arith)
          | inr (inr e') ↦ (s.0, grind arith)
        ]
        | inr (inl (x, e)) ↦ (p.0, grind arith)
        | inr (inr e) ↦ (p.0, grind arith)
      ]

  settle-zygote :
      {A : Type 0} (now : DateTime) (i : Instance W Y) (r : Outcome Error A)
      → (settle y now i r).0.zygote ≡ i.zygote
  settle-zygote now i (ok a) = refl
  settle-zygote now i (err e) = refl
  settle-zygote now i panic = refl

  -- Each operation keeps the container in its slot, whatever comes of it, so that the next one does
  -- not find the slot empty.
  pub operations-IsInitialized :
      (i : Instance W Y) (now : DateTime) (signal : ℕ)
      → IsInitialized i
      → IsInitialized (start y now i).0
        × IsInitialized (kill y signal i).0
        × IsInitialized (delete y i).0
  unfolding start kill delete container_kill container_delete
  operations-IsInitialized i now signal h =
      let s = started-IsInitialized i h in
      (
        (s.0, ap (λ z. z.1) (settle-zygote now (started y i).0 (started y i).1) ∙ s.1),
        run-IsFilled (send_signal y signal) i.zygote h,
        run-IsFilled y.delete i.zygote h,
      )

-- When the thread of `start` is over, even by a panic, the instance has an exit code for good: the one
-- that it had, else the status that the process ended with, else 137; and every wait returns it at
-- once.
pub reap-wait :
    {W Y : Type 0} (i : Instance W Y) (result : Option WaitResult) (now : DateTime) (t : Option ℕ)
    (wakes : List (Wake Exit))
    → let code = unwrap_or (map_some status_of result) 137 in
      wait_timeout t (record i { exit_code = reap result now i.exit_code }) wakes
      ≡ returns (some (unwrap_or i.exit_code (code, now)))
unfolding reap wait_timeout Sync.wait_timeout Sync.wait_while Sync.wait_timeout_while
    Sync.drop_guard Sync.set
reap-wait i result now t wakes = grind arith
