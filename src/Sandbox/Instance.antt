-- ===== src/Sandbox/Instance.antt =====
-- The trait `Instance` of crates/containerd-shim-wasm/src/sandbox/instance.rs, as an interface:
-- what the task service asks of a runtime. `W` is all that lies outside the shim's own state.
use containerd_wasm.Base.{ℕ, Text, Option, none, unwrap, Exec}
use containerd_wasm.Sandbox.Error.{Error}
use containerd_wasm.Sandbox.Config.{InstanceConfig}

-- `DateTime<Utc>`, by what `ToTimestamp` reads of it.
pub record DateTime : Type 0 where
  pub timestamp : ℕ
  pub timestamp_subsec_nanos : ℕ

-- An exit code with the time of the exit.
abbrev pub Exit : Type 0
Exit = ℕ × DateTime

pub record Instance (W S : Type 0) : Type 0 where
  pub new : Text → InstanceConfig → Exec W Error S
  pub start : S → Exec W Error ℕ
  pub kill : S → ℕ → Exec W Error (Unit {0})
  pub delete : S → Exec W Error (Unit {0})
  -- The timeout is `None` for a wait without an end, else a number of nanoseconds.
  pub wait_timeout : S → Option ℕ → W → W × Option Exit

-- The default body of `wait`.
unfoldable pub wait : {W S E : Type 0} → Instance W S → S → Exec W E Exit
wait host i w = let (w', r) = host.wait_timeout i none w in (w', unwrap r)
