-- ===== src/Shim/Main.antt =====
-- `shim_main` of crates/containerd-shim-wasm/src/sandbox/cli.rs, built with tracing: what a shim does from
-- its start to its end, and how a shim that it starts takes part in its trace.
pub mod Traces
use containerd_wasm.Base.{
  ℕ, ◌+◌, Text, codes, ◌++◌, Option, none, some, List, [], ◌∷◌, Bool, true, false, if◌then◌else◌,
  leb, ◌&&◌, map, Outcome, ok, err, panic, Exec, ◌>>=◌, ◌>>◌, pure, fail, lift, reads, gets, modify,
  unwrap_or, FilePath, file_stem,
}
use containerd_wasm.Base.Dict
use containerd_wasm.Base.Dict.{Dict}
use containerd_wasm.Otel
use containerd_wasm.Otel.{
  Env, Sdk, traces_enabled, build_from_env, get_trace_context, set_trace_context,
}
use containerd_wasm.Shim.Cli.{get_mem}
use containerd_wasm.Sandbox.Error.{ShimError}

-- A process: its variables, which its children get, and the world around it.
pub record Process (W : Type 0) : Type 0 where
  pub vars : Dict Text
  pub world : W

-- `std::process::exit`.
pub data Ended : Type 0 where
  exit : ℕ → Ended

pub record Host (W : Type 0) : Type 0 where
  pub sdk : Sdk W
  -- Whether a text is valid Unicode, and the exporter's default protocol.
  pub is_unicode : Text → Bool
  pub default_protocol : Text
  pub zygote_init : W → W
  -- Whether the runtime of tokio can be made.
  pub runtime_new : W → Bool
  pub args_os : W → List Text
  -- Whether the flags ask for the version.
  pub parse : List Text → Outcome Text Bool
  pub print : List Text → W → W
  -- Runs the shim with this id.
  pub run : Text → Exec (Process W) Ended (Unit {0})
  pub pid : ℕ
  pub zygote_pid : W → Outcome Ended ℕ
  pub read_to_string : W → FilePath → Option Text

abbrev lower : ℕ → ℕ
lower a = if leb 65 a && leb a 90 then a + 32 else a

-- `name.to_lowercase()`, for a name in ASCII.
abbrev pub to_lowercase : Text → Text
to_lowercase s = map lower s

abbrev pub trace_context_name : Text
trace_context_name = codes "TRACECONTEXT"

-- `r.unwrap()` and `r.expect(..)`.
abbrev pub unwrapped : {A : Type 0} → Outcome Text A → Outcome Ended A
unwrapped (ok a) = ok a
unwrapped _ = panic

abbrev pub argv0 : List Text → Outcome Ended Text
argv0 [] = panic
argv0 (a ∷ args) = ok a

abbrev pub arguments : List Text → Outcome Ended (List Text)
arguments [] = panic
arguments (a ∷ args) = ok args

-- The peaks are only logged.
abbrev mem : Outcome ShimError (ℕ × ℕ) → Outcome Ended (Unit {0})
mem (ok m) = ok tt
mem _ = panic

module _ {W : Type 0} (host : Host W) where
  -- An action on the world, whose failure is a panic.
  abbrev pub on_world : {A : Type 0} → Exec W Text A → Exec (Process W) Ended A
  on_world m p = let (w, r) = m p.world in (record p { world = w }, unwrapped r)

  abbrev pub env_of : Process W → Env
  env_of p = record { var_os = λ name. Dict.get name p.vars; is_unicode = host.is_unicode }

  -- The context of this process, for its children.
  unfoldable pub begin_trace : Exec (Process W) Ended (Unit {0})
  unfolding get_trace_context
  begin_trace = do
    ctx ← on_world (get_trace_context host.sdk)
    modify (λ p. record p { vars = Dict.put trace_context_name ctx p.vars })

  -- `std::env::var` is an error where the text is not Unicode too.
  abbrev continue_trace : Option Text → Exec (Process W) Ended (Unit {0})
  continue_trace none = begin_trace
  continue_trace (some ctx) =
      if host.is_unicode ctx then on_world (set_trace_context host.sdk ctx) else begin_trace

  -- The first block of `shim_main_inner`.
  unfoldable pub take_part : Exec (Process W) Ended (Unit {0})
  unfolding begin_trace set_trace_context
  take_part p = continue_trace (Dict.get trace_context_name p.vars) p

  abbrev version_text : Text → Text → Text → Option Text → List Text
  version_text program name version revision =
      (program ++ codes ":")
      ∷ (codes "  Runtime: " ++ name)
      ∷ (codes "  Version: " ++ version)
      ∷ (codes "  Revision: " ++ unwrap_or revision (codes "<none>"))
      ∷ []
      ∷ []

  unfoldable pub shim_id : Text → Option Text → Text
  shim_id name shim_version =
      codes "io.containerd."
      ++ (to_lowercase name ++ (codes "." ++ unwrap_or shim_version (codes "v1")))

  abbrev run_or_print :
      Bool → Text → Text → Text → Option Text → Option Text → Exec (Process W) Ended (Unit {0})
  run_or_print true program name version revision shim_version = do
    modify
        (λ p. record p { world = host.print (version_text program name version revision) p.world })
    fail (exit 0)
  run_or_print false program name version revision shim_version =
      host.run (shim_id name shim_version)

  unfoldable pub shim_main_inner :
      Text → Text → Option Text → Option Text → Exec (Process W) Ended (Unit {0})
  unfolding take_part shim_id
  shim_main_inner name version revision shim_version = do
    take_part
    os_args ← gets (λ p. host.args_os p.world)
    args ← lift (arguments os_args)
    wants_version ← lift (unwrapped (host.parse args))
    program ← lift (argv0 os_args)
    run_or_print wants_version (unwrap_or (file_stem program) []) name version revision shim_version

  -- The guard is dropped at the end of its scope and when a panic unwinds, but not by `exit`.
  abbrev with_guard : Exec (Process W) Ended (Unit {0}) → Exec (Process W) Ended (Unit {0})
  with_guard m p =
      let (p', r) = m p in
      let dropped : Process W = record p' { world = Otel.drop_guard host.sdk p'.world } in
      elim r [ ok u ↦ (dropped, ok u) | err e ↦ (p', err e) | panic ↦ (dropped, panic) ]

  abbrev expected_config : Outcome Otel.ConfigError Otel.Config → Outcome Ended Otel.Config
  expected_config (ok c) = ok c
  expected_config _ = panic

  abbrev traced : Bool → Exec (Process W) Ended (Unit {0}) → Exec (Process W) Ended (Unit {0})
  traced false m = m
  traced true m = do
    has_runtime ← gets (λ p. host.runtime_new p.world)
    lift (if has_runtime then ok tt else panic)
    config ← reads (λ p. expected_config (build_from_env host.default_protocol (env_of p)))
    on_world (Otel.init host.sdk config)
    with_guard m

  -- What it logs is left out; reading the peaks may panic.
  unfoldable pub log_mem : Exec (Process W) Ended (Unit {0})
  log_mem = do
    reads (λ p. mem (get_mem (host.read_to_string p.world) host.pid))
    pid ← reads (λ p. host.zygote_pid p.world)
    reads (λ p. mem (get_mem (host.read_to_string p.world) pid))

  unfoldable pub shim_main :
      Text → Text → Option Text → Option Text → Exec (Process W) Ended (Unit {0})
  unfolding shim_main_inner log_mem
  shim_main name version revision shim_version = do
    modify (λ p. record p { world = host.zygote_init p.world })
    enabled ← gets (λ p. traces_enabled (env_of p))
    traced enabled (shim_main_inner name version revision shim_version)
    log_mem
