-- ===== src/Sandbox/Oci.antt =====
-- crates/containerd-shim-wasm/src/sandbox/oci.rs: the parts of the runtime spec that the shim
-- reads, layers, and the prestart hooks (the Unix build).
pub mod Env
pub mod Prestart
use containerd_wasm.Base.{
  ℕ, Text, codes, ◌++◌, Option, none, some, List, [], ◌∷◌, Outcome, ok, err, Exec, ◌>>=◌, ◌>>◌,
  pure, lift, unwrap, attempt, ignore, map_error, head_and_rest, split, print_nat, Bool, true,
  false,
}
use containerd_wasm.Base.Dict
use containerd_wasm.Base.Dict.{Dict}
use containerd_wasm.Sandbox.Error.{Error, any, stdio}

-- `oci_spec::image::Descriptor`, by what the shim reads of it.
pub record Descriptor : Type 0 where
  pub digest : Text
  pub media_type : Text

pub record WasmLayer : Type 0 where
  pub config : Descriptor
  pub layer : List ℕ

-- The getters of `oci_spec::runtime` that the shim calls.
pub record Hook : Type 0 where
  pub path : Text
  pub args : Option (List Text)
  pub env : Option (List Text)

pub record Hooks : Type 0 where
  pub prestart : Option (List Hook)

pub record Process : Type 0 where
  pub args : Option (List Text)
  pub env : Option (List Text)

pub record Spec : Type 0 where
  pub root : Option Text
  pub process : Option Process
  pub hooks : Option Hooks
  pub annotations : Option (Dict Text)

-- `NAME=VALUE` to its parts.
unfoldable pub key_value : Text → Text × Text
key_value e = head_and_rest b'=' (split b'=' e)

-- `collect` into a map: later pairs replace earlier ones.
unfoldable pub collect : List (Text × Text) → Dict Text → Dict Text
collect [] m = m
collect ((k, v) ∷ rest) m = collect rest (Dict.put k v m)

abbrev pub pairs : List Text → List (Text × Text)
pairs [] = []
pairs (e ∷ es) = key_value e ∷ pairs es

unfoldable pub parse_env : List Text → Dict Text
unfolding key_value
parse_env envs = collect (pairs envs) []

-- `process::Command` as it is built.
pub record Command : Type 0 where
  pub program : Text
  pub arg0 : Text
  pub args : List Text
  pub envs : Dict Text

-- What `process::Command` does; a child is known by a number.
pub record Processes (W : Type 0) : Type 0 where
  pub id : ℕ
  pub spawn : Command → Exec W Text ℕ
  -- `None` if all was written, else whether the error is a broken pipe.
  pub write_stdin : ℕ → Text → W → W × Option Bool
  pub kill_child : ℕ → W → W
  -- The exit status of the child.
  pub wait_child : ℕ → Exec W Text ℕ

-- `args().as_ref().and_then(|a| a.split_first())`: without a first argument, arg0 is the path.
abbrev with_args : Hook → Option (List Text) → Text × List Text
with_args h none = (h.path, [])
with_args h (some []) = (h.path, [])
with_args h (some (arg0 ∷ args)) = (arg0, args)

abbrev env_of : Option (List Text) → Dict Text
unfolding parse_env
env_of none = []
env_of (some env) = parse_env env

unfoldable pub hook_command : Hook → Command
unfolding parse_env
hook_command h = record {
  program = h.path;
  arg0 = (with_args h h.args).0;
  args = (with_args h h.args).1;
  envs = env_of h.env;
}

module _ {W : Type 0} (os : Processes W) where
  abbrev kill_unless_broken : ℕ → Option Bool → W → W
  kill_unless_broken child (some false) w = os.kill_child child w
  kill_unless_broken child _ w = w

  abbrev feed : ℕ → W → W
  feed child w =
      let (w', e) =
        os.write_stdin child (codes "{ \"pid\": " ++ (print_nat os.id ++ codes " }")) w in
      kill_unless_broken child e w'

  -- One round of the loop over the hooks. The status of the child is not looked at.
  unfoldable pub run_hook : Hook → Exec W Error (Unit {0})
  unfolding hook_command
  run_hook h = do
    child ← map_error (λ _. any (codes "Failed to execute hook")) (os.spawn (hook_command h))
    (λ w. (feed child w, ok tt))
    status ← map_error stdio (os.wait_child child)
    pure tt

  unfoldable pub run_hooks : List Hook → Exec W Error (Unit {0})
  run_hooks [] = pure tt
  run_hooks (h ∷ hs) = do run_hook h; run_hooks hs

  abbrev prestart_of : Option Hooks → Outcome Error (List Hook)
  prestart_of none = ok []
  prestart_of (some h) = unwrap h.prestart

  unfoldable pub setup_prestart_hooks : Option Hooks → Exec W Error (Unit {0})
  unfolding run_hooks
  setup_prestart_hooks hooks = do hs ← lift (prestart_of hooks); run_hooks hs
