-- ===== src/Container/Executor.antt =====
-- crates/containerd-shim-wasm/src/sys/unix/container/executor.rs: whether a container is run as a
-- Linux program or by the engine.
pub mod Choice
use containerd_wasm.Base.{
  ℕ, Text, codes, Option, none, some, List, [], ◌∷◌, Bool, true, false, if◌then◌else◌, ◌==◌, ◌%◌,
  Outcome, ok, err, panic, ok_or, head?, and_then, ◌>>?◌, not, ◌||◌, text_eq, starts_with, Exec,
  ◌>>=◌, pure, fail, lift, reads, map_ok, map_err, FilePath,
}
use containerd_wasm.Sandbox.Oci.{Spec, WasmLayer}
use containerd_wasm.Container.Files.{FileSystem, filter_map, then_some, resolve_in_path}
use containerd_wasm.Container.Context.{Source, file, oci, WasiContext, Entrypoint, entrypoint}
use containerd_wasm.Container.Engine.{first_four, can_handle}

pub data InnerExecutor : Type 0 where
  wasm linux cant_handle : InnerExecutor

-- `mode & 0o001 != 0`.
abbrev executable : FileSystem → Text → Option Text
executable fs p = and_then (fs.mode p) λ mode. then_some (not (mode % 2 == 0)) p

-- The ELF magic number, or a shebang.
abbrev pub has_linux_magic : List ℕ → Bool
has_linux_magic buffer =
    text_eq buffer (0x7f ∷ 0x45 ∷ 0x4c ∷ 0x46 ∷ []) || starts_with (0x23 ∷ 0x21 ∷ []) buffer

abbrev linux_of : FileSystem → Entrypoint → Source → Outcome Text (Unit {0})
linux_of fs entry (oci layers) = err (codes "the entry point contains wasm layers")
linux_of fs entry (file path) = ok_or entry.arg0 (codes "no entrypoint provided") >>? λ arg0.
    ok_or (head? (filter_map (executable fs) (resolve_in_path fs arg0)))
      (codes "entrypoint not found")
    >>? λ found. fs.read found >>? λ bytes. first_four bytes >>? λ buffer.
        if has_linux_magic buffer then ok tt else err (codes "not a valid script or elf file")

unfoldable pub is_linux_container : FileSystem → WasiContext → Outcome Text (Unit {0})
is_linux_container fs ctx = linux_of fs (entrypoint ctx) (entrypoint ctx).source

-- The rest of the world that `exec` needs: the engine, and youki's own executor. An exit code of
-- `run_wasi` is given as the process exits with it.
pub record Runner : Type 0 where
  pub fs : FileSystem
  pub parse_wat : FilePath → Outcome Text (List ℕ)
  pub engine_name : Text
  pub run_wasi : WasiContext → Outcome Text ℕ
  pub exec_linux : Spec → Outcome Text (Unit {0})

pub record Executor : Type 0 where
  pub inner : Option InnerExecutor
  pub wasm_layers : List WasmLayer

pub data ExecutorError : Type 0 where
  cant_handle : Text → ExecutorError
  execution : Text → ExecutorError

-- What the process has come to: `exec` of a Wasm container does not return.
pub data Executed : Type 0 where
  returned : Executed
  exited : ℕ → Executed

unfoldable pub new : List WasmLayer → Executor
new wasm_layers = record { inner = none; wasm_layers = wasm_layers }

abbrev pub ctx : Executor → Spec → WasiContext
ctx e spec = record { spec = spec; wasm_layers = e.wasm_layers }

abbrev wasm_or_not : Outcome Text (Unit {0}) → Outcome ExecutorError InnerExecutor
wasm_or_not (ok u) = ok wasm
wasm_or_not (err e) = ok InnerExecutor.cant_handle
wasm_or_not panic = panic

abbrev linux_or :
    Outcome Text (Unit {0}) → Outcome Text (Unit {0}) → Outcome ExecutorError InnerExecutor
linux_or (ok u) handled = ok linux
linux_or (err e) handled = wasm_or_not handled
linux_or panic handled = panic

module _ (r : Runner) where
  -- What `get_or_init` computes.
  unfoldable pub decide : WasiContext → Outcome ExecutorError InnerExecutor
  unfolding is_linux_container
  decide c = linux_or (is_linux_container r.fs c) (can_handle r.fs r.parse_wat c)

  abbrev remember : Executor → Outcome ExecutorError InnerExecutor → Executor
  remember e (ok i) = record e { inner = some i }
  remember e _ = e

  -- `self.inner.get_or_init(...)`: decided once, for the first spec.
  unfoldable pub inner : Spec → Exec Executor ExecutorError InnerExecutor
  inner spec e = elim e.inner [
    | some i ↦ (e, ok i)
    | none ↦ (remember e (decide (ctx e spec)), decide (ctx e spec))
  ]

  abbrev validated : InnerExecutor → Exec Executor ExecutorError (Unit {0})
  validated InnerExecutor.cant_handle = fail (ExecutorError.cant_handle r.engine_name)
  validated _ = pure tt

  unfoldable pub validate : Spec → Exec Executor ExecutorError (Unit {0})
  unfolding inner
  validate spec = do i ← inner spec; validated i

  abbrev exit_code : Outcome Text ℕ → Outcome ExecutorError Executed
  exit_code (ok code) = ok (exited code)
  exit_code (err e) = ok (exited 137)
  exit_code panic = panic

  abbrev executed : Spec → InnerExecutor → Exec Executor ExecutorError Executed
  executed spec InnerExecutor.cant_handle = fail (ExecutorError.cant_handle r.engine_name)
  executed spec linux = lift (map_ok (λ _. returned) (map_err execution (r.exec_linux spec)))
  executed spec wasm = reads (λ e. exit_code (r.run_wasi (ctx e spec)))

  unfoldable pub exec : Spec → Exec Executor ExecutorError Executed
  unfolding inner
  exec spec = do i ← inner spec; executed spec i
