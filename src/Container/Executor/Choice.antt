-- ===== src/Container/Executor/Choice.antt =====
-- How executor.rs chooses, and that it chooses once.
use containerd_wasm.Base.{Text, map_ok, map_err, ◌≡◌, none, List, ◌∷◌, ok, err, arith}
use containerd_wasm.Sandbox.Oci.{Spec, WasmLayer}
use containerd_wasm.Container.Context.{entrypoint}
use containerd_wasm.Container.Engine.{can_handle}
use containerd_wasm.Container.Executor.{
  Runner, Executor, ExecutorError, ctx, decide, validate, exec, exit_code, is_linux_container,
  returned, execution,
}

module _ (r : Runner) where
  -- A container with Wasm layers is run by the engine, whatever its files look like: it is valid, and
  -- to execute it is to exit with the engine's code, or with 137 if the engine fails.
  pub exec-layers :
      (e : Executor) (spec : Spec) (l : WasmLayer) (ls : List WasmLayer)
      → e.inner ≡ none
      → e.wasm_layers ≡ l ∷ ls
      → ((validate r spec e).1 ≡ ok tt)
        × ((exec r spec e).1 ≡ exit_code r (r.run_wasi (ctx e spec)))
  unfolding validate exec decide can_handle entrypoint
  exec-layers e spec l ls n w = (ground arith, ground arith)

  -- The first `validate` of a container chooses for its spec, and every later `exec` follows this
  -- choice, for whatever spec: a Linux program is validated and handed to youki's executor; else what
  -- the engine can handle is validated and run by the engine, to exit with its code, or with 137 if it
  -- fails; all else is refused by both.
  pub exec-validate :
      (e : Executor) (spec spec' : Spec)
      → e.inner ≡ none
      → let c = ctx e spec in
        let e' = (validate r spec e).0 in
        (is_linux_container r.fs c ≡ ok tt
          → ((validate r spec e).1 ≡ ok tt)
            × (exec r spec' e'
                ≡ (e', map_ok (λ _. returned) (map_err execution (r.exec_linux spec')))))
        × ((x : Text)
            → is_linux_container r.fs c ≡ err x
            → can_handle r.fs r.parse_wat c ≡ ok tt
            → ((validate r spec e).1 ≡ ok tt)
              × (exec r spec' e' ≡ (e', exit_code r (r.run_wasi (ctx e spec')))))
        × ((x y : Text)
            → is_linux_container r.fs c ≡ err x
            → can_handle r.fs r.parse_wat c ≡ err y
            → ((validate r spec e).1 ≡ err (ExecutorError.cant_handle r.engine_name))
              × (exec r spec' e' ≡ (e', err (ExecutorError.cant_handle r.engine_name))))
  unfolding validate exec decide
  exec-validate e spec spec' n = (
    λ l. (ground arith, ground arith),
    λ x l h. (ground arith, ground arith),
    λ x y l h. (ground arith, ground arith),
  )
