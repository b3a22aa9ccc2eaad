-- ===== src/Shim/Local/Answers.antt =====
-- What the task service of local.rs answers about a task in a given state.
use containerd_wasm.Base.{
  ℕ, ◌≡◌, ◌⊎◌, some, [], true, false, ok, err, arith, get_elem?, set_same, get_elem?-set_of_some,
  Text, ◌↔◌, text_eq, text_eq_refl, unwrap_or,
}
use containerd_wasm.Base.Dict
use containerd_wasm.Sandbox.Error.{Error}
use containerd_wasm.Shim.InstanceData.{InstanceData, wait_timeout}
use containerd_wasm.Shim.Api.{ExecRequest, Response}
use containerd_wasm.Shim.Local.{
  Host, Local, exit_status, exited_at, status_of, task_delete, task_state, shutdown, get_instance,
}

module _ {W S : Type 0} (host : Host W S) where
  -- The answer about a task: CREATED without a process, else RUNNING until the runtime reports an
  -- exit, else STOPPED with the code and the time of the exit. Process and exit status are 0 where
  -- there is none, and the paths are those that the task was created with.
  pub task_state-answer :
      (req : ExecRequest) (l : Local W S) (h : ℕ) (d : InstanceData S)
      → req.exec_id ≡ []
      → Dict.get req.id l.instances ≡ some h
      → get_elem? l.heap h ≡ some d
      → d.poisoned ≡ false
      → let exit = (host.runtime.wait_timeout d.instance (some 0) l.world).1 in
        (task_state host req l).1
        ≡ ok (
            Response.state (record {
              bundle = d.cfg.bundle;
              stdin = d.cfg.stdin;
              stdout = d.cfg.stdout;
              stderr = d.cfg.stderr;
              pid = unwrap_or d.pid 0;
              exit_status = exit_status exit;
              exited_at = exited_at exit;
              status = status_of d.pid exit;
            }))
  unfolding task_state wait_timeout
  task_state-answer req l h d x f g clean = ground (
    arith,
    set_same l.heap h g,
    get_elem?-set_of_some l.heap h (wait_timeout host.runtime (some 0) (l.world, d)).0.1 g,
  )

  -- A task that was deleted is gone: its id is not found any more, and every other id leads where it
  -- led.
  pub task_delete-gone :
      (req : ExecRequest) (l : Local W S) {r : Response} (id : Text)
      → (task_delete host req l).1 ≡ ok r
      → let l' = (task_delete host req l).0 in
        ((get_instance req.id l').1 ≡ err (Error.not_found req.id))
        × (text_eq req.id id ≡ false → Dict.get id l'.instances ≡ Dict.get id l.instances)
  unfolding get_instance task_delete
  task_delete-gone req l id h = (
    ground (arith, Dict.get-remove req.id req.id l.instances, text_eq_refl req.id),
    λ ne. ground (arith, Dict.get-remove id req.id l.instances),
  )

  -- `shutdown` signals the exit exactly when no task is left; it is answered in any case.
  pub shutdown-exit :
      (l : Local W S)
      → ((shutdown host l).1 ≡ ok Response.empty)
        × (((shutdown host l).0.exit_signalled ≡ true)
            ↔ ((l.exit_signalled ≡ true) ⊎ (l.instances ≡ [])))
  unfolding shutdown
  shutdown-exit l = ground arith
