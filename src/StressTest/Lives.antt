-- ===== src/StressTest/Lives.antt =====
-- The whole life of a task of the stress test, from main.rs and containerd/task.rs.
use containerd_wasm.Base.{ap, ◌≡◌, Bool, ok, arith, ℕ}
use containerd_wasm.StressTest.{TaskState}
use containerd_wasm.StressTest.Client.{Api}
use containerd_wasm.StressTest.Client
use containerd_wasm.StressTest.Tasks.{
  Files, Task, create, start, wait, delete, kill_and_delete, drop_task, life,
}
use containerd_wasm.StressTest.Once.{delete-once}

module _ {W : Type 0} (api : Api W) (fs : Files W) (pid : ℕ) where
  after_life :
      (t : Task) (v : Bool) (s : TaskState W)
      → (life api fs pid t v s).1 ≡ ok tt
      → (s' : TaskState W) × ((delete api fs pid t s').1 ≡ ok tt)
        × ((life api fs pid t v s).0 ≡ (delete api fs pid t s').0)
  unfolding life
  after_life t v s h =
      let made = create api fs pid t v s.world in
      let begun = start api fs pid t made.0 in
      let waited = wait api fs pid t begun.0 in
      (record s { world = waited.0 }, ground arith, ground arith)

  -- A task that was created, started, waited for and deleted with success is not killed or deleted
  -- again when it is dropped.
  pub life-drop_task :
      (t : Task) (v : Bool) (s : TaskState W)
      → (life api fs pid t v s).1 ≡ ok tt
      → drop_task api fs pid t (life api fs pid t v s).0 ≡ (life api fs pid t v s).0
  unfolding drop_task delete
  life-drop_task t v s h =
      let (s', done, after) = after_life t v s h in
      let again =
        (delete-once (kill_and_delete api fs pid t) (Client.delete_container api t.containerd t.id)
            s').0
          done in
      rw after (ap (λ o. o.0) again)
