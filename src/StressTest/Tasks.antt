-- ===== src/StressTest/Tasks.antt =====
-- crates/stress-test/src/containerd: the tasks and the shim that the stress test runs through containerd
-- (task.rs, shim.rs, containerd.rs).
use containerd_wasm.Base.{
  ℕ, Text, codes, ◌++◌, List, [], ◌∷◌, Bool, true, false, Outcome, ok, err, panic, Exec, ◌>>=◌,
  ◌>>◌, pure, ignore, print_nat,
}
use containerd_wasm.StressTest
use containerd_wasm.StressTest.{TaskState, make_task_id}
use containerd_wasm.StressTest.Client
use containerd_wasm.StressTest.Client.{Api, ClientInner, Mount, Spec}

-- What the program uses of the file system of its host.
pub record Files (W : Type 0) : Type 0 where
  pub canonicalize : Text → Exec W Text Text
  -- The original, and the link.
  pub symlink : Text → Text → Exec W Text (Unit {0})
  pub remove_file : Text → Exec W Text (Unit {0})

-- `Task`, less its `RunOnce` flags, which change.
pub record Task : Type 0 where
  pub containerd : ClientInner
  pub runtime : Text
  pub id : Text
  pub image : Text
  pub mounts : List Mount
  pub spec : Spec

pub record Shim : Type 0 where
  pub link : Text
  pub runtime : Text
  pub containerd : ClientInner

-- The arguments of the process: the entry point of the image, or its program with the arguments that
-- were given.
abbrev pub argv : List Text → List Text → List Text
argv [] entrypoint = entrypoint
argv (arg ∷ args) [] = arg ∷ args
argv (arg ∷ args) (argv0 ∷ entrypoint) = argv0 ∷ arg ∷ args

unfoldable pub spec_of : ℕ → List Text → Spec
spec_of pid args = record {
  version = codes "1.1.0";
  process = record { args = args; cwd = codes "/" };
  annotations = (codes "io.kubernetes.cri.sandbox-id", codes "sandbox-" ++ print_nat pid) ∷ [];
  root = codes "rootfs";
}

-- The text of a path that was found, or nothing.
abbrev found_or_empty : Outcome Text Text → Outcome Text Text
found_or_empty (ok p) = ok p
found_or_empty (err e) = ok []
found_or_empty panic = panic

module _ {W : Type 0} (fs : Files W) where
  -- The standard output of the program, if the task may write to it.
  unfoldable pub stdout_for : Bool → Exec W Text Text
  stdout_for false w = (w, ok [])
  stdout_for true w =
      let (w', r) = fs.canonicalize (codes "/proc/self/fd/1") w in (w', found_or_empty r)

module _ {W : Type 0} (api : Api W) (fs : Files W) (pid : ℕ) where
  -- The state has the counter of the ids of tasks.
  unfoldable pub new_task : ClientInner → Text → Text → List Text → Exec (W × ℕ) Text Task
  unfolding make_task_id Client.entrypoint Client.get_mounts spec_of
  new_task c runtime image args (w, counter) =
      let (counter', id) = make_task_id pid counter in
      let (w', r) =
        (do
          entrypoint ← Client.entrypoint api c image
          mounts ← Client.get_mounts api c id image
          pure (record {
            containerd = c;
            runtime = runtime;
            id = id;
            image = image;
            mounts = mounts;
            spec = spec_of pid (argv args entrypoint);
          }))
          w in
      ((w', counter'), r)

  unfoldable pub create : Task → Bool → Exec W Text (Unit {0})
  unfolding stdout_for Client.create_container Client.create_task
  create t verbose = do
    stdout ← stdout_for fs verbose
    Client.create_container api t.containerd t.id t.image t.runtime t.spec
    Client.create_task api t.containerd t.id t.mounts stdout

  unfoldable pub start : Task → Exec W Text (Unit {0})
  unfolding Client.start_task
  start t = Client.start_task api t.containerd t.id

  unfoldable pub wait : Task → Exec W Text (Unit {0})
  unfolding Client.wait_task
  wait t = Client.wait_task api t.containerd t.id

  unfoldable pub kill_and_delete : Task → Exec W Text (Unit {0})
  unfolding Client.kill_task Client.delete_task
  kill_and_delete t = do
    ignore (Client.kill_task api t.containerd t.id)
    Client.delete_task api t.containerd t.id

  -- `task_deleted` and `container_deleted` are the two flags of the state.
  unfoldable pub delete : Task → Exec (TaskState W) Text (Unit {0})
  unfolding kill_and_delete Client.delete_container StressTest.delete
  delete t = StressTest.delete (kill_and_delete t) (Client.delete_container api t.containerd t.id)

  -- `Drop for Task`.
  unfoldable pub drop_task : Task → TaskState W → TaskState W
  unfolding delete
  drop_task t s = (delete t s).0

  -- A call that leaves the flags alone.
  abbrev on_task : Exec W Text (Unit {0}) → Exec (TaskState W) Text (Unit {0})
  on_task m s = let (w, r) = m s.world in (record s { world = w }, r)

  -- What the future of a task does between the barrier and its end, in `run_stress_test`.
  unfoldable pub life : Task → Bool → Exec (TaskState W) Text (Unit {0})
  unfolding create start wait delete
  life t container_output = do
    on_task (create t container_output)
    on_task (start t)
    on_task (wait t)
    delete t

  abbrev link_path : Text
  link_path = codes "/usr/local/bin/containerd-shim-runwasi" ++ (print_nat pid ++ codes "-v1")

  unfoldable pub new_shim : ClientInner → Text → Exec W Text Shim
  new_shim c binary = do
    path ← fs.canonicalize binary
    fs.symlink path link_path
    pure (record {
      link = link_path;
      runtime = codes "io.containerd.runwasi" ++ (print_nat pid ++ codes ".v1");
      containerd = c;
    })

  -- `Drop for Shim`.
  unfoldable pub drop_shim : Shim → W → W
  drop_shim shim w = (fs.remove_file shim.link w).0

  unfoldable pub task : Shim → Text → List Text → Exec (W × ℕ) Text Task
  unfolding new_task
  task shim image args = new_task shim.containerd shim.runtime image args

  -- `Containerd` holds a client.
  unfoldable pub new_containerd : Exec W Text ClientInner
  unfolding Client.default
  new_containerd = Client.default api

  unfoldable pub start_shim : ClientInner → Text → Exec W Text Shim
  unfolding new_shim
  start_shim c shim = new_shim c shim
