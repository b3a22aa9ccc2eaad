-- ===== src/StressTest/Mocks.antt =====
-- crates/stress-test/src/mocks: the tasks and the shim that the stress test runs by itself, in the
-- place of containerd (task.rs, shim.rs, containerd.rs).
use containerd_wasm.Base.{
  ℕ, Text, codes, ◌++◌, Option, none, some, List, [], ◌∷◌, Bool, true, false, if◌then◌else◌, leb,
  length, reverse, Outcome, ok, Exec, ◌>>=◌, ◌>>◌, pure, lift, print_nat, path_join, components,
  split, keep, map, ◌==◌, ◌||◌, ◌&&◌, get_elem?, is_empty, not, text_eq,
}
use containerd_wasm.StressTest
use containerd_wasm.StressTest.{TaskState, make_task_id}
use containerd_wasm.StressTest.Client
use containerd_wasm.StressTest.Client.{Api, ClientInner, Mount, Spec}
use containerd_wasm.StressTest.Tasks.{Files, argv, spec_of, stdout_for}

pub record CreateTaskRequest : Type 0 where
  pub id : Text
  pub bundle : Text
  pub stdout : Text
  pub rootfs : List Mount

-- The ttrpc client of the shim.
pub record ShimClient (W : Type 0) : Type 0 where
  pub create : CreateTaskRequest → Exec W Text (Unit {0})
  pub start : Text → Exec W Text (Unit {0})
  pub wait : Text → Exec W Text (Unit {0})
  pub delete : Text → Exec W Text (Unit {0})
  -- `now`.
  pub shutdown : Bool → Exec W Text (Unit {0})

pub record Command : Type 0 where
  pub program : Text
  pub args : List Text
  pub process_group : ℕ
  pub env : List (Text × Text)
  pub current_dir : Text

-- What the mocks use of their host beside the files of the others.
pub record Host (W : Type 0) : Type 0 where
  pub files : Files W
  pub tempdir : Exec W Text Text
  pub tempdir_in : Text → Exec W Text Text
  pub create_dir_all : Text → Exec W Text (Unit {0})
  pub write : Text → Text → Exec W Text (Unit {0})
  pub save_spec : Spec → Text → Exec W Text (Unit {0})
  -- The spec that the builder gives without any call.
  pub default_spec : Spec
  -- The standard output of the command.
  pub output : Command → Exec W Text (List ℕ)
  pub from_utf8 : List ℕ → Outcome Text Text
  pub trim : Text → Text
  pub connect : Text → Exec W Text (ShimClient W)
  -- Starts the server of the events at this address.
  pub bind : Text → Exec W Text (Unit {0})
  -- Starts a blocking task, whose result nobody waits for.
  pub spawn_blocking : Exec W Text (Unit {0}) → W → W
  pub read_mounts : Exec W Text Text
  pub umount : Text → Exec W Text (Unit {0})

pub record Task (W : Type 0) : Type 0 where
  pub id : Text
  pub dir : Text
  pub client : ShimClient W
  pub mounts : List Mount

pub record Shim (W : Type 0) : Type 0 where
  pub dir : Text
  pub client : ShimClient W
  pub containerd : ClientInner

pub record Containerd : Type 0 where
  pub dir : Text
  pub verbose : Bool
  pub containerd : ClientInner

-- The conversion between the two types of mounts copies every field.
abbrev pub map_mount : Mount → Mount
map_mount m = record {
  mount_type = m.mount_type;
  source = m.source;
  target = m.target;
  options = m.options;
}

unfoldable pub map_mounts : List Mount → List Mount
map_mounts [] = []
map_mounts (m ∷ ms) = map_mount m ∷ map_mounts ms

-- The white space of ASCII.
abbrev pub is_space : ℕ → Bool
is_space a = a == b' ' || (leb 9 a && leb a 13)

unfoldable pub split_whitespace : Text → List Text
split_whitespace line =
    keep (λ w. not (is_empty w)) (split b' ' (map (λ a. if is_space a then b' ' else a) line))

-- `line.split_whitespace().nth(1)`.
unfoldable pub mount_point : Text → Option Text
unfolding split_whitespace
mount_point line = get_elem? (split_whitespace line) 1

-- `path.starts_with(root)`, by components.
unfoldable pub is_prefix : List Text → List Text → Bool
is_prefix [] path = true
is_prefix (c ∷ root) [] = false
is_prefix (c ∷ root) (d ∷ path) = if text_eq c d then is_prefix root path else false

abbrev pub is_below : Text → Text → Bool
is_below root path = is_prefix (components root) (components path)

abbrev pub with_point : Option Text → List Text → List Text
with_point none ps = ps
with_point (some p) ps = p ∷ ps

unfoldable pub mount_points : List Text → List Text
unfolding mount_point
mount_points [] = []
mount_points (line ∷ lines) = with_point (mount_point line) (mount_points lines)

-- `sort_by_key` on the length, which is stable.
unfoldable pub insert_by_length : Text → List Text → List Text
insert_by_length p [] = p ∷ []
insert_by_length p (q ∷ qs) =
    let rest = insert_by_length p qs in if leb (length p) (length q) then p ∷ q ∷ qs else q ∷ rest

unfoldable pub sort_by_length : List Text → List Text
unfolding insert_by_length
sort_by_length [] = []
sort_by_length (p ∷ ps) = insert_by_length p (sort_by_length ps)

-- The mounts at or below the root, in the order in which they are unmounted.
unfoldable pub unmount_order : Text → Text → List Text
unfolding mount_points sort_by_length
unmount_order root mounts =
    reverse (sort_by_length (keep (λ p. is_below root p) (mount_points (split b'\n' mounts))))

module _ {W : Type 0} (host : Host W) where
  -- The loop ends at the first failure.
  unfoldable pub umount_all : List Text → Exec W Text (Unit {0})
  umount_all [] = pure tt
  umount_all (p ∷ ps) = do host.umount p; umount_all ps

  -- The blocking task is started, and success is answered at once.
  unfoldable pub unmount_recursive : Text → Exec W Text (Unit {0})
  unfolding umount_all unmount_order
  unmount_recursive root w = (
    host.spawn_blocking (do mounts ← host.read_mounts; umount_all (unmount_order root mounts)) w,
    ok tt,
  )

  module _ (api : Api W) (pid : ℕ) where
    -- The state has the counter of the ids of tasks.
    unfoldable pub new_task :
        ClientInner → Text → Text → List Text → ShimClient W → Exec (W × ℕ) Text (Task W)
    unfolding make_task_id map_mounts spec_of Client.get_mounts Client.entrypoint
    new_task c scratch image args client (w, counter) =
        let (counter', id) = make_task_id pid counter in
        let (w', r) =
          (do
            mounts ← Client.get_mounts api c id image
            entrypoint ← Client.entrypoint api c image
            dir ← host.tempdir_in scratch
            host.create_dir_all (path_join dir (codes "rootfs"))
            host.write (path_join dir (codes "options.json")) (codes "{\"root\":\"rootfs\"}")
            host.save_spec (spec_of pid (argv args entrypoint))
                (path_join dir (codes "config.json"))
            pure (record { id = id; dir = dir; client = client; mounts = map_mounts mounts }))
            w in
        ((w', counter'), r)

    -- Where the log of the shim goes.
    unfoldable link_log : Bool → Text → Exec W Text (Unit {0})
    link_log true dir = do
      stderr ← host.files.canonicalize (codes "/proc/self/fd/2")
      host.files.symlink stderr (path_join dir (codes "log"))
    link_log false dir = host.files.symlink (codes "/dev/null") (path_join dir (codes "log"))

    abbrev name : Text
    name = codes "shim-benchmark-" ++ print_nat pid

    abbrev start_command : Text → Text → Text → Command
    start_command binary socket dir = record {
      program = binary;
      args =
          codes "-namespace"
          ∷ name
          ∷ codes "-id"
          ∷ name
          ∷ codes "-address"
          ∷ codes "/run/containerd/containerd.sock"
          ∷ codes "start"
          ∷ [];
      process_group = 0;
      env = (codes "TTRPC_ADDRESS", socket) ∷ [];
      current_dir = dir;
    }

    unfoldable pub new_shim : ClientInner → Text → Bool → Text → Exec W Text (Shim W)
    unfolding link_log
    new_shim c scratch verbose binary = do
      dir ← host.tempdir_in scratch
      host.save_spec host.default_spec (path_join dir (codes "config.json"))
      link_log verbose dir
      stdout ←
          host.output (start_command binary (path_join scratch (codes "containerd.sock.ttrpc")) dir)
      address ← lift (host.from_utf8 stdout)
      client ← host.connect (host.trim address)
      pure (record { dir = dir; client = client; containerd = c })

    unfoldable pub task : Shim W → Text → List Text → Exec (W × ℕ) Text (Task W)
    unfolding new_task
    task shim image args = new_task shim.containerd shim.dir image args shim.client

    unfoldable pub new_containerd : Bool → Exec W Text Containerd
    unfolding Client.default
    new_containerd verbose = do
      dir ← host.tempdir
      containerd ← Client.default api
      host.bind (codes "unix://" ++ path_join dir (codes "containerd.sock.ttrpc"))
      pure (record { dir = dir; verbose = verbose; containerd = containerd })

    unfoldable pub start_shim : Containerd → Text → Exec W Text (Shim W)
    unfolding new_shim
    start_shim c shim = new_shim c.containerd c.dir c.verbose shim

  unfoldable pub create : Task W → Bool → Exec W Text (Unit {0})
  unfolding stdout_for
  create t verbose = do
    stdout ← stdout_for host.files verbose
    t.client.create (record { id = t.id; bundle = t.dir; stdout = stdout; rootfs = t.mounts })

  -- `deleted` and `unmounted` are the two flags of the state.
  unfoldable pub delete_task : Task W → Exec (TaskState W) Text (Unit {0})
  unfolding unmount_recursive StressTest.delete
  delete_task t =
      StressTest.delete (t.client.delete t.id)
        (unmount_recursive (path_join t.dir (codes "rootfs")))

  -- `Drop for Task`.
  unfoldable pub drop_task : Task W → TaskState W → TaskState W
  unfolding delete_task
  drop_task t s = (delete_task t s).0

  -- `Drop for Shim`.
  unfoldable pub drop_shim : Shim W → W → W
  drop_shim shim w = (shim.client.shutdown true w).0
