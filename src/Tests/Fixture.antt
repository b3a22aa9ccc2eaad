-- ===== src/Tests/Fixture.antt =====
-- A small runtime and its surroundings: a process that has exited or not.
use containerd_wasm.Base.{ℕ, codes, Option, none, some, true, ok, map_some}
use containerd_wasm.Sandbox.Instance.{Instance, DateTime}
use containerd_wasm.Sandbox.Oci.{Processes, Spec}
use containerd_wasm.Shim.Local.{Host}

-- The world: the exit code of the process, once there is one.
abbrev pub World : Type 0
World = Option ℕ

abbrev pub noon : DateTime
noon = record { timestamp = 43200; timestamp_subsec_nanos = 5 }

abbrev pub runtime : Instance World ℕ
runtime = record {
  new = λ id cfg w. (w, ok 7);
  start = λ i w. (w, ok 42);
  kill = λ i signal w. (w, ok tt);
  delete = λ i w. (w, ok tt);
  wait_timeout = λ i t w. (w, map_some (λ code. (code, noon)) w);
}

abbrev pub processes : Processes World
processes = record {
  id = 100;
  spawn = λ c w. (w, ok 5);
  write_stdin = λ child text w. (w, none);
  kill_child = λ child w. w;
  wait_child = λ child w. (w, ok 1);
}

abbrev pub plain_spec : Spec
plain_spec = record {
  root = some (codes "rootfs");
  process = none;
  hooks = none;
  annotations = none;
}

abbrev pub host : Host World ℕ
host = record {
  runtime = runtime;
  processes = processes;
  spec_load = λ path w. ok plain_spec;
  canonicalize_rootfs = λ spec bundle w. ok spec;
  create_dir_all = λ path w. w;
  mount_rootfs = λ kind source options target w. (w, ok tt);
  get_metrics = λ pid w. ok (codes "metrics");
  can_spawn = λ w. true;
  display_shim = λ e. codes "shim error";
}
