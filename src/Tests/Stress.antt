-- ===== src/Tests/Stress.antt =====
-- The stress test of crates/stress-test at concrete inputs.
use mathlib.Core.List.{Perm}
use containerd_wasm.Base.{
  keep, ℕ, zero, suc, Outcome, keep, components, text_eq, ◌+◌, Text, codes, ◌≡◌, ◌≢◌, ◌↔◌, refl,
  none, some, List, [], ◌∷◌, true, false, ok, arith, get_elem?, split,
}
use containerd_wasm.StressTest.{TaskState}
use containerd_wasm.StressTest.Client.{Api, Chunk, append_chunks}
use containerd_wasm.StressTest.Client.Reading.{concat, AreAdjacent, all_ok, append_chunks-concat}
use containerd_wasm.StressTest.Tasks.{Files, Task, life}
use containerd_wasm.StressTest.Mocks.{is_prefix, mount_points, unmount_order, is_below}
use containerd_wasm.StressTest.Unmounts.{IsDescending, unmount_order-IsDescending}
use containerd_wasm.StressTest.Run.{
  setting_up, not_set_up, at_barrier, ready, creating, Run, total, Move, main_arrives, task,
  sets_up, passes, acquires, start, moves, permits,
}
use containerd_wasm.StressTest.Run.Totals.{holds, inside, outside}
use containerd_wasm.StressTest.Run.Fair.{moves_fair}
use containerd_wasm.StressTest.Run.Hang.{moves_hang}
use containerd_wasm.StressTest.Run.Progress.{CanMove, moves_progress}

abbrev two_chunks : List Chunk
two_chunks = record { offset = 0; bytes = 7 ∷ 8 ∷ [] } ∷ record { offset = 2; bytes = 9 ∷ [] } ∷ []

append_chunks-concat_example : (append_chunks (all_ok two_chunks) [] ≡ ok (7 ∷ 8 ∷ 9 ∷ [])) ↔ (
    (cs : List Chunk) × (all_ok two_chunks ≡ all_ok cs)
    × AreAdjacent 0 cs
    × (7 ∷ 8 ∷ 9 ∷ [] ≡ concat cs))
append_chunks-concat_example = append_chunks-concat (all_ok two_chunks) (7 ∷ 8 ∷ 9 ∷ [])

-- Two tasks are set up, meet the main function, and take the only permit in turn.
abbrev meeting : List Move
meeting = task 0 (sets_up true) ∷ main_arrives ∷ task 1 (sets_up true) ∷ []

abbrev met : Run
met = record { phases = at_barrier ∷ at_barrier ∷ []; free = 1; main = true; opened = true }

meeting_run : moves meeting (start 1 2) ≡ some met
unfolding moves start
meeting_run = refl

abbrev working : List Move
working =
    task 0 (sets_up true)
    ∷ main_arrives
    ∷ task 1 (sets_up true)
    ∷ task 0 passes
    ∷ task 1 passes
    ∷ task 0 acquires
    ∷ []

abbrev busy : Run
busy = record { phases = creating ∷ ready ∷ []; free = 0; main = true; opened = true }

moves_fair_example :
    (total holds busy.phases + busy.free ≡ permits 1 2)
    × (busy.opened ≡ false → total inside busy.phases ≡ 0)
    × (busy.opened ≡ true → total outside busy.phases ≡ 0)
moves_fair_example = moves_fair 1 2 working busy (unfold moves start in refl)

abbrev broken : Run
broken = record { phases = not_set_up ∷ setting_up ∷ []; free = 1; main = false; opened = false }

abbrev stuck : Run
stuck = record { phases = not_set_up ∷ at_barrier ∷ []; free = 1; main = true; opened = false }

moves_hang_example : (stuck.opened ≡ false) × (total inside stuck.phases ≡ 0)
moves_hang_example =
    moves_hang 1 2 (task 0 (sets_up false) ∷ []) (task 1 (sets_up true) ∷ main_arrives ∷ []) broken
      stuck 0 (unfold moves start in refl) refl (unfold moves in refl)

both_set_up : (j : ℕ) → get_elem? busy.phases j ≢ some not_set_up
both_set_up zero = λ e. cc
both_set_up (suc zero) = λ e. cc
both_set_up (suc (suc j)) = λ e. cc

moves_progress_example : CanMove busy
moves_progress_example =
    moves_progress 1 2 working busy 1 ready (unfold moves start in refl) refl (omega arith)
      both_set_up refl (λ b e. cc)

abbrev mounts : Text
mounts =
    codes
      "overlay /run/a/rootfs overlay rw 0 0\ntmpfs /run/a/rootfs/tmp tmpfs rw 0 0\nproc /proc proc rw 0 0\n"

unmount_order_run :
    unmount_order (codes "/run/a/rootfs") mounts
    ≡ codes "/run/a/rootfs/tmp" ∷ codes "/run/a/rootfs" ∷ []
unfolding unmount_order keep split is_prefix components text_eq
unmount_order_run = refl

unmount_order-IsDescending_example :
    IsDescending (unmount_order (codes "/run/a/rootfs") mounts)
    × Perm
        (unmount_order (codes "/run/a/rootfs") mounts)
        (keep (λ p. is_below (codes "/run/a/rootfs") p) (mount_points (split b'\n' mounts)))
unmount_order-IsDescending_example = unmount_order-IsDescending (codes "/run/a/rootfs") mounts

-- The world is the number of requests.
abbrev counted : ℕ → ℕ × Outcome Text (Unit {0})
counted w = (w + 1, ok tt)

abbrev api : Api ℕ
api = record {
  connect = λ socket. counted;
  parses = λ t. true;
  now = λ w. 0;
  format_rfc3339 = λ t. codes "2024";
  lease_create = λ m labels w. (w + 1, ok (some (codes "lease")));
  lease_delete = λ m id sync. counted;
  read = λ m digest w. (w, ok []);
  image_get = λ m name w. (w, ok none);
  parse_manifest = λ bytes. ok (codes "config");
  parse_config = λ bytes. ok (record { diff_ids = []; config = none });
  spec_to_vec = λ spec. [];
  prepare = λ m key parent snapshotter w. (w, ok []);
  container_create = λ m c. counted;
  container_delete = λ m id. counted;
  task_create = λ m id mounts stdout. counted;
  task_start = λ m id. counted;
  task_wait = λ m id. counted;
  task_kill = λ m id signal all. counted;
  task_delete = λ m id. counted;
}

abbrev files : Files ℕ
files = record {
  canonicalize = λ p w. (w, ok p);
  symlink = λ original link. counted;
  remove_file = λ p. counted;
}

abbrev echo : Task
echo = record {
  containerd = record { namespace = codes "default"; lease = codes "lease" };
  runtime = codes "io.containerd.runwasi7.v1";
  id = codes "task";
  image = codes "demo";
  mounts = [];
  spec = record {
    version = codes "1.1.0";
    process = record { args = codes "echo" ∷ []; cwd = codes "/" };
    annotations = [];
    root = codes "rootfs";
  };
}

abbrev fresh : TaskState ℕ
fresh = record { world = 0; deleted = false; unmounted = false }

life_run :
    life api files 7 echo false fresh
    ≡ (record { world = 7; deleted = true; unmounted = true }, ok tt)
unfolding life
life_run = refl
