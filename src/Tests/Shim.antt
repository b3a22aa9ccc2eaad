-- ===== src/Tests/Shim.antt =====
-- The task service of crates/containerd-shim-wasm/src/sandbox/shim over the runtime of the fixture.
use containerd_wasm.Base.{
  ℕ, Text, codes, ◌≡◌, ◌≤◌, ◌≢◌, refl, inl, ◌⊎◌, ◌↔◌, Option, none, some, List, [], ◌∷◌, true,
  false, ok, err, panic, text_eq,
}
use containerd_wasm.Base.Dict
use containerd_wasm.Sandbox.Error.{Error, failed_precondition}
use containerd_wasm.Sandbox.Oci
use containerd_wasm.Sandbox.Config
use containerd_wasm.Shim.TaskState.{
  TaskState, created, started, exited, apply, apply_diagram, Edge, kills,
}
use containerd_wasm.Shim.InstanceData.{InstanceData}
use containerd_wasm.Shim.InstanceData
use containerd_wasm.Shim.InstanceData.Lifecycle
use containerd_wasm.Shim.InstanceData.Lifecycle.{
  after_all-IsValid, after_all-HasEnded, after_all, HasEnded,
}
use containerd_wasm.Shim.Api.{
  CreateTaskRequest, ExecRequest, Request, Response, Event, to_timestamp,
}
use containerd_wasm.Shim.Local.{
  Host, Local, wait_thread, new, task_create, task_delete, task_start, get_instance, shutdown,
  handle, prepare,
}
use containerd_wasm.Shim.Local.Create.{
  IsRegistered, IsUntouched, task_create-ok, task_create-err, task_create-no_prestart,
}
use containerd_wasm.Shim.Local.Answers.{task_delete-gone}
use containerd_wasm.Shim.Local.Steps.{Action, requests, resumes, elsewhere, step, run}
use containerd_wasm.Shim.Local.Valid.{IsValid}
use containerd_wasm.Shim.Local.Invariant.{run-IsValid}
use containerd_wasm.Shim.Local.Counts.{sum, exits, starts, waits}
use containerd_wasm.Shim.Local.Once.{exits-starts, exits-waits}
use containerd_wasm.Shim.Local.Frame.{IsAt, handle_frame}
use containerd_wasm.Shim.Cli.{get_mem, mem_line, strip_prefix, trim_start}
use containerd_wasm.Base.{split, parse_nat}
use containerd_wasm.Sandbox.Instance.{Exit}
use containerd_wasm.Shim.Local.{Host}
use containerd_wasm.Base.{unwrap_or, map_some, ◌+◌, arith}
use containerd_wasm.Tests.Fixture.{noon, World, host, runtime, plain_spec}

abbrev pub web : CreateTaskRequest
web = record {
  id = codes "web";
  bundle = codes "/run/web";
  rootfs = [];
  terminal = false;
  stdin = [];
  stdout = codes "/out";
  stderr = [];
  checkpoint = [];
  parent_checkpoint = [];
}

abbrev pub at_web : ExecRequest
at_web = record { id = codes "web"; exec_id = [] }

abbrev pub idle : Local World ℕ
idle = record {
  world = none;
  heap = [];
  instances = [];
  events = [];
  waiters = [];
  exit_signalled = false;
  namespace = codes "k8s.io";
  containerd_address = codes "/run/containerd.sock";
}

abbrev pub task : TaskState → Option ℕ → InstanceData ℕ
task s p = record {
  instance = 7;
  cfg = record {
    stdin = [];
    stdout = codes "/out";
    stderr = [];
    bundle = codes "/run/web";
    namespace = codes "k8s.io";
    containerd_address = codes "/run/containerd.sock";
  };
  pid = p;
  state = s;
  poisoned = false;
}

abbrev pub busy : TaskState → Option ℕ → Local World ℕ
busy s p = record idle { heap = task s p ∷ []; instances = (codes "web", 0) ∷ [] }

-- create, start, the process exits with code 3, the waiting thread reports it, delete, shutdown.
abbrev whole_life : List (Action World)
whole_life =
    requests (Request.create web)
    ∷ requests (Request.start at_web)
    ∷ requests (Request.delete at_web)
    ∷ elsewhere (some 3)
    ∷ resumes 0
    ∷ requests (Request.delete at_web)
    ∷ requests Request.shutdown
    ∷ []

whole_life_events :
    let l = run host whole_life idle in
    (l.events
      ≡ Event.task_create (codes "web") (codes "/run/web") [] [] (codes "/out") []
        ∷ Event.task_start (codes "web") 42
        ∷ Event.task_exit
            (codes "web")
            3
            (some (record { seconds = 43200; nanos = 5 }))
            42
            (codes "web")
        ∷ Event.task_delete (codes "web") 42 3 (some (record { seconds = 43200; nanos = 5 }))
        ∷ [])
    × (l.instances ≡ [])
    × (l.exit_signalled ≡ true)
unfolding run step handle task_create prepare Oci.setup_prestart_hooks task_start task_delete
    shutdown wait_thread InstanceData.start InstanceData.wait InstanceData.delete
    InstanceData.wait_timeout Dict.get Dict.put Dict.remove text_eq to_timestamp
whole_life_events = (refl, refl, refl)

run-IsValid_example : IsValid (run host whole_life (new none (codes "k8s.io") (codes "a")))
run-IsValid_example = run-IsValid host whole_life none (codes "k8s.io") (codes "a")

exits-starts_example :
    sum
      (exits (codes "web") 42)
      (run host whole_life (new none (codes "k8s.io") (codes "a"))).events
    ≤ sum
        (starts (codes "web") 42)
        (run host whole_life (new none (codes "k8s.io") (codes "a"))).events
exits-starts_example =
    exits-starts host whole_life none (codes "k8s.io") (codes "a") (codes "web") 42

-- As `host`, where a wait without a timeout ends with the exit.
abbrev ended : Option ℕ → World → Option Exit
ended none w = some (unwrap_or w 0, noon)
ended (some t) w = map_some (λ code. (code, noon)) w

abbrev steady : Host World ℕ
steady = record host { runtime = record runtime { wait_timeout = λ i t w. (w, ended t w) } }

exits-waits_example :
    sum
        (exits (codes "web") 42)
        (run steady whole_life (new none (codes "k8s.io") (codes "a"))).events
      + sum
          (waits (codes "web") 42)
          (run steady whole_life (new none (codes "k8s.io") (codes "a"))).waiters
    ≡ sum
        (starts (codes "web") 42)
        (run steady whole_life (new none (codes "k8s.io") (codes "a"))).events
exits-waits_example =
    exits-waits steady (λ w. refl) (λ i w e. ground arith)
      (record {
        start = λ i w e. ground arith;
        kill = λ i signal w e. ground arith;
        delete = λ i w e. ground arith;
      })
      whole_life none (codes "k8s.io") (codes "a") (codes "web") 42

task_create-ok_example : IsRegistered web idle (task_create host web idle).0
task_create-ok_example =
    task_create-ok host web idle {r = Response.created 100}
      (unfold task_create prepare Dict.get Oci.setup_prestart_hooks in refl)

abbrev console : CreateTaskRequest
console = record web { terminal = true }

task_create-err_example :
    IsUntouched idle (task_create host console idle).0
    ⊎ (IsRegistered console idle (task_create host console idle).0
        × ((spec : Oci.Spec) × (w : World) × ((Oci.setup_prestart_hooks host.processes spec.hooks
                w).1
              ≡ err (Error.invalid_argument (codes "terminal is not supported")))))
task_create-err_example = task_create-err host console idle (unfold task_create prepare in refl)

-- A spec with hooks of other kinds only.
abbrev other_hooks : Oci.Hooks
other_hooks = record { prestart = none }

abbrev spec_with_other_hooks : Oci.Spec
spec_with_other_hooks = record plain_spec { hooks = some other_hooks }

abbrev host' : Host World ℕ
host' = record host { spec_load = λ path w. ok spec_with_other_hooks }

task_create-no_prestart_example :
    IsRegistered web idle (task_create host' web idle).0 × ((task_create host' web idle).1 ≡ panic)
task_create-no_prestart_example =
    task_create-no_prestart host' web idle spec_with_other_hooks other_hooks 7
      (unfold prepare Dict.get in refl) refl refl refl

task_delete-gone_example :
    let l' = (task_delete host at_web (busy exited (some 42))).0 in
    ((get_instance (codes "web") l').1 ≡ err (Error.not_found (codes "web")))
    × (text_eq (codes "web") (codes "db") ≡ false
        → Dict.get (codes "db") l'.instances
          ≡ Dict.get (codes "db") (busy exited (some 42)).instances)
task_delete-gone_example =
    task_delete-gone host at_web (busy exited (some 42)) {r = Response.deleted 42 0 none}
      (codes "db")
      (unfold task_delete InstanceData.delete InstanceData.wait_timeout Dict.get text_eq in refl)

abbrev calls : List Lifecycle.Call
calls = Lifecycle.starts ∷ Lifecycle.deletes ∷ Lifecycle.waits_for (some 0) ∷ []

after_all-IsValid_example : Lifecycle.IsValid (after_all runtime calls (none, task created none)).1
after_all-IsValid_example =
    after_all-IsValid runtime calls none (task created none) (λ i v. λ e. cc)
      (record {
        not_starting = λ e. cc;
        created_without_pid = λ e. refl;
        started_with_pid = λ e. cc;
      })

after_all-HasEnded_example :
    HasEnded (after_all runtime calls (none, task exited (some 42))).1.state
    × ((after_all runtime calls (none, task exited (some 42))).1.pid ≡ some 42)
after_all-HasEnded_example =
    after_all-HasEnded runtime calls none (task exited (some 42)) (inl refl)

apply_diagram_example :
    ((apply kills exited ≡ (started, ok tt)) ↔ Edge exited kills started)
    × ((apply kills exited).1 ≢ ok tt
        → ((apply kills exited).0 ≡ exited)
          × ((text : Text) × ((apply kills exited).1 ≡ err (failed_precondition text))))
apply_diagram_example = apply_diagram exited started kills

abbrev with_web : Local World ℕ
with_web =
    run host (requests (Request.create web) ∷ [])
      (new none (codes "k8s.io") (codes "/run/containerd.sock"))

abbrev pub at_db : ExecRequest
at_db = record { id = codes "db"; exec_id = [] }

handle_frame_example :
    IsAt (handle host (Request.delete at_db) with_web).0 (codes "web") 0 (task created none)
unfolding Oci.setup_prestart_hooks Config.set_stderr Config.set_stdout Config.set_stdin
    Config.set_bundle
handle_frame_example =
    handle_frame host (Request.delete at_db) with_web (codes "web") 0 (task created none)
      (run-IsValid host (requests (Request.create web) ∷ []) none (codes "k8s.io")
        (codes "/run/containerd.sock"))
      (λ e. cc)
      (unfold run step handle new task_create prepare Dict.get Dict.put text_eq in (refl, refl))

-- A status of a process, with the peaks in any order.
get_mem_run :
    get_mem (λ path. some (codes "Name:\tshim\nVmHWM:\t  12 kB\nVmPeak:\t 345 kB\n")) 7
    ≡ ok (12, 345)
unfolding get_mem mem_line strip_prefix trim_start split parse_nat
get_mem_run = refl
