-- ===== src/Shim/Api.antt =====
-- The requests, responses and events of the task service, by the fields that
-- crates/containerd-shim-wasm/src/sandbox/shim/local.rs reads and fills in.
use containerd_wasm.Base.{ℕ, Text, Option, List, Bool}
use containerd_wasm.Sandbox.Instance.{DateTime}

pub record Mount : Type 0 where
  pub mount_type : Text
  pub source : Text
  pub options : List Text

pub record CreateTaskRequest : Type 0 where
  pub id : Text
  pub bundle : Text
  pub rootfs : List Mount
  pub terminal : Bool
  pub stdin : Text
  pub stdout : Text
  pub stderr : Text
  pub checkpoint : Text
  pub parent_checkpoint : Text

-- `StartRequest`, `DeleteRequest`, `WaitRequest` and `StateRequest` have the same fields.
pub record ExecRequest : Type 0 where
  pub id : Text
  pub exec_id : Text

pub record KillRequest : Type 0 where
  pub id : Text
  pub exec_id : Text
  pub signal : ℕ

pub data Request : Type 0 where
  create : CreateTaskRequest → Request
  start delete wait state : ExecRequest → Request
  kill : KillRequest → Request
  -- By the id alone.
  stats connect : Text → Request
  shutdown : Request

pub data Status : Type 0 where
  created running stopped : Status

-- `google.protobuf.Timestamp`.
pub record Timestamp : Type 0 where
  pub seconds : ℕ
  pub nanos : ℕ

-- `ToTimestamp`. Nanoseconds are below 2 * 10^9, so the cast to `i32` keeps them.
unfoldable pub to_timestamp : DateTime → Timestamp
to_timestamp t = record { seconds = t.timestamp; nanos = t.timestamp_subsec_nanos }

pub record StateResponse : Type 0 where
  pub bundle : Text
  pub stdin : Text
  pub stdout : Text
  pub stderr : Text
  pub pid : ℕ
  pub exit_status : ℕ
  pub exited_at : Option Timestamp
  pub status : Status

pub data Response : Type 0 where
  empty : Response
  created : ℕ → Response
  started : ℕ → Response
  deleted : ℕ → ℕ → Option Timestamp → Response
  waited : ℕ → Option Timestamp → Response
  state : StateResponse → Response
  stats : Text → Response
  connected : ℕ → ℕ → Response

pub data Event : Type 0 where
  -- Container, bundle, root file system, and the three streams.
  task_create : Text → Text → List Mount → Text → Text → Text → Event
  -- Container and process.
  task_start : Text → ℕ → Event
  -- Container, exit status, time of the exit, process, and the id of the task.
  task_exit : Text → ℕ → Option Timestamp → ℕ → Text → Event
  -- Container, process, exit status and time of the exit.
  task_delete : Text → ℕ → ℕ → Option Timestamp → Event
