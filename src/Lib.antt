-- ===== src/Lib.antt =====
-- runwasi: shims that let containerd run WebAssembly, with the tools beside them.
--
-- Parts and their files. A repository path begins with crates/containerd-shim-wasm/src, unless it
-- names another crate.
--   Shim: sandbox/shim. Local models local.rs: the record `Local` has the map of tasks, a heap of their
--     data (the map holds references, which threads share), the events that were sent, the threads
--     that wait, and the exit signal; a handler `task_create` of the model is `Local::task_create`, and
--     `handle` is the ttrpc service. InstanceData models instance_data.rs, TaskState models
--     task_state.rs, Api the messages, Cli cli.rs, Main
--     `shim_main` of sandbox/cli.rs. Local/Steps has the steps of the service: a
--     request, a waiting thread that goes on, and a change of the world outside. Local/Registry is the
--     specification: a function from ids to tasks, which every handler refines. Local/Races splits
--     `task_create` at its two accesses to the map of tasks, and interleaves threads that are in it. Local/Counts
--     counts what a step announces.
--   Sandbox: error.rs, instance.rs (Instance, Config), sync.rs (Sync), oci.rs (Oci) and
--     instance_utils.rs (RootDir) of sandbox. A wait on a cell is run against a schedule of wake-ups.
--   Containerd: sandbox/containerd. Write models `save_content` of client.rs, Lease the guard
--     of lease.rs, Client models `load_modules` with the cache of compiled content. The services that
--     client.rs calls are the record `Services` of functions on an outside world. What containerd promises
--     of labels and of content is in Client/Loading (`KeepsLabels`) and Client/Keeping (`KeepsContent`).
--   Container: container (Files is path.rs, Context context.rs, Engine `can_handle` of engine.rs) and
--     sys/unix/container (Executor is executor.rs, Unix is instance.rs and container.rs).
--   Wasmtime: crates/containerd-shim-wasmtime/src. Compile has `from_bytes` of container/wasm.rs and
--     `precompile` of instance.rs, Execute what runs a module or a component and what a signal does to
--     it, HttpProxy the server of http_proxy.rs.
--   Engines: `run_wasi` in src/instance.rs of crates/containerd-shim-wasmer, -wasmedge and -wamr.
--   Otel: sandbox/shim/otel.rs, its settings and the trace that is handed on.
--   TarBuilder: crates/oci-tar-builder/src/lib.rs, where `State` is the archive with the locals of
--     `build`; Image and Command are bin.rs.
--   StressTest: crates/stress-test/src: main.rs and utils.rs; Run has the tasks of main.rs, which meet
--     at a barrier and share permits, as moves in any order. Client is containerd/client.rs, Tasks the rest
--     of containerd, Mocks the directory mocks.
--   Base: texts as lists of bytes, numbers in decimal, paths, maps, results, and methods that change a
--     state and may fail. Tests: the theorems at concrete inputs.
--
-- How they interact. The task service runs an `Instance`; Container/Unix implements one, loads its
-- layers by Containerd/Client and hands them to the Executor, which asks an engine. Wasmtime is one
-- such engine; its `precompile` is called by Containerd/Client.
--
-- State and errors. A method is a function from a state to a state and an outcome, which is a value, an
-- error or a panic; what was changed before an error stays changed. A handler of the task service is one
-- step: requests, waiting threads and the world outside are interleaved in any order, but not inside a
-- handler, except for creates (Local/Races). An operation on a `WaitableCell` is one step, as its mutex makes it.
-- A panic while the lock of a task's state is held poisons it, and later uses of the lock panic.
--
-- Bounds and fuel. The loop of `save_content` has one round more than there are bytes; each round sends
-- at least one byte. Numbers are printed with at most 20 digits, enough for 64 bits. The counters of
-- requests and of task ids wrap at 2^64. Lengths of content are below 2^63, as an `i64` holds them.
--
-- Not modelled: log lines; the code of other crates (youki, wasmtime, containerd's client, JSON, tokio),
-- which are parameters; Windows, whose bodies are `todo!()`; the flags of the shim's command line,
-- `reap_children` of the stress test, and what only tests use.
pub mod Base
pub mod Sandbox
pub mod Shim
pub mod Containerd
pub mod Container
pub mod Wasmtime
pub mod Engines
pub mod Otel
pub mod TarBuilder
pub mod StressTest
pub mod Tests
