-- ===== src/StressTest/Client.antt =====
-- crates/stress-test/src/containerd/client.rs: the client of containerd that the stress test uses. The
-- generated clients that it calls are the record `Api`, where each call takes the headers of its request.
pub mod Reading
pub mod Leases
use containerd_wasm.Base.{
  ℕ, ◌+◌, ◌==◌, Text, codes, ◌++◌, Option, none, some, List, [], ◌∷◌, Bool, true, false,
  if◌then◌else◌, Outcome, map_ok, ok, err, panic, ok_or, Exec, ◌>>=◌, ◌>>◌, pure, fail, lift, gets,
  ignore, is_empty, join, length,
}

pub record Mount : Type 0 where
  pub mount_type : Text
  pub source : Text
  pub target : Text
  pub options : List Text

-- A message of the stream that `read` answers with.
pub record Chunk : Type 0 where
  pub offset : ℕ
  pub bytes : List ℕ

-- What the program reads of an image's configuration.
pub record ImageConfiguration : Type 0 where
  pub diff_ids : List Text
  -- The entry point, in a configuration that may be missing.
  pub config : Option (Option (List Text))

pub record Process : Type 0 where
  pub args : List Text
  pub cwd : Text

pub record Spec : Type 0 where
  pub version : Text
  pub process : Process
  pub annotations : List (Text × Text)
  pub root : Text

pub record Container : Type 0 where
  pub id : Text
  pub image : Text
  pub runtime : Text
  pub spec_type : Text
  pub spec : List ℕ

abbrev pub Metadata : Type 0
Metadata = List (Text × Text)

pub record Api (W : Type 0) : Type 0 where
  pub connect : Text → Exec W Text (Unit {0})
  -- A value that may stand in a header.
  pub parses : Text → Bool
  pub now : W → ℕ
  pub format_rfc3339 : ℕ → Text
  pub lease_create : Metadata → List (Text × Text) → Exec W Text (Option Text)
  pub lease_delete : Metadata → Text → Bool → Exec W Text (Unit {0})
  pub read : Metadata → Text → Exec W Text (List (Outcome Text Chunk))
  -- The image with the digest of its descriptor, where there are such.
  pub image_get : Metadata → Text → Exec W Text (Option (Option Text))
  -- The digest of the configuration that a manifest names.
  pub parse_manifest : List ℕ → Outcome Text Text
  pub parse_config : List ℕ → Outcome Text ImageConfiguration
  pub spec_to_vec : Spec → List ℕ
  -- The key, the parent and the snapshotter.
  pub prepare : Metadata → Text → Text → Text → Exec W Text (List Mount)
  pub container_create : Metadata → Container → Exec W Text (Unit {0})
  pub container_delete : Metadata → Text → Exec W Text (Unit {0})
  -- The container, its root file system and its standard output.
  pub task_create : Metadata → Text → List Mount → Text → Exec W Text (Unit {0})
  pub task_start : Metadata → Text → Exec W Text (Unit {0})
  pub task_wait : Metadata → Text → Exec W Text (Unit {0})
  -- The container, the signal, and whether all its processes are meant.
  pub task_kill : Metadata → Text → ℕ → Bool → Exec W Text (Unit {0})
  pub task_delete : Metadata → Text → Exec W Text (Unit {0})

pub record ClientInner : Type 0 where
  pub namespace : Text
  pub lease : Text

-- The loop of `read_content`, over the messages of the stream.
unfoldable pub append_chunks : List (Outcome Text Chunk) → List ℕ → Outcome Text (List ℕ)
append_chunks [] bytes = ok bytes
append_chunks (err e ∷ messages) bytes = err e
append_chunks (panic ∷ messages) bytes = panic
append_chunks (ok content ∷ messages) bytes =
    let rest = append_chunks messages (bytes ++ content.bytes) in
    if content.offset == length bytes then rest else err (codes "bad offset!")

-- `lease.is_empty()` decides on the second header.
abbrev header : Bool → Text → Outcome Text Text
header true value = ok value
header false value = panic

module _ {W : Type 0} (api : Api W) where
  abbrev pub lease_header : Text → Outcome Text Metadata
  lease_header [] = ok []
  lease_header (a ∷ lease) =
      map_ok (λ value. (codes "containerd-lease", value) ∷ [])
        (header (api.parses (a ∷ lease)) (a ∷ lease))

  unfoldable pub with_metadata : ClientInner → Exec W Text Metadata
  with_metadata c = do
    namespace ← lift (header (api.parses c.namespace) c.namespace)
    lease ← lift (lease_header c.lease)
    pure ((codes "containerd-namespace", namespace) ∷ lease)

  unfoldable pub connect_inner : Text → Text → Exec W Text ClientInner
  connect_inner socket namespace = do
    api.connect socket
    pure (record { namespace = namespace; lease = [] })

  unfoldable pub with_lease : ClientInner → Exec W Text ClientInner
  unfolding with_metadata
  with_lease c = do
    now ← gets api.now
    request ← with_metadata c
    response ←
        api.lease_create request
          ((codes "containerd.io/gc.expire", api.format_rfc3339 (now + 86400)) ∷ [])
    lease ← lift (ok_or response (codes "creating lease"))
    pure (record c { lease = lease })

  -- `take` empties the lease before the request is made.
  unfoldable pub drop_lease : Exec (W × ClientInner) Text (Unit {0})
  unfolding with_metadata
  drop_lease (w, c) =
      if is_empty c.lease
      then ((w, c), ok tt)
      else (let c' : ClientInner = record c { lease = [] } in
          let (w', r) = (do request ← with_metadata c'; api.lease_delete request c.lease false) w in
          ((w', c'), r))

  -- `Drop for ClientInner`.
  unfoldable pub drop : W → ClientInner → W
  unfolding drop_lease
  drop w c = (drop_lease (w, c)).0.0

  unfoldable pub read_content : ClientInner → Text → Exec W Text (List ℕ)
  unfolding with_metadata append_chunks
  read_content c digest = do
    request ← with_metadata c
    response ← api.read request digest
    lift (append_chunks response [])

  unfoldable pub image_config : ClientInner → Text → Exec W Text ImageConfiguration
  unfolding with_metadata read_content
  image_config c image = do
    request ← with_metadata c
    response ← api.image_get request image
    found ← lift (ok_or response (codes "Could not find image"))
    descriptor ← lift (ok_or found (codes "Could not find image descriptor"))
    manifest_bytes ← read_content c descriptor
    config_digest ← lift (api.parse_manifest manifest_bytes)
    config_bytes ← read_content c config_digest
    lift (api.parse_config config_bytes)

  unfoldable pub snapshot : ClientInner → Text → List Text → Exec W Text (List Mount)
  unfolding with_metadata
  snapshot c id diffs = do
    request ← with_metadata c
    api.prepare request id (join (codes " ") diffs) (codes "overlayfs")

  unfoldable pub create_container : ClientInner → Text → Text → Text → Spec → Exec W Text (Unit {0})
  unfolding with_metadata
  create_container c id image runtime spec = do
    request ← with_metadata c
    api.container_create request (record {
      id = id;
      image = image;
      runtime = runtime;
      spec_type = codes "types.containerd.io/opencontainers/runtime-spec/1/Spec";
      spec = api.spec_to_vec spec;
    })

  unfoldable pub create_task : ClientInner → Text → List Mount → Text → Exec W Text (Unit {0})
  unfolding with_metadata
  create_task c container_id mounts stdout = do
    request ← with_metadata c
    api.task_create request container_id mounts stdout

  unfoldable pub start_task : ClientInner → Text → Exec W Text (Unit {0})
  unfolding with_metadata
  start_task c container_id = do request ← with_metadata c; api.task_start request container_id

  unfoldable pub wait_task : ClientInner → Text → Exec W Text (Unit {0})
  unfolding with_metadata
  wait_task c container_id = do request ← with_metadata c; api.task_wait request container_id

  -- SIGKILL, to all processes.
  unfoldable pub kill_task : ClientInner → Text → Exec W Text (Unit {0})
  unfolding with_metadata
  kill_task c container_id = do request ← with_metadata c; api.task_kill request container_id 9 true

  unfoldable pub delete_task : ClientInner → Text → Exec W Text (Unit {0})
  unfolding with_metadata
  delete_task c container_id = do request ← with_metadata c; api.task_delete request container_id

  unfoldable pub delete_container : ClientInner → Text → Exec W Text (Unit {0})
  unfolding with_metadata
  delete_container c id = do request ← with_metadata c; api.container_delete request id

  -- The client without a lease is dropped, which does nothing.
  unfoldable pub connect : Text → Text → Exec W Text ClientInner
  unfolding connect_inner with_lease
  connect socket namespace = do inner ← connect_inner socket namespace; with_lease inner

  unfoldable pub default : Exec W Text ClientInner
  unfolding connect
  default = connect (codes "/run/containerd/containerd.sock") (codes "default")

  unfoldable pub get_mounts : ClientInner → Text → Text → Exec W Text (List Mount)
  unfolding image_config snapshot
  get_mounts c id image = do config ← image_config c image; snapshot c id config.diff_ids

  abbrev entrypoint_of : Option (Option (List Text)) → List Text
  entrypoint_of none = []
  entrypoint_of (some none) = []
  entrypoint_of (some (some entrypoint)) = entrypoint

  unfoldable pub entrypoint : ClientInner → Text → Exec W Text (List Text)
  unfolding image_config
  entrypoint c image = do config ← image_config c image; pure (entrypoint_of config.config)
