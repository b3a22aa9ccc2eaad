-- ===== src/Shim/Local/Registry/Creation.antt =====
-- `task_create` of local.rs against the registry.
use containerd_wasm.Base.{
  gets, List, pure, modify, ◌>>=◌, ◌>>◌, Text, ◌≡◌, refl, ap, fun_ext, some, [], ◌∷◌, ◌++◌, arith,
  length, is_some, get_elem?-append, get_elem?-append_last, text_eq, Option-cases, Bool-cases, inl,
  inr,
}
use containerd_wasm.Base.Dict
use containerd_wasm.Sandbox.Config
use containerd_wasm.Sandbox.Oci
use containerd_wasm.Sandbox.Oci.{Spec}
use containerd_wasm.Shim.InstanceData
use containerd_wasm.Shim.InstanceData.{InstanceData}
use containerd_wasm.Shim.Api.{Mount, CreateTaskRequest, Event, Response}
use containerd_wasm.Shim.Local.{
  Host, Local, Handler, config_for, insert_instance, send, on_world, none_if_empty, mount_all,
  prepare, task_create, instance_config,
}
use containerd_wasm.Shim.Local.Valid.{IsValid}
use containerd_wasm.Shim.Local.Registry
use containerd_wasm.Shim.Local.Registry.{view, update, deref, mounts, setup}
use containerd_wasm.Shim.Local.Registry.Methods.{Agrees, known, continue-Agrees}

module _ {W S : Type 0} where
  insert-view :
      (id : Text) (d : InstanceData S) (l : Local W S)
      → IsValid l
      → view (record l {
        heap = l.heap ++ d ∷ [];
        instances = Dict.put id (length l.heap) l.instances;
      })
        ≡ record (view l) { task = update id (some d) (view l).task }
  unfolding view
  insert-view id d l v =
      ap (λ t. record (view l) { task = t })
        (fun_ext (λ id'.
          let put = Dict.get-put id' id (length l.heap) l.instances in
          elim (Bool-cases (text_eq id id')) [
            | inl t ↦ ground (arith, get_elem?-append_last l.heap d)
            | inr t ↦ elim (Option-cases (Dict.get id' l.instances)) [
              | inl e ↦ ground arith
              | inr (k, e) ↦
                  let (d', x) = known l id' k v e in
                  ground (arith, get_elem?-append l.heap (d ∷ []) k x)
            ]
          ]))

  is_some-task :
      (id : Text) (l : Local W S)
      → IsValid l
      → is_some ((view l).task id) ≡ is_some (Dict.get id l.instances)
  unfolding view
  is_some-task id l v = elim (Option-cases (Dict.get id l.instances)) [
    | inl e ↦ ground arith
    | inr (h, e) ↦ let (d, x) = known l id h v e in ground arith
  ]

module _ {W S : Type 0} (host : Host W S) where
  mount_all-mounts :
      (rootfs : Text) (ms : List Mount) (l : Local W S)
      → mount_all host rootfs ms l
        ≡ (let (w, r) = mounts host rootfs ms l.world in (record l { world = w }, r))
  unfolding mount_all mounts
  mount_all-mounts rootfs [] l = refl
  mount_all-mounts rootfs (m ∷ ms) l = ground (
    arith,
    mount_all-mounts rootfs ms (record l {
      world =
          (host.mount_rootfs (none_if_empty m.mount_type) (none_if_empty m.source) m.options rootfs
            l.world).0;
    }),
  )

  prepare-setup :
      (req : CreateTaskRequest) (l : Local W S)
      → prepare host req l ≡ (
          let (w, r) = setup host req (is_some (Dict.get req.id l.instances)) l.world in
          (record l { world = w }, r))
  unfolding prepare setup
  prepare-setup req l = grind (arith, mount_all-mounts)

  -- What is left of a create when there is an instance.
  rest_of_create : CreateTaskRequest → Spec → InstanceData S → Handler W S Response
  rest_of_create req spec d = do
    insert_instance req.id d
    send (Event.task_create req.id req.bundle req.rootfs req.stdin req.stdout req.stderr)
    on_world (Oci.setup_prestart_hooks host.processes spec.hooks)
    pure (Response.created host.processes.id)

  rest_of_registration : CreateTaskRequest → Spec → InstanceData S → Registry.Action W S Response
  rest_of_registration req spec d = do
    modify (λ s.
        Registry.announce
          (Event.task_create req.id req.bundle req.rootfs req.stdin req.stdout req.stderr)
          (record s { task = update req.id (some d) s.task }))
    Registry.outside (Oci.setup_prestart_hooks host.processes spec.hooks)
    pure (Response.created host.processes.id)

  rest-Agrees :
      (req : CreateTaskRequest) (spec : Spec) (d : InstanceData S) (l : Local W S)
      → IsValid l
      → Agrees (rest_of_create req spec d) (rest_of_registration req spec d) l
  unfolding rest_of_create rest_of_registration view
  rest-Agrees req spec d l v =
      let o = Oci.setup_prestart_hooks host.processes spec.hooks l.world in
      continue-Agrees (λ u. pure (Response.created host.processes.id))
        (λ u. pure (Response.created host.processes.id)) o.1 _ _
        (ap
          (λ s.
            record (Registry.announce
              (Event.task_create req.id req.bundle req.rootfs req.stdin req.stdout req.stderr) s) {
                world = o.0;
              })
          (insert-view req.id d l v))
        (λ u. (refl, refl))

  world-IsValid : (l : Local W S) (w : W) → IsValid l → IsValid (record l { world = w })
  world-IsValid l w v = record {
    mapped = v.mapped;
    distinct = v.distinct;
    waiting = v.waiting;
    exits = v.exits;
  }

  -- From the preparation on.
  registration-Agrees :
      (req : CreateTaskRequest) (spec : Spec) (l : Local W S)
      → IsValid l
      → Agrees
          (do
            cfg ← gets (λ l'. config_for req (instance_config l'))
            d ← on_world (InstanceData.new host.runtime req.id cfg)
            rest_of_create req spec d)
          (do
            cfg ← gets (λ s. config_for req (Config.new s.namespace s.containerd_address))
            d ← Registry.outside (InstanceData.new host.runtime req.id cfg)
            rest_of_registration req spec d)
          l
  unfolding instance_config view
  registration-Agrees req spec l v =
      let o = InstanceData.new host.runtime req.id (config_for req (instance_config l)) l.world in
      continue-Agrees (rest_of_create req spec) (rest_of_registration req spec) o.1
        (record l { world = o.0 }) _ refl
        (λ d. rest-Agrees req spec d (record l { world = o.0 }) (world-IsValid l o.0 v))

  pub create-Agrees :
      (req : CreateTaskRequest) (l : Local W S)
      → IsValid l
      → Agrees (task_create host req) (Registry.create host req) l
  unfolding task_create Registry.create rest_of_create rest_of_registration view
  create-Agrees req l v =
      let o = setup host req (is_some (Dict.get req.id l.instances)) l.world in
      rw (prepare-setup req l, is_some-task req.id l v)
        (continue-Agrees _ _ o.1 (record l { world = o.0 }) _ refl
          (λ spec. registration-Agrees req spec (record l { world = o.0 }) (world-IsValid l o.0 v)))
