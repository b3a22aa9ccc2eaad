-- ===== src/Shim/Local/Create.antt =====
-- `task_create` of local.rs on its branches: what it registers, and what a failure leaves behind.
use containerd_wasm.Base.{
  Text, ◌++◌, ◌≡◌, refl, ◌⊎◌, inl, inr, none, some, List, [], ◌∷◌, false, Outcome, ok, err, panic,
  Outcome-cases, arith, length,
}
use containerd_wasm.Base.Dict
use containerd_wasm.Sandbox.Error.{Error}
use containerd_wasm.Sandbox.Oci
use containerd_wasm.Sandbox.Oci.{Spec}
use containerd_wasm.Sandbox.Oci.Prestart.{setup_prestart_hooks-no_prestart}
use containerd_wasm.Shim.TaskState.{created}
use containerd_wasm.Shim.Api.{Mount, CreateTaskRequest, Response, Event}
use containerd_wasm.Shim.Local.{
  Host, Local, none_if_empty, instance_config, config_for, mount_all, prepare, register,
  task_create,
}

-- The event that a created task is announced with.
abbrev pub announcement : CreateTaskRequest → Event
announcement req = Event.task_create req.id req.bundle req.rootfs req.stdin req.stdout req.stderr

module _ {W S : Type 0} where
  -- What a service has once the task of a request is registered.
  pub record HasRegistered (req : CreateTaskRequest) (l l' : Local W S) : Type 0 where
    pub instances : l'.instances ≡ Dict.put req.id (length l.heap) l.instances
    pub events : l'.events ≡ l.events ++ announcement req ∷ []
    pub waiters : l'.waiters ≡ l.waiters
    pub fresh :
        (i : S) × (l'.heap
          ≡ l.heap
            ++ record {
              instance = i;
              cfg = config_for req (instance_config l);
              pid = none;
              state = created;
              poisoned = false;
            }
              ∷ [])

  -- The same, under an id that was free.
  abbrev pub IsRegistered : CreateTaskRequest → Local W S → Local W S → Type 0
  IsRegistered req l l' = (Dict.get req.id l.instances ≡ none) × HasRegistered req l l'

  -- What a service is like where a request has registered nothing: it is as it was, but for the
  -- outside world.
  abbrev pub IsUntouched : Local W S → Local W S → Type 0
  IsUntouched l l' = l' ≡ record l { world = l'.world }

module _ {W S : Type 0} (host : Host W S) where
  mount_all-world :
      (rootfs : Text) (ms : List Mount) (l : Local W S)
      → (mount_all host rootfs ms l).0 ≡ record l { world = (mount_all host rootfs ms l).0.world }
  unfolding mount_all
  mount_all-world rootfs [] l = refl
  mount_all-world rootfs (m ∷ ms) l = ground (
    arith,
    mount_all-world rootfs ms (record l {
      world =
          (host.mount_rootfs (none_if_empty m.mount_type) (none_if_empty m.source) m.options rootfs
            l.world).0;
    }),
  )

  -- Preparing touches the outside world alone.
  pub prepare-world :
      (req : CreateTaskRequest) (l : Local W S)
      → (prepare host req l).0 ≡ record l { world = (prepare host req l).0.world }
  unfolding prepare
  prepare-world req l = grind (arith, mount_all-world)

  -- What a successful preparation has checked.
  prepare-ok :
      (req : CreateTaskRequest) (l : Local W S) (spec : Spec)
      → (prepare host req l).1 ≡ ok spec
      → (req.checkpoint ≡ [])
        × (req.parent_checkpoint ≡ [])
        × (req.terminal ≡ false)
        × (Dict.get req.id l.instances ≡ none)
  unfolding prepare
  prepare-ok req l spec h = ground arith

  -- What the runtime answers when it is asked for the instance.
  abbrev pub made : CreateTaskRequest → Local W S → W × Outcome Error S
  made req l =
      host.runtime.new req.id (config_for req (instance_config l)) (prepare host req l).0.world

  -- What the runtime answers to a registration that starts here.
  abbrev pub made_at : CreateTaskRequest → Local W S → W × Outcome Error S
  made_at req l = host.runtime.new req.id (config_for req (instance_config l)) l.world

  -- A registration does not look at the map.
  pub register-HasRegistered :
      (req : CreateTaskRequest) (spec : Spec) (l : Local W S) {i : S}
      → (made_at req l).1 ≡ ok i
      → HasRegistered req l (register host req spec l).0
  unfolding register
  register-HasRegistered req spec l {i} f = record {
    instances = ground arith;
    events = ground arith;
    waiters = ground arith;
    fresh = (i, ground arith);
  }

  pub register_cases :
      (req : CreateTaskRequest) (spec : Spec) (l : Local W S)
      → IsUntouched l (register host req spec l).0
        ⊎ HasRegistered req l (register host req spec l).0
  unfolding register
  register_cases req spec l = elim (Outcome-cases (made_at req l).1) [
    | inl (i, f) ↦ inr (register-HasRegistered req spec l f)
    | inr f ↦ inl (ground arith)
  ]

  registered :
      (req : CreateTaskRequest) (l : Local W S) {spec : Spec} {i : S}
      → (prepare host req l).1 ≡ ok spec
      → (made req l).1 ≡ ok i
      → IsRegistered req l (task_create host req l).0
  unfolding task_create
  registered req l {i = i} e f = (
    (prepare-ok req l _ e).3,
    record {
      instances = ground (arith, prepare-world req l);
      events = ground (arith, prepare-world req l);
      waiters = ground (arith, prepare-world req l);
      fresh = (i, ground (arith, prepare-world req l));
    },
  )

  -- A successful `task_create` has registered a fresh task under an id that was free, has announced
  -- it, and has not touched the other tasks.
  pub task_create-ok :
      (req : CreateTaskRequest) (l : Local W S) {r : Response}
      → (task_create host req l).1 ≡ ok r
      → IsRegistered req l (task_create host req l).0
  unfolding task_create
  task_create-ok req l h = elim (Outcome-cases (prepare host req l).1) [
    | inl (spec, e) ↦ elim (Outcome-cases (made req l).1) [
      | inl (i, f) ↦ registered req l e f
      | inr f ↦ absurd (ground (arith, prepare-world req l))
    ]
    | inr e ↦ absurd (ground arith)
  ]

  -- A `task_create` that fails has registered nothing, or it has registered and announced the task
  -- and then a prestart hook failed.
  pub task_create-err :
      (req : CreateTaskRequest) (l : Local W S) {e : Error}
      → (task_create host req l).1 ≡ err e
      → IsUntouched l (task_create host req l).0
        ⊎ (IsRegistered req l (task_create host req l).0
            × ((spec : Spec) × (w : W) × ((Oci.setup_prestart_hooks host.processes spec.hooks w).1
                  ≡ err e)))
  unfolding task_create
  task_create-err req l h = elim (Outcome-cases (prepare host req l).1) [
    | inl (spec, e) ↦ elim (Outcome-cases (made req l).1) [
      | inl (i, f) ↦
          inr (registered req l e f, (spec, (made req l).0, ground (arith, prepare-world req l)))
      | inr f ↦ inl (ground (arith, prepare-world req l))
    ]
    | inr e ↦ inl (ground (arith, prepare-world req l))
  ]

  -- Whatever `task_create` answers, it has registered the task or nothing.
  pub task_create_cases :
      (req : CreateTaskRequest) (l : Local W S)
      → IsUntouched l (task_create host req l).0 ⊎ IsRegistered req l (task_create host req l).0
  unfolding task_create
  task_create_cases req l = elim (Outcome-cases (prepare host req l).1) [
    | inl (spec, e) ↦ elim (Outcome-cases (made req l).1) [
      | inl (i, f) ↦ inr (registered req l e f)
      | inr f ↦ inl (ground (arith, prepare-world req l))
    ]
    | inr e ↦ inl (ground (arith, prepare-world req l))
  ]

  -- A spec that has hooks but no list of prestart hooks makes `task_create` panic, after the task
  -- is registered and announced.
  pub task_create-no_prestart :
      (req : CreateTaskRequest) (l : Local W S) (spec : Spec) (hooks : Oci.Hooks) (i : S)
      → (prepare host req l).1 ≡ ok spec
      → (made req l).1 ≡ ok i
      → spec.hooks ≡ some hooks
      → hooks.prestart ≡ none
      → IsRegistered req l (task_create host req l).0 × ((task_create host req l).1 ≡ panic)
  unfolding task_create
  task_create-no_prestart req l spec hooks i e f g n = (
    registered req l e f,
    ground (
      arith,
      prepare-world req l,
      setup_prestart_hooks-no_prestart host.processes hooks (made req l).0 n,
    ),
  )
