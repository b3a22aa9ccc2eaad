-- ===== src/Tests/Services.antt =====
-- The task service of crates/containerd-shim-wasm/src/sandbox/shim seen from outside, and under
-- creates that run at the same time.
use containerd_wasm.Base.{
  zero, suc, get_elem?, Bool-cases, inr, ap, fun_ext, length, ◌<◌, arith, text_eq_iff, ℕ, Text,
  codes, ◌≡◌, ◌≢◌, refl, inl, none, some, List, [], ◌∷◌, ok, text_eq,
}
use containerd_wasm.Base.Dict
use containerd_wasm.Shim.TaskState.{started, exited}
use containerd_wasm.Shim.InstanceData.{InstanceData}
use containerd_wasm.Shim.Api.{CreateTaskRequest, Request, Response}
use containerd_wasm.Shim.Local.{Local, handle, prepare, instance_config}
use containerd_wasm.Shim.Local.Create.{announcement}
use containerd_wasm.Shim.Local.Steps.{serve}
use containerd_wasm.Shim.Local.Races.{
  asks, checked, answered, Race, advance, Reach, start, later, HasTask, AreApart, asking,
}
use containerd_wasm.Shim.Local.Races.Sound.{reach-HasTask}
use containerd_wasm.Shim.Local.Races.Lost.{task_create_lost}
use containerd_wasm.Shim.Local.Registry
use containerd_wasm.Shim.Local.Registry.{view}
use containerd_wasm.Shim.Local.Registry.Refinement.{serve-view}
use containerd_wasm.Shim.Local.Valid.{IsValid}
use containerd_wasm.Tests.Fixture.{World, host, plain_spec}
use containerd_wasm.Tests.Shim.{web, at_web, idle, task, busy, at_db}

-- The same task, at another place of the heap.
abbrev elsewhere_on_heap : Local World ℕ
elsewhere_on_heap = record idle {
  heap = task exited (some 9) ∷ task started (some 42) ∷ [];
  instances = (codes "web", 1) ∷ [];
}

one_task-IsValid :
    (heap : List (InstanceData ℕ)) (h : ℕ)
    → h < length heap
    → IsValid (record idle { heap = heap; instances = (codes "web", h) ∷ [] })
unfolding Dict.get
one_task-IsValid heap h bound = record {
  mapped = λ id k e. ground (arith, text_eq_iff (codes "web") id);
  distinct =
      λ id id' k e f. ground (arith, text_eq_iff (codes "web") id, text_eq_iff (codes "web") id');
  waiting = λ w m. elim m [ ];
  exits = λ id id' status p t m. elim m [ ];
}

abbrev questions : List Request
questions = Request.state at_web ∷ Request.delete at_db ∷ Request.delete at_web ∷ []

serve-view_example :
    let l = busy started (some 42) in
    ((serve (handle host) questions l).1 ≡ (serve (Registry.handle host) questions (view l)).1)
    × (view (serve (handle host) questions l).0
        ≡ (serve (Registry.handle host) questions (view l)).0)
serve-view_example =
    serve-view host questions (busy started (some 42)) (one_task-IsValid _ 0 (omega arith))

seen_alike : view (busy started (some 42)) ≡ view elsewhere_on_heap
unfolding view Dict.get
seen_alike =
    ap
      (λ t. record {
        world = none;
        task = t;
        events = [];
        namespace = codes "k8s.io";
        containerd_address = codes "/run/containerd.sock";
      })
      (fun_ext (λ id. elim (Bool-cases (text_eq (codes "web") id)) [
        | inl e ↦ ground arith
        | inr e ↦ ground arith
      ]))

abbrev db : CreateTaskRequest
db = record web { id = codes "db"; bundle = codes "/run/db" }

apart_pair : (a b : CreateTaskRequest) → a.id ≢ b.id → AreApart (asking idle (a ∷ b ∷ [])).creators
apart_pair a b ne zero zero c c' e f g = refl
apart_pair a b ne zero (suc zero) c c' e f g = absurd (ne (ground arith))
apart_pair a b ne (suc zero) zero c c' e f g = absurd (ne (ground arith))
apart_pair a b ne (suc zero) (suc zero) c c' e f g = refl
apart_pair a b ne (suc (suc i)) j c c' e f g = absurd (ground arith)
apart_pair a b ne zero (suc (suc j)) c c' e f g = absurd (ground arith)
apart_pair a b ne (suc zero) (suc (suc j)) c c' e f g = absurd (ground arith)

idle-IsValid : IsValid idle
unfolding Dict.get
idle-IsValid = record {
  mapped = λ id h e. absurd (ground arith);
  distinct = λ id id' h e f. absurd (ground arith);
  waiting = λ w m. elim m [ ];
  exits = λ id id' status p t m. elim m [ ];
}

-- Both threads have checked, then the first has registered.
abbrev half_done : Race World ℕ
half_done =
    advance host 0 (checked web plain_spec)
      (advance host 1 (asks db) (advance host 0 (asks web) (asking idle (web ∷ db ∷ []))))

reach-HasTask_example :
    IsValid half_done.service
    × ((i : ℕ) (req : CreateTaskRequest) (r : Response)
        → get_elem? half_done.creators i ≡ some (answered req (ok r))
        → HasTask (instance_config idle) half_done.service req)
reach-HasTask_example =
    reach-HasTask host (web ∷ db ∷ []) idle idle-IsValid (apart_pair web db (λ e. ground arith)) (
      later 0 (checked web plain_spec) (later 1 (asks db) (later 0 (asks web) start refl) refl)
        (unfold prepare Dict.get in refl))

task_create_lost_example :
    let created = Response.created 100 in
    (t : Race World ℕ) × Reach host (asking idle (web ∷ web ∷ [])) t
    × (t.creators ≡ answered web (ok created) ∷ answered web (ok created) ∷ [])
    × (t.service.events ≡ announcement web ∷ announcement web ∷ [])
    × (Dict.get (codes "web") t.service.instances ≡ some 1)
    × ((id : Text) → Dict.get id t.service.instances ≢ some 0)
task_create_lost_example =
    task_create_lost host web web plain_spec plain_spec idle {i = 7} {j = 7} refl idle-IsValid
      (refl, refl) (unfold prepare Dict.get in refl) (unfold prepare Dict.get in refl) refl refl
