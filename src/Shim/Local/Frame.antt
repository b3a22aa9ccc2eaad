-- ===== src/Shim/Local/Frame.antt =====
-- A request of local.rs about one task leaves the data of the other tasks alone.
use containerd_wasm.Base.{
  none, false, ap, ◌∙◌, inl, inr, text_eq, text_eq_iff, refl, ℕ, Text, ◌≡◌, ◌≢◌, Option, some,
  arith, length, get_elem?, get_elem?-set_ne, get_elem?-append,
}
use containerd_wasm.Base.Dict
use containerd_wasm.Shim.InstanceData
use containerd_wasm.Shim.Api.{Request, CreateTaskRequest, ExecRequest, KillRequest}
use containerd_wasm.Shim.Local.{
  Host, Local, handle, task_create, task_start, task_kill, task_delete, task_wait, task_state,
  task_stats, connect, shutdown,
}
use containerd_wasm.Shim.Local.Create.{task_create_cases}
use containerd_wasm.Shim.Local.Tasks.{
  IsQuiet, task_delete_cases, task_start_cases, task_kill-IsQuiet, task_wait-IsQuiet,
  task_state-IsQuiet, task_stats-IsQuiet, connect-IsQuiet, shutdown-IsQuiet,
}
use containerd_wasm.Shim.Local.Valid.{IsValid}

-- The handle of a task that is not the one with this id.
abbrev pub IsOther : {W S : Type 0} → Local W S → Text → ℕ → Type 0
IsOther l id k = (h : ℕ) → Dict.get id l.instances ≡ some h → h ≢ k

-- The id leads to this instance, which has this data.
abbrev pub IsAt : {W S : Type 0} → Local W S → Text → ℕ → InstanceData.InstanceData S → Type 0
IsAt l id h d = (Dict.get id l.instances ≡ some h) × (get_elem? l.heap h ≡ some d)

IsQuiet-get :
    {W S : Type 0} {l l' : Local W S} (id : Text)
    → IsQuiet l l'
    → Dict.get id l'.instances ≡ Dict.get id l.instances
IsQuiet-get id q = ap (Dict.get id) q.instances

module _ {W S : Type 0} (host : Host W S) where
  task_kill_frame :
      (req : KillRequest) (l : Local W S) (k : ℕ)
      → IsOther l req.id k
      → get_elem? (task_kill host req l).0.heap k ≡ get_elem? l.heap k
  unfolding task_kill
  task_kill_frame req l k o = grind (arith, get_elem?-set_ne)

  task_wait_frame :
      (req : ExecRequest) (l : Local W S) (k : ℕ)
      → IsOther l req.id k
      → get_elem? (task_wait host req l).0.heap k ≡ get_elem? l.heap k
  unfolding task_wait
  task_wait_frame req l k o = grind (arith, get_elem?-set_ne)

  task_state_frame :
      (req : ExecRequest) (l : Local W S) (k : ℕ)
      → IsOther l req.id k
      → get_elem? (task_state host req l).0.heap k ≡ get_elem? l.heap k
  unfolding task_state
  task_state_frame req l k o = grind (arith, get_elem?-set_ne)

  task_start_frame :
      (req : ExecRequest) (l : Local W S) (k : ℕ)
      → IsOther l req.id k
      → get_elem? (task_start host req l).0.heap k ≡ get_elem? l.heap k
  unfolding task_start
  task_start_frame req l k o = grind (arith, get_elem?-set_ne)

  task_delete_frame :
      (req : ExecRequest) (l : Local W S) (k : ℕ)
      → IsOther l req.id k
      → get_elem? (task_delete host req l).0.heap k ≡ get_elem? l.heap k
  unfolding task_delete
  task_delete_frame req l k o = grind (arith, get_elem?-set_ne)

  task_stats_frame :
      (id : Text) (l : Local W S) (k : ℕ)
      → IsOther l id k
      → get_elem? (task_stats host id l).0.heap k ≡ get_elem? l.heap k
  unfolding task_stats
  task_stats_frame id l k o = grind (arith, get_elem?-set_ne)

  connect_frame :
      (id : Text) (l : Local W S) (k : ℕ)
      → IsOther l id k
      → get_elem? (connect host id l).0.heap k ≡ get_elem? l.heap k
  unfolding connect
  connect_frame id l k o = grind (arith, get_elem?-set_ne)

  task_create_frame :
      (req : CreateTaskRequest) (l : Local W S) (id : Text) (h : ℕ)
      (d : InstanceData.InstanceData S)
      → text_eq req.id id ≡ false
      → IsAt l id h d
      → IsAt (task_create host req l).0 id h d
  task_create_frame req l id h d ne (e, f) = elim (task_create_cases host req l) [
    | inl u ↦ (cc, cc)
    | inr (free, r) ↦ (
      ap (Dict.get id) r.instances ∙ Dict.get-put id req.id (length l.heap) l.instances ∙ rw ne e,
      rw r.fresh.1 (get_elem?-append l.heap _ h f),
    )
  ]

  task_delete-get :
      (req : ExecRequest) (l : Local W S) (id : Text)
      → text_eq req.id id ≡ false
      → Dict.get id (task_delete host req l).0.instances ≡ Dict.get id l.instances
  task_delete-get req l id ne = elim (task_delete_cases host req l) [
    | inl q ↦ IsQuiet-get id q
    | inr r ↦ ap (Dict.get id) r.instances ∙ Dict.get-remove id req.id l.instances ∙ rw ne refl
  ]

  task_start-get :
      (req : ExecRequest) (l : Local W S) (id : Text)
      → Dict.get id (task_start host req l).0.instances ≡ Dict.get id l.instances
  task_start-get req l id = elim (task_start_cases host req l) [
    | inl q ↦ IsQuiet-get id q
    | inr (h, p, s) ↦ ap (Dict.get id) s.instances
  ]

-- The id of the task that a request is about.
abbrev pub task_of : Request → Option Text
task_of (Request.create req) = some req.id
task_of (Request.start req) = some req.id
task_of (Request.delete req) = some req.id
task_of (Request.wait req) = some req.id
task_of (Request.state req) = some req.id
task_of (Request.kill req) = some req.id
task_of (Request.stats id) = some id
task_of (Request.connect id) = some id
task_of Request.shutdown = none

module _ {W S : Type 0} (host : Host W S) where
  IsValid-IsOther :
      (l : Local W S) (id id' : Text) (k : ℕ)
      → IsValid l
      → id ≢ id'
      → Dict.get id' l.instances ≡ some k
      → IsOther l id k
  IsValid-IsOther l id id' k v ne e h f same =
      ne (v.distinct id id' k (f ∙ ap (λ n. some n) same) e)

  other-text_eq : (a b : Text) → some a ≢ some b → text_eq a b ≡ false
  other-text_eq a b ne = ground (arith, text_eq_iff a b)

  shutdown_frame :
      (l : Local W S) (k : ℕ) → get_elem? (shutdown host l).0.heap k ≡ get_elem? l.heap k
  unfolding shutdown
  shutdown_frame l k = ground arith

  -- A request about one task leaves every other task as it is, whatever comes of it: the id of the
  -- other leads to the same instance, with the same state, process and configuration.
  pub handle_frame :
      (r : Request) (l : Local W S) (id : Text) (h : ℕ) (d : InstanceData.InstanceData S)
      → IsValid l
      → task_of r ≢ some id
      → IsAt l id h d
      → IsAt (handle host r l).0 id h d
  unfolding handle
  handle_frame (Request.create req) l id h d v ne a =
      task_create_frame host req l id h d (other-text_eq req.id id ne) a
  handle_frame (Request.start req) l id h d v ne (e, f) = (
    task_start-get host req l id ∙ e,
    task_start_frame host req l h (IsValid-IsOther l req.id id h v (λ q. ne (ap (λ t. some t) q)) e)
        ∙ f,
  )
  handle_frame (Request.delete req) l id h d v ne (e, f) = (
    task_delete-get host req l id (other-text_eq req.id id ne) ∙ e,
    task_delete_frame host req l h
          (IsValid-IsOther l req.id id h v (λ q. ne (ap (λ t. some t) q)) e)
        ∙ f,
  )
  handle_frame (Request.kill req) l id h d v ne (e, f) = (
    IsQuiet-get id (task_kill-IsQuiet host req l) ∙ e,
    task_kill_frame host req l h (IsValid-IsOther l req.id id h v (λ q. ne (ap (λ t. some t) q)) e)
        ∙ f,
  )
  handle_frame (Request.wait req) l id h d v ne (e, f) = (
    IsQuiet-get id (task_wait-IsQuiet host req l) ∙ e,
    task_wait_frame host req l h (IsValid-IsOther l req.id id h v (λ q. ne (ap (λ t. some t) q)) e)
        ∙ f,
  )
  handle_frame (Request.state req) l id h d v ne (e, f) = (
    IsQuiet-get id (task_state-IsQuiet host req l) ∙ e,
    task_state_frame host req l h (IsValid-IsOther l req.id id h v (λ q. ne (ap (λ t. some t) q)) e)
        ∙ f,
  )
  handle_frame (Request.stats name) l id h d v ne (e, f) = (
    IsQuiet-get id (task_stats-IsQuiet host name l) ∙ e,
    task_stats_frame host name l h (IsValid-IsOther l name id h v (λ q. ne (ap (λ t. some t) q)) e)
        ∙ f,
  )
  handle_frame (Request.connect name) l id h d v ne (e, f) = (
    IsQuiet-get id (connect-IsQuiet host name l) ∙ e,
    connect_frame host name l h (IsValid-IsOther l name id h v (λ q. ne (ap (λ t. some t) q)) e)
        ∙ f,
  )
  handle_frame Request.shutdown l id h d v ne (e, f) =
      (IsQuiet-get id (shutdown-IsQuiet host l) ∙ e, shutdown_frame l h ∙ f)
