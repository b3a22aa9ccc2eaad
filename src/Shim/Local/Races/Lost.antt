-- ===== src/Shim/Local/Races/Lost.antt =====
-- Creates of local.rs that run at the same time, for one id.
use containerd_wasm.Base.{
  suc, Text, ◌++◌, ◌≡◌, ◌≢◌, refl, ap, ◌∙◌, sym, none, some, [], ◌∷◌, arith, length, length-append,
  text_eq_iff, ok, append_assoc,
}
use containerd_wasm.Base.Dict
use containerd_wasm.Sandbox.Oci
use containerd_wasm.Sandbox.Oci.{Spec}
use containerd_wasm.Shim.Api.{CreateTaskRequest, Response}
use containerd_wasm.Shim.Local.{Host, Local, prepare, register}
use containerd_wasm.Shim.Local.Create.{
  announcement, IsUntouched, prepare-world, register-HasRegistered, made_at,
}
use containerd_wasm.Shim.Local.Valid.{IsValid, quiet-IsValid, untouched-IsQuiet}
use containerd_wasm.Shim.Local.Races.{
  asks, checked, answered, Race, advance, Reach, start, later, asking,
}

module _ {W S : Type 0} (host : Host W S) where
  register_again :
      (req other : CreateTaskRequest) (spec spec' : Spec) (l : Local W S) {i j : S}
      → other.id ≡ req.id
      → IsValid l
      → (made_at host req l).1 ≡ ok i
      → (made_at host other (register host req spec l).0).1 ≡ ok j
      → let l'' = (register host other spec' (register host req spec l).0).0 in
        (l''.events ≡ l.events ++ announcement req ∷ announcement other ∷ [])
        × (Dict.get req.id l''.instances ≡ some (suc (length l.heap)))
        × ((id : Text) → Dict.get id l''.instances ≢ some (length l.heap))
  register_again req other spec spec' l same v e f =
      let l' = (register host req spec l).0 in
      let r = register-HasRegistered host req spec l e in
      let r' = register-HasRegistered host other spec' l' f in
      let grown = ap length r.fresh.1 ∙ length-append l.heap _ in
      let put = λ (id : Text).
        ap (Dict.get id) r.instances ∙ Dict.get-put id req.id (length l.heap) l.instances in
      let put' = λ (id : Text).
        ap (Dict.get id) r'.instances ∙ Dict.get-put id other.id (length l'.heap) l'.instances in
      (
        rw (r'.events, r.events) (append_assoc l.events _ _),
        ground (arith, put' req.id, text_eq_iff other.id req.id),
        λ id q. ground (
          arith,
          put' id,
          put id,
          text_eq_iff other.id id,
          text_eq_iff req.id id,
          v.mapped id (length l.heap),
        ),
      )

  register_answer :
      (req : CreateTaskRequest) (spec : Spec) (l : Local W S) {i : S}
      → spec.hooks ≡ none
      → (made_at host req l).1 ≡ ok i
      → (register host req spec l).1 ≡ ok (Response.created host.processes.id)
  unfolding register Oci.setup_prestart_hooks
  register_answer req spec l n e = ground arith

  -- Both threads have checked, and none has registered.
  abbrev pub both_checked : CreateTaskRequest → CreateTaskRequest → Local W S → Local W S
  both_checked req other l = (prepare host other (prepare host req l).0).0

  -- Two threads that create a task with one id and both check before one of them registers: where the
  -- checks pass, the runtime makes both instances and the specs have no hooks, both are answered with
  -- success and both tasks are announced, but the id leads to the second instance and no id leads to
  -- the first.
  pub task_create_lost :
      (req other : CreateTaskRequest) (spec spec' : Spec) (l : Local W S) {i j : S}
      → other.id ≡ req.id
      → IsValid l
      → (spec.hooks ≡ none) × (spec'.hooks ≡ none)
      → (prepare host req l).1 ≡ ok spec
      → (prepare host other (prepare host req l).0).1 ≡ ok spec'
      → (made_at host req (both_checked req other l)).1 ≡ ok i
      → (made_at host other (register host req spec (both_checked req other l)).0).1 ≡ ok j
      → let created = Response.created host.processes.id in
        (t : Race W S) × Reach host (asking l (req ∷ other ∷ [])) t
        × (t.creators ≡ answered req (ok created) ∷ answered other (ok created) ∷ [])
        × (t.service.events ≡ l.events ++ announcement req ∷ announcement other ∷ [])
        × (Dict.get req.id t.service.instances ≡ some (suc (length l.heap)))
        × ((id : Text) → Dict.get id t.service.instances ≢ some (length l.heap))
  task_create_lost req other spec spec' l {i} {j} same v (n, n') p p' e f =
      let l' = (prepare host req l).0 in
      let l'' = both_checked req other l in
      let u : IsUntouched l l'' =
        ground (arith, prepare-world host req l, prepare-world host other l') in
      let q = untouched-IsQuiet u in
      let end = register_again req other spec spec' l'' same (quiet-IsValid q v) e f in
      (
        advance host 1 (checked other spec') (
            advance host 0 (checked req spec) (
              advance host 1 (asks other)
                (advance host 0 (asks req) (asking l (req ∷ other ∷ []))))),
        later 1 (checked other spec')
            (later 0 (checked req spec) (later 1 (asks other) (later 0 (asks req) start refl) refl)
              (rw p refl))
            (rw p' refl),
        rw
            (
              register_answer req spec l'' n e,
              register_answer other spec' (register host req spec l'').0 n' f,
            )
            refl,
        end.0 ∙ ap (λ es. es ++ announcement req ∷ announcement other ∷ []) q.events,
        end.1 ∙ ap (λ h. some (suc h)) q.size,
        λ id r. end.2 id (r ∙ ap (λ h. some h) (sym q.size)),
      )
