-- ===== src/Shim/Local/Races/Sound.antt =====
-- Creates of local.rs that run at the same time, for different ids.
use containerd_wasm.Base.{
  false, ℕ, zero, suc, ◌==◌, ◌≡◌, ◌≢◌, refl, ap, ◌∙◌, sym, inl, inr, none, some, List, [], ◌∷◌,
  arith, length, get_elem?, set, get_elem?-append, get_elem?-append_last, get_elem?-set_of_some,
  get_elem?-set_ne, text_eq_iff, text_eq_refl, Bool-cases, Outcome-cases, Outcome, ok, err, panic,
  map,
}
use containerd_wasm.Base.Dict
use containerd_wasm.Sandbox.Error.{Error}
use containerd_wasm.Sandbox.Config.{InstanceConfig}
use containerd_wasm.Shim.TaskState.{created}
use containerd_wasm.Sandbox.Oci.{Spec}
use containerd_wasm.Shim.Api.{CreateTaskRequest, Response}
use containerd_wasm.Shim.Local.{Host, Local, prepare, register, config_for, instance_config}
use containerd_wasm.Shim.Local.Create.{
  HasRegistered, IsUntouched, prepare-world, register_cases, register-HasRegistered, made_at,
}
use containerd_wasm.Shim.Local.Valid.{IsValid, registered-IsValid, quiet-IsValid, untouched-IsQuiet}
use containerd_wasm.Shim.Local.Races.{
  Creator, asks, checked, answered, id_of, Race, after_check, advance, Reach, start, later, HasTask,
  AreApart, asking,
}

pub record IsSound {W S : Type 0} (base : InstanceConfig) (s : Race W S) : Type 0 where
  pub valid : IsValid s.service
  pub config : instance_config s.service ≡ base
  pub apart : AreApart s.creators
  -- Each thread that was answered with success has its own task.
  pub own :
      (i : ℕ) (req : CreateTaskRequest) (r : Response)
      → get_elem? s.creators i ≡ some (answered req (ok r))
      → HasTask base s.service req

set_back :
    (cs : List Creator) (k i : ℕ) (c c' a : Creator)
    → get_elem? cs k ≡ some c
    → id_of c' ≡ id_of c
    → get_elem? (set cs k c') i ≡ some a
    → (b : Creator) × (get_elem? cs i ≡ some b) × (id_of b ≡ id_of a)
set_back cs k i c c' a e same f = elim (Bool-cases (k == i)) [
  | inl t ↦ (c, ground arith, ground (arith, get_elem?-set_of_some cs k c' e))
  | inr t ↦ (a, ground (arith, get_elem?-set_ne cs k i c'), refl)
]

set-AreApart :
    (cs : List Creator) (k : ℕ) (c c' : Creator)
    → get_elem? cs k ≡ some c
    → id_of c' ≡ id_of c
    → AreApart cs
    → AreApart (set cs k c')
set-AreApart cs k c c' e same apart i j a b f g h =
    let (a', f', p) = set_back cs k i c c' a e same f in
    let (b', g', q) = set_back cs k j c c' b e same g in apart i j a' b' f' g' (p ∙ h ∙ sym q)

module _ {W S : Type 0} where
  untouched-HasTask :
      (base : InstanceConfig) (l l' : Local W S) (req : CreateTaskRequest)
      → IsUntouched l l'
      → HasTask base l req
      → HasTask base l' req
  untouched-HasTask base l l' req u (h, d, e, f, g) = (h, d, cc, cc, g)

  -- A registration keeps the tasks of the other ids.
  registered-HasTask :
      (base : InstanceConfig) (l l' : Local W S) (req other : CreateTaskRequest)
      → HasRegistered other l l'
      → other.id ≢ req.id
      → HasTask base l req
      → HasTask base l' req
  registered-HasTask base l l' req other r ne (h, d, e, f, g) = (
    h,
    d,
    ap (Dict.get req.id) r.instances
        ∙ Dict.get-put req.id other.id (length l.heap) l.instances
        ∙ ground (arith, text_eq_iff other.id req.id),
    rw r.fresh.1 (get_elem?-append l.heap _ h f),
    g,
  )

  -- A registered task is the one that its id leads to.
  fresh-HasTask :
      (l l' : Local W S) (req : CreateTaskRequest)
      → HasRegistered req l l'
      → HasTask (instance_config l) l' req
  fresh-HasTask l l' req r = (
    length l.heap,
    record {
      instance = r.fresh.0;
      cfg = config_for req (instance_config l);
      pid = none;
      state = created;
      poisoned = false;
    },
    ap (Dict.get req.id) r.instances
        ∙ Dict.get-put req.id req.id (length l.heap) l.instances
        ∙ ground (arith, text_eq_refl req.id),
    rw r.fresh.1 (get_elem?-append_last l.heap _),
    refl,
  )

module _ {W S : Type 0} (host : Host W S) where
  register-config :
      (req : CreateTaskRequest) (spec : Spec) (l : Local W S)
      → instance_config (register host req spec l).0 ≡ instance_config l
  unfolding register instance_config
  register-config req spec l = ground arith

  register-ok :
      (req : CreateTaskRequest) (spec : Spec) (l : Local W S) {r : Response}
      → (register host req spec l).1 ≡ ok r
      → HasRegistered req l (register host req spec l).0
  unfolding register
  register-ok req spec l h = elim (Outcome-cases (made_at host req l).1) [
    | inl (i, f) ↦ register-HasRegistered host req spec l f
    | inr f ↦ absurd (ground arith)
  ]

  prepare-config :
      (req : CreateTaskRequest) (l : Local W S)
      → instance_config (prepare host req l).0 ≡ instance_config l
  unfolding instance_config
  prepare-config req l = ground (arith, prepare-world host req l)

  -- The thread `k` has changed the service, and its own place.
  moved-IsSound :
      {base : InstanceConfig} (s : Race W S) (l' : Local W S) (k : ℕ) (c c' : Creator)
      → get_elem? s.creators k ≡ some c
      → id_of c' ≡ id_of c
      → IsValid l'
      → instance_config l' ≡ instance_config s.service
      → ((req : CreateTaskRequest)
          → id_of c ≢ req.id
          → HasTask base s.service req
          → HasTask base l' req)
      → ((req : CreateTaskRequest) (r : Response) → c' ≡ answered req (ok r) → HasTask base l' req)
      → IsSound base s
      → IsSound base (record { service = l'; creators = set s.creators k c' })
  moved-IsSound {base} s l' k c c' e same v q keeps mine sound = record {
    valid = v;
    config = q ∙ sound.config;
    apart = set-AreApart s.creators k c c' e same sound.apart;
    own = λ i req r f. elim (Bool-cases (k == i)) [
      | inl t ↦ mine req r (ground (arith, get_elem?-set_of_some s.creators k c' e))
      | inr t ↦
          let ne : k ≢ i = ground arith in
          let old : get_elem? s.creators i ≡ some (answered req (ok r)) =
            sym (get_elem?-set_ne s.creators k i c' ne) ∙ f in
          keeps req (λ p. ne (sound.apart k i c (answered req (ok r)) e old p))
            (sound.own i req r old)
    ];
  }

  after_check-id :
      (req : CreateTaskRequest) (r : Outcome Error Spec) → id_of (after_check req r) ≡ req.id
  after_check-id req (ok spec) = refl
  after_check-id req (err x) = refl
  after_check-id req panic = refl

  not_answered :
      (req : CreateTaskRequest) {other : CreateTaskRequest} {r : Response} (o : Outcome Error Spec)
      → after_check req o ≢ answered other (ok r)
  not_answered req (ok spec) = λ f. cc
  not_answered req (err x) = λ f. cc
  not_answered req panic = λ f. cc

  checks-IsSound :
      {base : InstanceConfig} (s : Race W S) (k : ℕ) (req : CreateTaskRequest)
      → get_elem? s.creators k ≡ some (asks req)
      → IsSound base s
      → IsSound base (advance host k (asks req) s)
  checks-IsSound {base} s k req e sound =
      let u = prepare-world host req s.service in
      moved-IsSound s (prepare host req s.service).0 k (asks req) _ e (after_check-id req _)
        (quiet-IsValid (untouched-IsQuiet u) sound.valid) (prepare-config req s.service)
        (λ other ne. untouched-HasTask base s.service _ other u)
        (λ other r f. absurd (not_answered req _ f)) sound

  registers-IsSound :
      {base : InstanceConfig} (s : Race W S) (k : ℕ) (req : CreateTaskRequest) (spec : Spec)
      → get_elem? s.creators k ≡ some (checked req spec)
      → IsSound base s
      → IsSound base (advance host k (checked req spec) s)
  registers-IsSound {base} s k req spec e sound =
      let l' = (register host req spec s.service).0 in
      let answer = (register host req spec s.service).1 in
      let moved = moved-IsSound s l' k (checked req spec) (answered req answer) e refl in
      elim (register_cases host req spec s.service) [
        | inl u ↦
            moved (quiet-IsValid (untouched-IsQuiet u) sound.valid)
              (register-config req spec s.service)
              (λ other ne. untouched-HasTask base s.service l' other u) mine sound
        | inr r ↦
            moved (registered-IsValid r sound.valid) (register-config req spec s.service)
              (λ other ne. registered-HasTask base s.service l' other req r ne) mine sound
      ]
    where
      mine :
          (other : CreateTaskRequest) (r : Response)
          → answered req (register host req spec s.service).1 ≡ answered other (ok r)
          → HasTask base (register host req spec s.service).0 other
      mine other r f =
          let same : req ≡ other = cc in
          let done : (register host req spec s.service).1 ≡ ok r = cc in
          rw (← same, ← sound.config)
            (fresh-HasTask s.service _ req (register-ok req spec s.service done))

  reach-IsSound :
      {base : InstanceConfig} {s t : Race W S} → IsSound base s → Reach host s t → IsSound base t
  reach-IsSound sound start = sound
  reach-IsSound sound (later i (asks req) reach e) =
      checks-IsSound _ i req e (reach-IsSound sound reach)
  reach-IsSound sound (later i (checked req spec) reach e) =
      registers-IsSound _ i req spec e (reach-IsSound sound reach)
  reach-IsSound sound (later i (answered req r) reach e) = reach-IsSound sound reach

asks_nothing :
    (reqs : List CreateTaskRequest) (i : ℕ) {req : CreateTaskRequest} {o : Outcome Error Response}
    → get_elem? (map (λ q. asks q) reqs) i ≢ some (answered req o)
asks_nothing [] i = λ e. cc
asks_nothing (q ∷ reqs) zero = λ e. cc
asks_nothing (q ∷ reqs) (suc i) = asks_nothing reqs i

module _ {W S : Type 0} (host : Host W S) where
  -- Threads that create tasks with different ids, on a valid service and in any interleaving of their
  -- steps, leave a valid service, in which the id of each thread that was answered with success leads to
  -- an instance with the configuration that this thread asked for.
  pub reach-HasTask :
      (reqs : List CreateTaskRequest) (l : Local W S) {t : Race W S}
      → IsValid l
      → AreApart (asking l reqs).creators
      → Reach host (asking l reqs) t
      → IsValid t.service
        × ((i : ℕ) (req : CreateTaskRequest) (r : Response)
            → get_elem? t.creators i ≡ some (answered req (ok r))
            → HasTask (instance_config l) t.service req)
  reach-HasTask reqs l v apart reach =
      let sound =
        reach-IsSound host
          (record {
            valid = v;
            config = refl;
            apart = apart;
            own = λ i req r f. absurd (asks_nothing reqs i f);
          })
          reach in
      (sound.valid, sound.own)
