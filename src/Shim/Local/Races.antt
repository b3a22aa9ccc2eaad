-- ===== src/Shim/Local/Races.antt =====
-- Threads of the server that are in `task_create` of local.rs at the same time. A create looks at
-- the map of tasks twice: it checks that the id is free, under the lock for reading, and it inserts
-- the task, under the lock for writing. Between the two, other threads run.
pub mod Sound
pub mod Lost
use containerd_wasm.Base.{
  ℕ, zero, suc, ◌==◌, Text, codes, ◌++◌, ◌≡◌, ◌≢◌, refl, ap, ◌∙◌, sym, inl, inr, ◌⊎◌, Option, none,
  some, List, [], ◌∷◌, true, false, arith, length, length-append, get_elem?, set, get_elem?-append,
  get_elem?-append_last, get_elem?-set_of_some, get_elem?-set_ne, text_eq, text_eq_iff,
  text_eq_refl, Bool-cases, Option-cases, Outcome-cases, Outcome, ok, err, panic, map, append_assoc,
}
use containerd_wasm.Base.Dict
use containerd_wasm.Sandbox.Error.{Error}
use containerd_wasm.Sandbox.Config.{InstanceConfig}
use containerd_wasm.Shim.TaskState.{created}
use containerd_wasm.Sandbox.Oci
use containerd_wasm.Sandbox.Oci.{Spec}
use containerd_wasm.Shim.InstanceData.{InstanceData}
use containerd_wasm.Shim.Api.{CreateTaskRequest, Response}
use containerd_wasm.Shim.Local.{Host, Local, prepare, register, config_for, instance_config}
use containerd_wasm.Shim.Local.Create.{
  announcement, HasRegistered, IsUntouched, prepare-world, register_cases, register-HasRegistered,
  made_at,
}
use containerd_wasm.Shim.Local.Valid.{IsValid, registered-IsValid, quiet-IsValid, untouched-IsQuiet}

-- Where a thread is in its create.
pub data Creator : Type 0 where
  asks : CreateTaskRequest → Creator
  checked : CreateTaskRequest → Spec → Creator
  answered : CreateTaskRequest → Outcome Error Response → Creator

abbrev pub id_of : Creator → Text
id_of (asks req) = req.id
id_of (checked req spec) = req.id
id_of (answered req r) = req.id

pub record Race (W S : Type 0) : Type 0 where
  pub service : Local W S
  pub creators : List Creator

abbrev pub after_check : CreateTaskRequest → Outcome Error Spec → Creator
after_check req (ok spec) = checked req spec
after_check req (err e) = answered req (err e)
after_check req panic = answered req panic

module _ {W S : Type 0} (host : Host W S) where
  abbrev pub advance : ℕ → Creator → Race W S → Race W S
  advance i (asks req) s =
      let (l, r) = prepare host req s.service in
      record { service = l; creators = set s.creators i (after_check req r) }
  advance i (checked req spec) s =
      let (l, r) = register host req spec s.service in
      record { service = l; creators = set s.creators i (answered req r) }
  advance i (answered req r) s = s

  -- What threads that take turns in any order can reach.
  pub data Reach (s : Race W S) : Race W S → Type 0 where
    start : Reach s s
    later :
        {t : Race W S} (i : ℕ) (c : Creator)
        → Reach s t
        → get_elem? t.creators i ≡ some c
        → Reach s (advance i c t)

-- The id of a request leads to an instance with the configuration that the request asks for.
abbrev pub HasTask : {W S : Type 0} → InstanceConfig → Local W S → CreateTaskRequest → Type 0
HasTask {S = S} base l req =
    (h : ℕ) × (d : InstanceData S) × (Dict.get req.id l.instances ≡ some h)
    × (get_elem? l.heap h ≡ some d)
    × (d.cfg ≡ config_for req base)

-- No two threads create a task with the same id.
abbrev pub AreApart : List Creator → Type 0
AreApart cs =
    (i j : ℕ) (c c' : Creator)
    → get_elem? cs i ≡ some c
    → get_elem? cs j ≡ some c'
    → id_of c ≡ id_of c'
    → i ≡ j

-- Threads that have not begun.
abbrev pub asking : {W S : Type 0} → Local W S → List CreateTaskRequest → Race W S
asking l reqs = record { service = l; creators = map (λ req. asks req) reqs }
