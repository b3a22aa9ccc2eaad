-- ===== src/Shim/Local/Invariant.antt =====
-- What holds of the task service of local.rs after any requests, exits and outside changes.
use containerd_wasm.Base.{
  ℕ, Text, ◌≡◌, refl, ◌⊎◌, inl, inr, Option, none, some, List, [], ◌∷◌, arith, In-get_elem?,
  get_elem?,
}
use containerd_wasm.Base.Dict
use containerd_wasm.Shim.Api.{Request}
use containerd_wasm.Shim.Local.{Host, Local, Waiter, handle, new}
use containerd_wasm.Shim.Local.Create.{task_create_cases}
use containerd_wasm.Shim.Local.Tasks
use containerd_wasm.Shim.Local.Tasks.{IsQuiet, HasStarted, HasDeleted, HasExited}
use containerd_wasm.Shim.Local.Steps.{Action, requests, resumes, elsewhere, resume, step, run}
use containerd_wasm.Shim.Local.Valid.{
  IsValid, quiet-IsValid, untouched-IsQuiet, registered-IsValid, started-IsValid, deleted-IsValid,
  exited-IsValid, without-IsValid,
}

module _ {W S : Type 0} where
  pub new-IsValid :
      (world : W) (namespace containerd_address : Text)
      → IsValid (new {S = S} world namespace containerd_address)
  unfolding new Dict.get
  new-IsValid world namespace containerd_address = record {
    mapped = λ id h e. absurd (ground arith);
    distinct = λ id id' h e f. absurd (ground arith);
    waiting = λ w m. elim m [ ];
    exits = λ id id' status p t m. elim m [ ];
  }

module _ {W S : Type 0} (host : Host W S) where
  either_IsValid :
      {A B : Type 0} {l l' : Local W S}
      → (A → IsValid l → IsValid l')
      → (B → IsValid l → IsValid l')
      → A ⊎ B
      → IsValid l
      → IsValid l'
  either_IsValid f g (inl a) v = f a v
  either_IsValid f g (inr b) v = g b v

  pub handle-IsValid : (r : Request) (l : Local W S) → IsValid l → IsValid (handle host r l).0
  unfolding handle
  handle-IsValid (Request.create req) l v =
      either_IsValid (λ u. quiet-IsValid (untouched-IsQuiet u)) (λ r. registered-IsValid r.1)
        (task_create_cases host req l) v
  handle-IsValid (Request.start req) l v =
      either_IsValid quiet-IsValid (λ (h, p, s). started-IsValid s)
        (Tasks.task_start_cases host req l) v
  handle-IsValid (Request.delete req) l v =
      either_IsValid quiet-IsValid deleted-IsValid (Tasks.task_delete_cases host req l) v
  handle-IsValid (Request.kill req) l v = quiet-IsValid (Tasks.task_kill-IsQuiet host req l) v
  handle-IsValid (Request.wait req) l v = quiet-IsValid (Tasks.task_wait-IsQuiet host req l) v
  handle-IsValid (Request.state req) l v = quiet-IsValid (Tasks.task_state-IsQuiet host req l) v
  handle-IsValid (Request.stats id) l v = quiet-IsValid (Tasks.task_stats-IsQuiet host id l) v
  handle-IsValid (Request.connect id) l v = quiet-IsValid (Tasks.connect-IsQuiet host id l) v
  handle-IsValid Request.shutdown l v = quiet-IsValid (Tasks.shutdown-IsQuiet host l) v

  resume-IsValid : (i : ℕ) (l : Local W S) → IsValid l → IsValid (step host (resumes i) l)
  unfolding step
  resume-IsValid i l v = go (get_elem? l.waiters i) refl
    where
      go : (o : Option Waiter) → get_elem? l.waiters i ≡ o → IsValid (resume host i o l)
      go none e = v
      go (some w) e = without-IsValid _ i (
          either_IsValid quiet-IsValid (exited-IsValid (In-get_elem? l.waiters i e))
            (Tasks.wait_thread_cases host w l) v)

  pub step-IsValid : (a : Action W) (l : Local W S) → IsValid l → IsValid (step host a l)
  unfolding step
  step-IsValid (requests r) l v = handle-IsValid r l v
  step-IsValid (resumes i) l v = resume-IsValid i l v
  step-IsValid (elsewhere w) l v = record {
    mapped = v.mapped;
    distinct = v.distinct;
    waiting = v.waiting;
    exits = v.exits;
  }

  run_from-IsValid :
      (actions : List (Action W)) (l : Local W S) → IsValid l → IsValid (run host actions l)
  unfolding run
  run_from-IsValid [] l v = v
  run_from-IsValid (a ∷ actions) l v = run_from-IsValid actions (step host a l) (step-IsValid a l v)

  -- From a new service, after any requests, exits of waiting threads and changes outside, in any
  -- order and whether the requests succeed, fail or panic: every id in the map leads to an instance of its
  -- own, every waiting thread waits for an instance whose start was announced, and every exit that was
  -- announced to containerd was announced as started before, for the same container and process.
  pub run-IsValid :
      (actions : List (Action W)) (world : W) (namespace containerd_address : Text)
      → IsValid (run host actions (new world namespace containerd_address))
  run-IsValid actions world namespace containerd_address =
      run_from-IsValid actions _ (new-IsValid world namespace containerd_address)
