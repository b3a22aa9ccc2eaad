-- ===== src/Shim/Local/Steps.antt =====
-- The task service of local.rs among its surroundings: requests, the threads that wait for an exit,
-- and an outside world that changes by itself, in any order.
use containerd_wasm.Base.{ℕ, zero, suc, Option, none, some, List, [], ◌∷◌, get_elem?, Exec, Outcome}
use containerd_wasm.Shim.Api.{Request, Response}
use containerd_wasm.Shim.Local.{Host, Local, Waiter, handle, wait_thread}

pub data Action (W : Type 0) : Type 0 where
  requests : Request → Action W
  -- The waiting thread at this place sees its instance exit, and ends.
  resumes : ℕ → Action W
  elsewhere : W → Action W

abbrev pub without : {A : Type 0} → List A → ℕ → List A
without [] i = []
without (x ∷ xs) zero = xs
without (x ∷ xs) (suc i) = x ∷ without xs i

-- Requests one after the other, and their answers.
unfoldable pub serve :
    {T E : Type 0}
    → (Request → Exec T E Response)
    → List Request
    → T
    → T × List (Outcome E Response)
serve h [] s = (s, [])
serve h (r ∷ rs) s =
    let (s', answer) = h r s in let (s'', answers) = serve h rs s' in (s'', answer ∷ answers)

module _ {W S : Type 0} (host : Host W S) where
  abbrev pub resume : ℕ → Option Waiter → Local W S → Local W S
  resume i none l = l
  resume i (some w) l =
      let l' = (wait_thread host w l).0 in record l' { waiters = without l'.waiters i }

  unfoldable pub step : Action W → Local W S → Local W S
  step (requests r) l = (handle host r l).0
  step (resumes i) l = resume i (get_elem? l.waiters i) l
  step (elsewhere w) l = record l { world = w }

  unfoldable pub run : List (Action W) → Local W S → Local W S
  run [] l = l
  run (a ∷ actions) l = run actions (step a l)
