-- ===== src/Shim/Local/Counts.antt =====
-- How a step of the task service of local.rs changes what was announced and who waits, in numbers.
use containerd_wasm.Base.{
  ℕ, zero, suc, ◌+◌, ◌≤◌, ◌==◌, Text, text_eq, if◌then◌else◌, ◌&&◌, ◌++◌, ◌≡◌, refl, ◌⊎◌, inl, inr,
  Option, none, some, List, [], ◌∷◌, arith, get_elem?, false, true, In-get_elem?,
}
use containerd_wasm.Shim.Api.{Request, Event}
use containerd_wasm.Shim.InstanceData.{InstanceData}
use containerd_wasm.Shim.Local.{Host, Local, Waiter, handle, task_start}
use containerd_wasm.Shim.Local.Create.{task_create_cases, announcement}
use containerd_wasm.Shim.Local.Tasks
use containerd_wasm.Shim.Local.Tasks.{IsQuiet, HasStarted, HasDeleted, HasExited}
use containerd_wasm.Shim.Local.Steps.{Action, requests, resumes, elsewhere, resume, step, without}
use containerd_wasm.Shim.Local.Valid.{IsValid, untouched-IsQuiet}

abbrev pub sum : {A : Type 0} → (A → ℕ) → List A → ℕ
sum f [] = 0
sum f (x ∷ xs) = f x + sum f xs

sum-append : {A : Type 0} (f : A → ℕ) (xs ys : List A) → sum f (xs ++ ys) ≡ sum f xs + sum f ys
sum-append f [] ys = omega arith
sum-append f (x ∷ xs) ys = omega (arith, sum-append f xs ys)

sum-without :
    {A : Type 0} (f : A → ℕ) (xs : List A) (i : ℕ) (a : A)
    → get_elem? xs i ≡ some a
    → sum f (without xs i) + f a ≡ sum f xs
sum-without f [] i a e = absurd (ground arith)
sum-without f (x ∷ xs) zero a e = let same : x ≡ a = cc in rw same (omega arith)
sum-without f (x ∷ xs) (suc i) a e = omega (arith, sum-without f xs i a e)

-- One, if the event or the thread is about this process of this task.
abbrev pub about : Text → ℕ → Text → ℕ → ℕ
about id p i q = if text_eq i id && q == p then 1 else 0

abbrev pub starts : Text → ℕ → Event → ℕ
starts id p (Event.task_start i q) = about id p i q
starts id p e = 0

abbrev pub exits : Text → ℕ → Event → ℕ
exits id p (Event.task_exit i status t q j) = about id p i q
exits id p e = 0

abbrev pub waits : Text → ℕ → Waiter → ℕ
waits id p w = about id p w.id w.pid

-- The exits of a process that were announced or are waited for, and the starts that were announced.
abbrev pub held : {W S : Type 0} → Text → ℕ → Local W S → ℕ
held id p l = sum (exits id p) l.events + sum (waits id p) l.waiters

abbrev pub begun : {W S : Type 0} → Text → ℕ → Local W S → ℕ
begun id p l = sum (starts id p) l.events

-- The numbers are the same.
pub record IsLevel {W S : Type 0} (l l' : Local W S) : Type 0 where
  pub held_same : (id : Text) (p : ℕ) → held id p l' ≡ held id p l
  pub begun_same : (id : Text) (p : ℕ) → begun id p l' ≡ begun id p l

-- Both went up, by a start.
pub record IsUp {W S : Type 0} (l l' : Local W S) : Type 0 where
  pub of : Text
  pub pid : ℕ
  pub held_up : (id : Text) (p : ℕ) → held id p l' ≡ held id p l + about id p of pid
  pub begun_up : (id : Text) (p : ℕ) → begun id p l' ≡ begun id p l + about id p of pid

-- An exit will not be announced.
pub record IsMissed {W S : Type 0} (l l' : Local W S) : Type 0 where
  pub held_less : (id : Text) (p : ℕ) → held id p l' ≤ held id p l
  pub begun_more : (id : Text) (p : ℕ) → begun id p l ≤ begun id p l'

-- Why that can be: no thread can be spawned, a wait without a timeout ends without an exit, or a panic
-- has poisoned the lock of an instance.
abbrev pub CanMiss : {W S : Type 0} → Host W S → Local W S → Type 0
CanMiss {W} {S} host l =
    ((w : W) × (host.can_spawn w ≡ false))
    ⊎ ((i : S) × (w : W) × ((host.runtime.wait_timeout i none w).1 ≡ none))
    ⊎ ((h : ℕ) × (d : InstanceData S) × (get_elem? l.heap h ≡ some d) × (d.poisoned ≡ true))

abbrev pub Move : {W S : Type 0} → Host W S → Local W S → Local W S → Type 0
Move host l l' = IsLevel l l' ⊎ IsUp l l' ⊎ (IsMissed l l' × CanMiss host l)

module _ {W S : Type 0} {l l' : Local W S} where
  quiet-IsLevel : IsQuiet l l' → IsLevel l l'
  quiet-IsLevel q = record {
    held_same = λ id p. rw (q.events, q.waiters) refl;
    begun_same = λ id p. rw q.events refl;
  }

  -- One more event, which is no start and no exit.
  told-IsLevel :
      (e : Event)
      → l'.events ≡ l.events ++ e ∷ []
      → l'.waiters ≡ l.waiters
      → ((id : Text) (p : ℕ) → (exits id p e ≡ 0) × (starts id p e ≡ 0))
      → IsLevel l l'
  told-IsLevel e events waiters other = record {
    held_same = λ id p.
        rw (events, waiters) (omega (arith, other id p, sum-append (exits id p) l.events (e ∷ [])));
    begun_same =
        λ id p. rw events (omega (arith, other id p, sum-append (starts id p) l.events (e ∷ [])));
  }

  started-IsUp :
      {i : Text} {h q : ℕ}
      → HasStarted i h q l l'
      → l'.waiters ≡ l.waiters ++ record { id = i; handle = h; pid = q } ∷ []
      → IsUp l l'
  started-IsUp {i} {h} {q} s ws =
      let e = Event.task_start i q ∷ [] in
      record {
        of = i;
        pid = q;
        held_up = λ id p.
            rw (s.events, ws)
              (omega (
                arith,
                sum-append (exits id p) l.events e,
                sum-append (waits id p) l.waiters (record { id = i; handle = h; pid = q } ∷ []),
              ));
        begun_up = λ id p. rw s.events (omega (arith, sum-append (starts id p) l.events e));
      }

  started-IsMissed :
      {i : Text} {h q : ℕ} → HasStarted i h q l l' → l'.waiters ≡ l.waiters → IsMissed l l'
  started-IsMissed {i} {h} {q} s ws =
      let e = Event.task_start i q ∷ [] in
      record {
        held_less = λ id p. rw (s.events, ws) (omega (arith, sum-append (exits id p) l.events e));
        begun_more = λ id p. rw s.events (omega (arith, sum-append (starts id p) l.events e));
      }

  exited-IsLevel :
      {w : Waiter} (i : ℕ)
      → get_elem? l.waiters i ≡ some w
      → HasExited w l l'
      → IsLevel l (record l' { waiters = without l'.waiters i })
  exited-IsLevel {w} i at_i x =
      let (status, t, e) = x.event in
      let ended = Event.task_exit w.id status t w.pid w.id ∷ [] in
      record {
        held_same = λ id p.
            rw (e, x.waiters)
              (omega (
                arith,
                sum-without (waits id p) l.waiters i w at_i,
                sum-append (exits id p) l.events ended,
              ));
        begun_same = λ id p. rw e (omega (arith, sum-append (starts id p) l.events ended));
      }

  dropped-IsMissed :
      {w : Waiter} (i : ℕ)
      → get_elem? l.waiters i ≡ some w
      → IsQuiet l l'
      → IsMissed l (record l' { waiters = without l'.waiters i })
  dropped-IsMissed {w} i at_i q = record {
    held_less = λ id p.
        rw (q.events, q.waiters) (omega (arith, sum-without (waits id p) l.waiters i w at_i));
    begun_more = λ id p. rw q.events (omega arith);
  }

module _ {W S : Type 0} (host : Host W S) where
  start_move : (req : _) (l : Local W S) → Move host l (handle host (Request.start req) l).0
  unfolding handle
  start_move req l = elim (Tasks.task_start_waits host req l) [
    | inl q ↦ inl (quiet-IsLevel q)
    | inr (h, p, s, inr ws) ↦ inr (inl (started-IsUp s ws))
    | inr (h, p, s, inl refused) ↦ elim s.waiters [
      | inr ws ↦ inr (inl (started-IsUp s ws))
      | inl ws ↦ inr (inr (started-IsMissed s ws, inl ((task_start host req l).0.world, refused)))
    ]
  ]

  handle_move : (r : Request) (l : Local W S) → Move host l (handle host r l).0
  unfolding handle
  handle_move (Request.create req) l = elim (task_create_cases host req l) [
    | inl u ↦ inl (quiet-IsLevel (untouched-IsQuiet u))
    | inr r ↦ inl (told-IsLevel (announcement req) r.1.events r.1.waiters (λ id p. (refl, refl)))
  ]
  handle_move (Request.start req) l = start_move req l
  handle_move (Request.delete req) l = elim (Tasks.task_delete_cases host req l) [
    | inl q ↦ inl (quiet-IsLevel q)
    | inr d ↦
        let (p, status, t, e) = d.event in
        inl (told-IsLevel (Event.task_delete req.id p status t) e d.waiters (λ id p. (refl, refl)))
  ]
  handle_move (Request.kill req) l = inl (quiet-IsLevel (Tasks.task_kill-IsQuiet host req l))
  handle_move (Request.wait req) l = inl (quiet-IsLevel (Tasks.task_wait-IsQuiet host req l))
  handle_move (Request.state req) l = inl (quiet-IsLevel (Tasks.task_state-IsQuiet host req l))
  handle_move (Request.stats id) l = inl (quiet-IsLevel (Tasks.task_stats-IsQuiet host id l))
  handle_move (Request.connect id) l = inl (quiet-IsLevel (Tasks.connect-IsQuiet host id l))
  handle_move Request.shutdown l = inl (quiet-IsLevel (Tasks.shutdown-IsQuiet host l))

  resume_move : (i : ℕ) (l : Local W S) → IsValid l → Move host l (step host (resumes i) l)
  unfolding step
  resume_move i l v = go (get_elem? l.waiters i) refl
    where
      go :
          (at_i : Option Waiter) → get_elem? l.waiters i ≡ at_i → Move host l (resume host i at_i l)
      go none e = inl (record { held_same = λ id p. refl; begun_same = λ id p. refl })
      go (some w) e =
          elim (Tasks.wait_thread_ends host w l (v.waiting w (In-get_elem? l.waiters i e)).0) [
            | inl x ↦ inl (exited-IsLevel i e x)
            | inr (q, inl never) ↦ inr (inr (dropped-IsMissed i e q, inr (inl never)))
            | inr (q, inr (d, at_h, p)) ↦
                inr (inr (dropped-IsMissed i e q, inr (inr (w.handle, d, at_h, p))))
          ]

  pub step_move : (a : Action W) (l : Local W S) → IsValid l → Move host l (step host a l)
  unfolding step
  step_move (requests r) l v = handle_move r l
  step_move (resumes i) l v = resume_move i l v
  step_move (elsewhere w) l v = inl (record { held_same = λ id p. refl; begun_same = λ id p. refl })
