-- ===== src/Shim/Local/Valid.antt =====
-- The invariant of the task service of local.rs, and that it withstands each change that a method can
-- make.
use containerd_wasm.Base.{
  text_eq_iff, ℕ, zero, suc, here, there, ◌<◌, Text, ◌++◌, ◌≡◌, ◌⊎◌, inl, inr, Option, some, List,
  [], ◌∷◌, arith, length, length-append, In, In-append_left, In-append_right, In-append_last, ap,
  ◌∙◌,
}
use containerd_wasm.Base.Dict
use containerd_wasm.Shim.Api.{CreateTaskRequest, Event, Timestamp}
use containerd_wasm.Shim.Local.{Local, Waiter}
use containerd_wasm.Shim.Local.Create.{announcement, HasRegistered, IsUntouched}
use containerd_wasm.Shim.Local.Tasks.{IsQuiet, HasStarted, HasDeleted, HasExited}
use containerd_wasm.Shim.Local.Steps.{without}

pub record IsValid {W S : Type 0} (l : Local W S) : Type 0 where
  -- Every id leads to an instance.
  pub mapped : (id : Text) (h : ℕ) → Dict.get id l.instances ≡ some h → h < length l.heap
  -- No two ids lead to one instance.
  pub distinct :
      (id id' : Text) (h : ℕ)
      → Dict.get id l.instances ≡ some h
      → Dict.get id' l.instances ≡ some h
      → id ≡ id'
  -- Every waiting thread has an instance, and the start of its process was announced.
  pub waiting :
      (w : Waiter)
      → In w l.waiters
      → (w.handle < length l.heap) × In (Event.task_start w.id w.pid) l.events
  -- No exit is announced that was not started.
  pub exits :
      (id id' : Text) (status p : ℕ) (t : Option Timestamp)
      → In (Event.task_exit id status t p id') l.events
      → In (Event.task_start id p) l.events

module _ {W S : Type 0} {l l' : Local W S} where
  pub quiet-IsValid : IsQuiet l l' → IsValid l → IsValid l'
  quiet-IsValid q v = record {
    mapped = λ id h e. rw q.size (v.mapped id h (rw q.instances at e));
    distinct = λ id id' h e f. v.distinct id id' h (rw q.instances at e) (rw q.instances at f);
    waiting = λ w m. rw (q.size, q.events) (v.waiting w (rw q.waiters at m));
    exits = λ id id' status p t m. rw q.events (v.exits id id' status p t (rw q.events at m));
  }

In-without : {A : Type 0} {a : A} (xs : List A) (i : ℕ) → In a (without xs i) → In a xs
In-without [] i m = m
In-without (x ∷ xs) zero m = there m
In-without (x ∷ xs) (suc i) here = here
In-without (x ∷ xs) (suc i) (there m) = there (In-without xs i m)

module _ {W S : Type 0} where
  pub untouched-IsQuiet : {l l' : Local W S} → IsUntouched l l' → IsQuiet l l'
  untouched-IsQuiet e = record { instances = cc; events = cc; waiters = cc; size = cc }

  pub registered-IsValid :
      {req : CreateTaskRequest} {l l' : Local W S} → HasRegistered req l l' → IsValid l → IsValid l'
  registered-IsValid {req} {l} {l'} r v = record {
    mapped = λ id h e.
        let grown = ap length r.fresh.1 ∙ length-append l.heap _ in
        ground (
          arith,
          Dict.get-put id req.id (length l.heap) l.instances,
          ap (Dict.get id) r.instances,
          v.mapped id h,
        );
    distinct = λ id id' h e f. ground (
      arith,
      Dict.get-put id req.id (length l.heap) l.instances,
      Dict.get-put id' req.id (length l.heap) l.instances,
      ap (Dict.get id) r.instances,
      ap (Dict.get id') r.instances,
      text_eq_iff req.id id,
      text_eq_iff req.id id',
      v.mapped id h,
      v.mapped id' h,
      v.distinct id id' h,
    );
    waiting = λ w m.
        let (bound, started) = v.waiting w (rw r.waiters at m) in
        let grown = ap length r.fresh.1 ∙ length-append l.heap _ in
        (omega arith, rw r.events (In-append_left _ started));
    exits = λ id id' status p t m.
        rw r.events (In-append_left _ (earlier (In-append_last l.events _ (rw r.events at m))));
  }
    where
      earlier :
          {id id' : Text} {status p : ℕ} {t : Option Timestamp}
          → In (Event.task_exit id status t p id') l.events
            ⊎ (Event.task_exit id status t p id' ≡ announcement req)
          → In (Event.task_start id p) l.events
      earlier (inl m) = v.exits _ _ _ _ _ m
      earlier (inr e) = cc

  pub started-IsValid :
      {id : Text} {h p : ℕ} {l l' : Local W S} → HasStarted id h p l l' → IsValid l → IsValid l'
  started-IsValid {id} {h} {p} {l} {l'} s v = record {
    mapped = λ id' h' e. rw s.size (v.mapped id' h' (rw s.instances at e));
    distinct =
        λ id' id'' h' e f. v.distinct id' id'' h' (rw s.instances at e) (rw s.instances at f);
    waiting = λ w m. rw (s.size, s.events) (waits w m s.waiters);
    exits = λ id' id'' status q t m.
        rw s.events (In-append_left _ (earlier (In-append_last l.events _ (rw s.events at m))));
  }
    where
      older :
          (w : Waiter)
          → In w l.waiters
          → (w.handle < length l.heap)
            × In (Event.task_start w.id w.pid) (l.events ++ Event.task_start id p ∷ [])
      older w m = ((v.waiting w m).0, In-append_left _ (v.waiting w m).1)

      newer :
          (w : Waiter)
          → In w l.waiters ⊎ (w ≡ record { id = id; handle = h; pid = p })
          → (w.handle < length l.heap)
            × In (Event.task_start w.id w.pid) (l.events ++ Event.task_start id p ∷ [])
      newer w (inl m) = older w m
      newer w (inr e) = rw e (v.mapped id h s.mapped, In-append_right l.events here)

      waits :
          (w : Waiter)
          → In w l'.waiters
          → (l'.waiters ≡ l.waiters)
            ⊎ (l'.waiters ≡ l.waiters ++ record { id = id; handle = h; pid = p } ∷ [])
          → (w.handle < length l.heap)
            × In (Event.task_start w.id w.pid) (l.events ++ Event.task_start id p ∷ [])
      waits w m (inl e) = older w (rw e at m)
      waits w m (inr e) = newer w (In-append_last l.waiters _ (rw e at m))

      earlier :
          {id' id'' : Text} {status q : ℕ} {t : Option Timestamp}
          → In (Event.task_exit id' status t q id'') l.events
            ⊎ (Event.task_exit id' status t q id'' ≡ Event.task_start id p)
          → In (Event.task_start id' q) l.events
      earlier (inl m) = v.exits _ _ _ _ _ m
      earlier (inr e) = cc

  pub deleted-IsValid : {id : Text} {l l' : Local W S} → HasDeleted id l l' → IsValid l → IsValid l'
  deleted-IsValid {id} {l} {l'} d v = record {
    mapped = λ id' h e. ground (
      arith,
      Dict.get-remove id' id l.instances,
      ap (Dict.get id') d.instances,
      v.mapped id' h,
      d.size,
    );
    distinct = λ id' id'' h' e f. ground (
      arith,
      Dict.get-remove id' id l.instances,
      Dict.get-remove id'' id l.instances,
      ap (Dict.get id') d.instances,
      ap (Dict.get id'') d.instances,
      v.distinct id' id'' h',
    );
    waiting = λ w m.
        let (bound, started) = v.waiting w (rw d.waiters at m) in
        (rw d.size bound, rw d.event.3 (In-append_left _ started));
    exits = λ id' id'' status q t m.
        rw d.event.3 (In-append_left _ (earlier (In-append_last l.events _ (rw d.event.3 at m))));
  }
    where
      earlier :
          {id' id'' : Text} {status q : ℕ} {t : Option Timestamp}
          → In (Event.task_exit id' status t q id'') l.events
            ⊎ (Event.task_exit id' status t q id''
                ≡ Event.task_delete id d.event.0 d.event.1 d.event.2)
          → In (Event.task_start id' q) l.events
      earlier (inl m) = v.exits _ _ _ _ _ m
      earlier (inr e) = cc

  pub exited-IsValid :
      {w : Waiter} {l l' : Local W S} → In w l.waiters → HasExited w l l' → IsValid l → IsValid l'
  exited-IsValid {w} {l} {l'} m x v = record {
    mapped = λ id h e. rw x.size (v.mapped id h (rw x.instances at e));
    distinct = λ id id' h e f. v.distinct id id' h (rw x.instances at e) (rw x.instances at f);
    waiting = λ u n.
        let (bound, started) = v.waiting u (rw x.waiters at n) in
        (rw x.size bound, rw x.event.2 (In-append_left _ started));
    exits = λ id id' status q t n.
        rw x.event.2 (In-append_left _ (earlier (In-append_last l.events _ (rw x.event.2 at n))));
  }
    where
      started_of :
          (id : Text) (q : ℕ)
          → id ≡ w.id
          → q ≡ w.pid
          → In (Event.task_start w.id w.pid) l.events
          → In (Event.task_start id q) l.events
      started_of id q e f s = rw (e, f) s

      earlier :
          {id id' : Text} {status q : ℕ} {t : Option Timestamp}
          → In (Event.task_exit id status t q id') l.events
            ⊎ (Event.task_exit id status t q id'
                ≡ Event.task_exit w.id x.event.0 x.event.1 w.pid w.id)
          → In (Event.task_start id q) l.events
      earlier (inl n) = v.exits _ _ _ _ _ n
      earlier {id} {id'} {status} {q} {t} (inr e) = started_of id q (cc) (cc) (v.waiting w m).1

  -- A waiting thread that ends takes nothing with it.
  pub without-IsValid :
      (l : Local W S) (i : ℕ) → IsValid l → IsValid (record l { waiters = without l.waiters i })
  without-IsValid l i v = record {
    mapped = v.mapped;
    distinct = v.distinct;
    waiting = λ w m. v.waiting w (In-without l.waiters i m);
    exits = v.exits;
  }
