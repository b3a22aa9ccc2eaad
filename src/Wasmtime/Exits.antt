-- ===== src/Wasmtime/Exits.antt =====
-- What a container that Wasmtime runs exits with: instance.rs of the Wasmtime shim.
use containerd_wasm.Base.{
  ℕ, Text, codes, ◌≡◌, ◌≢◌, refl, none, some, List, [], ◌∷◌, ◌++◌, Bool, true, false, Outcome, ok,
  arith, starts_with,
}
use containerd_wasm.Wasmtime.Execute.{
  command, http_proxy, core, target_of, new, Failure, Signal, quit, terminate, interrupt,
  wait_for_signal, Event, finishes, receives, select,
}

-- No export is one of those that name a target.
unfoldable pub all_other : List Text → Bool
all_other [] = true
all_other (name ∷ exports) =
    let rest = all_other exports in elim (target_of name) [ none ↦ rest | some t ↦ false ]

-- The first export that names a target decides, whatever comes after it; where none does, the
-- function of the entry point is called.
pub new-first :
    (before after : List Text) (name f : Text)
    → all_other before ≡ true
    → (new before f ≡ core f)
      × (starts_with (codes "wasi:http/incoming-handler") name ≡ true
          → new (before ++ name ∷ after) f ≡ http_proxy)
      × (starts_with (codes "wasi:http/incoming-handler") name ≡ false
          → starts_with (codes "wasi:cli/run") name ≡ true
          → new (before ++ name ∷ after) f ≡ command)
unfolding new all_other
new-first [] after name f h = (refl, λ s. ground arith, λ s t. ground arith)
new-first (b ∷ before) after name f h =
    let rest = new-first before after name f in
    (ground arith, λ s. ground arith, λ s t. ground arith)

-- A component that runs is ended by the first SIGTERM, with 143, if it has had no other signal. Any
-- other first signal only asks it to shut down: it exits then with what it comes to itself, or, at the
-- second signal, with that signal's number. Two signals always end it.
pub select-signals :
    (run : Bool → Outcome Failure ℕ) (s : Signal) (events : List Event)
    → (select run false (receives terminate ∷ events) ≡ some (ok 143))
      × (s ≢ terminate
          → (select run false (receives s ∷ finishes ∷ events) ≡ some (run true))
            × ((s' : Signal)
                → select run false (receives s ∷ receives s' ∷ events)
                  ≡ some (ok (wait_for_signal s'))))
      × ((s' : Signal) → select run false (receives s ∷ receives s' ∷ events) ≢ none)
unfolding select wait_for_signal
select-signals run quit events =
    (ground arith, λ n. (ground arith, λ s'. ground arith), λ s'. ground arith)
select-signals run terminate events =
    (ground arith, λ n. (ground arith, λ s'. ground arith), λ s'. ground arith)
select-signals run interrupt events =
    (ground arith, λ n. (ground arith, λ s'. ground arith), λ s'. ground arith)
