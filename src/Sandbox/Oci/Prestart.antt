-- ===== src/Sandbox/Oci/Prestart.antt =====
-- What running the prestart hooks of oci.rs can give.
use containerd_wasm.Base.{◌≡◌, refl, ℕ, none, some, List, [], ◌∷◌, ok, panic}
use containerd_wasm.Sandbox.Oci.{
  Hook, Hooks, Command, Processes, hook_command, feed, run_hook, run_hooks, setup_prestart_hooks,
}

module _ {W : Type 0} (os : Processes W) where
  run_hook_ok :
      (h : Hook) (w : W)
      → ((c : Command) (v : W) → (child : ℕ) × ((os.spawn c v).1 ≡ ok child))
      → ((child : ℕ) (v : W) → (status : ℕ) × ((os.wait_child child v).1 ≡ ok status))
      → (run_hook os h w).1 ≡ ok tt
  unfolding run_hook
  run_hook_ok h w spawns waits =
      let (child, e) = spawns (hook_command h) w in
      let (status, f) = waits child (feed os child (os.spawn (hook_command h) w).0) in rw e (rw f)

  -- If every hook can be started and waited for, the hooks succeed, whatever their exit statuses
  -- are and whatever becomes of the text that is written to them.
  pub run_hooks_any_status :
      (hs : List Hook) (w : W)
      → ((c : Command) (v : W) → (child : ℕ) × ((os.spawn c v).1 ≡ ok child))
      → ((child : ℕ) (v : W) → (status : ℕ) × ((os.wait_child child v).1 ≡ ok status))
      → (run_hooks os hs w).1 ≡ ok tt
  unfolding run_hooks
  run_hooks_any_status [] w spawns waits = refl
  run_hooks_any_status (h ∷ hs) w spawns waits =
      rw (run_hook_ok h w spawns waits) (run_hooks_any_status hs (run_hook os h w).0 spawns waits)

  -- A spec with hooks, but without a list of prestart hooks, makes the shim panic.
  pub setup_prestart_hooks-no_prestart :
      (h : Hooks) (w : W) → h.prestart ≡ none → setup_prestart_hooks os (some h) w ≡ (w, panic)
  unfolding setup_prestart_hooks
  setup_prestart_hooks-no_prestart h w e = rw e
