-- ===== src/Shim/Local/Registry/Refinement.antt =====
-- The task service of local.rs implements the registry that it promises.
use containerd_wasm.Base.{List, [], ◌∷◌, ◌≡◌, refl, ap, map_err, arith}
use containerd_wasm.Sandbox.Error.{to_ttrpc}
use containerd_wasm.Shim.Api.{Request}
use containerd_wasm.Shim.Local.{Host, Local, handle, shutdown, dispatch}
use containerd_wasm.Shim.Local.Steps.{serve}
use containerd_wasm.Shim.Local.Valid.{IsValid}
use containerd_wasm.Shim.Local.Invariant.{handle-IsValid}
use containerd_wasm.Shim.Local.Registry
use containerd_wasm.Shim.Local.Registry.{view}
use containerd_wasm.Shim.Local.Registry.Methods
use containerd_wasm.Shim.Local.Registry.Methods.{Agrees}
use containerd_wasm.Shim.Local.Registry.Creation.{create-Agrees}

module _ {W S : Type 0} (host : Host W S) where
  shutdown-Agrees :
      (l : Local W S) → Agrees (shutdown host) (Registry.dispatch host Request.shutdown) l
  unfolding shutdown view
  shutdown-Agrees l = (refl, ground arith)

  dispatch-Agrees :
      (r : Request) (l : Local W S)
      → IsValid l
      → Agrees (dispatch host r) (Registry.dispatch host r) l
  dispatch-Agrees (Request.create req) l v = create-Agrees host req l v
  dispatch-Agrees (Request.start req) l v = Methods.start-Agrees host req l v
  dispatch-Agrees (Request.kill req) l v = Methods.kill-Agrees host req l v
  dispatch-Agrees (Request.delete req) l v = Methods.delete-Agrees host req l v
  dispatch-Agrees (Request.wait req) l v = Methods.wait-Agrees host req l v
  dispatch-Agrees (Request.state req) l v = Methods.state-Agrees host req l v
  dispatch-Agrees (Request.stats id) l v = Methods.stats-Agrees host id l v
  dispatch-Agrees (Request.connect id) l v = Methods.connect-Agrees host id l v
  dispatch-Agrees Request.shutdown l v = shutdown-Agrees l

  handle-Agrees :
      (r : Request) (l : Local W S) → IsValid l → Agrees (handle host r) (Registry.handle host r) l
  unfolding handle Registry.handle
  handle-Agrees r l v =
      let (answer, seen) = dispatch-Agrees r l v in
      (ap (map_err (to_ttrpc host.display_shim)) answer, seen)

  -- From a valid service, any sequence of requests gets the answers of the registry that the service
  -- is seen as, failures and panics included (also those of a lock that a panic has poisoned), and leaves a service that is seen as the registry that
  -- they leave: the heap of instances, their handles and the order of the map do not show.
  pub serve-view :
      (rs : List Request) (l : Local W S)
      → IsValid l
      → ((serve (handle host) rs l).1 ≡ (serve (Registry.handle host) rs (view l)).1)
        × (view (serve (handle host) rs l).0 ≡ (serve (Registry.handle host) rs (view l)).0)
  unfolding serve
  serve-view [] l v = (refl, refl)
  serve-view (r ∷ rs) l v =
      let (answer, seen) = handle-Agrees r l v in
      let (answers, left) = serve-view rs (handle host r l).0 (handle-IsValid host r l v) in
      (rw (answers, answer, seen) refl, rw (left, seen) refl)
