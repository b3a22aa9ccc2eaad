-- ===== src/Wasmtime/HttpProxy/Requests.antt =====
-- What http_proxy.rs of the Wasmtime shim tells a component, and which connections it serves.
use containerd_wasm.Base.{
  some, ℕ, zero, suc, ◌<◌, ◌^◌, ◌%◌, ◌++◌, ◌≡◌, ◌≢◌, refl, Option, none, List, [], ◌∷◌, true, false,
  arith, map,
}
use containerd_wasm.Base.Dict
use containerd_wasm.Base.Dict.{Dict}
use containerd_wasm.Wasmtime.HttpProxy.{
  next_req_id, Accepted, stream, connection_error, other_error, tcp_accept, ServeEvent, accepts,
  cancelled, serve,
}

abbrev pub or_else : {A : Type 0} → Option A → Option A → Option A
or_else (some a) o = some a
or_else none o = o

-- The counter after some requests.
unfoldable pub requests : ℕ → ℕ → ℕ
unfolding next_req_id
requests zero next_id = next_id
requests (suc n) next_id = (next_req_id (requests n next_id)).0

requests_lem : (n : ℕ) → requests n 0 ≡ n % (2 ^ 64)
unfolding requests next_req_id
requests_lem zero = refl
requests_lem (suc n) = let before = requests_lem n in ground arith

-- The request that comes after `n` others has the id `n`, up to 64 bits, so that of fewer than 2^64
-- requests no two have the same id.
pub next_req_id-distinct :
    (m n : ℕ)
    → ((next_req_id (requests n 0)).1 ≡ n % (2 ^ 64))
      × (m < n → n < 2 ^ 64 → (next_req_id (requests m 0)).1 ≢ (next_req_id (requests n 0)).1)
unfolding next_req_id
next_req_id-distinct m n =
    let first = requests_lem m in let second = requests_lem n in (second, λ h h'. ground arith)

-- The streams of some events.
abbrev pub streams : {S : Type 0} → List (Accepted S) → List S
streams [] = []
streams (stream s ∷ rest) = s ∷ streams rest
streams (connection_error ∷ rest) = streams rest
streams (other_error ∷ rest) = streams rest

-- The server serves each connection that it accepts before the shutdown, in their order, goes on after
-- each failure to accept, and ends at the shutdown: what comes later is not served.
pub serve-shutdown :
    {S : Type 0} (before : List (Accepted S)) (later : List (ServeEvent S))
    → (serve (map accepts before) ≡ (streams before, false))
      × (serve (map accepts before ++ cancelled ∷ later) ≡ (streams before, true))
unfolding serve tcp_accept
serve-shutdown [] later = (refl, refl)
serve-shutdown (stream s ∷ before) later =
    let rest = serve-shutdown before later in (ground arith, ground arith)
serve-shutdown (connection_error ∷ before) later = serve-shutdown before later
serve-shutdown (other_error ∷ before) later = serve-shutdown before later
