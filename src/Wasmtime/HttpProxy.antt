-- ===== src/Wasmtime/HttpProxy.antt =====
-- crates/containerd-shim-wasmtime/src/http_proxy.rs: the settings that the server takes from the
-- environment, its accept loop, and the requests.
pub mod Requests
use containerd_wasm.Base.{
  ℕ, zero, suc, ◌+◌, ◌-◌, ◌^◌, ◌%◌, Text, codes, ◌++◌, Option, none, some, List, [], ◌∷◌, Bool,
  true, false, Outcome, ok, err, panic, unwrap_or, and_then, parse_nat, print_nat,
}
use containerd_wasm.Base.Dict
use containerd_wasm.Base.Dict.{Dict}
use containerd_wasm.Sandbox.Oci.{collect}
use containerd_wasm.Container.Context.{WasiContext}
use containerd_wasm.Wasmtime.Execute.{Failure, other, envs_from_ctx}

abbrev pub addr_name : Text
addr_name = codes "WASMTIME_HTTP_PROXY_SOCKET_ADDR"

abbrev pub backlog_name : Text
backlog_name = codes "WASMTIME_HTTP_BACKLOG"

-- What `serve_conn` has before it opens its socket; addresses are of a type `A`.
pub record Settings (A : Type 0) : Type 0 where
  pub addr : A
  pub backlog : ℕ
  pub env : Dict Text

module _ {A : Type 0} (parse_addr : Text → Option A) (default_addr : A) where
  unfoldable pub settings : WasiContext → Settings A
  settings ctx =
      let env = collect (envs_from_ctx ctx) [] in
      let without_addr = Dict.remove addr_name env in
      record {
        addr = unwrap_or (and_then (Dict.get addr_name env) parse_addr) default_addr;
        backlog =
            unwrap_or (and_then (Dict.get backlog_name without_addr) (parse_nat (2 ^ 32 - 1))) 100;
        env = Dict.remove backlog_name without_addr;
      }

-- What `tcp_accept` gives, by the kind of its error: every error is a `None`, after a second of sleep
-- if it is not one of the connection's.
pub data Accepted (S : Type 0) : Type 0 where
  stream : S → Accepted S
  connection_error other_error : Accepted S

unfoldable pub tcp_accept : {S : Type 0} → Accepted S → Option S × ℕ
tcp_accept (stream s) = (some s, 0)
tcp_accept connection_error = (none, 0)
tcp_accept other_error = (none, 1)

pub data ServeEvent (S : Type 0) : Type 0 where
  accepts : Accepted S → ServeEvent S
  cancelled : ServeEvent S

abbrev with_stream : {S : Type 0} → Option S → List S → List S
with_stream none others = others
with_stream (some s) others = s ∷ others

-- The loop: the streams that are served, and whether the loop is over.
unfoldable pub serve : {S : Type 0} → List (ServeEvent S) → List S × Bool
unfolding tcp_accept
serve [] = ([], false)
serve (cancelled ∷ events) = ([], true)
serve (accepts a ∷ events) =
    let (streams, over) = serve events in (with_stream (tcp_accept a).0 streams, over)

-- `fetch_add` on an `AtomicU64`: the old value is the result.
unfoldable pub next_req_id : ℕ → ℕ × ℕ
next_req_id next_id = ((next_id + 1) % (2 ^ 64), next_id)

-- The environment that `wasi_store_for_request` gives to the builder.
unfoldable pub request_env : List (Text × Text) → ℕ → List (Text × Text)
request_env env req_id = env ++ (codes "REQUEST_ID", print_nat req_id) ∷ []

-- What `receiver` gets: an answer, an error that the guest answers with, or nothing, as the guest's
-- task has ended in the way that follows.
pub data Received (R : Type 0) : Type 0 where
  response : R → Received R
  error_response : Text → Received R
  dropped : Outcome Text (Outcome Text (Unit {0})) → Received R

abbrev never_set : Text
never_set = codes "guest never invoked `response-outparam::set` method: "

unfoldable pub answer_of : {R : Type 0} → Received R → Outcome Failure R
answer_of (response r) = ok r
answer_of (error_response e) = err (other e)
answer_of (dropped (ok (err e))) = err (other (never_set ++ e))
answer_of (dropped (ok r)) = panic
answer_of (dropped (err e)) = err (other (never_set ++ e))
answer_of (dropped panic) = panic
