-- ===== src/Otel/Settings.antt =====
-- How the switch for tracing in otel.rs and the endpoint that it takes agree.
use containerd_wasm.Base.{Text, ◌≡◌, ◌↔◌, inl, inr, Option-cases, some, [], true, ok, arith}
use containerd_wasm.Otel.{
  Env, traces_enabled, traces_endpoint_from_env, traces_endpoint_name, endpoint_name,
}

-- Where tracing is enabled and the endpoints are Unicode, there is an endpoint: that for traces, else
-- the general one. It is empty exactly when the variable for traces is set to nothing, although tracing
-- is enabled then only for the general endpoint, which is not looked at.
pub traces_enabled-traces_endpoint_from_env :
    (env : Env)
    → traces_enabled env ≡ true
    → ((v : Text) → env.is_unicode v ≡ true)
    → (endpoint : Text) × (traces_endpoint_from_env env ≡ ok endpoint)
      × ((endpoint ≡ []) ↔ (env.var_os traces_endpoint_name ≡ some []))
unfolding traces_enabled traces_endpoint_from_env
traces_enabled-traces_endpoint_from_env env h u =
    elim (Option-cases (env.var_os traces_endpoint_name)) [
      | inr (v, e) ↦ let ok_v = u v in (v, ground arith, (λ p. ground arith, λ p. ground arith))
      | inl e ↦ elim (Option-cases (env.var_os endpoint_name)) [
        | inr (v, f) ↦ let ok_v = u v in (v, ground arith, (λ p. ground arith, λ p. ground arith))
        | inl f ↦ absurd (ground arith)
      ]
    ]
