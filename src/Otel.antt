-- ===== src/Otel.antt =====
-- crates/containerd-shim-wasm/src/sandbox/shim/otel.rs: what the environment says about tracing, and how
-- a trace is handed on. The opentelemetry crates are the record `Sdk`.
pub mod Settings
use containerd_wasm.Base.{
  List, [], ◌∷◌, ◌++◌, Exec, ◌>>=◌, ◌>>◌, lift, reads, modify, ℕ, Text, codes, Option, none, some,
  Bool, true, false, not, ◌&&◌, ◌||◌, if◌then◌else◌, Outcome, ok, err, ◌>>?◌, unwrap_or, is_empty,
  text_eq,
}
use containerd_wasm.Base.Dict
use containerd_wasm.Base.Dict.{Dict}

-- The variables, as `env::var_os` gives them, and what is valid Unicode.
pub record Env : Type 0 where
  pub var_os : Text → Option Text
  pub is_unicode : Text → Bool

pub data VarError : Type 0 where
  not_present not_unicode : VarError

pub data Protocol : Type 0 where
  http_binary http_json grpc : Protocol

pub data ConfigError : Type 0 where
  var : VarError → ConfigError
  invalid_protocol : ConfigError

pub record Config : Type 0 where
  pub traces_endpoint : Text
  pub traces_protocol : Protocol

abbrev pub traces_endpoint_name : Text
traces_endpoint_name = codes "OTEL_EXPORTER_OTLP_TRACES_ENDPOINT"

abbrev pub endpoint_name : Text
endpoint_name = codes "OTEL_EXPORTER_OTLP_ENDPOINT"

abbrev pub traces_protocol_name : Text
traces_protocol_name = codes "OTEL_EXPORTER_OTLP_TRACES_PROTOCOL"

abbrev pub protocol_name : Text
protocol_name = codes "OTEL_EXPORTER_OTLP_PROTOCOL"

abbrev pub disabled_name : Text
disabled_name = codes "OTEL_SDK_DISABLED"

abbrev pub is_some_and : Option Text → (Text → Bool) → Bool
is_some_and none p = false
is_some_and (some v) p = p v

-- `env::var`.
abbrev pub checked : Env → Option Text → Outcome VarError Text
checked env none = err not_present
checked env (some v) = if env.is_unicode v then ok v else err not_unicode

abbrev pub var_of : Env → Text → Outcome VarError Text
var_of env name = checked env (env.var_os name)

unfoldable pub traces_enabled : Env → Bool
traces_enabled env =
    (is_some_and (env.var_os traces_endpoint_name) (λ v. not (is_empty v))
      || is_some_and (env.var_os endpoint_name) (λ v. not (is_empty v)))
    && not (is_some_and (env.var_os disabled_name) (λ v. text_eq v (codes "true")))

-- `r.or_else(|_| other)`.
abbrev or_else : Outcome VarError Text → Outcome VarError Text → Outcome VarError Text
or_else (ok v) other = ok v
or_else (err e) other = other
or_else Outcome.panic other = Outcome.panic

unfoldable pub traces_endpoint_from_env : Env → Outcome VarError Text
traces_endpoint_from_env env = or_else (var_of env traces_endpoint_name) (var_of env endpoint_name)

abbrev or_default : Outcome VarError Text → Text → Text
or_default (ok v) d = v
or_default _ d = d

abbrev pub protocol_of : Text → Outcome ConfigError Protocol
protocol_of p =
    if text_eq p (codes "http/protobuf")
    then ok http_binary
    else if text_eq p (codes "grpc")
    then ok grpc
    else if text_eq p (codes "http/json")
    then ok http_json
    else err invalid_protocol

-- `default` is the protocol that the exporter's crate has as its default.
unfoldable pub traces_protocol_from_env : Text → Env → Outcome ConfigError Protocol
traces_protocol_from_env default env =
    protocol_of
      (or_default (var_of env traces_protocol_name) (or_default (var_of env protocol_name) default))

abbrev wrapped : Outcome VarError Text → Outcome ConfigError Text
wrapped (ok v) = ok v
wrapped (err e) = err (var e)
wrapped Outcome.panic = Outcome.panic

unfoldable pub build_from_env : Text → Env → Outcome ConfigError Config
unfolding traces_endpoint_from_env traces_protocol_from_env
build_from_env default env = wrapped (traces_endpoint_from_env env) >>? λ endpoint.
    traces_protocol_from_env default env >>? λ protocol.
    ok (record { traces_endpoint = endpoint; traces_protocol = protocol })

pub data Transport : Type 0 where
  http tonic : Transport

pub record Exporter : Type 0 where
  pub transport : Transport
  pub endpoint : Text

-- What is known of a trace, by name.
abbrev pub Carrier : Type 0
Carrier = Dict Text

pub record Sdk (W : Type 0) : Type 0 where
  pub install_batch : Exporter → Exec W Text (Unit {0})
  pub set_text_map_propagator : W → W
  pub env_filter : Text → Outcome Text (Unit {0})
  pub set_global_default : Exec W Text (Unit {0})
  pub shutdown_tracer_provider : W → W
  -- The context of the current span.
  pub inject_context : W → Carrier
  -- Makes what is extracted the parent of the current span.
  pub set_parent : Carrier → W → W
  pub to_json : Carrier → Outcome Text Text
  pub from_json : Text → Outcome Text Carrier

abbrev pub exporter_of : Config → Exporter
exporter_of c = elim c.traces_protocol [
  | http_binary ↦ record { transport = http; endpoint = c.traces_endpoint }
  | http_json ↦ record { transport = http; endpoint = c.traces_endpoint }
  | grpc ↦ record { transport = tonic; endpoint = c.traces_endpoint }
]

module _ {W : Type 0} (sdk : Sdk W) where
  unfoldable pub init_tracer : Config → Exec W Text (Unit {0})
  init_tracer c = sdk.install_batch (exporter_of c)

  -- What it returns is the guard, whose drop is `drop_guard`.
  unfoldable pub init : Config → Exec W Text (Unit {0})
  unfolding init_tracer
  init c = do
    init_tracer c
    modify sdk.set_text_map_propagator
    lift (sdk.env_filter (codes "info,h2=off"))
    sdk.set_global_default

  unfoldable pub drop_guard : W → W
  drop_guard w = sdk.shutdown_tracer_provider w

  unfoldable pub get_trace_context : Exec W Text Text
  get_trace_context = reads (λ w. sdk.to_json (sdk.inject_context w))

  unfoldable pub set_trace_context : Text → Exec W Text (Unit {0})
  set_trace_context trace_context = do
    extractor ← lift (sdk.from_json trace_context)
    modify (sdk.set_parent extractor)

-- `SpanNamingLayer`: the name that a new span gets, where it has data of opentelemetry.
abbrev pub span_name : Text → Text → Option Text → Option Text
span_name target original_name none = none
span_name target original_name (some name) = some (target ++ (codes "::" ++ original_name))

-- `MetadataExtractor`: of several values of a key, the first.
abbrev pub first : Option (List Text) → Option Text
first none = none
first (some []) = none
first (some (v ∷ vs)) = some v

unfoldable pub metadata_get : Dict (List Text) → Text → Option Text
metadata_get metadata key = first (Dict.get key metadata)

unfoldable pub metadata_keys : Dict (List Text) → List Text
metadata_keys [] = []
metadata_keys ((k, v) ∷ metadata) = k ∷ metadata_keys metadata
