-- ===== src/Exporters/Auth.antt =====
-- When the exporters send the token of the service key.
use apm_go.Prelude.{
  Bool, sym, ◌∙◌, not, ◌&&◌, List, [], ◌∷◌, Option, none, some, ◌≡◌, arith, Bytes, codes, bytes_eq,
  if◌then◌else◌,
}
use apm_go.Prelude.Find.{contains}
use apm_go.Config.{to_lower}
use apm_go.Exporters.{
  Env, ExporterOption, with_bearer_token, connection_options, span_exporter_options,
  get_and_setup_exporter_endpoint, has_authorization_header_set, is_exporting_to_swo, setenv,
}
use apm_go.Config.Fields.{Config}
use apm_go.Config.Getters.{get_api_token}

-- The token among the options.
abbrev pub sent_token : List ExporterOption → Option Bytes
sent_token [] = none
sent_token (with_bearer_token token ∷ os) = some token
sent_token (_ ∷ os) = sent_token os

-- The endpoint of the exporter of spans: the first of two variables that is set, and else the collector.
abbrev pub span_endpoint : Bytes → Env → Bytes
span_endpoint collector env = elim (env (codes "OTEL_EXPORTER_OTLP_TRACES_ENDPOINT")) [
  | some endpoint ↦ endpoint
  | none ↦ elim (env (codes "OTEL_EXPORTER_OTLP_ENDPOINT")) [
    | some endpoint ↦ endpoint
    | none ↦ collector
  ]
]

-- The headers that are looked at: of a variable whose name ends in a space, or else of the general one.
abbrev pub found_headers : Env → Bytes
found_headers env = elim (env (codes "OTEL_EXPORTER_OTLP_TRACES_HEADERS ")) [
  | some headers ↦ headers
  | none ↦ elim (env (codes "OTEL_EXPORTER_OTLP_HEADERS")) [ some headers ↦ headers | none ↦ [] ]
]

header_set_lem :
    (env : Env)
    → has_authorization_header_set env
      ≡ contains (codes "authorization") (to_lower (found_headers env))
unfolding has_authorization_header_set to_lower contains
header_set_lem env = ground arith

setup_keeps_headers :
    (collector : Bytes) (env : Env)
    → let out =
        get_and_setup_exporter_endpoint
          (codes "OTEL_EXPORTER_OTLP_TRACES_ENDPOINT")
          collector
          env in
      (out.0 ≡ span_endpoint collector env)
      × (has_authorization_header_set out.1 ≡ has_authorization_header_set env)
unfolding get_and_setup_exporter_endpoint has_authorization_header_set setenv bytes_eq
setup_keeps_headers collector env = ground arith

-- Whether a token is to be sent, from the endpoint's and the headers' texts.
abbrev pub sends : Bytes → Env → Bool
sends collector env =
    contains (codes "solarwinds.com") (span_endpoint collector env)
    && not (contains (codes "authorization") (to_lower (found_headers env)))

span_token :
    {F : Type 0} (c : Config F) (collector : Bytes) (env : Env)
    → sent_token (span_exporter_options c collector env).0
      ≡ (if sends collector env then some (get_api_token c) else none)
unfolding span_exporter_options connection_options is_exporting_to_swo
span_token c collector env = ground (arith, setup_keeps_headers collector env, header_set_lem env)

-- The exporter of spans sends the token of the service key exactly if "solarwinds.com" is in its endpoint, which is the first of
-- two variables that is set or else the collector's, and "authorization", in whatever case, is not in the headers of the
-- general variable, or of one whose name ends in a space, which comes first. The variable of the headers for traces
-- makes no difference, whatever it holds.
pub span_exporter_token :
    {F : Type 0} (c : Config F) (collector v : Bytes) (env : Env)
    → (sent_token (span_exporter_options c collector env).0
        ≡ (if sends collector env then some (get_api_token c) else none))
      × (sent_token
            (span_exporter_options c collector
              (setenv (codes "OTEL_EXPORTER_OTLP_TRACES_HEADERS") v env)).0
          ≡ sent_token (span_exporter_options c collector env).0)
unfolding setenv bytes_eq
span_exporter_token c collector v env =
    let after = setenv (codes "OTEL_EXPORTER_OTLP_TRACES_HEADERS") v env in
    (span_token c collector env, span_token c collector after ∙ sym (span_token c collector env))
