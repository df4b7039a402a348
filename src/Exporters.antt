-- ===== src/Exporters.antt =====
-- internal/otelsetup/ and internal/proxy/helpers.go: the options with which the exporters of spans and metrics are made. The
-- environment is a function, changed by os.Setenv; gRPC, TLS, URLs and files are interfaces, and text is ASCII.
pub mod Auth
use apm_go.Prelude.{
  ℕ, Bool, true, false, not, ◌&&◌, ◌||◌, List, [], ◌∷◌, ◌++◌, Option, none, some, Bytes, codes,
  bytes_eq, is_empty, starts_with, drop, ◌==◌, if◌then◌else◌,
}
use apm_go.Config.{to_lower}
use apm_go.Config.Getters.{get_proxy, get_proxy_cert_path, get_api_token}
use apm_go.Config.Fields.{Config}
use apm_go.Config.Values.{getenv}
use apm_go.Prelude.Find.{contains}

abbrev pub Env : Type 0
Env = Bytes → Option Bytes

unfoldable pub setenv : Bytes → Bytes → Env → Env
setenv name value env other = if bytes_eq other name then some value else env other

unfoldable pub is_exporting_to_swo : Bytes → Bool
unfolding contains
is_exporting_to_swo endpoint = contains (codes "solarwinds.com") endpoint

-- The first name ends in a space.
unfoldable pub has_authorization_header_set : Env → Bool
unfolding contains to_lower
has_authorization_header_set env = elim (env (codes "OTEL_EXPORTER_OTLP_TRACES_HEADERS ")) [
  | some trace_headers ↦ contains (codes "authorization") (to_lower trace_headers)
  | none ↦ elim (env (codes "OTEL_EXPORTER_OTLP_HEADERS")) [
    | some otlp_headers ↦ contains (codes "authorization") (to_lower otlp_headers)
    | none ↦ false
  ]
]

-- The endpoint, and the environment afterwards; the collector's address is the configuration's. Setenv succeeds.
unfoldable pub get_and_setup_exporter_endpoint : Bytes → Bytes → Env → Bytes × Env
unfolding setenv
get_and_setup_exporter_endpoint variable otel_collector env = elim (env variable) [
  | some endpoint ↦ (endpoint, env)
  | none ↦ elim (env (codes "OTEL_EXPORTER_OTLP_ENDPOINT")) [
    | some endpoint ↦ (endpoint, env)
    | none ↦ (otel_collector, setenv variable otel_collector env)
  ]
]

-- What is behind the first "://".
unfoldable pub after_scheme : Bytes → Option Bytes
unfolding starts_with
after_scheme [] = none
after_scheme (c ∷ s) =
    if starts_with (codes "://") (c ∷ s) then some (drop 3 (c ∷ s)) else after_scheme s

unfoldable pub replace_scheme_with_passthrough : Bytes → Bytes
unfolding after_scheme
replace_scheme_with_passthrough endpoint = elim (after_scheme endpoint) [
  | none ↦ codes "passthrough:///" ++ endpoint
  | some rest ↦ codes "passthrough:///" ++ rest
]

-- ProxyOptions, by which the dialer connects.
pub record ProxyOptions : Type 0 where
  pub proxy : Bytes
  pub proxy_cert_path : Bytes

-- The options that are given to the exporter's constructor.
pub data ExporterOption : Type 0 where
  with_endpoint with_bearer_token : Bytes → ExporterOption
  with_proxy_dialer : ProxyOptions → ExporterOption
  with_gzip with_temporality_selector : ExporterOption

module _ {F : Type 0} where
  -- The options that both exporters have: the proxy's, and the token, unless a header has one.
  unfoldable pub connection_options : Config F → Bytes → Env → List ExporterOption
  unfolding replace_scheme_with_passthrough is_exporting_to_swo has_authorization_header_set
      get_proxy get_proxy_cert_path get_api_token
  connection_options c endpoint env =
      (if not (is_empty (get_proxy c))
        then with_endpoint (replace_scheme_with_passthrough endpoint)
          ∷ with_proxy_dialer
              (record { proxy = get_proxy c; proxy_cert_path = get_proxy_cert_path c })
          ∷ []
        else [])
      ++ (if is_exporting_to_swo endpoint && not (has_authorization_header_set env)
          then with_bearer_token (get_api_token c) ∷ []
          else [])

  -- CreateAndSetupOtelExporter up to the constructor: its options, and the environment.
  unfoldable pub span_exporter_options : Config F → Bytes → Env → List ExporterOption × Env
  unfolding connection_options get_and_setup_exporter_endpoint getenv
  span_exporter_options c otel_collector env =
      let (endpoint, after) =
        get_and_setup_exporter_endpoint (codes "OTEL_EXPORTER_OTLP_TRACES_ENDPOINT") otel_collector
          env in
      (
        connection_options c endpoint after
            ++ (if not (is_empty (getenv after (codes "OTEL_EXPORTER_OTLP_COMPRESSION")))
                  && not (is_empty (getenv after (codes "OTEL_EXPORTER_OTLP_TRACES_COMPRESSION")))
                then with_gzip ∷ []
                else []),
        after,
      )

  -- CreateAndSetupOtelMetricsExporter up to the constructor.
  unfoldable pub metrics_exporter_options : Config F → Bytes → Env → List ExporterOption × Env
  unfolding connection_options get_and_setup_exporter_endpoint getenv setenv
  metrics_exporter_options c otel_collector env =
      let (endpoint, after) =
        get_and_setup_exporter_endpoint (codes "OTEL_EXPORTER_OTLP_METRICS_ENDPOINT") otel_collector
          env in
      let name = codes "OTEL_EXPORTER_OTLP_METRICS_DEFAULT_HISTOGRAM_AGGREGATION" in
      (
        (with_temporality_selector ∷ with_gzip ∷ []) ++ connection_options c endpoint after,
        if is_empty (getenv after name)
            then setenv name (codes "base2_exponential_bucket_histogram") after
            else after,
      )

-- MetricTemporalitySelector: cumulative for the two kinds of counters that go down, by the SDK's kinds.
pub data InstrumentKind : Type 0 where
  counter up_down_counter histogram gauge : InstrumentKind
  observable_counter observable_up_down_counter observable_gauge : InstrumentKind

pub data Temporality : Type 0 where
  cumulative delta_temporality : Temporality

unfoldable pub metric_temporality_selector : InstrumentKind → Temporality
metric_temporality_selector up_down_counter = cumulative
metric_temporality_selector observable_up_down_counter = cumulative
metric_temporality_selector _ = delta_temporality

-- bearerTokenAuthCred.GetRequestMetadata
unfoldable pub get_request_metadata : Bytes → List (Bytes × Bytes)
get_request_metadata token = (codes "authorization", codes "Bearer " ++ token) ∷ []
