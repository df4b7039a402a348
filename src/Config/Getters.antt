-- ===== src/Config/Getters.antt =====
-- internal/config/config.go: the getters of the configuration, and what it holds of the service key.
use apm_go.Prelude.{
  Bool, true, false, List, [], ◌∷◌, ◌++◌, Option, some, Bytes, codes, is_empty, split, starts_with,
  drop, length, trim_space, if◌then◌else◌, ◌>>=◌,
}
use apm_go.Prelude.Int.{ℤ}
use apm_go.Config.{configured}
use apm_go.Config.Fields.{Config, ReporterOptions}
use apm_go.Config.Host.{get_collector}
use apm_go.Oboe.Urls.{TransactionFilter}

pub record ServiceKey : Type 0 where
  pub token : Bytes
  pub service_name : Bytes

-- strings.Replace with one replacement at most.
unfoldable pub replace_first : Bytes → Bytes → Bytes → Bytes
unfolding starts_with
replace_first old new [] = if is_empty old then new else []
replace_first old new (c ∷ s) =
    if starts_with old (c ∷ s)
    then new ++ drop (length old) (c ∷ s)
    else c ∷ replace_first old new s

-- GetOtelCollector, of the collector's address.
unfoldable pub otel_collector : Bytes → Bytes
unfolding replace_first starts_with
otel_collector address =
    let apm_collector = replace_first (codes "apm") (codes "otel") address in
    if starts_with (codes "http") apm_collector
    then apm_collector
    else codes "https://" ++ apm_collector

-- A key of two parts, neither of them empty; the flag says whether it is one.
unfoldable pub parse_service_key : Bytes → ServiceKey × Bool
unfolding split
parse_service_key key = elim (split b':' key) [
  | token ∷ service_name ∷ [] ↦
      if is_empty token
      then (record { token = token; service_name = service_name }, false)
      else if is_empty service_name
      then (record { token = token; service_name = service_name }, false)
      else (record { token = token; service_name = service_name }, true)
  | _ ↦ (record { token = []; service_name = [] }, false)
]

module _ {F : Type 0} where
  unfoldable pub get_service_key : Config F → Bytes
  get_service_key c = c.service_key

  unfoldable pub parsed_service_key : Config F → ServiceKey × Bool
  unfolding get_service_key parse_service_key
  parsed_service_key c = parse_service_key (get_service_key c)

  unfoldable pub get_api_token : Config F → Bytes
  unfolding parsed_service_key
  get_api_token c = let (key, ok) = parsed_service_key c in if ok then key.token else []

  -- `none` where the getter panics, and where it reads through a nil pointer.
  unfoldable pub get_otel_collector : Config F → Option Bytes
  unfolding get_collector otel_collector
  get_otel_collector c = do address ← get_collector c; some (otel_collector address)

  unfoldable pub config_tracing_mode : Config F → Option Bytes
  config_tracing_mode c = do s ← c.sampling; some s.tracing_mode

  unfoldable pub get_sample_rate : Config F → Option ℤ
  get_sample_rate c = do s ← c.sampling; some s.sample_rate

  unfoldable pub sampling_configured : Config F → Option Bool
  unfolding configured
  sampling_configured c = do s ← c.sampling; some (configured s)

  unfoldable pub get_transaction_name : Config F → Bytes
  unfolding trim_space
  get_transaction_name c = trim_space c.transaction_name

  unfoldable pub get_trusted_path : Config F → Bytes
  get_trusted_path c = c.trusted_path

  unfoldable pub get_prepend_domain : Config F → Bool
  get_prepend_domain c = c.prepend_domain

  unfoldable pub get_host_alias : Config F → Bytes
  get_host_alias c = c.host_alias

  unfoldable pub get_precision : Config F → ℤ
  get_precision c = c.precision

  unfoldable pub get_enabled : Config F → Bool
  get_enabled c = c.is_enabled

  unfoldable pub get_reporter : Config F → Option ReporterOptions
  get_reporter c = c.reporter_properties

  unfoldable pub get_ec2_metadata_timeout : Config F → ℤ
  get_ec2_metadata_timeout c = c.ec2_metadata_timeout

  unfoldable pub get_debug_level : Config F → Bytes
  get_debug_level c = c.debug_level

  unfoldable pub get_trigger_trace : Config F → Bool
  get_trigger_trace c = c.trigger_trace

  unfoldable pub get_proxy : Config F → Bytes
  get_proxy c = c.proxy

  unfoldable pub get_proxy_cert_path : Config F → Bytes
  get_proxy_cert_path c = c.proxy_cert_path

  unfoldable pub get_runtime_metrics : Config F → Bool
  get_runtime_metrics c = c.runtime_metrics

  unfoldable pub get_token_bucket_cap : Config F → F
  get_token_bucket_cap c = c.token_bucket_cap

  unfoldable pub get_token_bucket_rate : Config F → F
  get_token_bucket_rate c = c.token_bucket_rate

  unfoldable pub get_report_query_string : Config F → Bool
  get_report_query_string c = c.report_query_string

  unfoldable pub get_transaction_filtering : Config F → Option (List TransactionFilter)
  get_transaction_filtering c = c.transaction_settings

  unfoldable pub get_sql_sanitize : Config F → ℤ
  get_sql_sanitize c = c.sql_sanitize

-- The methods of ReporterOptions; a load and a store are one step each.
unfoldable pub get_event_flush_interval : ReporterOptions → ℤ
get_event_flush_interval r = r.event_flush_interval

unfoldable pub get_max_req_bytes : ReporterOptions → ℤ
get_max_req_bytes r = r.max_req_bytes

unfoldable pub set_event_flush_interval : ℤ → ReporterOptions → ReporterOptions
set_event_flush_interval i r = record r { event_flush_interval = i }

unfoldable pub set_max_req_bytes : ℤ → ReporterOptions → ReporterOptions
set_max_req_bytes i r = record r { max_req_bytes = i }
