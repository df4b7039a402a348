-- ===== src/Config/Delta.antt =====
-- internal/config/config.go and internal/config/validators.go: how a configuration differs from the defaults, as it is logged.
-- Reflection over the fields is written out; package net/url is an interface.
pub mod Masked
use apm_go.Prelude.{
  Bool, true, false, not, ◌&&◌, ◌||◌, List, [], ◌∷◌, ◌++◌, Option, none, some, Bytes, codes,
  bytes_eq, if◌then◌else◌,
}
use apm_go.Prelude.Decimal.{format_int}
use apm_go.Prelude.Int.{ℤ, eqb_ℤ}
use apm_go.Float.{Float64}
use apm_go.Config.{SamplingConfig, mask_service_key}
use apm_go.Config.Fields.{Config, ReporterOptions, new_config, reset}
use apm_go.Config.Getters.{replace_first}
use apm_go.Config.Values.{FloatText}
use apm_go.Oboe.Urls.{TransactionFilter}

-- What url.Parse finds, if it finds no error: whether there is a user with a password, and the text of Redacted.
pub record ParsedUrl : Type 0 where
  pub has_user : Bool
  pub has_password : Bool
  pub redacted : Bytes

pub record UrlParser : Type 0 where
  pub parse_url : Bytes → Option ParsedUrl

unfoldable pub mask_url : ⦃up : UrlParser⦄ → Bytes → Bytes
unfolding replace_first
mask_url ⦃up⦄ url_str = elim (up.parse_url url_str) [
  | none ↦ url_str
  | some parsed ↦
      if not parsed.has_user
      then url_str
      else if not parsed.has_password
      then url_str
      else replace_first (codes "xxxxx") (codes "****") parsed.redacted
]

pub record DeltaItem : Type 0 where
  pub key : Bytes
  pub env : Bytes
  pub value : Bytes
  pub default_val : Bytes

-- One field that is no struct: an item if its values differ. The texts are `%+v` of the changed value and of the base.
unfoldable pub delta_item : Bytes → Bytes → Bool → Bytes → Bytes → List DeltaItem
delta_item key env equal value default_val =
    if not equal
    then record { key = key; env = env; value = value; default_val = default_val } ∷ []
    else []

unfoldable pub text_delta : Bytes → Bytes → Bytes → Bytes → List DeltaItem
unfolding delta_item
text_delta key env base changed = delta_item key env (bytes_eq base changed) changed base

unfoldable pub int_delta : Bytes → Bytes → ℤ → ℤ → List DeltaItem
unfolding delta_item
int_delta key env base changed =
    delta_item key env (eqb_ℤ base changed) (format_int changed) (format_int base)

abbrev show_bool : Bool → Bytes
show_bool b = if b then codes "true" else codes "false"

unfoldable pub bool_delta : Bytes → Bytes → Bool → Bool → List DeltaItem
unfolding delta_item
bool_delta key env base changed =
    delta_item key env ((base && changed) || (not base && not changed)) (show_bool changed)
      (show_bool base)

-- Floats are equal if neither is below the other; the text is the one of `%+v`.
unfoldable pub float_delta :
    {F : Type 0} ⦃fl : Float64 F⦄ ⦃ft : FloatText F⦄ → Bytes → Bytes → F → F → List DeltaItem
unfolding delta_item
float_delta ⦃fl⦄ ⦃ft⦄ key env base changed =
    delta_item key env (fl.le_f base changed && fl.le_f changed base) (ft.show_float changed)
      (ft.show_float base)

unfoldable pub join_spaces : List Bytes → Bytes
join_spaces [] = []
join_spaces (a ∷ []) = a
join_spaces (a ∷ b ∷ ts) = a ++ b' ' ∷ join_spaces (b ∷ ts)

unfoldable pub show_filter : TransactionFilter → Bytes
unfolding join_spaces
show_filter f =
    codes "{Type:"
    ++ f.filter_type
    ++ codes " RegEx:"
    ++ f.regex
    ++ codes " Extensions:["
    ++ join_spaces f.extensions
    ++ codes "] Tracing:"
    ++ f.tracing
    ++ codes "}"

unfoldable pub show_filter_list : List TransactionFilter → List Bytes
unfolding show_filter
show_filter_list [] = []
show_filter_list (f ∷ fs) = show_filter f ∷ show_filter_list fs

unfoldable pub show_filters : Option (List TransactionFilter) → Bytes
unfolding show_filter_list join_spaces
show_filters none = codes "[]"
show_filters (some fs) = codes "[" ++ join_spaces (show_filter_list fs) ++ codes "]"

-- The base of the delta is the default, which has a nil slice.
abbrev is_nil : Option (List TransactionFilter) → Bool
is_nil none = true
is_nil (some fs) = false

unfoldable pub filters_delta : Bytes → Bytes → Option (List TransactionFilter) → List DeltaItem
unfolding delta_item show_filters
filters_delta key env changed =
    delta_item key env (is_nil changed) (show_filters changed) (codes "[]")

unfoldable pub sampling_delta : Option SamplingConfig → Option SamplingConfig → List DeltaItem
unfolding text_delta int_delta
sampling_delta (some base) (some changed) =
    text_delta (codes "Sampling.TracingMode") (codes "SW_APM_TRACING_MODE") base.tracing_mode
      changed.tracing_mode
    ++ int_delta (codes "Sampling.SampleRate") (codes "SW_APM_SAMPLE_RATE") base.sample_rate
        changed.sample_rate
sampling_delta _ _ = []

unfoldable pub reporter_delta : Option ReporterOptions → Option ReporterOptions → List DeltaItem
unfolding int_delta
reporter_delta (some base) (some changed) =
    int_delta (codes "ReporterProperties.EventFlushInterval") (codes "SW_APM_EVENTS_FLUSH_INTERVAL")
      base.event_flush_interval changed.event_flush_interval
    ++ int_delta (codes "ReporterProperties.MaxReqBytes") (codes "SW_APM_MAX_REQUEST_BYTES")
        base.max_req_bytes changed.max_req_bytes
    ++ int_delta (codes "ReporterProperties.MetricFlushInterval") [] base.metric_flush_interval
        changed.metric_flush_interval
    ++ int_delta (codes "ReporterProperties.GetSettingsInterval") [] base.get_settings_interval
        changed.get_settings_interval
    ++ int_delta (codes "ReporterProperties.SettingsTimeoutInterval") []
        base.settings_timeout_interval changed.settings_timeout_interval
    ++ int_delta (codes "ReporterProperties.PingInterval") [] base.ping_interval
        changed.ping_interval
    ++ int_delta (codes "ReporterProperties.RetryDelayInitial") [] base.retry_delay_initial
        changed.retry_delay_initial
    ++ int_delta (codes "ReporterProperties.RetryDelayMax") [] base.retry_delay_max
        changed.retry_delay_max
    ++ int_delta (codes "ReporterProperties.RedirectMax") [] base.redirect_max changed.redirect_max
    ++ int_delta (codes "ReporterProperties.RetryLogThreshold") [] base.retry_log_threshold
        changed.retry_log_threshold
    ++ int_delta (codes "ReporterProperties.MaxRetries") [] base.max_retries changed.max_retries
reporter_delta _ _ = []

module _ {F : Type 0} ⦃fl : Float64 F⦄ ⦃ft : FloatText F⦄ where
  -- getDelta, of the default configuration and another.
  unfoldable pub config_delta : Config F → Config F → List DeltaItem
  unfolding text_delta int_delta bool_delta float_delta filters_delta sampling_delta reporter_delta
  config_delta base changed =
      text_delta (codes "Collector") (codes "SW_APM_COLLECTOR") base.collector changed.collector
      ++ text_delta (codes "SettingsURL") [] base.settings_url changed.settings_url
      ++ text_delta (codes "ServiceKey") (codes "SW_APM_SERVICE_KEY") base.service_key
          changed.service_key
      ++ text_delta (codes "TrustedPath") (codes "SW_APM_TRUSTEDPATH") base.trusted_path
          changed.trusted_path
      ++ sampling_delta base.sampling changed.sampling
      ++ bool_delta (codes "PrependDomain") (codes "SW_APM_PREPEND_DOMAIN") base.prepend_domain
          changed.prepend_domain
      ++ text_delta (codes "HostAlias") (codes "SW_APM_HOSTNAME_ALIAS") base.host_alias
          changed.host_alias
      ++ int_delta (codes "Precision") (codes "SW_APM_HISTOGRAM_PRECISION") base.precision
          changed.precision
      ++ int_delta (codes "SQLSanitize") (codes "SW_APM_SQL_SANITIZE") base.sql_sanitize
          changed.sql_sanitize
      ++ reporter_delta base.reporter_properties changed.reporter_properties
      ++ filters_delta (codes "TransactionSettings") [] changed.transaction_settings
      ++ bool_delta (codes "Enabled") (codes "SW_APM_ENABLED") base.is_enabled changed.is_enabled
      ++ int_delta (codes "Ec2MetadataTimeout") (codes "SW_APM_EC2_METADATA_TIMEOUT")
          base.ec2_metadata_timeout changed.ec2_metadata_timeout
      ++ text_delta (codes "DebugLevel") (codes "SW_APM_DEBUG_LEVEL") base.debug_level
          changed.debug_level
      ++ bool_delta (codes "TriggerTrace") (codes "SW_APM_TRIGGER_TRACE") base.trigger_trace
          changed.trigger_trace
      ++ text_delta (codes "Proxy") (codes "SW_APM_PROXY") base.proxy changed.proxy
      ++ text_delta (codes "ProxyCertPath") (codes "SW_APM_PROXY_CERT_PATH") base.proxy_cert_path
          changed.proxy_cert_path
      ++ bool_delta (codes "RuntimeMetrics") (codes "SW_APM_RUNTIME_METRICS") base.runtime_metrics
          changed.runtime_metrics
      ++ bool_delta (codes "ReportQueryString") (codes "SW_APM_REPORT_QUERY_STRING")
          base.report_query_string changed.report_query_string
      ++ float_delta (codes "TokenBucketCap") (codes "SW_APM_TOKEN_BUCKET_CAPACITY")
          base.token_bucket_cap changed.token_bucket_cap
      ++ float_delta (codes "TokenBucketRate") (codes "SW_APM_TOKEN_BUCKET_RATE")
          base.token_bucket_rate changed.token_bucket_rate
      ++ text_delta (codes "TransactionName") (codes "SW_APM_TRANSACTION_NAME")
          base.transaction_name changed.transaction_name

-- The loop of sanitize: the service key and the proxy's password are masked.
unfoldable pub sanitize_item : ⦃up : UrlParser⦄ → DeltaItem → DeltaItem
unfolding mask_url mask_service_key
sanitize_item i =
    if bytes_eq i.key (codes "ServiceKey")
    then record i { value = mask_service_key i.value }
    else if bytes_eq i.key (codes "Proxy")
    then record i { value = mask_url i.value }
    else i

unfoldable pub sanitize : ⦃up : UrlParser⦄ → List DeltaItem → List DeltaItem
unfolding sanitize_item
sanitize [] = []
sanitize (i ∷ delta) = sanitize_item i ∷ sanitize delta

unfoldable pub get_delta :
    {F : Type 0} ⦃fl : Float64 F⦄ ⦃ft : FloatText F⦄ ⦃up : UrlParser⦄ → Config F → List DeltaItem
unfolding config_delta sanitize
get_delta c = sanitize (config_delta (reset new_config) c)

-- Delta.String
unfoldable pub show_item : DeltaItem → Bytes
show_item i =
    codes " - "
    ++ i.key
    ++ codes " ("
    ++ i.env
    ++ codes ") = "
    ++ i.value
    ++ codes " (default: "
    ++ i.default_val
    ++ codes ")"

unfoldable pub show_delta : List DeltaItem → Bytes
unfolding show_item
show_delta [] = []
show_delta (i ∷ []) = show_item i
show_delta (i ∷ j ∷ delta) = show_item i ++ 10 ∷ show_delta (j ∷ delta)
