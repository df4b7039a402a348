-- ===== src/Config/Fields.antt =====
-- internal/config/config.go and internal/config/reporter.go: the configuration's fields, their defaults, and what options
-- do. Reflection over the fields is written out field by field, with the struct tags in it.
use apm_go.Prelude.{Bool, false, List, [], ◌∷◌, Option, none, some, Bytes, codes}
use apm_go.Prelude.Int.{ℤ, pos}
use apm_go.Config.{SamplingConfig, reset_tracing_mode, reset_sample_rate}
use apm_go.Config.Values.{FloatText, int_value, string_value, bool_value, float_value}
use apm_go.Oboe.Urls.{TransactionFilter}

pub record ReporterOptions : Type 0 where
  pub event_flush_interval : ℤ
  pub max_req_bytes : ℤ
  pub metric_flush_interval : ℤ
  pub get_settings_interval : ℤ
  pub settings_timeout_interval : ℤ
  pub ping_interval : ℤ
  pub retry_delay_initial : ℤ
  pub retry_delay_max : ℤ
  pub redirect_max : ℤ
  pub retry_log_threshold : ℤ
  pub max_retries : ℤ

-- `none` is a nil pointer or a nil slice.
pub record Config (F : Type 0) : Type 0 where
  pub collector : Bytes
  pub settings_url : Bytes
  pub service_key : Bytes
  pub trusted_path : Bytes
  pub sampling : Option SamplingConfig
  pub prepend_domain : Bool
  pub host_alias : Bytes
  pub precision : ℤ
  pub sql_sanitize : ℤ
  pub reporter_properties : Option ReporterOptions
  pub transaction_settings : Option (List TransactionFilter)
  pub is_enabled : Bool
  pub ec2_metadata_timeout : ℤ
  pub debug_level : Bytes
  pub trigger_trace : Bool
  pub proxy : Bytes
  pub proxy_cert_path : Bytes
  pub runtime_metrics : Bool
  pub report_query_string : Bool
  pub token_bucket_cap : F
  pub token_bucket_rate : F
  pub transaction_name : Bytes

abbrev pub default_collector : Bytes
default_collector = codes "apm.collector.na-01.cloud.solarwinds.com:443"

-- initStruct for the options of the reporter; a setter stores what it is given.
unfoldable pub reset_reporter : ReporterOptions → ReporterOptions
unfolding int_value
reset_reporter r = record {
  event_flush_interval = (int_value (codes "2")).0;
  max_req_bytes = (int_value (codes "2048000")).0;
  metric_flush_interval = (int_value (codes "30")).0;
  get_settings_interval = (int_value (codes "30")).0;
  settings_timeout_interval = (int_value (codes "10")).0;
  ping_interval = (int_value (codes "20")).0;
  retry_delay_initial = (int_value (codes "500")).0;
  retry_delay_max = (int_value (codes "60")).0;
  redirect_max = (int_value (codes "20")).0;
  retry_log_threshold = (int_value (codes "10")).0;
  max_retries = (int_value (codes "20")).0;
}

-- initStruct for the sampling settings, by their Reset methods.
unfoldable pub reset_sampling : SamplingConfig → SamplingConfig
unfolding reset_tracing_mode reset_sample_rate
reset_sampling s = reset_sample_rate (reset_tracing_mode s)

abbrev pub map_ptr : {A : Type 0} → (A → A) → Option A → Option A
map_ptr f none = none
map_ptr f (some a) = some (f a)

module _ {F : Type 0} ⦃ft : FloatText F⦄ where
  -- initStruct for Config: a nil pointer is no settable field.
  unfoldable pub reset : Config F → Config F
  unfolding reset_reporter reset_sampling string_value int_value bool_value float_value
  reset c = record {
    collector = (string_value default_collector).0;
    settings_url = (string_value []).0;
    service_key = (string_value []).0;
    trusted_path = (string_value []).0;
    sampling = map_ptr reset_sampling c.sampling;
    prepend_domain = (bool_value []).0;
    host_alias = (string_value []).0;
    precision = (int_value (codes "2")).0;
    sql_sanitize = (int_value (codes "0")).0;
    reporter_properties = map_ptr reset_reporter c.reporter_properties;
    transaction_settings = none;
    is_enabled = (bool_value (codes "true")).0;
    ec2_metadata_timeout = (int_value (codes "1000")).0;
    debug_level = (string_value (codes "warn")).0;
    trigger_trace = (bool_value (codes "true")).0;
    proxy = (string_value []).0;
    proxy_cert_path = (string_value []).0;
    runtime_metrics = (bool_value (codes "true")).0;
    report_query_string = (bool_value (codes "true")).0;
    token_bucket_cap = (float_value (codes "8")).0;
    token_bucket_rate = (float_value (codes "0.17")).0;
    transaction_name = (string_value []).0;
  }

  unfoldable pub reset_then_disable : Config F → Config F
  unfolding reset
  reset_then_disable c = record (reset c) { is_enabled = false }

  -- The zero values, and empty structs behind the two pointers.
  unfoldable pub new_config : Config F
  new_config = record {
    collector = [];
    settings_url = [];
    service_key = [];
    trusted_path = [];
    sampling = some (record {
      tracing_mode = [];
      tracing_mode_configured = false;
      sample_rate = pos 0;
      sample_rate_configured = false;
    });
    prepend_domain = false;
    host_alias = [];
    precision = pos 0;
    sql_sanitize = pos 0;
    reporter_properties = some (record {
      event_flush_interval = pos 0;
      max_req_bytes = pos 0;
      metric_flush_interval = pos 0;
      get_settings_interval = pos 0;
      settings_timeout_interval = pos 0;
      ping_interval = pos 0;
      retry_delay_initial = pos 0;
      retry_delay_max = pos 0;
      redirect_max = pos 0;
      retry_log_threshold = pos 0;
      max_retries = pos 0;
    });
    transaction_settings = none;
    is_enabled = false;
    ec2_metadata_timeout = pos 0;
    debug_level = [];
    trigger_trace = false;
    proxy = [];
    proxy_cert_path = [];
    runtime_metrics = false;
    report_query_string = false;
    token_bucket_cap = ft.of_nat 0;
    token_bucket_rate = ft.of_nat 0;
    transaction_name = [];
  }

-- The package's two options.
pub data ConfigOption : Type 0 where
  with_collector with_service_key : Bytes → ConfigOption

module _ {F : Type 0} where
  unfoldable pub apply_option : ConfigOption → Config F → Config F
  apply_option (with_collector collector) c = record c { collector = collector }
  apply_option (with_service_key key) c = record c { service_key = key }

  -- The loop of Load over its options.
  unfoldable pub apply_options : List ConfigOption → Config F → Config F
  unfolding apply_option
  apply_options [] c = c
  apply_options (opt ∷ opts) c = apply_options opts (apply_option opt c)
