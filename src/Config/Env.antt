-- ===== src/Config/Env.antt =====
-- internal/config/env.go: what the environment sets. loadEnvsInternal goes over the fields by reflection; here each
-- field stands with the name in its tag, and a field with a setter gets its value through it.
use apm_go.Prelude.{Option, Bytes, codes, is_empty, if◌then◌else◌}
use apm_go.Config.{SamplingConfig, set_tracing_mode, set_sample_rate}
use apm_go.Config.Values.{
  FloatText, int_value, string_value, bool_value, float_value, getenv, from_env,
}
use apm_go.Config.Fields.{Config, ReporterOptions, map_ptr}

module _ (env : Bytes → Option Bytes) where
  unfoldable pub load_sampling_envs : SamplingConfig → SamplingConfig
  unfolding set_tracing_mode set_sample_rate int_value string_value getenv
  load_sampling_envs s =
      let mode = getenv env (codes "SW_APM_TRACING_MODE") in
      let rate = getenv env (codes "SW_APM_SAMPLE_RATE") in
      let t = if is_empty mode then s else set_tracing_mode (string_value mode).0 s in
      if is_empty rate
      then t
      else let (n, ok) = int_value rate in if ok then set_sample_rate n t else t

  unfoldable pub load_reporter_envs : ReporterOptions → ReporterOptions
  unfolding from_env getenv
  load_reporter_envs r = record r {
    event_flush_interval =
        from_env int_value (getenv env (codes "SW_APM_EVENTS_FLUSH_INTERVAL"))
          r.event_flush_interval;
    max_req_bytes =
        from_env int_value (getenv env (codes "SW_APM_MAX_REQUEST_BYTES")) r.max_req_bytes;
  }

  module _ {F : Type 0} ⦃ft : FloatText F⦄ where
    unfoldable pub load_envs : Config F → Config F
    unfolding load_sampling_envs load_reporter_envs from_env getenv
    load_envs c = record c {
      collector = from_env string_value (getenv env (codes "SW_APM_COLLECTOR")) c.collector;
      service_key = from_env string_value (getenv env (codes "SW_APM_SERVICE_KEY")) c.service_key;
      trusted_path = from_env string_value (getenv env (codes "SW_APM_TRUSTEDPATH")) c.trusted_path;
      sampling = map_ptr load_sampling_envs c.sampling;
      prepend_domain =
          from_env bool_value (getenv env (codes "SW_APM_PREPEND_DOMAIN")) c.prepend_domain;
      host_alias = from_env string_value (getenv env (codes "SW_APM_HOSTNAME_ALIAS")) c.host_alias;
      precision = from_env int_value (getenv env (codes "SW_APM_HISTOGRAM_PRECISION")) c.precision;
      sql_sanitize = from_env int_value (getenv env (codes "SW_APM_SQL_SANITIZE")) c.sql_sanitize;
      reporter_properties = map_ptr load_reporter_envs c.reporter_properties;
      is_enabled = from_env bool_value (getenv env (codes "SW_APM_ENABLED")) c.is_enabled;
      ec2_metadata_timeout =
          from_env int_value (getenv env (codes "SW_APM_EC2_METADATA_TIMEOUT"))
            c.ec2_metadata_timeout;
      debug_level = from_env string_value (getenv env (codes "SW_APM_DEBUG_LEVEL")) c.debug_level;
      trigger_trace =
          from_env bool_value (getenv env (codes "SW_APM_TRIGGER_TRACE")) c.trigger_trace;
      proxy = from_env string_value (getenv env (codes "SW_APM_PROXY")) c.proxy;
      proxy_cert_path =
          from_env string_value (getenv env (codes "SW_APM_PROXY_CERT_PATH")) c.proxy_cert_path;
      runtime_metrics =
          from_env bool_value (getenv env (codes "SW_APM_RUNTIME_METRICS")) c.runtime_metrics;
      report_query_string =
          from_env bool_value (getenv env (codes "SW_APM_REPORT_QUERY_STRING"))
            c.report_query_string;
      token_bucket_cap =
          from_env float_value (getenv env (codes "SW_APM_TOKEN_BUCKET_CAPACITY"))
            c.token_bucket_cap;
      token_bucket_rate =
          from_env float_value (getenv env (codes "SW_APM_TOKEN_BUCKET_RATE")) c.token_bucket_rate;
      transaction_name =
          from_env string_value (getenv env (codes "SW_APM_TRANSACTION_NAME")) c.transaction_name;
    }
