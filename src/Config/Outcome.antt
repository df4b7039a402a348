-- ===== src/Config/Outcome.antt =====
-- What Load leaves of a configuration, and when it panics.
use apm_go.Prelude.{
  not, ◌&&◌, is_empty, bytes_eq, trim_space, codes, Option, reverse, ltb, ◌||◌, Bool, true, false,
  List, [], none, some, ◌≡◌, ◌≢◌, ◌⊎◌, inl, inr, refl, arith, Bytes, ◌∙◌, Bool-cases, Option-cases,
  ◌∷◌,
}
use apm_go.Prelude.Decimal.{parse_int}
use apm_go.Prelude.Int.{pos}
use apm_go.Float.{Float64}
use apm_go.Config.{SamplingConfig, new_sampling_config}
use apm_go.Config.Fields.{
  ReporterOptions, map_ptr, reset_reporter, Config, ConfigOption, default_collector, reset,
  reset_then_disable, reset_sampling, apply_options, with_collector, with_service_key,
}
use apm_go.Config.Env.{load_envs, load_sampling_envs}
use apm_go.Oboe.Urls.{ext_from}
use apm_go.Config.Files.{
  Unmarshalled, filled, nil_pointer, max_config_file_size, check_file_size, System, load_yaml,
  load_config_path, load_config_file, get_config_path,
}
use apm_go.Config.Validate.{
  has_lambda_env, validate_address, validate_buckets, validate_config, validated_or_disabled,
  finish_load, load_rest, load_configuration,
}
use apm_go.Config.Values.{
  int_value, string_value, bool_value, float_value, FloatText, FloatTextLaws,
}
use apm_go.Config.Validated.{
  IsValidConfig, bad_key, validated, rejected_key, accepted_key, accepted-IsValidConfig,
}

-- The options of the reporter by default.
abbrev pub default_reporter : ReporterOptions
default_reporter = record {
  event_flush_interval = pos 2;
  max_req_bytes = pos 2_048_000;
  metric_flush_interval = pos 30;
  get_settings_interval = pos 30;
  settings_timeout_interval = pos 10;
  ping_interval = pos 20;
  retry_delay_initial = pos 500;
  retry_delay_max = pos 60;
  redirect_max = pos 20;
  retry_log_threshold = pos 10;
  max_retries = pos 20;
}

reset_pointer :
    (s : Option SamplingConfig)
    → (map_ptr reset_sampling s ≡ none) ⊎ (map_ptr reset_sampling s ≡ some new_sampling_config)
unfolding reset_sampling new_sampling_config
reset_pointer none = inl refl
reset_pointer (some s) = inr refl

reporter_pointer :
    (r : Option ReporterOptions)
    → (map_ptr reset_reporter r ≡ none) ⊎ (map_ptr reset_reporter r ≡ some default_reporter)
unfolding reset_reporter int_value parse_int trim_space
reporter_pointer none = inl refl
reporter_pointer (some r) = inr refl

module _ {F : Type 0} ⦃fl : Float64 F⦄ ⦃ft : FloatText F⦄ where
  -- Off, and for the rest the defaults, where a pointer may be nil.
  pub record IsDisabled (c : Config F) : Type 0 where
    pub off : c.is_enabled ≡ false
    pub collector : c.collector ≡ default_collector
    pub settings_url : c.settings_url ≡ []
    pub service_key : c.service_key ≡ []
    pub trusted_path : c.trusted_path ≡ []
    pub sampling : (c.sampling ≡ none) ⊎ (c.sampling ≡ some new_sampling_config)
    pub prepend_domain : c.prepend_domain ≡ false
    pub host_alias : c.host_alias ≡ []
    pub precision : c.precision ≡ pos 2
    pub sql_sanitize : c.sql_sanitize ≡ pos 0
    pub reporter_properties :
        (c.reporter_properties ≡ none) ⊎ (c.reporter_properties ≡ some default_reporter)
    pub transaction_settings : c.transaction_settings ≡ none
    pub ec2_metadata_timeout : c.ec2_metadata_timeout ≡ pos 1000
    pub debug_level : c.debug_level ≡ codes "warn"
    pub trigger_trace : c.trigger_trace ≡ true
    pub proxy : c.proxy ≡ []
    pub proxy_cert_path : c.proxy_cert_path ≡ []
    pub runtime_metrics : c.runtime_metrics ≡ true
    pub report_query_string : c.report_query_string ≡ true
    pub token_bucket_cap : c.token_bucket_cap ≡ (float_value (codes "8")).0
    pub token_bucket_rate : c.token_bucket_rate ≡ (float_value (codes "0.17")).0
    pub transaction_name : c.transaction_name ≡ []

  reset_then_disable-IsDisabled : (c : Config F) → IsDisabled (reset_then_disable c)
  unfolding reset_then_disable reset parse_int int_value string_value bool_value trim_space bytes_eq
  reset_then_disable-IsDisabled c = record {
    off = refl;
    collector = refl;
    settings_url = refl;
    service_key = refl;
    trusted_path = refl;
    sampling = reset_pointer c.sampling;
    prepend_domain = refl;
    host_alias = refl;
    precision = refl;
    sql_sanitize = refl;
    reporter_properties = reporter_pointer c.reporter_properties;
    transaction_settings = refl;
    ec2_metadata_timeout = refl;
    debug_level = refl;
    trigger_trace = refl;
    proxy = refl;
    proxy_cert_path = refl;
    runtime_metrics = refl;
    report_query_string = refl;
    token_bucket_cap = refl;
    token_bucket_rate = refl;
    transaction_name = refl;
  }

  abbrev pub is_nil_pointer : Unmarshalled F → Bool
  is_nil_pointer nil_pointer = true
  is_nil_pointer (filled d ok) = false

  -- The configuration file is read, and holds a document that is null.
  abbrev pub null_at : System F → Bytes → Config F → Bool
  null_at sys path c =
      let ext = ext_from (reverse path) [] in
      not (is_empty path)
      && elim (sys.stat_size path) [
        | none ↦ false
        | some size ↦ not (ltb max_config_file_size size)
      ]
      && (bytes_eq ext (codes ".yml") || bytes_eq ext (codes ".yaml"))
      && elim (sys.read_file path) [
        | none ↦ false
        | some text ↦ is_nil_pointer (sys.unmarshal text c)
      ]

  abbrev pub reads_null : System F → Config F → Bool
  reads_null sys c = null_at sys (get_config_path sys) c

  load_config_path_null :
      (sys : System F) (path : Bytes) (c : Config F)
      → null_at sys path c ≡ true
      → load_config_path sys path c ≡ none
  unfolding load_config_path load_yaml check_file_size
  load_config_path_null sys path c h = ground arith

  load_config_path_some :
      (sys : System F) (path : Bytes) (c : Config F)
      → null_at sys path c ≡ false
      → load_config_path sys path c ≢ none
  unfolding load_config_path load_yaml check_file_size
  load_config_path_some sys path c h e = ground arith

  -- A file that is accepted leaves sampling settings, even where it sets them to nil.
  load_config_path_sampling :
      (sys : System F) (path : Bytes) (c d : Config F) (s : SamplingConfig)
      → c.sampling ≡ some s
      → load_config_path sys path c ≡ some (d, none)
      → (t : SamplingConfig) × (d.sampling ≡ some t)
  unfolding load_config_path load_yaml check_file_size
  load_config_path_sampling sys path c d s h e = elim (Option-cases d.sampling) [
    | inl f ↦ absurd (ground arith)
    | inr (t, f) ↦ (t, f)
  ]

  apply_options_sampling :
      (opts : List ConfigOption) (c : Config F) → (apply_options opts c).sampling ≡ c.sampling
  unfolding apply_options
  apply_options_sampling [] c = refl
  apply_options_sampling (with_collector a ∷ opts) c = apply_options_sampling opts _
  apply_options_sampling (with_service_key k ∷ opts) c = apply_options_sampling opts _

  module _ (laws : FloatTextLaws F) where
    validate_config-IsValidConfig :
        (lambda : Bool) (c : Config F) (s : SamplingConfig)
        → c.sampling ≡ some s
        → (d : Config F) × (ok : Bool) × (validate_config lambda c ≡ some (d, ok))
          × (ok ≡ true → IsValidConfig lambda d × (d.is_enabled ≡ c.is_enabled))
    validate_config-IsValidConfig lambda c s h = elim (Bool-cases (bad_key lambda c)) [
      | inl bad ↦ (validate_address lambda c, false, rejected_key lambda c bad, λ e. absurd cc)
      | inr good ↦ (
        validated lambda c s,
        true,
        accepted_key lambda c s good h,
        λ e. (
          accepted-IsValidConfig laws lambda c s good,
          unfold validate_address validate_buckets in refl,
        ),
      )
    ]

    finish_load_outcome :
        (lambda : Bool) (c : Config F) (s : SamplingConfig)
        → c.sampling ≡ some s
        → (d : Config F) × (finish_load lambda c ≡ some d)
          × ((IsValidConfig lambda d × (d.is_enabled ≡ true)) ⊎ IsDisabled d)
    unfolding finish_load
    finish_load_outcome lambda c s h =
        let (v, ok, e, valid) = validate_config-IsValidConfig lambda c s h in
        elim (Bool-cases c.is_enabled) [
          | inr off ↦ (
            reset_then_disable c,
            rw (finish_load, off) refl,
            inr (reset_then_disable-IsDisabled c),
          )
          | inl on ↦ elim (Bool-cases ok) [
            | inl y ↦ (
              v,
              unfold validated_or_disabled in rw (e, y, on) refl,
              inl ((valid y).0, (valid y).1 ∙ on),
            )
            | inr n ↦ (
              reset_then_disable v,
              unfold validated_or_disabled in rw (e, n, on) refl,
              inr (reset_then_disable-IsDisabled v),
            )
          ]
        ]

    load_rest_outcome :
        (sys : System F) (opts : List ConfigOption) (c : Config F) (s : SamplingConfig)
        → c.sampling ≡ some s
        → (d : Config F) × (load_rest sys opts c ≡ some d)
          × ((IsValidConfig (has_lambda_env sys.lookup_env) d × (d.is_enabled ≡ true))
              ⊎ IsDisabled d)
    unfolding load_rest
    load_rest_outcome sys opts c s h =
        finish_load_outcome (has_lambda_env sys.lookup_env)
          (apply_options opts (load_envs sys.lookup_env c)) (load_sampling_envs sys.lookup_env s)
          (apply_options_sampling opts _ ∙ (unfold load_envs in rw h refl))

    -- From whatever state with sampling settings, whatever the file, the environment and the options hold: Load panics exactly if it
    -- reads a file whose document is null. Else what it leaves is either enabled and valid, each field in its range, or disabled,
    -- with every other field at its default, but that the pointers to the sampling settings and to the reporter's may be nil.
    pub load_configuration_outcome :
        (sys : System F) (opts : List ConfigOption) (c : Config F) (s : SamplingConfig)
        → c.sampling ≡ some s
        → ((reads_null sys (reset c) ≡ true) × (load_configuration sys opts c ≡ none))
          ⊎ ((d : Config F) × (reads_null sys (reset c) ≡ false)
              × (load_configuration sys opts c ≡ some d)
              × ((IsValidConfig (has_lambda_env sys.lookup_env) d × (d.is_enabled ≡ true))
                  ⊎ IsDisabled d))
    unfolding load_configuration
    load_configuration_outcome sys opts c s h =
        let kept : (reset c).sampling ≡ some (reset_sampling s) = unfold reset in rw h refl in
        elim (Bool-cases (reads_null sys (reset c))) [
          | inl null ↦ inl (
            null,
            unfold load_config_file in
                rw
                  (
                    load_configuration,
                    load_config_path_null sys (get_config_path sys) (reset c) null,
                  )
                  refl,
          )
          | inr read ↦ elim (Option-cases (load_config_path sys (get_config_path sys) (reset c))) [
            | inl e ↦ absurd (load_config_path_some sys (get_config_path sys) (reset c) read e)
            | inr ((d, some x), e) ↦ inr (
              reset_then_disable d,
              read,
              unfold load_config_file in rw (load_configuration, e) refl,
              inr (reset_then_disable-IsDisabled d),
            )
            | inr ((d, none), e) ↦
                let (t, g) =
                  load_config_path_sampling sys (get_config_path sys) (reset c) d (reset_sampling s)
                    kept e in
                let (v, q, out) = load_rest_outcome sys opts d t g in
                inr (v, read, unfold load_config_file in rw (load_configuration, e) q, out)
          ]
        ]
