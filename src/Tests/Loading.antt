-- ===== src/Tests/Loading.antt =====
-- The configuration, loaded from a file and an environment.
use apm_go.Prelude.{
  ◌*◌, true, false, [], ◌∷◌, ◌++◌, none, some, ◌≡◌, ◌⊎◌, refl, arith, Bytes, codes, bytes_eq,
  is_empty, if◌then◌else◌, cut, starts_with,
}
use apm_go.Prelude.Int.{ℤ, pos}
use apm_go.Float.Exact.{units, exact}
use apm_go.Prelude.Split
use apm_go.Config.Host.{is_valid_host}
use apm_go.Log.{to_log_level}
use apm_go.Prelude.Decimal.{parse_int}
use apm_go.Config
use apm_go.Config.{SamplingConfig, new_sampling_config}
use apm_go.Config.Fields.{Config, default_collector, new_config, reset}
use apm_go.Config.Files.{System, filled}
use apm_go.Config.Validated.{IsValidConfig}
use apm_go.Config.Outcome.{IsDisabled, reads_null, load_configuration_outcome}
use apm_go.Config.Settled.{validate_config_twice}
use apm_go.Config.Service.{parse_service_key_lem}
use apm_go.Config.Filters.{lookup_unmarshalled}
use apm_go.Config.Getters.{parse_service_key}
use apm_go.Config.Validate.{
  load_configuration, validate_config, has_lambda_env, is_valid_service_key,
}
use apm_go.Config.Values.{FloatText, FloatTextLaws}
use apm_go.Config.Yaml.{FilterFields, unmarshal_filter}
use apm_go.Oboe.Flags.{trace_enabled}
use apm_go.Oboe.Urls.{TransactionFilter, lookup_tracing_mode, load_filters, has_ext, url_ext}
use apm_go.Tests.Fixtures.{prefixes, has_byte-Lacks}
use apm_go.Tests.Settings.{off_api, on_images, image_url}

-- Every text is the number 8.
instance abbrev pub eights : FloatText ℤ
eights = record {
  parse_float = λ s. (pos (8 * units), true);
  of_nat = λ n. pos (n * units);
  show_float = λ f. [];
}

pub eights-FloatTextLaws : FloatTextLaws ℤ
eights-FloatTextLaws = record { le-of_nat = λ a b h. ground arith }

abbrev zero_sampling : SamplingConfig
zero_sampling = record {
  tracing_mode = [];
  tracing_mode_configured = false;
  sample_rate = pos 0;
  sample_rate_configured = false;
}

-- A file that turns trigger tracing off and sets the sampling settings to nil, and an environment with a bad timeout.
abbrev loaded_system : System ℤ
loaded_system = record {
  lookup_env = λ name.
      if bytes_eq name (codes "SW_APM_EC2_METADATA_TIMEOUT") then some (codes "5000") else none;
  abs = λ path. some path;
  stat_size = λ path. some 100;
  read_file = λ path. some [];
  unmarshal = λ text c. filled (record c { trigger_trace = false; sampling = none }) true;
}

load_configuration_outcome_example :
    ((reads_null loaded_system (reset new_config) ≡ true)
      × (load_configuration loaded_system [] new_config ≡ none))
    ⊎ ((d : Config ℤ) × (reads_null loaded_system (reset new_config) ≡ false)
        × (load_configuration loaded_system [] new_config ≡ some d)
        × ((IsValidConfig (has_lambda_env loaded_system.lookup_env) d × (d.is_enabled ≡ true))
            ⊎ IsDisabled d))
unfolding new_config
load_configuration_outcome_example =
    load_configuration_outcome eights-FloatTextLaws loaded_system [] new_config zero_sampling refl

-- A configuration with a rate and a bucket out of range.
abbrev wild_config : Config ℤ
wild_config = record (new_config {F = ℤ}) {
  sampling = some (record zero_sampling { sample_rate = pos 2_000_000 });
  token_bucket_cap = pos (9 * units);
}

abbrev tamed_config : Config ℤ
tamed_config = record wild_config {
  collector = default_collector;
  debug_level = codes "warn";
  sampling = some (record new_sampling_config { sample_rate = pos 1_000_000 });
  token_bucket_cap = pos (8 * units);
}

validate_config_twice_example : validate_config false tamed_config ≡ some (tamed_config, true)
unfolding new_config validate_config is_valid_host Config.validate to_log_level bytes_eq parse_int
    new_sampling_config
validate_config_twice_example =
    validate_config_twice eights-FloatTextLaws false wild_config tamed_config
      (record zero_sampling { sample_rate = pos 2_000_000 }) refl refl

abbrev pub sixty_four : Bytes
sixty_four = codes "0123456789abcdef0123456789abcdef0123456789abcdef0123456789abcdef"

parse_service_key_lem_example :
    parse_service_key (sixty_four ++ b':' ∷ codes "go:api")
    ≡ (record { token = []; service_name = [] }, false)
unfolding Split.has_byte is_valid_service_key cut
parse_service_key_lem_example =
    parse_service_key_lem sixty_four (codes "go:api") (has_byte-Lacks b':' sixty_four refl) refl

abbrev filter_fields : TransactionFilter → FilterFields
filter_fields f = record {
  filter_type = codes "url";
  regex = f.regex;
  extensions = if is_empty f.regex then some f.extensions else none;
  tracing = f.tracing;
}

abbrev api_filter : TransactionFilter
api_filter = record off_api { extensions = [] }

lookup_unmarshalled_example :
    lookup_tracing_mode (load_filters {R = Bytes} (api_filter ∷ on_images ∷ [])) image_url
    ≡ some trace_enabled
unfolding unmarshal_filter bytes_eq starts_with has_ext url_ext
lookup_unmarshalled_example = lookup_unmarshalled Bytes (api_filter ∷ on_images ∷ []) image_url (
  (λ f. some (filter_fields api_filter), refl),
  ((λ f. some (filter_fields on_images), refl), tt),
)
