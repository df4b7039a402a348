-- ===== src/Config/Yaml.antt =====
-- internal/config/config.go: how a transaction filter and the sampling settings are read from YAML. The library's call
-- back, which decodes into a struct with given values, is an argument; `none` is its error.
use apm_go.Prelude.{
  Bool, true, false, not, ◌&&◌, ◌||◌, List, [], Option, none, some, Bytes, codes, bytes_eq,
  is_empty, if◌then◌else◌,
}
use apm_go.Prelude.Int.{ℤ, negsuc, eqb_ℤ}
use apm_go.Config.{SamplingConfig, set_tracing_mode, set_sample_rate}
use apm_go.Config.Fields.{reset_sampling}
use apm_go.Oboe.Flags.{enabled_tracing_mode, disabled_tracing_mode}
use apm_go.Oboe.Urls.{TransactionFilter}

-- aux in UnmarshalYAML; extensions are `none` for a nil slice.
pub record FilterFields : Type 0 where
  pub filter_type : Bytes
  pub regex : Bytes
  pub extensions : Option (List Bytes)
  pub tracing : Bytes

pub data FilterError : Type 0 where
  tf_undecodable tf_invalid_type tf_invalid_tracing tf_invalid_regex_ext : FilterError

pub data FilterResult : Type 0 where
  tf_ok : TransactionFilter → FilterResult
  tf_error : FilterError → FilterResult

abbrev pub url_type : Bytes
url_type = codes "url"

abbrev pub no_fields : FilterFields
no_fields = record { filter_type = []; regex = []; extensions = none; tracing = [] }

abbrev is_nil : Option (List Bytes) → Bool
is_nil none = true
is_nil (some xs) = false

abbrev elements : Option (List Bytes) → List Bytes
elements none = []
elements (some xs) = xs

abbrev eqb : Bool → Bool → Bool
eqb a b = (a && b) || (not a && not b)

-- TransactionFilter.UnmarshalYAML, after the struct is decoded.
unfoldable pub checked_filter : FilterFields → FilterResult
checked_filter aux =
    if not (bytes_eq aux.filter_type url_type)
    then tf_error tf_invalid_type
    else if not (bytes_eq aux.tracing enabled_tracing_mode)
        && not (bytes_eq aux.tracing disabled_tracing_mode)
    then tf_error tf_invalid_tracing
    else if eqb (is_empty aux.regex) (is_nil aux.extensions)
    then tf_error tf_invalid_regex_ext
    else tf_ok (record {
      filter_type = aux.filter_type;
      regex = aux.regex;
      extensions = elements aux.extensions;
      tracing = aux.tracing;
    })

unfoldable pub unmarshal_filter : (FilterFields → Option FilterFields) → FilterResult
unfolding checked_filter
unmarshal_filter unmarshal = elim (unmarshal no_fields) [
  | none ↦ tf_error tf_undecodable
  | some aux ↦ checked_filter aux
]

-- aux in SamplingConfig.UnmarshalYAML.
pub record SamplingFields : Type 0 where
  pub tracing_mode : Bytes
  pub sample_rate : ℤ

abbrev pub unset_fields : SamplingFields
unset_fields = record { tracing_mode = codes "Invalid"; sample_rate = negsuc 0 }

unfoldable pub set_fields : SamplingFields → SamplingConfig → SamplingConfig
unfolding set_tracing_mode set_sample_rate
set_fields aux s =
    let t =
      if not (bytes_eq aux.tracing_mode (codes "Invalid"))
      then set_tracing_mode aux.tracing_mode s
      else s in
    if not (eqb_ℤ aux.sample_rate (negsuc 0)) then set_sample_rate aux.sample_rate t else t

-- The settings it leaves, and whether it succeeds.
unfoldable pub unmarshal_sampling :
    (SamplingFields → Option SamplingFields) → SamplingConfig → SamplingConfig × Bool
unfolding reset_sampling set_fields
unmarshal_sampling unmarshal s = elim (unmarshal unset_fields) [
  | none ↦ (reset_sampling s, false)
  | some aux ↦ (set_fields aux (reset_sampling s), true)
]
