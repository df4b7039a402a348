-- ===== src/Config/Sources.antt =====
-- Where the sampling settings come from.
use apm_go.Prelude.{
  List, [], ◌∷◌, ◌++◌, Option, some, ◌≡◌, arith, Bytes, codes, bytes_eq, is_empty, if◌then◌else◌,
}
use apm_go.Prelude.Int.{negsuc, eqb_ℤ}
use apm_go.Config.{SamplingConfig, new_sampling_config}
use apm_go.Config.Env.{load_sampling_envs}
use apm_go.Config.Sampling.{Setting, mode_set, rate_set, load}
use apm_go.Config.Values.{int_value, string_value, getenv}
use apm_go.Config.Yaml.{SamplingFields, unset_fields, unmarshal_sampling}

-- What the YAML sets: each of the two fields whose value is not the one that stands for an absent field.
abbrev pub file_settings : SamplingFields → List Setting
file_settings aux =
    (if bytes_eq aux.tracing_mode (codes "Invalid") then [] else mode_set aux.tracing_mode ∷ [])
    ++ (if eqb_ℤ aux.sample_rate (negsuc 0) then [] else rate_set aux.sample_rate ∷ [])

-- What the environment sets: each variable that is not empty, and for the rate reads as an int.
abbrev pub env_settings : (Bytes → Option Bytes) → List Setting
env_settings env =
    let mode = getenv env (codes "SW_APM_TRACING_MODE") in
    let rate = getenv env (codes "SW_APM_SAMPLE_RATE") in
    (if is_empty mode then [] else mode_set (string_value mode).0 ∷ [])
    ++ (if is_empty rate
        then []
        else if (int_value rate).1
        then rate_set (int_value rate).0 ∷ []
        else [])

-- The sampling settings after a YAML section and the environment are the defaults, changed by what the YAML sets and then by
-- what the environment sets; nothing is left of the settings that there were before.
pub sampling_sources :
    (unmarshal : SamplingFields → Option SamplingFields) (aux : SamplingFields)
    (env : Bytes → Option Bytes) (s : SamplingConfig)
    → unmarshal unset_fields ≡ some aux
    → load_sampling_envs env (unmarshal_sampling unmarshal s).0
      ≡ load (file_settings aux ++ env_settings env) new_sampling_config
unfolding load_sampling_envs unmarshal_sampling load new_sampling_config
sampling_sources unmarshal aux env s h = ground arith
