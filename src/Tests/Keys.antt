-- ===== src/Tests/Keys.antt =====
-- The local configuration.
use apm_go.Prelude.{true, List, [], ◌∷◌, ◌≡◌, codes, bytes_eq, trim_space}
use apm_go.Prelude.Int.{pos}
use apm_go.Config.{
  new_sampling_config, validate, to_service_key, mask_service_key, stars, is_valid_sample_rate,
  is_valid_tracing_mode, normalize_tracing_mode,
}
use apm_go.Config
use apm_go.Config.Sampling.{Setting, mode_set, rate_set, load, local_config-validate}
use apm_go.Oboe.Life.Invariant.{RateInRange}

-- A mode of the old style in the file, and a rate out of range in the environment.
abbrev loaded : List Setting
loaded = mode_set (codes "never") ∷ rate_set (pos 500) ∷ rate_set (pos 2_000_000) ∷ []

local_config-validate_example :
    let conf = Config.local_config true (validate (load loaded new_sampling_config)) in
    RateInRange conf
    × (conf.sample_rate ≡ pos 1_000_000)
    × (conf.tracing_mode ≡ codes "disabled")
    × (conf.sampling_configured ≡ true)
unfolding is_valid_sample_rate is_valid_tracing_mode normalize_tracing_mode bytes_eq trim_space
local_config-validate_example = local_config-validate loaded true
