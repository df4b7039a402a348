-- ===== src/Config/Sampling.antt =====
-- The sampling settings after the configuration is loaded and validated.
use apm_go.Prelude.{
  Bool, true, false, ◌||◌, List, [], ◌∷◌, Option, none, some, ◌≡◌, refl, arith, Bytes,
  if◌then◌else◌,
}
use apm_go.Prelude.Int.{ℤ, pos}
use apm_go.Config.{
  SamplingConfig, is_valid_tracing_mode, is_valid_sample_rate, normalize_tracing_mode,
  new_sampling_config, set_tracing_mode, set_sample_rate, validate, local_config,
}
use apm_go.Oboe.Flags.{enabled_tracing_mode}
use apm_go.Oboe.Life.Invariant.{RateInRange}

-- What the file and the environment set.
pub data Setting : Type 0 where
  mode_set : Bytes → Setting
  rate_set : ℤ → Setting

unfoldable pub load : List Setting → SamplingConfig → SamplingConfig
unfolding set_tracing_mode set_sample_rate
load [] s = s
load (mode_set m ∷ cs) s = load cs (set_tracing_mode m s)
load (rate_set r ∷ cs) s = load cs (set_sample_rate r s)

-- The last mode and the last rate that were set.
abbrev pub last_mode : List Setting → Option Bytes
last_mode [] = none
last_mode (mode_set m ∷ cs) =
    let later = last_mode cs in elim later [ none ↦ some m | some n ↦ some n ]
last_mode (rate_set r ∷ cs) = last_mode cs

abbrev pub last_rate : List Setting → Option ℤ
last_rate [] = none
last_rate (mode_set m ∷ cs) = last_rate cs
last_rate (rate_set r ∷ cs) =
    let later = last_rate cs in elim later [ none ↦ some r | some q ↦ some q ]

load_lem :
    (cs : List Setting) (s : SamplingConfig)
    → load cs s ≡ record {
      tracing_mode = elim (last_mode cs) [
        | none ↦ s.tracing_mode
        | some m ↦ normalize_tracing_mode m
      ];
      tracing_mode_configured = elim (last_mode cs) [
        | none ↦ s.tracing_mode_configured
        | some m ↦ true
      ];
      sample_rate = elim (last_rate cs) [ none ↦ s.sample_rate | some r ↦ r ];
      sample_rate_configured = elim (last_rate cs) [
        | none ↦ s.sample_rate_configured
        | some r ↦ true
      ];
    }
unfolding load
load_lem [] s = refl
load_lem (mode_set m ∷ cs) s = ground (arith, load_lem cs (set_tracing_mode m s))
load_lem (rate_set r ∷ cs) s = ground (arith, load_lem cs (set_sample_rate r s))

-- The validated setting: what was set last if it is valid, and else the default as if nothing had been set.
abbrev pub valid_mode : Option Bytes → Option Bytes
valid_mode none = none
valid_mode (some m) =
    if is_valid_tracing_mode (normalize_tracing_mode m)
    then some (normalize_tracing_mode m)
    else none

abbrev pub valid_rate : Option ℤ → Option ℤ
valid_rate none = none
valid_rate (some r) = if is_valid_sample_rate r then some r else none

-- Whatever the file and the environment set, the local configuration after validation has a rate in its range, and it is
-- the last rate that was set, if that is in range, and else the default; likewise the mode; and sampling counts
-- as configured if one of the two is not the default for want of a valid setting.
pub local_config-validate :
    (cs : List Setting) (trigger_trace : Bool)
    → let conf = local_config trigger_trace (validate (load cs new_sampling_config)) in
      let mode = valid_mode (last_mode cs) in
      let rate = valid_rate (last_rate cs) in
      RateInRange conf
      × (conf.sample_rate ≡ elim rate [ none ↦ pos 1_000_000 | some r ↦ r ])
      × (conf.tracing_mode ≡ elim mode [ none ↦ enabled_tracing_mode | some m ↦ m ])
      × (conf.sampling_configured ≡ (
          elim mode [ none ↦ false | some m ↦ true ] || elim rate [ none ↦ false | some r ↦ true ]))
unfolding validate local_config new_sampling_config
local_config-validate cs trigger_trace = ground (arith, load_lem cs new_sampling_config)
