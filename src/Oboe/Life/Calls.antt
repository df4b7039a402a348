-- ===== src/Oboe/Life/Calls.antt =====
-- The calls that an Oboe gets, and their histories.
use apm_go.Prelude.{ℕ, Bool, List, [], ◌∷◌, Option, some, Bytes, ◌>>=◌}
use apm_go.Float.{Float64, IsNonneg}
use apm_go.Oboe.Settings.{LocalConfig}
use apm_go.Oboe.Request.{Oboe, SwState, sample_request}
use apm_go.Oboe.TriggerTrace.{TriggerTraceMode}
use apm_go.Oboe.Urls.{Regexps, Cache}
use apm_go.Oboe.Life.{
  SettingsUpdateArgs, update_setting, check_settings_timeout, remove_setting, flush_rate_counts,
}

module _ {F : Type 0} ⦃fl : Float64 F⦄ where
  -- The server's rates and capacities are numbers of at least 0.
  pub record ArgsNonneg (arg : SettingsUpdateArgs F) : Type 0 where
    pub capacity : IsNonneg arg.bucket_capacity
    pub rate : IsNonneg arg.bucket_rate
    pub relaxed_capacity : IsNonneg arg.trigger_relaxed_bucket_capacity
    pub relaxed_rate : IsNonneg arg.trigger_relaxed_bucket_rate
    pub strict_capacity : IsNonneg arg.trigger_strict_bucket_capacity
    pub strict_rate : IsNonneg arg.trigger_strict_bucket_rate

-- What happens to an Oboe; the configuration is fixed.
pub data Call (F : Type 0) : Type 0 where
  updates : ℕ → SettingsUpdateArgs F → Call F
  checks : ℕ → Call F
  removes flushes : Call F
  -- the time, the roll, continued, the URL, the mode and the sender's state
  requests : ℕ → ℕ → Bool → Bytes → TriggerTraceMode → SwState → Call F

-- Every update brings numbers of at least 0.
abbrev pub CallNonneg : {F : Type 0} ⦃fl : Float64 F⦄ → Call F → Type 0
CallNonneg (updates now arg) = ArgsNonneg arg
CallNonneg _ = Unit {0}

abbrev pub AllNonneg : {F : Type 0} ⦃fl : Float64 F⦄ → List (Call F) → Type 0
AllNonneg [] = Unit {0}
AllNonneg (c ∷ cs) = CallNonneg c × AllNonneg cs

module _ {F R C : Type 0} ⦃fl : Float64 F⦄ ⦃rx : Regexps R⦄ ⦃ca : Cache C⦄ where
  -- The state after a call; `none` if it panics.
  unfoldable pub step : LocalConfig → Call F → Oboe F R C → Option (Oboe F R C)
  step conf (updates now arg) o = some (update_setting conf now arg o)
  step conf (checks now) o = some (check_settings_timeout now o)
  step conf removes o = some (remove_setting o)
  step conf flushes o = some (flush_rate_counts o).0
  step conf (requests now roll continued url mode sw) o = do
    out ← sample_request now roll continued url mode sw o
    some out.0

  unfoldable pub run : LocalConfig → List (Call F) → Oboe F R C → Option (Oboe F R C)
  run conf [] o = some o
  run conf (c ∷ cs) o = step conf c o >>= run conf cs
