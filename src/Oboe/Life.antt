-- ===== src/Oboe/Life.antt =====
-- internal/oboe/oboe.go: the life of the settings, and what is flushed of the counters.
pub mod Calls
pub mod Invariant
pub mod Expiry
use apm_go.Prelude.{
  ℕ, Bool, true, false, not, Option, none, some, Bytes, is_empty, [], if◌then◌else◌,
}
use apm_go.Prelude.Int.{ℤ, pos, negsuc, ltb_ℤ}
use apm_go.Float.{Float64}
use apm_go.Metrics.{RateCounts, RateCountSummary, flush}
use apm_go.Oboe.Bucket.{TokenBucket, new_bucket, set_rate_cap}
use apm_go.Oboe.Flags.{flag_string_to_bin}
use apm_go.Oboe.Settings.{LocalConfig, Settings, merge_local_setting}
use apm_go.Oboe.Request.{Oboe, max_sampling_rate}
use apm_go.Oboe.Time.{is_expired}
use apm_go.Oboe.TriggerTrace.{source_none, source_default}

pub record SettingsUpdateArgs (F : Type 0) : Type 0 where
  pub flags : Bytes
  pub value : ℤ
  pub ttl : ℤ
  pub trigger_token : Bytes
  pub bucket_capacity : F
  pub bucket_rate : F
  pub metrics_flush_interval : ℤ
  pub trigger_relaxed_bucket_capacity : F
  pub trigger_relaxed_bucket_rate : F
  pub trigger_strict_bucket_capacity : F
  pub trigger_strict_bucket_rate : F

unfoldable pub adjust_sample_rate : ℤ → ℤ
adjust_sample_rate rate =
    if ltb_ℤ rate (pos 0)
    then pos 0
    else if ltb_ℤ (pos max_sampling_rate) rate
    then pos max_sampling_rate
    else rate

module _ {F : Type 0} ⦃fl : Float64 F⦄ where
  unfoldable pub new_oboe_settings : Settings F
  new_oboe_settings = record {
    timestamp = 0;
    flags = 0;
    original_flags = 0;
    value = pos 0;
    source = source_none;
    ttl = pos 0;
    trigger_token = [];
    bucket = new_bucket;
    relaxed_bucket = new_bucket;
    strict_bucket = new_bucket;
  }

  -- The settings that UpdateSetting stores; `now` is time.Now().
  unfoldable pub updated_settings : LocalConfig → ℕ → SettingsUpdateArgs F → Settings F
  updated_settings conf now arg =
      let ns = new_oboe_settings in
      let flags = flag_string_to_bin arg.flags in
      merge_local_setting conf (record ns {
        timestamp = now;
        source = source_default;
        flags = flags;
        original_flags = flags;
        value = adjust_sample_rate arg.value;
        ttl = arg.ttl;
        trigger_token = arg.trigger_token;
        bucket = set_rate_cap arg.bucket_rate arg.bucket_capacity ns.bucket;
        relaxed_bucket =
            set_rate_cap arg.trigger_relaxed_bucket_rate arg.trigger_relaxed_bucket_capacity
              ns.relaxed_bucket;
        strict_bucket =
            set_rate_cap arg.trigger_strict_bucket_rate arg.trigger_strict_bucket_capacity
              ns.strict_bucket;
      })

-- GetTriggerTraceToken, its errors apart.
pub data TokenResult : Type 0 where
  token : Bytes → TokenResult
  no_settings no_key : TokenResult

module _ {F R C : Type 0} ⦃fl : Float64 F⦄ where
  unfoldable pub update_setting : LocalConfig → ℕ → SettingsUpdateArgs F → Oboe F R C → Oboe F R C
  update_setting conf now arg o = record o { settings = some (updated_settings conf now arg) }

module _ {F R C : Type 0} where
  unfoldable pub check_settings_timeout : ℕ → Oboe F R C → Oboe F R C
  check_settings_timeout now o = elim o.settings [
    | none ↦ o
    | some s ↦ if is_expired s.timestamp s.ttl now then record o { settings = none } else o
  ]

  unfoldable pub remove_setting : Oboe F R C → Oboe F R C
  remove_setting o = record o { settings = none }

  unfoldable pub has_default_setting : Oboe F R C → Bool
  has_default_setting o = elim o.settings [ none ↦ false | some s ↦ true ]

  unfoldable pub get_trigger_trace_token : Oboe F R C → TokenResult
  get_trigger_trace_token o = elim o.settings [
    | none ↦ no_settings
    | some s ↦ if is_empty s.trigger_token then no_key else token s.trigger_token
  ]

  -- FlushRateCounts: without settings it reports nothing, and the counters go on.
  unfoldable pub flush_rate_counts : Oboe F R C → Oboe F R C × Option RateCountSummary
  flush_rate_counts o = elim o.settings [
    | none ↦ (o, none)
    | some s ↦
        let (left, counts) = flush o.rates in
        (
          record o { rates = left },
          some (record {
            sampled = counts.sampled;
            through = counts.through;
            requested = counts.requested;
            traced = counts.traced;
            limited = counts.limited;
            tt_traced = counts.ttraced;
          }),
        )
  ]
