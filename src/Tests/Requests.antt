-- ===== src/Tests/Requests.antt =====
-- Decisions on requests, and histories of an Oboe.
use apm_go.Prelude.{
  ◌*◌, true, false, List, [], ◌∷◌, none, some, ◌≡◌, refl, arith, Bytes, codes, split, bytes_eq,
}
use apm_go.Prelude.Int.{ℤ, pos, negsuc, ◌+ℤ◌}
use apm_go.Float.Exact.{units, exact, exact-FloatLaws}
use apm_go.Metrics.{no_counts, flush}
use apm_go.Oboe.Bucket.{consume}
use apm_go.Oboe.Flags.{flag_string_to_bin, add_flag, has, enabled}
use apm_go.Oboe.Life.{
  SettingsUpdateArgs, updated_settings, update_setting, flush_rate_counts, check_settings_timeout,
  new_oboe_settings,
}
use apm_go.Oboe.Life.Expiry.{check_all, check_all-update_setting}
use apm_go.Oboe.Life.Invariant.{SettingsValid, run-SettingsValid}
use apm_go.Oboe.Life.Calls.{ArgsNonneg, step, Call, updates, checks, flushes, run}
use apm_go.Oboe.Request.{should_sample, Oboe, SwState, plain_decision, trigger_decision}
use apm_go.Oboe.Request.Decision.{plain_decision_lem}
use apm_go.Oboe.Request.Trigger.{response, trigger_decision_lem}
use apm_go.Oboe.Settings.{LocalConfig, Settings, bucket_setting, put_bucket, merge_local_setting}
use apm_go.Oboe.Time.{is_expired}
use apm_go.Oboe.TriggerTrace.{mode_requested, not_present, strict, source_default, source_unset}
use apm_go.Tests.Buckets.{two_of_four}
use apm_go.Tests.Fixtures.{Pairs, prefixes, keep_all}

-- All flags but the override.
abbrev pub open_settings : Settings ℤ
open_settings = record {
  timestamp = 5 * units;
  flags = 60;
  original_flags = 60;
  value = pos 500_000;
  source = source_default;
  ttl = pos (60 * units);
  trigger_token = codes "key";
  bucket = two_of_four;
  relaxed_bucket = two_of_four;
  strict_bucket = two_of_four;
}

abbrev pub no_sender : SwState
no_sender = record { is_valid = false; is_sampled = false }

plain_decision_lem_example :
    let (s', rates', d) =
      plain_decision
        (6 * units)
        7
        false
        not_present
        no_sender
        open_settings
        no_counts
        (pos 500_000, 60, source_default) in
    let (taken, took) = consume (6 * units) (pos units) two_of_four in
    (d.trace ≡ took)
    × (s' ≡ record open_settings { bucket = taken })
    × (d.rate ≡ pos 500_000)
    × (d.source ≡ source_default)
    × (d.bucket_cap ≡ s'.bucket.capacity)
    × (d.bucket_rate ≡ s'.bucket.rate_per_sec)
unfolding has should_sample mode_requested
plain_decision_lem_example =
    plain_decision_lem (6 * units) 7 false not_present no_sender open_settings no_counts
      (pos 500_000) 60 source_default refl

trigger_decision_lem_example :
    let (s', rates', d) = trigger_decision (6 * units) strict open_settings no_counts 60 in
    let (taken, took) = consume (6 * units) (pos units) two_of_four in
    (d.trace ≡ took)
    × (d.xtrace_opts_rsp ≡ response strict true true took)
    × (s' ≡ record open_settings { strict_bucket = taken })
    × (d.rate ≡ negsuc 0)
    × (d.source ≡ source_unset)
unfolding has enabled put_bucket bucket_setting mode_requested
trigger_decision_lem_example =
    trigger_decision_lem (6 * units) strict open_settings no_counts 60 refl

abbrev pub local_config : LocalConfig
local_config = record {
  sampling_configured = true;
  sample_rate = pos 250_000;
  tracing_mode = codes "enabled";
  trigger_trace_on = false;
}

abbrev pub arguments : SettingsUpdateArgs ℤ
arguments = record {
  flags = codes "SAMPLE_START,TRIGGER_TRACE";
  value = pos 2_000_000;
  ttl = pos (60 * units);
  trigger_token = codes "key";
  bucket_capacity = pos (4 * units);
  bucket_rate = pos (2 * units);
  metrics_flush_interval = pos 60;
  trigger_relaxed_bucket_capacity = pos units;
  trigger_relaxed_bucket_rate = pos units;
  trigger_strict_bucket_capacity = pos units;
  trigger_strict_bucket_rate = pos units;
}

pub arguments-ArgsNonneg : ArgsNonneg arguments
arguments-ArgsNonneg = record {
  capacity = refl;
  rate = refl;
  relaxed_capacity = refl;
  relaxed_rate = refl;
  strict_capacity = refl;
  strict_rate = refl;
}

abbrev pub no_oboe : Oboe ℤ Bytes Pairs
no_oboe = record { settings = none; rates = no_counts; urls = record { cache = []; filters = [] } }

abbrev calls : List (Call ℤ)
calls = updates (5 * units) arguments ∷ flushes ∷ checks (9 * units) ∷ []

abbrev updated_oboe : Oboe ℤ Bytes Pairs
updated_oboe = record {
  settings = some (updated_settings local_config (5 * units) arguments);
  rates = no_counts;
  urls = record { cache = []; filters = [] };
}

run-calls : run local_config calls no_oboe ≡ some updated_oboe
unfolding run step update_setting flush_rate_counts check_settings_timeout updated_settings
    merge_local_setting is_expired new_oboe_settings ◌+ℤ◌ flag_string_to_bin split add_flag bytes_eq
    flush
run-calls = refl

run-SettingsValid_example : SettingsValid (updated_settings local_config (5 * units) arguments)
run-SettingsValid_example =
    run-SettingsValid exact-FloatLaws local_config (omega arith, omega arith) calls no_oboe
      updated_oboe (updated_settings local_config (5 * units) arguments) refl
      (arguments-ArgsNonneg, (tt, (tt, tt))) run-calls refl

check_all-update_setting_example :
    check_all
      (9 * units ∷ 70 * units ∷ [])
      (update_setting local_config (5 * units) arguments no_oboe)
    ≡ no_oboe
unfolding update_setting ◌+ℤ◌
check_all-update_setting_example =
    check_all-update_setting local_config (5 * units) arguments (9 * units ∷ 70 * units ∷ [])
      no_oboe
