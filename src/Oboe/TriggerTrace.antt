-- ===== src/Oboe/TriggerTrace.antt =====
-- internal/oboe/trigger_trace.go and internal/oboe/sample_decision.go.
use apm_go.Prelude.{Bool, true, false, Bytes, codes}
use apm_go.Prelude.Int.{ℤ}
use apm_go.Float.{Float64}

abbrev pub tt_ok : Bytes
tt_ok = codes "ok"

abbrev pub tt_rate_exceeded : Bytes
tt_rate_exceeded = codes "rate-exceeded"

abbrev pub tt_tracing_disabled : Bytes
tt_tracing_disabled = codes "tracing-disabled"

abbrev pub tt_trigger_tracing_disabled : Bytes
tt_trigger_tracing_disabled = codes "trigger-tracing-disabled"

abbrev pub tt_not_requested : Bytes
tt_not_requested = codes "not-requested"

abbrev pub tt_ignored : Bytes
tt_ignored = codes "ignored"

abbrev pub tt_settings_not_available : Bytes
tt_settings_not_available = codes "settings-not-available"

-- The four modes that the program makes; the methods panic on any other int.
pub data TriggerTraceMode : Type 0 where
  not_present invalid relaxed strict : TriggerTraceMode

-- Enabled
unfoldable pub mode_enabled : TriggerTraceMode → Bool
mode_enabled not_present = false
mode_enabled invalid = false
mode_enabled relaxed = true
mode_enabled strict = true

-- Requested
unfoldable pub mode_requested : TriggerTraceMode → Bool
mode_requested not_present = false
mode_requested relaxed = true
mode_requested strict = true
mode_requested invalid = true

pub data SampleSource : Type 0 where
  source_unset source_none source_file source_default : SampleSource

pub record SampleDecision (F : Type 0) : Type 0 where
  pub trace : Bool
  pub rate : ℤ
  pub source : SampleSource
  pub enabled : Bool
  pub xtrace_opts_rsp : Bytes
  pub bucket_cap : F
  pub bucket_rate : F
  pub dice_rolled : Bool

module _ {F : Type 0} ⦃fl : Float64 F⦄ where
  -- BucketCapacityStr and BucketRateStr
  unfoldable pub bucket_capacity_str : SampleDecision F → Bytes
  bucket_capacity_str d = fl.format d.bucket_cap

  unfoldable pub bucket_rate_str : SampleDecision F → Bytes
  bucket_rate_str d = fl.format d.bucket_rate
