-- ===== src/Oboe/Request.antt =====
-- internal/oboe/oboe.go: SampleRequest. The time, and the number that the random source rolls, are
-- arguments; a roll that no branch reads is not made.
pub mod Decision
pub mod Trigger
use apm_go.Prelude.{
  ℕ, bit_or, Bool, true, false, not, Option, none, some, Bytes, [], ◌&&◌, ◌||◌, ◌>>=◌,
  if◌then◌else◌,
}
use apm_go.Prelude.Int.{ℤ, pos, negsuc, leb_ℤ, eqb_ℤ}
use apm_go.Float.{Float64}
use apm_go.Metrics.{RateCounts}
use apm_go.Oboe.Bucket.{TokenBucket, count}
use apm_go.Oboe.Flags.{
  sample_start, sample_through, sample_through_always, has, enabled, trigger_trace_enabled,
}
use apm_go.Oboe.Settings.{Settings, bucket_setting, put_bucket, merge_url_setting}
use apm_go.Oboe.TriggerTrace.{
  TriggerTraceMode, not_present, invalid, relaxed, strict, mode_enabled, mode_requested,
  SampleSource, source_unset, source_none, SampleDecision, tt_ok, tt_rate_exceeded,
  tt_tracing_disabled, tt_trigger_tracing_disabled, tt_not_requested, tt_ignored,
  tt_settings_not_available,
}
use apm_go.Oboe.Urls.{Regexps, Cache, UrlFilters}

abbrev pub max_sampling_rate : ℕ
max_sampling_rate = 1_000_000

-- shouldSample, with the result of rand.RandIntn(maxSamplingRate).
unfoldable pub should_sample : ℤ → ℕ → Bool
should_sample rate roll = eqb_ℤ rate (pos max_sampling_rate) || leb_ℤ (pos roll) rate

-- What SampleRequest reads of the w3cfmt.SwTraceState: IsValid() and Flags().IsSampled().
pub record SwState : Type 0 where
  pub is_valid : Bool
  pub is_sampled : Bool

-- The oboe struct's pointer to the settings, and the package's global counters and URL filters.
pub record Oboe (F R C : Type 0) : Type 0 where
  pub settings : Option (Settings F)
  pub rates : RateCounts
  pub urls : UrlFilters R C

-- The local variables of SampleRequest that the dice and the continued decision set.
pub record Wish : Type 0 where
  pub retval : Bool
  pub do_rate_limiting : Bool
  pub dice_rolled : Bool
  pub unset_kvs : Bool

unfoldable pub wish : Bool → SwState → ℕ → ℤ → ℕ → Wish
wish continued sw flags rate roll =
    let sampled = should_sample rate roll in
    let nothing : Wish = record {
      retval = false;
      do_rate_limiting = false;
      dice_rolled = false;
      unset_kvs = false;
    } in
    if not continued
    then (if has flags sample_start
        then record nothing { dice_rolled = true; retval = sampled; do_rate_limiting = sampled }
        else nothing)
    else if sw.is_valid
    then (if sw.is_sampled
        then (if has flags sample_through_always
            then record nothing { unset_kvs = true; retval = true }
            else if has flags sample_through
            then record nothing { dice_rolled = true; retval = sampled }
            else nothing)
        else nothing)
    else nothing

-- The answer to the trigger trace options of a request that starts a trace.
unfoldable pub trigger_rsp : TriggerTraceMode → ℕ → Bool → Bytes
trigger_rsp mode flags ret =
    if trigger_trace_enabled flags && mode_enabled mode
    then (if not ret then tt_rate_exceeded else tt_ok)
    else elim mode [
      | invalid ↦ []
      | _ ↦ if not (enabled flags) then tt_tracing_disabled else tt_trigger_tracing_disabled
    ]

abbrev pub is_invalid : TriggerTraceMode → Bool
is_invalid invalid = true
is_invalid _ = false

module _ {F : Type 0} ⦃fl : Float64 F⦄ where
  -- The branch for a trigger trace request with no trace to continue. The positions of the last two
  -- values of the decision are those of the source: the rate stands where the capacity belongs.
  unfoldable pub trigger_decision :
      ℕ
      → TriggerTraceMode
      → Settings F
      → RateCounts
      → ℕ
      → Settings F × RateCounts × SampleDecision F
  unfolding trigger_rsp
  trigger_decision now mode s rates flags =
      let sampled = not (is_invalid mode) && trigger_trace_enabled flags in
      let (b, rates', ret) = count now sampled false true true (bucket_setting mode s) rates in
      let s' = put_bucket mode b s in
      let setting = bucket_setting mode s' in
      (
        s',
        rates',
        record {
          trace = ret;
          rate = negsuc 0;
          source = source_unset;
          enabled = enabled flags;
          xtrace_opts_rsp = trigger_rsp mode flags ret;
          bucket_cap = setting.rate_per_sec;
          bucket_rate = setting.capacity;
          dice_rolled = false;
        },
      )

  -- The branch for every other request.
  unfoldable pub plain_decision :
      ℕ
      → ℕ
      → Bool
      → TriggerTraceMode
      → SwState
      → Settings F
      → RateCounts
      → ℤ × ℕ × SampleSource
      → Settings F × RateCounts × SampleDecision F
  plain_decision now roll continued mode sw s rates (rate, flags, source) =
      let w = wish continued sw flags rate roll in
      let (b, rates', retval) =
        count now w.retval continued w.do_rate_limiting false (bucket_setting mode s) rates in
      let s' = put_bucket mode b s in
      let setting = bucket_setting not_present s' in
      (
        s',
        rates',
        record {
          trace = retval;
          rate = if w.unset_kvs then negsuc 0 else rate;
          source = if w.unset_kvs then source_unset else source;
          enabled = enabled flags;
          xtrace_opts_rsp = if mode_requested mode then tt_ignored else tt_not_requested;
          bucket_cap = if w.unset_kvs then fl.minus_one else setting.capacity;
          bucket_rate = if w.unset_kvs then fl.minus_one else setting.rate_per_sec;
          dice_rolled = w.dice_rolled;
        },
      )

  unfoldable pub no_settings_decision : SampleDecision F
  no_settings_decision = record {
    trace = false;
    rate = pos 0;
    source = source_none;
    enabled = false;
    xtrace_opts_rsp = tt_settings_not_available;
    bucket_cap = fl.zero_f;
    bucket_rate = fl.zero_f;
    dice_rolled = false;
  }

  unfoldable pub decide :
      ℕ
      → ℕ
      → Bool
      → TriggerTraceMode
      → SwState
      → Settings F
      → RateCounts
      → ℤ × ℕ × SampleSource
      → Settings F × RateCounts × SampleDecision F
  decide now roll continued mode sw s rates (rate, flags, source) =
      if mode_requested mode && not continued
      then trigger_decision now mode s rates flags
      else plain_decision now roll continued mode sw s rates (rate, flags, source)

module _ {F R C : Type 0} ⦃fl : Float64 F⦄ ⦃rx : Regexps R⦄ ⦃ca : Cache C⦄ where
  -- The new state and the decision; `none` is a panic of the URL lookup.
  unfoldable pub sample_request :
      ℕ
      → ℕ
      → Bool
      → Bytes
      → TriggerTraceMode
      → SwState
      → Oboe F R C
      → Option (Oboe F R C × SampleDecision F)
  sample_request now roll continued url mode sw o = elim o.settings [
    | none ↦ some (o, no_settings_decision)
    | some s ↦ do
      (merged, urls') ← merge_url_setting now url s o.urls
      let out = decide now roll continued mode sw s o.rates merged
      some (record { settings = some out.0; rates = out.1; urls = urls' }, out.2)
  ]
