-- ===== src/Oboe/Request/Trigger.antt =====
-- Requests that start a trigger trace, and what every decision needs.
use apm_go.Prelude.{
  ◌||◌, ℕ, Bool, true, false, not, ◌&&◌, ◌≡◌, ◌≢◌, refl, arith, if◌then◌else◌, inl, inr, Bytes, [],
  Bool-cases,
}
use apm_go.Prelude.Int.{ℤ, negsuc}
use apm_go.Float.{Float64}
use apm_go.Metrics.{RateCounts}
use apm_go.Oboe.Bucket.{TokenBucket, update, consume, count}
use apm_go.Oboe.Bucket.Counts.{count_lem}
use apm_go.Oboe.Flags.{
  sample_start, sample_through, sample_through_always, trigger_trace, has, enabled,
  trigger_trace_enabled,
}
use apm_go.Oboe.Settings.{Settings, bucket_setting, put_bucket}
use apm_go.Oboe.TriggerTrace.{
  TriggerTraceMode, not_present, invalid, relaxed, strict, mode_requested, mode_enabled,
  SampleSource, source_unset, tt_ok, tt_rate_exceeded, tt_tracing_disabled,
  tt_trigger_tracing_disabled,
}
use apm_go.Oboe.Request.{SwState, trigger_decision, trigger_rsp, decide, is_invalid}
use apm_go.Oboe.Request.Decision.{plain_decision_lem}

-- The answer that the options of a trigger trace request get.
abbrev pub response : TriggerTraceMode → Bool → Bool → Bool → Bytes
response mode triggers tracing took =
    if is_invalid mode
    then []
    else if triggers
    then (if took then tt_ok else tt_rate_exceeded)
    else if tracing
    then tt_trigger_tracing_disabled
    else tt_tracing_disabled

bucket_setting-put_bucket :
    {F : Type 0} (mode : TriggerTraceMode) (b : TokenBucket F) (s : Settings F)
    → bucket_setting mode (put_bucket mode b s) ≡ b
unfolding put_bucket bucket_setting
bucket_setting-put_bucket not_present b s = refl
bucket_setting-put_bucket invalid b s = refl
bucket_setting-put_bucket relaxed b s = refl
bucket_setting-put_bucket strict b s = refl

module _ {F : Type 0} ⦃fl : Float64 F⦄ where
  -- A trigger trace starts if its signature is not invalid, the flags allow it and the bucket of its mode has a
  -- token. The options are answered accordingly, and only that bucket changes, by the token that was asked
  -- of it.
  pub trigger_decision_lem :
      (now : ℕ) (mode : TriggerTraceMode) (s : Settings F) (rates : RateCounts) (flags : ℕ)
      → mode_requested mode ≡ true
      → let (s', rates', d) = trigger_decision now mode s rates flags in
        let (taken, took) = consume now fl.one_f (bucket_setting mode s) in
        let asks = not (is_invalid mode) && has flags trigger_trace in
        (d.trace ≡ (asks && took))
        × (d.xtrace_opts_rsp ≡ response mode (has flags trigger_trace) (enabled flags) took)
        × (s' ≡ put_bucket mode (if asks then taken else bucket_setting mode s) s)
        × (d.rate ≡ negsuc 0)
        × (d.source ≡ source_unset)
  unfolding trigger_decision trigger_rsp trigger_trace_enabled mode_enabled mode_requested
  trigger_decision_lem now mode s rates flags h =
      let asks = not (is_invalid mode) && has flags trigger_trace in
      ground (arith, count_lem now asks false true true (bucket_setting mode s) rates)

  consume_keeps :
      (now : ℕ) (b : TokenBucket F)
      → let taken = (consume now fl.one_f b).0 in
        (taken.rate_per_sec ≡ b.rate_per_sec) × (taken.capacity ≡ b.capacity)
  unfolding consume update
  consume_keeps now b = ground arith

  -- The capacity and the rate of the bucket stand in each other's place in the decision on a trigger
  -- trace, so the reported BucketCapacity is wrong whenever they differ.
  pub trigger_decision_swaps :
      (now : ℕ) (mode : TriggerTraceMode) (s : Settings F) (rates : RateCounts) (flags : ℕ)
      → (bucket_setting mode s).rate_per_sec ≢ (bucket_setting mode s).capacity
      → let d = (trigger_decision now mode s rates flags).2 in
        (d.bucket_cap ≡ (bucket_setting mode s).rate_per_sec)
        × (d.bucket_rate ≡ (bucket_setting mode s).capacity)
        × (d.bucket_cap ≢ (bucket_setting mode s).capacity)
  unfolding trigger_decision
  trigger_decision_swaps now mode s rates flags apart =
      let b = bucket_setting mode s in
      let asks = not (is_invalid mode) && trigger_trace_enabled flags in
      let c = count_lem now asks false true true b rates in
      let after = (count now asks false true true b rates).0 in
      ground (arith, c, consume_keeps now b, bucket_setting-put_bucket mode after s)

  -- The flags that a traced request has: one that starts a trigger trace is allowed to by its own flag, another that starts a
  -- trace by the flag for that, and one that goes on with a trace by one of the two flags for that.
  pub decide_permitted :
      (now roll : ℕ) (continued : Bool) (mode : TriggerTraceMode) (sw : SwState) (s : Settings F)
      (rates : RateCounts) (rate : ℤ) (flags : ℕ) (source : SampleSource)
      → (decide now roll continued mode sw s rates (rate, flags, source)).2.trace ≡ true
      → (if continued
          then has flags sample_through || has flags sample_through_always
          else if mode_requested mode
          then has flags trigger_trace
          else has flags sample_start)
        ≡ true
  unfolding decide
  decide_permitted now roll continued mode sw s rates rate flags source h =
      elim (Bool-cases (mode_requested mode && not continued)) [
        | inl trigger ↦ ground (arith, trigger_decision_lem now mode s rates flags)
        | inr plain ↦
            ground (arith, plain_decision_lem now roll continued mode sw s rates rate flags source)
      ]
