-- ===== src/Sampler/Decision.antt =====
-- What the sampler decides, from the header to the bucket.
use apm_go.Prelude.{
  ℕ, Bool, true, false, not, ◌&&◌, ◌||◌, [], Option, none, some, ◌≡◌, refl, sym, arith, Bytes,
  is_empty, if◌then◌else◌, inl, inr, Bool-cases,
}
use apm_go.Float.{Float64}
use apm_go.Metrics.{RateCounts}
use apm_go.Otel.{TraceStates, SpanContext, SpanContexts}
use apm_go.Oboe.Bucket.{consume}
use apm_go.Oboe.Flags.{has, trigger_trace, enabled, sample_through, sample_through_always}
use apm_go.Oboe.Settings.{Settings, merge_url_setting, bucket_setting}
use apm_go.Oboe.Request.{
  Oboe, SwState, sample_request, decide, trigger_decision, plain_decision, is_invalid,
  should_sample,
}
use apm_go.Oboe.Request.Decision.{plain_decision_lem, goes_on, starts}
use apm_go.Oboe.Request.Trigger.{trigger_decision_lem}
use apm_go.Oboe.TriggerTrace.{TriggerTraceMode, mode_requested}
use apm_go.Oboe.Urls.{Regexps, Cache}
use apm_go.Swotel.{get_sw}
use apm_go.W3c.{get_sw_trace_state, parse_sw_trace_state, invalid_sw_trace_state}
use apm_go.Oboe.Life.{token, no_key, get_trigger_trace_token}
use apm_go.Xtrace.{
  Options, Hmac, parse_options, get_options, valid_signature, no_signature, invalid_signature,
}
use apm_go.Sampler.{
  SamplingResult, SdkSamplers, Parameters, drop, record_only, record_and_sample, get_tt_mode,
  sw_state, sampling_result, params_options, should_sample_span,
}

module _ {F R C : Type 0} ⦃fl : Float64 F⦄ ⦃rx : Regexps R⦄ ⦃ca : Cache C⦄ where
  -- A request with no URL is decided on the service's settings.
  sample_request_no_url :
      (now roll : ℕ) (continued : Bool) (mode : TriggerTraceMode) (sw : SwState) (o : Oboe F R C)
      (s : Settings F)
      → o.settings ≡ some s
      → let out = decide now roll continued mode sw s o.rates (s.value, s.flags, s.source) in
        sample_request now roll continued [] mode sw o
        ≡ some (record { settings = some out.0; rates = out.1; urls = o.urls }, out.2)
  unfolding sample_request merge_url_setting
  sample_request_no_url now roll continued mode sw o s e = rw (e, sample_request) refl

mode_requested-get_tt_mode : (xto : Options) → mode_requested (get_tt_mode xto) ≡ xto.tt
unfolding mode_requested get_tt_mode
mode_requested-get_tt_mode xto = ground arith

module _ {F : Type 0} ⦃fl : Float64 F⦄ where
  abbrev traces : ℕ → ℕ → Bool → TriggerTraceMode → SwState → Settings F → Bool
  traces now roll triggers mode sw s =
      if triggers && not sw.is_valid
      then not (is_invalid mode)
        && has s.flags trigger_trace
        && (consume now fl.one_f (bucket_setting mode s)).1
      else if sw.is_valid
      then goes_on sw s.flags s.value roll
      else starts s.flags s.value roll && (consume now fl.one_f s.bucket).1

  decide-traces :
      (now roll : ℕ) (mode : TriggerTraceMode) (sw : SwState) (s : Settings F) (rates : RateCounts)
      → let d = (decide now roll sw.is_valid mode sw s rates (s.value, s.flags, s.source)).2 in
        (d.trace ≡ traces now roll (mode_requested mode) mode sw s) × (d.enabled ≡ enabled s.flags)
  unfolding decide
  decide-traces now roll mode sw s rates =
      elim (Bool-cases (mode_requested mode && not sw.is_valid)) [
        | inl trigger ↦ (
          ground (arith, trigger_decision_lem now mode s rates s.flags),
          unfold trigger_decision in ground arith,
        )
        | inr plain ↦ (
          ground (
            arith,
            plain_decision_lem now roll sw.is_valid mode sw s rates s.value s.flags s.source,
          ),
          unfold plain_decision in ground arith,
        )
      ]

module _ {F : Type 0} ⦃fl : Float64 F⦄ where
  -- Whether the options start a trigger trace: a signature that is good takes a token of the relaxed bucket, none at all one of
  -- the strict bucket, and a bad one starts nothing.
  abbrev pub triggered : ℕ → Options → Settings F → Bool
  triggered now xto s = has s.flags trigger_trace && elim xto.sig_state [
    | valid_signature ↦ (consume now fl.one_f s.relaxed_bucket).1
    | no_signature ↦ (consume now fl.one_f s.strict_bucket).1
    | invalid_signature ↦ false
  ]

  -- Whether a request is traced, from the options, whether a trace is continued, and whether its sender sampled it: it starts a
  -- trigger trace, goes on by the flags and the dice, or starts by them and takes a token.
  abbrev pub traced : ℕ → ℕ → Options → Bool → Bool → Settings F → Bool
  traced now roll xto continued sampled s =
      if continued
      then sampled
        && (has s.flags sample_through_always
            || has s.flags sample_through && should_sample s.value roll)
      else if xto.tt
      then triggered now xto s
      else starts s.flags s.value roll && (consume now fl.one_f s.bucket).1

  traces-traced :
      (now roll : ℕ) (xto : Options) (sw : SwState) (s : Settings F)
      → traces now roll xto.tt (get_tt_mode xto) sw s
        ≡ traced now roll xto sw.is_valid sw.is_sampled s
  unfolding get_tt_mode bucket_setting
  traces-traced now roll xto sw s = ground arith

-- The text of an option of the context; empty for none.
abbrev pub given : Option Bytes → Bytes
given opt = elim opt [ none ↦ [] | some value ↦ value ]

module _ {T : Type 0} ⦃ts : TraceStates T⦄ ⦃sc : SpanContexts T⦄ where
  sw_state-parsed :
      (psc : SpanContext T)
      → let sender = parse_sw_trace_state (get_sw psc.trace_state) in
        let sw = sw_state sc.is_sampled (get_sw_trace_state psc) in
        (sw.is_valid ≡ (sc.is_valid psc && sender.is_valid))
        × (sc.is_valid psc ≡ true → sw.is_sampled ≡ sc.is_sampled sender.flags)
  unfolding sw_state get_sw_trace_state invalid_sw_trace_state
  sw_state-parsed psc = (ground arith, λ h. ground arith)

module _ {F T : Type 0} ⦃fl : Float64 F⦄ ⦃ts : TraceStates T⦄ ⦃sc : SpanContexts T⦄ where
  traced_sender :
      (now roll : ℕ) (xto : Options) (psc : SpanContext T) (s : Settings F)
      → let sender = parse_sw_trace_state (get_sw psc.trace_state) in
        let sw = sw_state sc.is_sampled (get_sw_trace_state psc) in
        traced now roll xto sw.is_valid sw.is_sampled s
        ≡ traced now roll xto (sc.is_valid psc && sender.is_valid) (sc.is_sampled sender.flags) s
  traced_sender now roll xto psc s =
      let sw = sw_state sc.is_sampled (get_sw_trace_state psc) in
      let (valid, sampled) = sw_state-parsed psc in
      elim (Bool-cases (sc.is_valid psc)) [
        | inl on ↦ rw (valid, sampled on) refl
        | inr off ↦ rw (valid, off) refl
      ]

module _ {F R C T : Type 0} ⦃fl : Float64 F⦄ ⦃rx : Regexps R⦄ ⦃ca : Cache C⦄ ⦃ts : TraceStates T⦄
    ⦃sc : SpanContexts T⦄ ⦃h : Hmac⦄ ⦃sdk : SdkSamplers T⦄ where
  params_options-parsed :
      (p : Parameters T) (o : Oboe F R C) (s : Settings F)
      → o.settings ≡ some s
      → params_options p o
        ≡ parse_options p.unix_now p.unix_later
            (if is_empty s.trigger_token then no_key else token s.trigger_token)
            (given p.opts)
            (given p.sig)
  unfolding params_options get_trigger_trace_token get_options
  params_options-parsed p o s e = rw (params_options, e) refl

  -- The sampler's decision on a span with no parent or a remote one, under the settings in force, from the two headers and the
  -- sender's member of the trace state: dropped if tracing is not enabled, else sampled if its trace starts or goes on, else only
  -- recorded. A trace that goes on is one whose parent is valid and has a member that parses, and follows the member's
  -- sampled flag; another starts as a trigger trace if the header asks for it, in the bucket that its signature allows. The
  -- decision never panics.
  pub should_sample_span_decision :
      (p : Parameters T) (o : Oboe F R C) (s : Settings F)
      → o.settings ≡ some s
      → sc.is_valid p.parent && not p.parent.is_remote ≡ false
      → let key = if is_empty s.trigger_token then no_key else token s.trigger_token in
        let xto = parse_options p.unix_now p.unix_later key (given p.opts) (given p.sig) in
        let sender = parse_sw_trace_state (get_sw p.parent.trace_state) in
        let continued = sc.is_valid p.parent && sender.is_valid in
        let sampled = sc.is_sampled sender.flags in
        (o' : Oboe F R C) × (r : SamplingResult T) × (should_sample_span p o ≡ some (o', r))
        × (r.decision ≡ (
            if not (enabled s.flags)
            then drop
            else if traced p.now p.roll xto continued sampled s
            then record_and_sample
            else record_only))
  unfolding should_sample_span
  should_sample_span_decision p o s e remote =
      let xto = params_options p o in
      let sw = sw_state sc.is_sampled (get_sw_trace_state p.parent) in
      let mode = get_tt_mode xto in
      let out = decide p.now p.roll sw.is_valid mode sw s o.rates (s.value, s.flags, s.source) in
      let l = sample_request_no_url p.now p.roll sw.is_valid mode sw o s e in
      let d = decide-traces p.now p.roll mode sw s o.rates in
      (
        record { settings = some out.0; rates = out.1; urls = o.urls },
        sampling_result p.parent xto out.2,
        unfold sw_state in rw (remote, l) refl,
        rw
            (
              sym (params_options-parsed p o s e),
              sym (traced_sender p.now p.roll xto p.parent s),
              sym (traces-traced p.now p.roll xto sw s),
            )
            (unfold sampling_result in ground (arith, d, mode_requested-get_tt_mode xto)),
      )
