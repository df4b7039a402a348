-- ===== src/Sampler.antt =====
-- internal/sampler/sampler.go: the decision of a span's start. The always and never samplers of the SDK are
-- functions of the parent's span context.
pub mod Decision
use apm_go.Prelude.{
  ℕ, Bool, true, false, not, ◌&&◌, ltb, List, [], ◌∷◌, ◌++◌, Option, none, some, map, Bytes, codes,
  is_empty, ◌>>=◌, if◌then◌else◌,
}
use apm_go.Prelude.Int.{ℤ, pos, negsuc}
use apm_go.Float.{Float64}
use apm_go.Otel.{TraceStates, SpanContext, SpanContexts}
use apm_go.Oboe.Request.{Oboe, SwState, sample_request}
use apm_go.Oboe.Life.{get_trigger_trace_token}
use apm_go.Oboe.TriggerTrace.{
  TriggerTraceMode, not_present, invalid, relaxed, strict, SampleDecision, SampleSource,
  source_unset, source_none, source_file, source_default, bucket_capacity_str, bucket_rate_str,
}
use apm_go.Oboe.Urls.{Regexps, Cache}
use apm_go.Swotel.{set_internal_state, xtrace_opt_resp, capture}
use apm_go.W3c.{SwTraceState, get_sw_trace_state}
use apm_go.Xtrace.{
  Options, no_signature, valid_signature, invalid_signature, Hmac, include_response, sig_auth_msg,
  get_options,
}

pub data SamplingDecision : Type 0 where
  drop record_only record_and_sample : SamplingDecision

pub data AttrValue : Type 0 where
  text : Bytes → AttrValue
  int : ℤ → AttrValue

pub record SamplingResult (T : Type 0) : Type 0 where
  pub decision : SamplingDecision
  pub trace_state : T
  pub attributes : List (Bytes × AttrValue)

pub record SdkSamplers (T : Type 0) : Type 0 where
  pub always : SpanContext T → SamplingResult T
  pub never : SpanContext T → SamplingResult T

-- The text of the response to the options; empty for none.
unfoldable pub response_text : Options → Bytes → Bytes
unfolding sig_auth_msg
response_text xto tt_resp =
    let triggered = codes "trigger-trace=" ++ tt_resp in
    let auth = codes "auth=" ++ sig_auth_msg xto in
    elim xto.sig_state [
      | no_signature ↦ triggered
      | valid_signature ↦ auth ++ codes ";" ++ triggered
      | invalid_signature ↦ auth
    ]

-- getTtMode
unfoldable pub get_tt_mode : Options → TriggerTraceMode
get_tt_mode xto =
    if xto.tt
    then elim xto.sig_state [
      | valid_signature ↦ relaxed
      | invalid_signature ↦ invalid
      | no_signature ↦ strict
    ]
    else not_present

-- The iota of SampleSource.
abbrev pub source_code : SampleSource → ℤ
source_code source_unset = negsuc 0
source_code source_none = pos 0
source_code source_file = pos 1
source_code source_default = pos 2

abbrev pub text_attr : Bytes → Bytes → List (Bytes × AttrValue)
text_attr k v = (k, text v) ∷ []

module _ {T : Type 0} ⦃ts : TraceStates T⦄ ⦃sc : SpanContexts T⦄ where
  unfoldable pub hydrate_trace_state : SpanContext T → Options → Bytes → T
  unfolding include_response response_text
  hydrate_trace_state psc xto tt_resp =
      let t = if not (sc.is_valid psc) then ts.empty else psc.trace_state in
      let full = response_text xto tt_resp in
      if include_response xto && not (is_empty full)
      then (set_internal_state t xtrace_opt_resp full).0
      else t

-- What SampleRequest reads of the sender's state, with TraceFlags.IsSampled.
unfoldable pub sw_state : (ℕ → Bool) → SwTraceState → SwState
sw_state is_sampled s = record { is_valid = s.is_valid; is_sampled = is_sampled s.flags }

abbrev pub decision_of : Bool → Bool → SamplingDecision
decision_of enabled trace =
    if not enabled then drop else if trace then record_and_sample else record_only

module _ {F T : Type 0} ⦃fl : Float64 F⦄ ⦃ts : TraceStates T⦄ where
  -- The attributes of a sampled span. The source walks a map for the custom keys, in any order.
  unfoldable pub sampled_attributes : Options → SampleDecision F → T → List (Bytes × AttrValue)
  unfolding capture bucket_capacity_str bucket_rate_str
  sampled_attributes xto d t =
      let captured = capture t in
      (if is_empty xto.sw_keys then [] else text_attr (codes "SWKeys") xto.sw_keys)
      ++ map (λ (k, v). (k, text v)) xto.custom_kvs
      ++ (if xto.tt then text_attr (codes "TriggeredTrace") (codes "true") else [])
      ++ (if ltb 0 (ts.len captured)
          then text_attr (codes "sw.w3c.tracestate") (ts.print captured)
          else [])
      ++ text_attr (codes "BucketCapacity") (bucket_capacity_str d)
      ++ text_attr (codes "BucketRate") (bucket_rate_str d)
      ++ (codes "SampleRate", int d.rate) ∷ (codes "SampleSource", int (source_code d.source)) ∷ []

  unfoldable pub sampling_result :
      ⦃sc : SpanContexts T⦄ → SpanContext T → Options → SampleDecision F → SamplingResult T
  unfolding hydrate_trace_state sampled_attributes
  sampling_result psc xto d =
      let decision = decision_of d.enabled d.trace in
      let t = hydrate_trace_state psc xto d.xtrace_opts_rsp in
      record {
        decision = decision;
        trace_state = t;
        attributes = elim decision [ record_and_sample ↦ sampled_attributes xto d t | _ ↦ [] ];
      }

-- The clock's readings, the roll, and the values of the parent context.
pub record Parameters (T : Type 0) : Type 0 where
  pub unix_now : ℤ
  pub unix_later : ℤ
  pub now : ℕ
  pub roll : ℕ
  pub parent : SpanContext T
  pub opts : Option Bytes
  pub sig : Option Bytes

module _ {F R C T : Type 0} ⦃fl : Float64 F⦄ ⦃rx : Regexps R⦄ ⦃ca : Cache C⦄ ⦃ts : TraceStates T⦄
    ⦃sc : SpanContexts T⦄ ⦃h : Hmac⦄ ⦃sdk : SdkSamplers T⦄ where
  unfoldable pub params_options : Parameters T → Oboe F R C → Options
  unfolding get_trigger_trace_token
  params_options p o = get_options p.unix_now p.unix_later (get_trigger_trace_token o) p.opts p.sig

  -- ShouldSample; `none` is a panic.
  unfoldable pub should_sample_span :
      Parameters T → Oboe F R C → Option (Oboe F R C × SamplingResult T)
  unfolding params_options
  should_sample_span p o =
      let psc = p.parent in
      if sc.is_valid psc && not psc.is_remote
      then some (o, if sc.is_sampled psc.trace_flags then sdk.always psc else sdk.never psc)
      else let xto = params_options p o in
        let sw = get_sw_trace_state psc in
        do
          (o', d) ←
              sample_request p.now p.roll sw.is_valid [] (get_tt_mode xto)
                (sw_state sc.is_sampled sw) o
          some (o', sampling_result psc xto d)
