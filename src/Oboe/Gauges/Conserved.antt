-- ===== src/Oboe/Gauges/Conserved.antt =====
-- Whether what the SDK collects of the request counters adds up.
use apm_go.Prelude.{
  ◌-◌, ℕ, ◌+◌, ◌^◌, ◌<◌, Bool, true, false, not, ◌&&◌, List, [], ◌∷◌, Option, none, some, ◌≡◌,
  arith, Bytes, codes, length, bytes_eq, Option-cases, inl, inr, if◌then◌else◌, ◌>>=◌,
}
use apm_go.Prelude.Int.{ℤ, pos, negsuc}
use apm_go.Float.{Float64}
use apm_go.Metrics.{RateCounts, add_one, flush}
use apm_go.Oboe.Bucket.Counts.{count_lem}
use apm_go.Oboe.Gauges.{as_int64, collect_rates, observations}
use apm_go.Oboe.Life.{
  flush_rate_counts, has_default_setting, update_setting, check_settings_timeout, remove_setting,
}
use apm_go.Oboe.Life.Calls.{Call, updates, checks, removes, flushes, requests}
use apm_go.Oboe.Request.{
  Oboe, SwState, sample_request, decide, trigger_decision, plain_decision, wish, is_invalid,
  no_settings_decision,
}
use apm_go.Oboe.Flags.{trigger_trace_enabled}
use apm_go.Oboe.Settings.{LocalConfig, Settings, bucket_setting, merge_url_setting}
use apm_go.Oboe.TriggerTrace.{SampleDecision, SampleSource, TriggerTraceMode}
use apm_go.Oboe.Urls.{Regexps, Cache}

-- Requests that came while there were settings, traced requests, and the sums of what two gauges were observed with.
pub record Tally : Type 0 where
  pub asked : ℕ
  pub traced : ℕ
  pub observed_requests : ℕ
  pub observed_traced : ℕ

abbrev pub no_tally : Tally
no_tally = record { asked = 0; traced = 0; observed_requests = 0; observed_traced = 0 }

abbrev pub add_tally : Tally → Tally → Tally
add_tally s t = record {
  asked = s.asked + t.asked;
  traced = s.traced + t.traced;
  observed_requests = s.observed_requests + t.observed_requests;
  observed_traced = s.observed_traced + t.observed_traced;
}

abbrev pub bit : Bool → ℕ
bit true = 1
bit false = 0

-- The counter's pattern of an observed int64.
abbrev pub pattern_of : ℤ → ℕ
pattern_of (pos n) = n
pattern_of (negsuc n) = 2 ^ 64 - 1 - n

-- The sum of the observations of a gauge, as counters.
unfoldable pub observed : Bytes → List (Bytes × ℤ) → ℕ
unfolding bytes_eq
observed gauge [] = 0
observed gauge ((name, n) ∷ seen) =
    if bytes_eq gauge name then pattern_of n + observed gauge seen else observed gauge seen

pattern_of-as_int64 : (n : ℕ) → n < 2 ^ 64 → pattern_of (as_int64 n) ≡ n
unfolding as_int64
pattern_of-as_int64 n h = ground arith

module _ {F : Type 0} ⦃fl : Float64 F⦄ where
  decide-rates :
      (now roll : ℕ) (continued : Bool) (mode : TriggerTraceMode) (sw : SwState) (s : Settings F)
      (rates : RateCounts) (m : ℤ × ℕ × SampleSource)
      → let (s', rates', d) = decide now roll continued mode sw s rates m in
        (rates'.requested ≡ add_one rates.requested)
        × (rates'.traced ≡ (if d.trace then add_one rates.traced else rates.traced))
  unfolding decide trigger_decision plain_decision
  decide-rates now roll continued mode sw s rates (rate, flags, source) =
      let w = wish continued sw flags rate roll in
      let asks = not (is_invalid mode) && trigger_trace_enabled flags in
      ground (
        arith,
        count_lem now asks false true true (bucket_setting mode s) rates,
        count_lem now w.retval continued w.do_rate_limiting false (bucket_setting mode s) rates,
      )

module _ {F R C : Type 0} ⦃fl : Float64 F⦄ ⦃rx : Regexps R⦄ ⦃ca : Cache C⦄ where
  -- One call, where a flush is a collection of the gauges; `none` is a panic.
  unfoldable pub tally_call : LocalConfig → Call F → Oboe F R C → Option (Oboe F R C × Tally)
  unfolding collect_rates
  tally_call conf (updates now arg) o = some (update_setting conf now arg o, no_tally)
  tally_call conf (checks now) o = some (check_settings_timeout now o, no_tally)
  tally_call conf removes o = some (remove_setting o, no_tally)
  tally_call conf flushes o =
      let (after, seen) = collect_rates o in
      some (
        after,
        record no_tally {
          observed_requests = observed (codes "trace.service.request_count") seen;
          observed_traced = observed (codes "trace.service.tracecount") seen;
        },
      )
  tally_call conf (requests now roll continued url mode sw) o = do
    out ← sample_request now roll continued url mode sw o
    some (out.0, record no_tally { asked = bit (has_default_setting o); traced = bit out.1.trace })

  -- A history up to its first panic.
  unfoldable pub tally_run : LocalConfig → List (Call F) → Oboe F R C → Oboe F R C × Tally
  tally_run conf [] o = (o, no_tally)
  tally_run conf (c ∷ cs) o = elim (tally_call conf c o) [
    | none ↦ (o, no_tally)
    | some next ↦ let (end, rest) = tally_run conf cs next.0 in (end, add_tally next.1 rest)
  ]

  sample_request-rates :
      (now roll : ℕ) (continued : Bool) (url : Bytes) (mode : TriggerTraceMode) (sw : SwState)
      (o : Oboe F R C) (out : Oboe F R C × SampleDecision F)
      → sample_request now roll continued url mode sw o ≡ some out
      → (out.0.rates.requested
          ≡ (if has_default_setting o then add_one o.rates.requested else o.rates.requested))
        × (out.0.rates.traced ≡ (if out.1.trace then add_one o.rates.traced else o.rates.traced))
  unfolding sample_request has_default_setting no_settings_decision
  sample_request-rates now roll continued url mode sw o out e = elim (Option-cases o.settings) [
    | inl n ↦ ground arith
    | inr (s, m) ↦ elim (Option-cases (merge_url_setting now url s o.urls)) [
      | inl n ↦ absurd (ground arith)
      | inr ((merged, urls), n) ↦
          ground (arith, decide-rates now roll continued mode sw s o.rates merged)
    ]
  ]

  -- A call that returns: what it observed, and what it left in the counter, is what was there and what it asked.
  tally_call_lem :
      (conf : LocalConfig) (c : Call F) (o : Oboe F R C) (next : Oboe F R C × Tally)
      → tally_call conf c o ≡ some next
      → o.rates.requested + 1 < 2 ^ 64
      → o.rates.traced + 1 < 2 ^ 64
      → let (after, t) = next in
        (t.observed_requests + after.rates.requested ≡ o.rates.requested + t.asked)
        × (t.observed_traced + after.rates.traced ≡ o.rates.traced + t.traced)
        × (t.asked < 2)
        × (t.traced < 2)
  unfolding tally_call observed observations collect_rates flush_rate_counts flush update_setting
      check_settings_timeout remove_setting bytes_eq
  tally_call_lem conf (updates now arg) o next e h k = ground arith
  tally_call_lem conf (checks now) o next e h k = ground arith
  tally_call_lem conf removes o next e h k = ground arith
  tally_call_lem conf flushes o next e h k =
      ground (arith, pattern_of-as_int64 o.rates.requested, pattern_of-as_int64 o.rates.traced)
  tally_call_lem conf (requests now roll continued url mode sw) o next e h k =
      elim (Option-cases (sample_request now roll continued url mode sw o)) [
        | inl n ↦ absurd (ground arith)
        | inr (out, n) ↦ ground (arith, sample_request-rates now roll continued url mode sw o out n)
      ]

  -- Over any history of updates, expiry checks, removals, requests and collections, up to its first panic, nothing is lost or
  -- counted twice: what the SDK observes of the gauge of requests, with what the counter holds at the end, is what it held at
  -- the start and the requests that came while there were settings; and what it observes of the gauge of traces adds up
  -- likewise to the requests that were decided to be traced. The history is short enough that neither counter reaches 2^64.
  pub tally_run_lem :
      (conf : LocalConfig) (cs : List (Call F)) (o : Oboe F R C)
      → o.rates.requested + length cs < 2 ^ 64
      → o.rates.traced + length cs < 2 ^ 64
      → let (end, t) = tally_run conf cs o in
        (t.observed_requests + end.rates.requested ≡ o.rates.requested + t.asked)
        × (t.observed_traced + end.rates.traced ≡ o.rates.traced + t.traced)
  unfolding tally_run
  tally_run_lem conf [] o h k = ground arith
  tally_run_lem conf (c ∷ cs) o h k = elim (Option-cases (tally_call conf c o)) [
    | inl n ↦ ground arith
    | inr (next, n) ↦ ground (arith, tally_call_lem conf c o next n, tally_run_lem conf cs next.0)
  ]
