-- ===== src/Oboe/Gauges.antt =====
-- internal/oboe/oboe.go: the gauges through which the SDK collects the request counters. A meter is an interface: whether it
-- makes a gauge and takes the callback.
pub mod Observed
pub mod Conserved
use apm_go.Prelude.{
  ◌-◌, ◌^◌, ltb, ℕ, Bool, true, false, ◌&&◌, List, [], ◌∷◌, Option, none, some, Bytes, codes,
  if◌then◌else◌,
}
use apm_go.Prelude.Int.{ℤ, pos, negsuc}
use apm_go.Metrics.{RateCountSummary}
use apm_go.Oboe.Life.{flush_rate_counts}
use apm_go.Oboe.Request.{Oboe}

pub record Meter : Type 0 where
  pub make_gauge : Bytes → Bool
  pub register_callback : List Bytes → Bool

abbrev pub gauge_names : List Bytes
gauge_names =
    codes "trace.service.tracecount"
    ∷ codes "trace.service.samplecount"
    ∷ codes "trace.service.request_count"
    ∷ codes "trace.service.tokenbucket_exhaustion_count"
    ∷ codes "trace.service.through_trace_count"
    ∷ codes "trace.service.triggered_trace_count"
    ∷ []

-- Makes gauges in order, and stops at the first that fails.
unfoldable pub make_gauges : Meter → List Bytes → Bool
make_gauges m [] = true
make_gauges m (name ∷ names) = m.make_gauge name && make_gauges m names

-- RegisterOtelSampleRateMetrics: whether there is no error.
unfoldable pub register_otel_sample_rate_metrics : Meter → Bool
unfolding make_gauges
register_otel_sample_rate_metrics m =
    if make_gauges m gauge_names then m.register_callback gauge_names else false

-- The int64 of a counter's pattern.
unfoldable pub as_int64 : ℕ → ℤ
as_int64 n = if ltb n (2 ^ 63) then pos n else negsuc (2 ^ 64 - 1 - n)

unfoldable pub observations : RateCountSummary → List (Bytes × ℤ)
unfolding as_int64
observations counts =
    (codes "trace.service.tracecount", as_int64 counts.traced)
    ∷ (codes "trace.service.samplecount", as_int64 counts.sampled)
    ∷ (codes "trace.service.request_count", as_int64 counts.requested)
    ∷ (codes "trace.service.tokenbucket_exhaustion_count", as_int64 counts.limited)
    ∷ (codes "trace.service.through_trace_count", as_int64 counts.through)
    ∷ (codes "trace.service.triggered_trace_count", as_int64 counts.tt_traced)
    ∷ []

-- The callback: the Oboe it leaves, and what it observes.
unfoldable pub collect_rates : {F R C : Type 0} → Oboe F R C → Oboe F R C × List (Bytes × ℤ)
unfolding flush_rate_counts observations
collect_rates o =
    let (after, flushed) = flush_rate_counts o in
    (after, elim flushed [ none ↦ [] | some counts ↦ observations counts ])
