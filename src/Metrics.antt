-- ===== src/Metrics.antt =====
-- internal/metrics/rate_counts.go and internal/metrics/metrics.go: the request counters. A counter
-- is the 64-bit pattern of its int64.
use apm_go.Prelude.{ℕ, ◌+◌, ◌%◌, ◌^◌}

pub record RateCounts : Type 0 where
  pub requested : ℕ
  pub sampled : ℕ
  pub limited : ℕ
  pub traced : ℕ
  pub through : ℕ
  pub ttraced : ℕ

-- atomic.AddInt64(&c, 1)
abbrev pub add_one : ℕ → ℕ
add_one n = (n + 1) % 2 ^ 64

abbrev pub no_counts : RateCounts
no_counts = record { requested = 0; sampled = 0; limited = 0; traced = 0; through = 0; ttraced = 0 }

-- Swaps each counter with 0: the counters left behind, and the values taken.
unfoldable pub flush : RateCounts → RateCounts × RateCounts
flush c = (
  record c { requested = 0; sampled = 0; limited = 0; traced = 0; through = 0; ttraced = 0 },
  record {
    requested = c.requested;
    sampled = c.sampled;
    limited = c.limited;
    traced = c.traced;
    through = c.through;
    ttraced = c.ttraced;
  },
)

unfoldable pub requested_inc : RateCounts → RateCounts
requested_inc c = record c { requested = add_one c.requested }

unfoldable pub sampled_inc : RateCounts → RateCounts
sampled_inc c = record c { sampled = add_one c.sampled }

unfoldable pub limited_inc : RateCounts → RateCounts
limited_inc c = record c { limited = add_one c.limited }

unfoldable pub traced_inc : RateCounts → RateCounts
traced_inc c = record c { traced = add_one c.traced }

unfoldable pub through_inc : RateCounts → RateCounts
through_inc c = record c { through = add_one c.through }

unfoldable pub trigger_trace_inc : RateCounts → RateCounts
trigger_trace_inc c = record c { ttraced = add_one c.ttraced }

pub record RateCountSummary : Type 0 where
  pub requested : ℕ
  pub traced : ℕ
  pub limited : ℕ
  pub tt_traced : ℕ
  pub sampled : ℕ
  pub through : ℕ
