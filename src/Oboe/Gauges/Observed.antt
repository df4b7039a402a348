-- ===== src/Oboe/Gauges/Observed.antt =====
-- What collections of the request counters observe.
use apm_go.Prelude.{List, [], ◌∷◌, ◌≡◌, arith, Bytes, if◌then◌else◌}
use apm_go.Metrics.{no_counts, flush}
use apm_go.Prelude.Int.{ℤ}
use apm_go.Oboe.Gauges.{as_int64, gauge_names, observations, collect_rates}
use apm_go.Oboe.Life.{flush_rate_counts, has_default_setting}
use apm_go.Oboe.Request.{Oboe}

abbrev names_of : List (Bytes × ℤ) → List Bytes
names_of [] = []
names_of ((name, n) ∷ xs) = name ∷ names_of xs

abbrev values_of : List (Bytes × ℤ) → List ℤ
values_of [] = []
values_of ((name, n) ∷ xs) = n ∷ values_of xs

-- A collection observes the gauges that were registered, each with its counter, and starts the counters anew; but without
-- settings it observes nothing, and the counters go on.
pub collect_rates_lem :
    {F R C : Type 0} (o : Oboe F R C)
    → let (after, seen) = collect_rates o in
      let c = o.rates in
      if has_default_setting o
      then (names_of seen ≡ gauge_names)
        × (values_of seen
            ≡ as_int64 c.traced
              ∷ as_int64 c.sampled
              ∷ as_int64 c.requested
              ∷ as_int64 c.limited
              ∷ as_int64 c.through
              ∷ as_int64 c.ttraced
              ∷ [])
        × (after.rates ≡ no_counts)
        × (after.settings ≡ o.settings)
      else (seen ≡ []) × (after ≡ o)
unfolding collect_rates observations flush_rate_counts has_default_setting flush
collect_rates_lem o = ground arith
