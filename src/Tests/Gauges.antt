-- ===== src/Tests/Gauges.antt =====
-- What is collected of an Oboe's counters.
use apm_go.Prelude.{false, ◌+◌, ◌*◌, List, [], ◌∷◌, ◌≡◌, arith}
use apm_go.Prelude.Int.{ℤ}
use apm_go.Float.Exact.{exact, units}
use apm_go.Oboe.Gauges.Conserved.{tally_run, tally_run_lem}
use apm_go.Oboe.Life.Calls.{Call, updates, requests, flushes}
use apm_go.Oboe.TriggerTrace.{not_present}
use apm_go.Tests.Fixtures.{prefixes, keep_all}
use apm_go.Tests.Requests.{arguments, local_config, no_oboe, no_sender}

-- A request without settings, one with them, and a collection.
abbrev collected : List (Call ℤ)
collected =
    requests (4 * units) 7 false [] not_present no_sender
    ∷ updates (5 * units) arguments
    ∷ requests (6 * units) 7 false [] not_present no_sender
    ∷ flushes
    ∷ []

tally_run_lem_example :
    let (end, t) = tally_run local_config collected no_oboe in
    (t.observed_requests + end.rates.requested ≡ 0 + t.asked)
    × (t.observed_traced + end.rates.traced ≡ 0 + t.traced)
tally_run_lem_example = tally_run_lem local_config collected no_oboe (omega arith) (omega arith)
