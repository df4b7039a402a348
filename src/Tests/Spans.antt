-- ===== src/Tests/Spans.antt =====
-- Entry spans, transaction names, the span processor and the sampler.
use apm_go.Prelude.{
  ◌*◌, true, false, List, [], ◌∷◌, none, some, ◌≡◌, refl, Bytes, codes, bytes_eq, trim_space,
  if◌then◌else◌,
}
use apm_go.Prelude.Int.{ℤ, pos}
use apm_go.Float.Exact.{units, exact}
use apm_go.Metrics.{no_counts}
use apm_go.EntrySpans.{
  Span, SpanMap, std_manager, is_entry_span, set_transaction_name, push_entry, delete_entry,
  current, entry_name, no_error, new_entry, remove_entry, rename_last,
}
use apm_go.EntrySpans.Names.{nested_entry_span}
use apm_go.EntrySpans.Runs.{
  list_step, SpanCall, push_call, delete_call, name_call, entries, run, run-entries,
}
use apm_go.Oboe.Flags.{enabled}
use apm_go.Oboe.Request.{Oboe}
use apm_go.Processor.{Processor, on_start, on_end}
use apm_go.Processor.Nesting.{on_end-on_start}
use apm_go.Sampler.{Parameters, SamplingResult, should_sample_span, record_and_sample, record_only}
use apm_go.Sampler.Decision.{traced, should_sample_span_decision}
use apm_go.Txn.{transaction_name, derive_name, extract_name}
use apm_go.Txn.Name.{derive_name_lem}
use apm_go.W3c.{parse_sw_trace_state}
use apm_go.Xtrace.{parse_options}
use apm_go.Oboe.Life.{token}
use apm_go.Tests.Fixtures.{
  Pairs, prefixes, keep_all, only, contexts, hmac, sdk_samplers, semconv, sampled_context,
  eight_bytes,
}
use apm_go.Tests.Requests.{open_settings}

abbrev trace : Bytes
trace = codes "trace"

abbrev no_spans : SpanMap
no_spans tid = none

abbrev span_calls : List SpanCall
span_calls =
    push_call trace (codes "outer") 1
    ∷ push_call (codes "other") (codes "span") 2
    ∷ push_call trace (codes "inner") 3
    ∷ name_call trace (codes "checkout")
    ∷ delete_call trace (codes "outer")
    ∷ []

run-entries_example :
    entries (run span_calls (std_manager no_spans)) trace
    ≡ record { span_id = codes "inner"; span_handle = 3; txn_name = codes "checkout" } ∷ []
unfolding list_step bytes_eq remove_entry rename_last new_entry
run-entries_example = run-entries span_calls no_spans trace

nested_entry_span_example :
    let outer = std_manager no_spans in
    let (inner, target, err) =
      set_transaction_name trace (codes "checkout") (push_entry trace (codes "span") 4 outer) in
    let (after, err') = delete_entry trace (codes "span") inner in
    (target ≡ some 4)
    × (err ≡ no_error)
    × (current trace inner ≡ some (codes "span", true))
    × (entry_name trace inner ≡ codes "checkout")
    × (err' ≡ no_error)
    × (entries after trace ≡ [])
    × (current trace after ≡ current trace outer)
    × (entry_name trace after ≡ [])
unfolding entry_name
nested_entry_span_example = nested_entry_span no_spans trace (codes "span") (codes "checkout") 4 tt

abbrev root_span : Span Bytes
root_span = record {
  handle = 7;
  context = sampled_context;
  parent = record sampled_context { span_id = [] };
  name = codes " GET ";
  attributes = (codes "url.path", codes "/api/users/7?x=1") ∷ [];
}

abbrev idle_processor : Processor Bytes
idle_processor = record { manager = std_manager no_spans; recorded = []; named = [] }

-- The span at its end, with its transaction's name.
abbrev ended_span : Span Bytes
ended_span = record root_span {
  attributes = (codes "sw.transaction", codes "/api/users") ∷ root_span.attributes;
}

on_end-on_start_example :
    let started = on_start [] [] root_span idle_processor in
    let q = on_end ended_span started in
    (started.manager ≡ push_entry trace eight_bytes 7 (std_manager no_spans))
    × (entries q.manager trace ≡ [])
    × (q.recorded ≡ ended_span ∷ [])
    × (q.named ≡ (7, codes "/api/users") ∷ [])
unfolding is_entry_span transaction_name trim_space bytes_eq
on_end-on_start_example = on_end-on_start [] [] root_span ended_span idle_processor refl refl tt

derive_name_lem_example :
    derive_name [] [] (codes " GET ") root_span.attributes ≡ codes "/api/users"
unfolding extract_name trim_space bytes_eq
derive_name_lem_example = derive_name_lem [] [] (codes " GET ") root_span.attributes

abbrev root_parameters : Parameters Bytes
root_parameters = record {
  unix_now = pos 0;
  unix_later = pos 0;
  now = 6 * units;
  roll = 7;
  parent = record sampled_context { span_id = []; is_remote = false };
  opts = some (codes "trigger-trace");
  sig = none;
}

abbrev started_oboe : Oboe ℤ Bytes Pairs
started_oboe = record {
  settings = some open_settings;
  rates = no_counts;
  urls = record { cache = []; filters = [] };
}

should_sample_span_decision_example :
    let p = root_parameters in
    let xto = parse_options (pos 0) (pos 0) (token (codes "key")) (codes "trigger-trace") [] in
    (o' : Oboe ℤ Bytes Pairs) × (r : SamplingResult Bytes) × (should_sample_span
        ⦃ts = only (codes "sw")⦄ p started_oboe
      ≡ some (o', r))
    × (r.decision ≡ (
        if traced p.now p.roll xto false false open_settings
        then record_and_sample
        else record_only))
unfolding enabled parse_sw_trace_state
should_sample_span_decision_example =
    should_sample_span_decision ⦃ts = only (codes "sw")⦄ root_parameters started_oboe open_settings
      refl refl
