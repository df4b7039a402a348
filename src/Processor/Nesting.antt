-- ===== src/Processor/Nesting.antt =====
-- A span's start and end leave the entry spans as they were.
use apm_go.Prelude.{[], ◌∷◌, ◌++◌, Bytes, ◌≡◌, refl, arith, if◌then◌else◌, Bool-cases, inl, inr}
use apm_go.Otel.{SpanContexts}
use apm_go.EntrySpans.{Span, is_entry_span, push, push_entry, delete}
use apm_go.EntrySpans.Runs.{entries}
use apm_go.EntrySpans.Names.{Fresh, delete-push_entry}
use apm_go.Txn.{Semconv, transaction_name}
use apm_go.Processor.{Processor, on_start, on_end}

module _ {T : Type 0} ⦃sc : SpanContexts T⦄ ⦃keys : Semconv⦄ where
  -- From a span's start to its end, with whatever attributes and name it has got by then: an entry span is pushed at its start,
  -- recorded once as it is at its end, and gets the transaction name that held at its start; another span is neither
  -- recorded nor named. The trace's entries are left as they were, when none of them has the span's id.
  pub on_end-on_start :
      (conf env : Bytes) (span ended : Span T) (p : Processor T)
      → ended.context ≡ span.context
      → ended.parent ≡ span.parent
      → Fresh span.context.span_id (entries p.manager span.context.trace_id)
      → let started = on_start conf env span p in
        let q = on_end ended started in
        let c = span.context in
        let entry = is_entry_span span in
        (started.manager
          ≡ (if entry then push_entry c.trace_id c.span_id span.handle p.manager else p.manager))
        × (entries q.manager c.trace_id ≡ entries p.manager c.trace_id)
        × (q.recorded ≡ (if entry then p.recorded ++ ended ∷ [] else p.recorded))
        × (q.named ≡ (
            if entry
            then p.named ++ (span.handle, transaction_name conf env p.manager span) ∷ []
            else p.named))
  unfolding on_start on_end push delete
  on_end-on_start conf env span ended p same above fresh =
      let c = span.context in
      let entry_too : is_entry_span ended ≡ is_entry_span span =
        unfold is_entry_span in ground (arith, above) in
      (
        ground arith,
        elim (Bool-cases (is_entry_span span)) [
          | inl entry ↦
              rw (on_end, entry_too, entry, same)
                (delete-push_entry p.manager c.trace_id c.span_id span.handle fresh)
          | inr other ↦ rw (on_end, entry_too, other) refl
        ],
        ground (arith, entry_too),
        ground (arith, entry_too),
      )
