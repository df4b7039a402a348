-- ===== src/Processor.antt =====
-- internal/processor/processor.go: the span processor. The registry is the list of the spans that RecordSpan was
-- given, and the attributes set on the SDK's spans are a list too.
pub mod Nesting
use apm_go.Prelude.{ℕ, Bool, true, false, List, [], ◌∷◌, ◌++◌, Bytes, if◌then◌else◌}
use apm_go.Otel.{SpanContexts}
use apm_go.EntrySpans.{Span, Manager, is_entry_span, push, delete}
use apm_go.Txn.{Semconv, transaction_name}

pub record Processor (T : Type 0) : Type 0 where
  pub manager : Manager
  pub recorded : List (Span T)
  -- the handle of the span, and the transaction name it was given
  pub named : List (ℕ × Bytes)

module _ {T : Type 0} ⦃sc : SpanContexts T⦄ ⦃keys : Semconv⦄ where
  -- OnStart, under the configured name and AWS_LAMBDA_FUNCTION_NAME.
  unfoldable pub on_start : Bytes → Bytes → Span T → Processor T → Processor T
  unfolding is_entry_span push transaction_name
  on_start conf env span p =
      if is_entry_span span
      then record p {
        named = p.named ++ (span.handle, transaction_name conf env p.manager span) ∷ [];
        manager = (push span p.manager).0;
      }
      else p

  -- OnEnd with clearEntrySpan, of the span as it is at its end.
  unfoldable pub on_end : Span T → Processor T → Processor T
  unfolding is_entry_span delete
  on_end span p =
      if is_entry_span span
      then record p { recorded = p.recorded ++ span ∷ []; manager = (delete span p.manager).0 }
      else p
