-- ===== src/Response.antt =====
-- internal/metrics/otel.go and swo/log.go: what is recorded of a span's response time, and what is added to a log record. The
-- SDK's histogram and package slog are values: the measurement, and the attributes.
use apm_go.Prelude.{
  ℕ, suc, ◌/◌, Bool, false, ◌&&◌, ◌||◌, List, [], ◌∷◌, ◌++◌, Bytes, codes, bytes_eq, ltb,
  if◌then◌else◌,
}
use apm_go.Prelude.Int.{ℤ, pos, negsuc, sub_ℕ}
use apm_go.Oboe.Time.{sub_time}
use apm_go.Otel.{SpanContext}
use apm_go.W3c.{to_hex}

-- The keys of searchSet, from the package semconv.
pub record SearchKeys : Type 0 where
  pub http_request_method_key : Bytes
  pub http_status_code_key : Bytes
  pub http_route_key : Bytes
  pub http_method_key : Bytes
  pub old_http_status_code_key : Bytes

unfoldable pub in_search_set : ⦃keys : SearchKeys⦄ → Bytes → Bool
in_search_set ⦃keys⦄ key =
    bytes_eq key keys.http_request_method_key
    || bytes_eq key keys.http_status_code_key
    || bytes_eq key keys.http_route_key
    || bytes_eq key keys.http_method_key
    || bytes_eq key keys.old_http_status_code_key

-- The attributes of a measurement: the two of the agent, and those of the span, whose values are the SDK's.
pub data Attribute (V : Type 0) : Type 0 where
  is_error_attribute : Bool → Attribute V
  transaction_attribute : Bytes → Attribute V
  span_attribute : Bytes → V → Attribute V

-- What RecordSpan reads of a span that has ended.
pub record EndedSpan (V : Type 0) : Type 0 where
  pub has_error_status : Bool
  pub is_server : Bool
  pub attributes : List (Bytes × V)
  pub start_time : ℕ
  pub end_time : ℕ

pub record Measurement (V : Type 0) : Type 0 where
  pub milliseconds : ℤ
  pub attributes : List (Attribute V)

-- Duration.Milliseconds: the quotient, towards zero.
unfoldable pub to_milliseconds : ℤ → ℤ
to_milliseconds (pos n) = pos (n / 1_000_000)
to_milliseconds (negsuc n) = sub_ℕ 0 (suc n / 1_000_000)

module _ {V : Type 0} ⦃keys : SearchKeys⦄ where
  unfoldable pub searched_attributes : List (Bytes × V) → List (Attribute V)
  unfolding in_search_set
  searched_attributes [] = []
  searched_attributes ((key, val) ∷ attrs) =
      let rest = searched_attributes attrs in
      if in_search_set key then span_attribute key val ∷ rest else rest

  -- RecordSpan, with the transaction's name.
  unfoldable pub record_span : Bytes → EndedSpan V → Measurement V
  unfolding searched_attributes to_milliseconds sub_time
  record_span transaction span = record {
    milliseconds = to_milliseconds (sub_time span.end_time span.start_time);
    attributes =
        (is_error_attribute span.has_error_status ∷ transaction_attribute transaction ∷ [])
        ++ (if span.is_server then searched_attributes span.attributes else []);
  }

-- LoggableTraceContext
pub record LoggableTraceContext : Type 0 where
  pub trace_id : Bytes
  pub span_id : Bytes
  pub trace_flags : ℕ
  pub service_name : Bytes

unfoldable pub loggable_trace_from_span_context :
    {T : Type 0} → Bytes → SpanContext T → LoggableTraceContext
loggable_trace_from_span_context service_name ctx = record {
  trace_id = ctx.trace_id;
  span_id = ctx.span_id;
  trace_flags = ctx.trace_flags;
  service_name = service_name;
}

-- A valid id has a byte that is not 0.
unfoldable pub is_nonzero : Bytes → Bool
is_nonzero [] = false
is_nonzero (c ∷ s) = ltb 0 c || is_nonzero s

unfoldable pub is_loggable : LoggableTraceContext → Bool
unfolding is_nonzero
is_loggable l = is_nonzero l.trace_id && is_nonzero l.span_id

unfoldable pub show_loggable : LoggableTraceContext → Bytes
unfolding to_hex
show_loggable l =
    codes "trace_id="
    ++ to_hex l.trace_id
    ++ codes " span_id="
    ++ to_hex l.span_id
    ++ codes " trace_flags="
    ++ to_hex (l.trace_flags ∷ [])
    ++ codes " resource.service.name="
    ++ l.service_name

-- The attributes that Handle adds to a record.
unfoldable pub logged_attributes : LoggableTraceContext → List (Bytes × Bytes)
unfolding is_loggable to_hex
logged_attributes l =
    (if is_loggable l
      then (codes "trace_id", to_hex l.trace_id)
        ∷ (codes "span_id", to_hex l.span_id)
        ∷ (codes "trace_flags", to_hex (l.trace_flags ∷ []))
        ∷ []
      else [])
    ++ (codes "resource.service.name", l.service_name) ∷ []
