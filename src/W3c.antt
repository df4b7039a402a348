-- ===== src/W3c.antt =====
-- internal/w3cfmt/w3cfmt.go: SolarWinds' value in the trace state, `<16 hex digits>-<2 hex digits>`. The pattern
-- `^([0-9a-f]{16})-([0-9a-f]{2})$` is read as a function.
pub mod RoundTrip
use apm_go.Prelude.{
  ℕ, ◌+◌, ◌-◌, ◌*◌, ◌/◌, ◌%◌, Bool, true, false, ◌&&◌, ◌||◌, List, [], ◌∷◌, ◌++◌, Option, none,
  some, Bytes, codes, ◌==◌, leb, ltb, take, drop, length, zero, suc, if◌then◌else◌,
}
use apm_go.Otel.{TraceStates, SpanContext, SpanContexts}
use apm_go.Swotel.{get_sw}

pub record SwTraceState : Type 0 where
  pub is_valid : Bool
  pub span_id : Bytes
  pub flags : ℕ

unfoldable pub invalid_sw_trace_state : SwTraceState
invalid_sw_trace_state = record { is_valid = false; span_id = []; flags = 0 }

-- [0-9a-f]
unfoldable pub is_hex : ℕ → Bool
is_hex c = (leb b'0' c && leb c b'9') || (leb b'a' c && leb c b'f')

-- Exactly n bytes of the class, and what is behind them.
unfoldable pub hex_run : ℕ → Bytes → Option (Bytes × Bytes)
unfolding is_hex
hex_run zero s = some ([], s)
hex_run (suc n) [] = none
hex_run (suc n) (c ∷ s) =
    let rest = hex_run n s in
    if is_hex c then elim rest [ none ↦ none | some (r, s') ↦ some (c ∷ r, s') ] else none

-- A digit's value, in hex.DecodeString.
unfoldable pub hex_value : ℕ → ℕ
hex_value c = if leb c b'9' then c - b'0' else c - b'a' + 10

-- hex.DecodeString of two digits of the class, and its first byte.
unfoldable pub decode_byte : Bytes → ℕ
unfolding hex_value
decode_byte [] = 0
decode_byte (h ∷ []) = 0
decode_byte (h ∷ l ∷ s) = hex_value h * 16 + hex_value l

-- The end of the text after the two digits of the flags, if they are there.
unfoldable pub parse_flags : Bytes → Option (Bytes × Bytes) → SwTraceState
unfolding invalid_sw_trace_state decode_byte
parse_flags span none = invalid_sw_trace_state
parse_flags span (some (flags, [])) = record {
  is_valid = true;
  span_id = span;
  flags = decode_byte flags;
}
parse_flags span (some (flags, x ∷ xs)) = invalid_sw_trace_state

unfoldable pub parse_dash : Bytes → Bytes → SwTraceState
unfolding parse_flags hex_run
parse_dash span [] = invalid_sw_trace_state
parse_dash span (c ∷ s) =
    if c == b'-' then parse_flags span (hex_run 2 s) else invalid_sw_trace_state

unfoldable pub parse_span : Option (Bytes × Bytes) → SwTraceState
unfolding parse_dash
parse_span none = invalid_sw_trace_state
parse_span (some (span, rest)) = parse_dash span rest

unfoldable pub parse_sw_trace_state : Bytes → SwTraceState
unfolding parse_span hex_run
parse_sw_trace_state s = parse_span (hex_run 16 s)

-- The format %x
unfoldable pub hex_digit : ℕ → ℕ
hex_digit n = if ltb n 10 then b'0' + n else b'a' + (n - 10)

unfoldable pub to_hex : Bytes → Bytes
unfolding hex_digit
to_hex [] = []
to_hex (b ∷ bs) = hex_digit (b / 16) ∷ hex_digit (b % 16) ∷ to_hex bs

module _ {T : Type 0} where
  unfoldable pub sw_from_ctx : SpanContext T → Bytes
  unfolding to_hex
  sw_from_ctx sc = to_hex sc.span_id ++ b'-' ∷ to_hex (sc.trace_flags ∷ [])

module _ {T : Type 0} ⦃ts : TraceStates T⦄ ⦃sc : SpanContexts T⦄ where
  unfoldable pub get_sw_trace_state : SpanContext T → SwTraceState
  unfolding get_sw
  get_sw_trace_state ctx =
      if sc.is_valid ctx
      then parse_sw_trace_state (get_sw ctx.trace_state)
      else invalid_sw_trace_state
