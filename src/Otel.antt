-- ===== src/Otel.antt =====
-- What the code uses of OpenTelemetry's trace package: the trace state of a span context, and its flags.
use apm_go.Prelude.{ℕ, Bool, true, false, Bytes, [], bytes_eq, ◌≡◌, Option, if◌then◌else◌}

pub record TraceStates (T : Type 0) : Type 0 where
  -- the zero trace.TraceState{}
  pub empty : T
  -- Get, which is "" for a key that is not there
  pub get : T → Bytes → Bytes
  -- Insert, and whether it had no error
  pub insert : T → Bytes → Bytes → T × Bool
  pub delete : T → Bytes → T
  -- ParseTraceState, String and Len
  pub parse : Bytes → Option T
  pub print : T → Bytes
  pub len : T → ℕ

-- An inserted value is found under its key, a failed insertion changes nothing, and a deletion takes
-- away one key and keeps the others. (An insertion may drop the last member of a full list.)
pub record TraceStateLaws (T : Type 0) ⦃ts : TraceStates T⦄ : Type 0 where
  pub get-insert : (t t' : T) (k v : Bytes) → ts.insert t k v ≡ (t', true) → ts.get t' k ≡ v
  pub insert_failed : (t t' : T) (k v : Bytes) → ts.insert t k v ≡ (t', false) → t' ≡ t
  pub get-delete :
      (t : T) (j k : Bytes) → ts.get (ts.delete t k) j ≡ (if bytes_eq j k then [] else ts.get t j)

-- trace.SpanContext: the ids as bytes, the flags as a byte.
pub record SpanContext (T : Type 0) : Type 0 where
  pub trace_id : Bytes
  pub span_id : Bytes
  pub trace_flags : ℕ
  pub trace_state : T
  pub is_remote : Bool

-- SpanContext.IsValid, and TraceFlags.IsSampled of a byte of flags.
pub record SpanContexts (T : Type 0) : Type 0 where
  pub is_valid : SpanContext T → Bool
  pub is_sampled : ℕ → Bool
