-- ===== src/Propagator.antt =====
-- internal/propagator/propagator.go. The carrier's Get and Set are the SDK's; the two values of the context that
-- Extract writes are options.
pub mod RoundTrip
use apm_go.Prelude.{
  ℕ, Bool, true, false, not, Option, none, some, Bytes, codes, is_empty, if◌then◌else◌,
}
use apm_go.Otel.{TraceStates, SpanContext, SpanContexts}
use apm_go.Swotel.{set_sw, remove_internal_state, xtrace_opt_resp}
use apm_go.W3c.{sw_from_ctx}

pub record Carriers (K : Type 0) : Type 0 where
  pub get : K → Bytes → Bytes
  pub set : K → Bytes → Bytes → K

abbrev pub trace_state_key : Bytes
trace_state_key = codes "tracestate"

abbrev pub options_header : Bytes
options_header = codes "x-trace-options"

abbrev pub options_sig_header : Bytes
options_sig_header = codes "x-trace-options-signature"

module _ {T : Type 0} ⦃ts : TraceStates T⦄ ⦃sc : SpanContexts T⦄ where
  -- The trace state that Inject starts from; none where it returns.
  unfoldable pub injected_state : SpanContext T → Bytes → Option T
  injected_state ctx header =
      if is_empty header
      then (if not (sc.is_valid ctx) then none else some ts.empty)
      else ts.parse header

module _ {T K : Type 0} ⦃ts : TraceStates T⦄ ⦃sc : SpanContexts T⦄ ⦃ca : Carriers K⦄ where
  unfoldable pub inject : SpanContext T → K → K
  unfolding injected_state set_sw remove_internal_state
  inject ctx k = elim (injected_state ctx (ca.get k trace_state_key)) [
    | none ↦ k
    | some t ↦
        let (t', inserted) = set_sw t (sw_from_ctx ctx) in
        if not inserted
        then k
        else ca.set k trace_state_key (ts.print (remove_internal_state t' xtrace_opt_resp))
  ]

-- The values under OptionsKey and SignatureKey.
pub record XtraceContext : Type 0 where
  pub opts : Option Bytes
  pub sig : Option Bytes

module _ {K : Type 0} ⦃ca : Carriers K⦄ where
  unfoldable pub extract : XtraceContext → K → XtraceContext
  extract ctx k =
      let opts = ca.get k options_header in
      let sig = ca.get k options_sig_header in
      let ctx' = if not (is_empty opts) then record ctx { opts = some opts } else ctx in
      if not (is_empty sig) then record ctx' { sig = some sig } else ctx'
