-- ===== src/Propagator/RoundTrip.antt =====
-- What is injected for a span context is read back, and what is extracted is parsed.
use apm_go.Prelude.{
  true, not, [], ◌∷◌, Option, none, some, Bytes, ◌≡◌, refl, arith, All, length, is_empty,
  if◌then◌else◌, bytes_eq_refl, bytes_eq,
}
use apm_go.Prelude.Int.{ℤ}
use apm_go.Otel.{TraceStates, TraceStateLaws, SpanContext, SpanContexts}
use apm_go.Oboe.Life.{TokenResult}
use apm_go.Swotel.{get_sw, set_sw, get_internal_state, remove_internal_state, xtrace_opt_resp}
use apm_go.W3c.{sw_from_ctx, parse_sw_trace_state, to_hex}
use apm_go.W3c.RoundTrip.{IsByte, parse-sw_from_ctx}
use apm_go.Xtrace.{Hmac, parse_options, get_options}
use apm_go.Propagator.{
  Carriers, trace_state_key, options_header, options_sig_header, injected_state, inject, extract,
}

-- The header that Set writes is the one that Get reads, and a printed trace state is parsed to itself.
pub record WireLaws (T K : Type 0) ⦃ts : TraceStates T⦄ ⦃ca : Carriers K⦄ : Type 0 where
  pub get-set : (k : K) (key val : Bytes) → ca.get (ca.set k key val) key ≡ val
  pub parse-print : (t : T) → ts.parse (ts.print t) ≡ some t

module _ {T K : Type 0} ⦃ts : TraceStates T⦄ ⦃sc : SpanContexts T⦄ ⦃ca : Carriers K⦄ where
  -- Where Inject has a trace state to start from and the trace state accepts SolarWinds' member, the header
  -- that it sets is parsed to a trace state whose SolarWinds member gives the span's id in hexadecimal and its flags,
  -- and which holds no response for a trigger trace.
  pub parse-inject :
      TraceStateLaws T
      → WireLaws T K
      → (ctx : SpanContext T) (k : K) (t t' : T) → length ctx.span_id ≡ 8
      → All IsByte ctx.span_id
      → IsByte ctx.trace_flags
      → injected_state ctx (ca.get k trace_state_key) ≡ some t
      → set_sw t (sw_from_ctx ctx) ≡ (t', true)
      → (sent : T) × (ts.parse (ca.get (inject ctx k) trace_state_key) ≡ some sent)
        × (parse_sw_trace_state (get_sw sent)
            ≡ record { is_valid = true; span_id = to_hex ctx.span_id; flags = ctx.trace_flags })
        × (get_internal_state sent xtrace_opt_resp ≡ [])
  unfolding inject get_sw set_sw remove_internal_state get_internal_state
  parse-inject laws wire ctx k t t' len bytes flag start set = (
    remove_internal_state t' xtrace_opt_resp,
    rw (inject, start, set, wire.get-set, wire.parse-print) refl,
    unfold bytes_eq in
        rw (laws.get-delete, laws.get-insert t t' _ _ set) (parse-sw_from_ctx ctx len bytes flag),
    rw (laws.get-delete, bytes_eq_refl) refl,
  )

abbrev text_of : Option Bytes → Bytes
text_of none = []
text_of (some s) = s

or_empty : (s : Bytes) → text_of (if not (is_empty s) then some s else none) ≡ s
or_empty [] = refl
or_empty (c ∷ s) = refl

module _ ⦃h : Hmac⦄ where
  get_options_lem :
      (now later : ℤ) (tok : TokenResult) (opts sig : Option Bytes)
      → get_options now later tok opts sig
        ≡ parse_options now later tok (text_of opts) (text_of sig)
  unfolding get_options
  get_options_lem now later tok none none = refl
  get_options_lem now later tok none (some s) = refl
  get_options_lem now later tok (some o) none = refl
  get_options_lem now later tok (some o) (some s) = refl

module _ {K : Type 0} ⦃ca : Carriers K⦄ ⦃h : Hmac⦄ where
  extracted :
      (k : K)
      → let ctx = extract (record { opts = none; sig = none }) k in
        (text_of ctx.opts ≡ ca.get k options_header)
        × (text_of ctx.sig ≡ ca.get k options_sig_header)
  unfolding extract
  extracted k = (
    ground (arith, or_empty (ca.get k options_header)),
    ground (arith, or_empty (ca.get k options_sig_header)),
  )

  -- With no earlier values in the context, the options of the extracted context are those of the carrier's two headers.
  pub get_options-extract :
      (now later : ℤ) (tok : TokenResult) (k : K)
      → let ctx = extract (record { opts = none; sig = none }) k in
        get_options now later tok ctx.opts ctx.sig
        ≡ parse_options now later tok (ca.get k options_header) (ca.get k options_sig_header)
  get_options-extract now later tok k =
      let (opts, sig) = extracted k in rw (get_options_lem, opts, sig) refl
