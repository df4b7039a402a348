-- ===== src/Handler.antt =====
-- instrumentation/net/http/swohttp/handler.go: the headers that NewBaseHandler adds to a response.
pub mod Response
use apm_go.Prelude.{
  ℕ, Bool, true, false, not, List, [], ◌∷◌, ◌++◌, Bytes, codes, is_empty, if◌then◌else◌,
}
use apm_go.Otel.{TraceStates, SpanContext, SpanContexts}
use apm_go.Swotel.{get_internal_state, xtrace_opt_resp}
use apm_go.W3c.{to_hex}

abbrev pub xtrace_hdr : Bytes
xtrace_hdr = codes "X-Trace"

abbrev pub xtrace_opts_resp_hdr : Bytes
xtrace_opts_resp_hdr = codes "X-Trace-Options-Response"

abbrev pub expose_headers : Bytes
expose_headers = codes "Access-Control-Expose-Headers"

-- strings.Join with a comma
unfoldable pub join_comma : List Bytes → Bytes
join_comma [] = []
join_comma (s ∷ ss) = let rest = join_comma ss in elim ss [ [] ↦ s | _ ∷ _ ↦ s ++ b',' ∷ rest ]

module _ {T : Type 0} ⦃sc : SpanContexts T⦄ where
  unfoldable pub xtrace_value : SpanContext T → Bytes
  unfolding to_hex
  xtrace_value ctx =
      codes "00-"
      ++ to_hex ctx.trace_id
      ++ codes "-"
      ++ to_hex ctx.span_id
      ++ codes "-"
      ++ (if sc.is_sampled ctx.trace_flags then codes "01" else codes "00")

module _ {T : Type 0} ⦃ts : TraceStates T⦄ ⦃sc : SpanContexts T⦄ where
  -- The headers added, in order, for the span context of the request.
  unfoldable pub added_headers : SpanContext T → List (Bytes × Bytes)
  unfolding xtrace_value join_comma get_internal_state
  added_headers ctx =
      let resp = get_internal_state ctx.trace_state xtrace_opt_resp in
      if sc.is_valid ctx
      then (xtrace_hdr, xtrace_value ctx)
        ∷ (if not (is_empty resp)
            then (xtrace_opts_resp_hdr, resp)
              ∷ (expose_headers, join_comma (xtrace_hdr ∷ xtrace_opts_resp_hdr ∷ []))
              ∷ []
            else (expose_headers, join_comma (xtrace_hdr ∷ [])) ∷ [])
      else []
