-- ===== src/Handler/Response.antt =====
-- From the sampler to the response: the answer to the trigger trace options arrives.
use apm_go.Prelude.{
  true, false, not, [], ◌∷◌, ◌++◌, ◌≡◌, refl, arith, Bytes, codes, is_empty, Lacks, All-append, ap,
  ◌∙◌, if◌then◌else◌,
}
use apm_go.Otel.{TraceStates, TraceStateLaws, SpanContext, SpanContexts}
use apm_go.Handler.{
  xtrace_hdr, xtrace_opts_resp_hdr, expose_headers, join_comma, xtrace_value, added_headers,
}
use apm_go.Sampler.{response_text, hydrate_trace_state}
use apm_go.Swotel.{set_internal_state, get_internal_state, xtrace_opt_resp}
use apm_go.Swotel.RoundTrip.{get-set_internal_state}
use apm_go.Xtrace.{
  Options, AuthStatus, auth_ok, bad_timestamp, no_signature_key, bad_signature, msg, sig_auth_msg,
  include_response, no_signature, valid_signature, invalid_signature,
}

-- Neither of the bytes that the escapes are made of.
abbrev pub IsPlain : Bytes → Type 0
IsPlain s = Lacks b'.' s × Lacks b'#' s

IsPlain-append : (s t : Bytes) → IsPlain s → IsPlain t → IsPlain (s ++ t)
IsPlain-append s t (a, b) (c, d) = (All-append _ s t a c, All-append _ s t b d)

msg-IsPlain : (a : AuthStatus) → IsPlain (msg a)
unfolding msg
msg-IsPlain auth_ok = ground arith
msg-IsPlain bad_timestamp = ground arith
msg-IsPlain no_signature_key = ground arith
msg-IsPlain bad_signature = ground arith

response_text-IsPlain :
    (xto : Options) (rsp : Bytes) → IsPlain rsp → IsPlain (response_text xto rsp)
unfolding response_text sig_auth_msg
response_text-IsPlain xto rsp h =
    let auth = codes "auth=" ++ sig_auth_msg xto in
    let triggered = codes "trigger-trace=" ++ rsp in
    let t = IsPlain-append (codes "trigger-trace=") rsp (ground arith) h in
    let a =
      IsPlain-append (codes "auth=") (sig_auth_msg xto) (ground arith)
        (msg-IsPlain xto.auth_status) in
    let b =
      IsPlain-append (auth ++ codes ";") triggered
        (IsPlain-append auth (codes ";") a (ground arith)) t in
    elim xto.sig_state
      as (λ st. IsPlain (elim st [
        | no_signature ↦ triggered
        | valid_signature ↦ auth ++ codes ";" ++ triggered
        | invalid_signature ↦ auth
      ])) [ no_signature ↦ t | valid_signature ↦ b | invalid_signature ↦ a ]

response_text_some : (xto : Options) (rsp : Bytes) → is_empty (response_text xto rsp) ≡ false
unfolding response_text
response_text_some xto rsp = ground arith

module _ {T : Type 0} ⦃ts : TraceStates T⦄ ⦃sc : SpanContexts T⦄ where
  -- The trace state that the sampler starts from.
  abbrev pub parent_state : SpanContext T → T
  parent_state psc = if not (sc.is_valid psc) then ts.empty else psc.trace_state

  hydrated :
      (psc : SpanContext T) (xto : Options) (rsp : Bytes) (t : T)
      → include_response xto ≡ true
      → set_internal_state (parent_state psc) xtrace_opt_resp (response_text xto rsp) ≡ (t, true)
      → hydrate_trace_state psc xto rsp ≡ t
  unfolding hydrate_trace_state
  hydrated psc xto rsp t wanted set =
      rw (hydrate_trace_state, set, response_text_some xto rsp)
        (unfold include_response in rw wanted refl)

  -- The answer that the sampler gives to the options of a request stands in the response of a span whose trace state is
  -- the sampler's, if the trace state accepts it and the answer to the trigger trace has no `.` and no `#`: after
  -- the X-Trace header, and named among the exposed headers.
  pub added_headers-hydrate_trace_state :
      TraceStateLaws T
      → (psc ctx : SpanContext T) (xto : Options) (rsp : Bytes) (t : T) → IsPlain rsp
      → include_response xto ≡ true
      → set_internal_state (parent_state psc) xtrace_opt_resp (response_text xto rsp) ≡ (t, true)
      → sc.is_valid ctx ≡ true
      → ctx.trace_state ≡ hydrate_trace_state psc xto rsp
      → added_headers ctx
        ≡ (xtrace_hdr, xtrace_value ctx)
          ∷ (xtrace_opts_resp_hdr, response_text xto rsp)
          ∷ (expose_headers, codes "X-Trace,X-Trace-Options-Response")
          ∷ []
  unfolding added_headers hydrate_trace_state join_comma
  added_headers-hydrate_trace_state laws psc ctx xto rsp t plain wanted set valid stored =
      let text = response_text xto rsp in
      let p = response_text-IsPlain xto rsp plain in
      let some_text = response_text_some xto rsp in
      let back =
        get-set_internal_state laws (parent_state psc) t xtrace_opt_resp text p.0 p.1 set in
      let state = stored ∙ hydrated psc xto rsp t wanted set in
      let read = ap (λ st. get_internal_state st xtrace_opt_resp) state ∙ back.0 in
      rw (added_headers, read, valid, some_text) refl
