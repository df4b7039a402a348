-- ===== src/Tests/Headers.antt =====
-- Headers: the options and their signature, the trace state, and the propagator.
use apm_go.Prelude.{
  ◌*◌, true, [], ◌∷◌, ◌++◌, none, some, ◌≡◌, refl, arith, Bytes, codes, bytes_eq, if◌then◌else◌,
  All, cut, trim_space, starts_with,
}
use apm_go.Prelude.Int.{ℤ, pos, ◌*ℤ◌, ◌+ℤ◌, ◌-ℤ◌}
use apm_go.Prelude.Decimal.{parse_int, format_int}
use apm_go.Oboe.Life.{token}
use apm_go.Handler.{added_headers, xtrace_value}
use apm_go.Handler.Response.{added_headers-hydrate_trace_state}
use apm_go.Sampler.{response_text, hydrate_trace_state}
use apm_go.Propagator.{inject, trace_state_key, injected_state}
use apm_go.Propagator.RoundTrip.{parse-inject}
use apm_go.Swotel.{
  sw, xtrace_opt_resp, xtrace_opt_resp_key, set_internal_state, get_internal_state,
  remove_internal_state, escape, get_sw, set_sw,
}
use apm_go.Swotel.RoundTrip.{get-set_internal_state}
use apm_go.W3c.{sw_from_ctx, parse_sw_trace_state, to_hex}
use apm_go.W3c.RoundTrip.{IsByte, IsReading, parse-sw_from_ctx, parse_sw_trace_state-IsReading}
use apm_go.Xtrace.{
  Options, new_options, include_response, add_option, is_custom_key, parse_options, option_parts,
  valid_signature, invalid_signature, is_error, second,
}
use apm_go.Xtrace.Fields.{parse_options_fields}
use apm_go.Xtrace.Parts.{
  read_parts, any_trigger, last_value, last_time, all_unknown, lookup, last_custom,
}
use apm_go.Xtrace.Signature.{is_recent, outcome, parse_options_signature}
use apm_go.Otel.{SpanContext}
use apm_go.Tests.Fixtures.{
  has_byte-Lacks, only, only-TraceStateLaws, contexts, hmac, header_map, header_map-WireLaws,
  sampled_context, eight_bytes,
}

abbrev clock : ℤ
clock = pos (1000 * second)

abbrev options_text : Bytes
options_text = codes "trigger-trace;ts=1001;custom-a=b"

abbrev signature_text : Bytes
signature_text = codes "key" ++ options_text

parse_options_fields_example :
    let x = parse_options clock clock (token (codes "key")) options_text signature_text in
    let ps = read_parts (option_parts options_text) in
    (x.tt ≡ any_trigger ps)
    × (x.sw_keys ≡ last_value (codes "sw-keys") [] ps)
    × (x.timestamp ≡ last_time (pos 0) ps)
    × (x.ignored_keys ≡ all_unknown ps)
    × ((key : Bytes) → lookup key x.custom_kvs ≡ last_custom key none ps)
    × (x.opts ≡ options_text)
    × (x.sig ≡ signature_text)
parse_options_fields_example =
    parse_options_fields clock clock (token (codes "key")) options_text signature_text

parse_options_signature_example :
    let x = parse_options clock clock (token (codes "key")) options_text signature_text in
    let ts = last_time (pos 0) (read_parts (option_parts options_text)) in
    let status =
      outcome (is_recent clock clock ts) (token (codes "key")) options_text signature_text in
    (x.sig_state ≡ (if is_error status then invalid_signature else valid_signature))
    × (x.auth_status ≡ status)
parse_options_signature_example =
    parse_options_signature clock clock (token (codes "key")) options_text signature_text

accepted :
    (parse_options clock clock (token (codes "key")) options_text signature_text).sig_state
    ≡ valid_signature
unfolding parse_options option_parts add_option trim_space cut bytes_eq is_custom_key starts_with
    parse_int format_int ◌*ℤ◌ ◌-ℤ◌ ◌+ℤ◌
accepted = refl

eight_bytes-IsByte : All IsByte eight_bytes
eight_bytes-IsByte = (
  omega arith,
  (
    omega arith,
    (omega arith, (omega arith, (omega arith, (omega arith, (omega arith, (omega arith, tt)))))),
  ),
)

parse-sw_from_ctx_example :
    parse_sw_trace_state (sw_from_ctx sampled_context)
    ≡ record { is_valid = true; span_id = to_hex eight_bytes; flags = 1 }
parse-sw_from_ctx_example = parse-sw_from_ctx sampled_context refl eight_bytes-IsByte (omega arith)

abbrev sw_text : Bytes
sw_text = codes "0123456789abcdef-01"

parse_sw_trace_state-IsReading_example : IsReading sw_text (parse_sw_trace_state sw_text)
unfolding parse_sw_trace_state
parse_sw_trace_state-IsReading_example = parse_sw_trace_state-IsReading sw_text refl

abbrev response_value : Bytes
response_value = codes "trigger-trace=ok"

get-set_internal_state_example :
    (get_internal_state ⦃ts = only xtrace_opt_resp_key⦄ (escape response_value) xtrace_opt_resp
      ≡ response_value)
    × (get_internal_state ⦃ts = only xtrace_opt_resp_key⦄
          (remove_internal_state ⦃ts = only xtrace_opt_resp_key⦄
            (escape response_value)
            xtrace_opt_resp)
          xtrace_opt_resp
        ≡ [])
unfolding set_internal_state bytes_eq
get-set_internal_state_example =
    get-set_internal_state ⦃ts = only xtrace_opt_resp_key⦄ (only-TraceStateLaws xtrace_opt_resp_key)
      [] (escape response_value) xtrace_opt_resp response_value
      (has_byte-Lacks b'.' response_value refl) (has_byte-Lacks b'#' response_value refl) refl

parse-inject_example :
    (sent : Bytes) × (some
        (inject {K = Bytes → Bytes} ⦃ts = only sw⦄ sampled_context (λ key. []) trace_state_key)
      ≡ some sent)
    × (parse_sw_trace_state (get_sw ⦃ts = only sw⦄ sent)
        ≡ record { is_valid = true; span_id = to_hex eight_bytes; flags = 1 })
    × (get_internal_state ⦃ts = only sw⦄ sent xtrace_opt_resp ≡ [])
unfolding injected_state set_sw bytes_eq
parse-inject_example =
    parse-inject ⦃ts = only sw⦄ (only-TraceStateLaws sw) (header_map-WireLaws sw) sampled_context
      (λ key. []) [] (sw_from_ctx sampled_context) refl eight_bytes-IsByte (omega arith) refl refl

abbrev signed_context : SpanContext Bytes
signed_context = record sampled_context { trace_state = escape (codes "trigger-trace=ok") }

abbrev request_options : Options
request_options = new_options options_text []

added_headers-hydrate_trace_state_example :
    added_headers ⦃ts = only xtrace_opt_resp_key⦄ signed_context
    ≡ (codes "X-Trace", xtrace_value signed_context)
      ∷ (codes "X-Trace-Options-Response", response_text request_options (codes "ok"))
      ∷ (codes "Access-Control-Expose-Headers", codes "X-Trace,X-Trace-Options-Response")
      ∷ []
unfolding set_internal_state include_response response_text new_options hydrate_trace_state bytes_eq
added_headers-hydrate_trace_state_example =
    added_headers-hydrate_trace_state ⦃ts = only xtrace_opt_resp_key⦄
      (only-TraceStateLaws xtrace_opt_resp_key) sampled_context signed_context request_options
      (codes "ok") signed_context.trace_state
      (has_byte-Lacks b'.' (codes "ok") refl, has_byte-Lacks b'#' (codes "ok") refl) refl refl refl
      refl
