-- ===== src/Swotel.antt =====
-- internal/swotel/tracestate.go: SolarWinds' entries in the trace state. The program has one internal key.
pub mod RoundTrip
use apm_go.Prelude.{Bool, true, false, Bytes, codes, replace_all}
use apm_go.Otel.{TraceStates}

abbrev pub comma_sep : Bytes
comma_sep = codes "...."

abbrev pub eq_sep : Bytes
eq_sep = codes "####"

abbrev pub sw : Bytes
sw = codes "sw"

pub data InternalKey : Type 0 where
  xtrace_opt_resp : InternalKey

abbrev pub xtrace_opt_resp_key : Bytes
xtrace_opt_resp_key = codes "xtrace_options_response"

-- internalKeyStr, whose error is for keys that do not exist.
abbrev pub internal_key_str : InternalKey → Bytes
internal_key_str xtrace_opt_resp = xtrace_opt_resp_key

unfoldable pub escape : Bytes → Bytes
unfolding replace_all
escape val = replace_all (replace_all val (codes ",") comma_sep) (codes "=") eq_sep

unfoldable pub unescape : Bytes → Bytes
unfolding replace_all
unescape val = replace_all (replace_all val comma_sep (codes ",")) eq_sep (codes "=")

module _ {T : Type 0} ⦃ts : TraceStates T⦄ where
  unfoldable pub get_sw : T → Bytes
  get_sw t = ts.get t sw

  unfoldable pub set_sw : T → Bytes → T × Bool
  set_sw t val = ts.insert t sw val

  unfoldable pub set_internal_state : T → InternalKey → Bytes → T × Bool
  unfolding escape
  set_internal_state t key val = ts.insert t (internal_key_str key) (escape val)

  unfoldable pub get_internal_state : T → InternalKey → Bytes
  unfolding unescape
  get_internal_state t key = unescape (ts.get t (internal_key_str key))

  unfoldable pub remove_internal_state : T → InternalKey → T
  remove_internal_state t key = ts.delete t (internal_key_str key)

  unfoldable pub capture : T → T
  capture t = ts.delete (ts.delete t sw) xtrace_opt_resp_key
