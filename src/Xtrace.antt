-- ===== src/Xtrace.antt =====
-- internal/xtrace/xtrace.go and internal/xtrace/auth.go: the x-trace-options header and its signature.
-- Header text is ASCII. A map is an association list; an HMAC of the standard library is a function.
pub mod Header
pub mod Signature
pub mod Parts
pub mod Fields
use apm_go.Prelude.{
  ℕ, ◌+◌, ◌*◌, Bool, true, false, not, ◌&&◌, ◌||◌, List, [], ◌∷◌, ◌++◌, Option, none, some, Bytes,
  codes, bytes_eq, is_empty, trim_space, cut, starts_with, ◌==◌, leb, drop, if◌then◌else◌,
}
use apm_go.Prelude.Int.{ℤ, pos, negsuc, ◌+ℤ◌, ◌-ℤ◌, ◌*ℤ◌, ltb_ℤ}
use apm_go.Prelude.Decimal.{parse_int, format_int}
use apm_go.Oboe.Life.{TokenResult, token, no_settings, no_key}

pub data SignatureState : Type 0 where
  no_signature valid_signature invalid_signature : SignatureState

-- The values of AuthStatus that the program makes.
pub data AuthStatus : Type 0 where
  auth_ok bad_timestamp no_signature_key bad_signature : AuthStatus

unfoldable pub is_error : AuthStatus → Bool
is_error auth_ok = false
is_error _ = true

unfoldable pub msg : AuthStatus → Bytes
msg auth_ok = codes "ok"
msg bad_timestamp = codes "bad-timestamp"
msg no_signature_key = codes "no-signature-key"
msg bad_signature = codes "bad-signature"

pub record Options : Type 0 where
  pub opts : Bytes
  pub sig : Bytes
  pub sw_keys : Bytes
  pub custom_kvs : List (Bytes × Bytes)
  pub timestamp : ℤ
  pub tt : Bool
  pub ignored_keys : List Bytes
  pub sig_state : SignatureState
  pub auth_status : AuthStatus

unfoldable pub include_response : Options → Bool
include_response x = not (is_empty x.opts)

unfoldable pub sig_auth_msg : Options → Bytes
unfolding msg
sig_auth_msg x = msg x.auth_status

-- optRegex.Split(opts, -1), the pattern `;+`: a run of semicolons separates two parts. The Boolean says that
-- the byte before was a semicolon.
unfoldable pub split_runs : Bool → Bytes → Bytes × List Bytes
split_runs behind [] = ([], [])
split_runs behind (c ∷ s) =
    let (p, ps) = split_runs (c == b';') s in
    if c == b';' then (if behind then (p, ps) else ([], p ∷ ps)) else (c ∷ p, ps)

unfoldable pub option_parts : Bytes → List Bytes
unfolding split_runs
option_parts opts = let (p, ps) = split_runs false opts in p ∷ ps

-- The class \s of the pattern.
unfoldable pub is_pattern_space : ℕ → Bool
is_pattern_space c = c == 9 || c == 10 || c == 12 || c == 13 || c == 32

unfoldable pub no_pattern_space : Bytes → Bool
unfolding is_pattern_space
no_pattern_space [] = true
no_pattern_space (c ∷ s) = not (is_pattern_space c) && no_pattern_space s

-- customKeyRegex, `^custom-[^\s]*$`
unfoldable pub is_custom_key : Bytes → Bool
unfolding no_pattern_space
is_custom_key k = starts_with (codes "custom-") k && no_pattern_space (drop 7 k)

-- x.customKVs[k] = v
unfoldable pub put : Bytes → Bytes → List (Bytes × Bytes) → List (Bytes × Bytes)
put k v [] = (k, v) ∷ []
put k v ((j, w) ∷ m) = if bytes_eq j k then (k, v) ∷ m else (j, w) ∷ put k v m

unfoldable pub ignore : Bytes → Options → Options
ignore k x = record x { ignored_keys = x.ignored_keys ++ k ∷ [] }

unfoldable pub set_timestamp : Bytes → Option ℤ → Options → Options
unfolding ignore
set_timestamp k none x = ignore k x
set_timestamp k (some ts) x = record x { timestamp = ts }

-- A part with no equals sign, after the empty key is skipped.
unfoldable pub set_flag : Bytes → Options → Options
unfolding ignore
set_flag k x = if bytes_eq k (codes "trigger-trace") then record x { tt = true } else ignore k x

unfoldable pub set_pair : Bytes → Bytes → Options → Options
unfolding ignore set_timestamp
set_pair k v x =
    if bytes_eq k (codes "sw-keys")
    then record x { sw_keys = v }
    else if bytes_eq k (codes "ts")
    then set_timestamp k (parse_int v) x
    else if bytes_eq k (codes "trigger-trace")
    then x
    else if is_custom_key k
    then record x { custom_kvs = put k v x.custom_kvs }
    else ignore k x

-- One round of the loop of parseXTraceOptions.
unfoldable pub add_option : Bytes → Options → Options
unfolding set_flag set_pair
add_option opt x =
    let (left, right, found) = cut b'=' opt in
    let k = trim_space left in
    if is_empty k then x else if not found then set_flag k x else set_pair k (trim_space right) x

unfoldable pub add_options : List Bytes → Options → Options
add_options [] x = x
add_options (opt ∷ opts) x = add_options opts (add_option opt x)

abbrev pub second : ℕ
second = 1_000_000_000

abbrev pub five_minutes : ℕ
five_minutes = 300 * second

unfoldable pub new_options : Bytes → Bytes → Options
new_options opts sig = record {
  opts = opts;
  sig = sig;
  sw_keys = [];
  custom_kvs = [];
  timestamp = pos 0;
  tt = false;
  ignored_keys = [];
  sig_state = no_signature;
  auth_status = auth_ok;
}

-- tsInScope, with the two readings of the clock in nanoseconds of Unix time; `none` is an error.
unfoldable pub ts_in_scope : ℤ → ℤ → Bytes → Option Bytes
ts_in_scope now later ts_str = elim (parse_int ts_str) [
  | none ↦ none
  | some ts ↦
      if ltb_ℤ (ts *ℤ pos second) (now -ℤ pos five_minutes)
        || ltb_ℤ (later +ℤ pos five_minutes) (ts *ℤ pos second)
      then none
      else some (format_int ts)
]

-- The HMAC-SHA1 of a text under a token, in hexadecimal.
pub record Hmac : Type 0 where
  pub hmac_hash : Bytes → Bytes → Bytes

module _ ⦃h : Hmac⦄ where
  unfoldable pub validate_signature : ℤ → ℤ → TokenResult → Bytes → Bytes → Bytes → AuthStatus
  unfolding ts_in_scope
  validate_signature now later tok signature ts opts = elim (ts_in_scope now later ts) [
    | none ↦ bad_timestamp
    | some _ ↦ elim tok [
      | no_settings ↦ no_signature_key
      | no_key ↦ no_signature_key
      | token key ↦ if bytes_eq (h.hmac_hash key opts) signature then auth_ok else bad_signature
    ]
  ]

  -- HmacHashTT; `none` is an error.
  unfoldable pub hmac_hash_tt : TokenResult → Bytes → Option Bytes
  hmac_hash_tt no_settings text = none
  hmac_hash_tt no_key text = none
  hmac_hash_tt (token key) text = some (h.hmac_hash key text)

  unfoldable pub check_signature : ℤ → ℤ → TokenResult → Options → Options
  unfolding validate_signature is_error
  check_signature now later tok x =
      if is_empty x.sig
      then record x { sig_state = no_signature }
      else let status = validate_signature now later tok x.sig (format_int x.timestamp) x.opts in
        record x {
          auth_status = status;
          sig_state = if is_error status then invalid_signature else valid_signature;
        }

  unfoldable pub parse_options : ℤ → ℤ → TokenResult → Bytes → Bytes → Options
  unfolding add_options check_signature new_options
  parse_options now later tok opts sig =
      check_signature now later tok (add_options (option_parts opts) (new_options opts sig))

  -- GetXTraceOptions, of the values under the context's two keys.
  unfoldable pub get_options : ℤ → ℤ → TokenResult → Option Bytes → Option Bytes → Options
  unfolding parse_options
  get_options now later tok opts sig =
      parse_options now later tok (elim opts [ none ↦ [] | some s ↦ s ])
        (elim sig [ none ↦ [] | some s ↦ s ])
