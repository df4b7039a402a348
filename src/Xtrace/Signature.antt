-- ===== src/Xtrace/Signature.antt =====
-- When a signature is accepted.
use apm_go.Prelude.{
  Bool, true, not, ◌&&◌, List, [], ◌∷◌, none, some, ◌≡◌, refl, arith, Bytes, codes, bytes_eq,
  bytes_eq_iff, is_empty, if◌then◌else◌, inl, inr, Bool-cases, Option-cases,
}
use apm_go.Prelude.Int.{ℤ, pos, ◌+ℤ◌, ◌-ℤ◌, ◌*ℤ◌, ltb_ℤ}
use apm_go.Prelude.Decimal.{parse_int, format_int, IsInt64, parse_int-format_int, parse_int-IsInt64}
use apm_go.Oboe.Life.{TokenResult, token, no_settings, no_key}
use apm_go.Xtrace.{
  Options, no_signature, valid_signature, invalid_signature, AuthStatus, auth_ok, bad_timestamp,
  no_signature_key, bad_signature, is_error, Hmac, second, five_minutes, ts_in_scope,
  validate_signature, check_signature, parse_options, new_options, add_option, add_options,
  option_parts,
}
use apm_go.Xtrace.Fields.{add_options-AddsAll}
use apm_go.Xtrace.Parts.{Part, blank, alone, pair, time_or, last_time, read_parts}

-- A time in seconds lies within five minutes of the clock, whose two readings are in nanoseconds.
abbrev pub is_recent : ℤ → ℤ → ℤ → Bool
is_recent now later ts =
    not (ltb_ℤ (ts *ℤ pos second) (now -ℤ pos five_minutes))
    && not (ltb_ℤ (later +ℤ pos five_minutes) (ts *ℤ pos second))

time_or-IsInt64 : (p : Part) (t : ℤ) → IsInt64 t → IsInt64 (time_or t p)
time_or-IsInt64 blank t h = h
time_or-IsInt64 (alone k) t h = h
time_or-IsInt64 (pair k v) t h = elim (Bool-cases (bytes_eq k (codes "ts"))) [
  | inl e ↦ elim (Option-cases (parse_int v)) [
    | inl f ↦ rw (e, f) h
    | inr (ts, f) ↦ rw (e, f) (parse_int-IsInt64 v ts f)
  ]
  | inr e ↦ rw e h
]

last_time-IsInt64 : (ps : List Part) (t : ℤ) → IsInt64 t → IsInt64 (last_time t ps)
unfolding last_time
last_time-IsInt64 [] t h = h
last_time-IsInt64 (p ∷ ps) t h = last_time-IsInt64 ps (time_or t p) (time_or-IsInt64 p t h)

ts_in_scope-format_int :
    (now later t : ℤ)
    → IsInt64 t
    → ts_in_scope now later (format_int t)
      ≡ (if is_recent now later t then some (format_int t) else none)
unfolding ts_in_scope
ts_in_scope-format_int now later t h = rw (parse_int-format_int t h, ts_in_scope) (ground arith)

add_option_status : (opt : Bytes) (x : Options) → (add_option opt x).auth_status ≡ x.auth_status
unfolding add_option
add_option_status opt x = ground arith

add_options_status :
    (opts : List Bytes) (x : Options) → (add_options opts x).auth_status ≡ x.auth_status
unfolding add_options
add_options_status [] x = refl
add_options_status (opt ∷ opts) x =
    ground (arith, add_option_status opt x, add_options_status opts (add_option opt x))

module _ ⦃h : Hmac⦄ where
  -- The outcome, in the order of the checks.
  abbrev pub outcome : Bool → TokenResult → Bytes → Bytes → AuthStatus
  outcome recent (token key) opts sig =
      if not recent
      then bad_timestamp
      else if bytes_eq (h.hmac_hash key opts) sig
      then auth_ok
      else bad_signature
  outcome recent _ opts sig = if not recent then bad_timestamp else no_signature_key

  validate_lem :
      (now later t : ℤ) (tok : TokenResult) (opts sig : Bytes)
      → IsInt64 t
      → validate_signature now later tok sig (format_int t) opts
        ≡ outcome (is_recent now later t) tok opts sig
  unfolding validate_signature
  validate_lem now later t (token key) opts sig i =
      ground (arith, ts_in_scope-format_int now later t i)
  validate_lem now later t no_settings opts sig i =
      ground (arith, ts_in_scope-format_int now later t i)
  validate_lem now later t no_key opts sig i = ground (arith, ts_in_scope-format_int now later t i)

  checked :
      (now later : ℤ) (tok : TokenResult) (x : Options)
      → IsInt64 x.timestamp
      → let y = check_signature now later tok x in
        let status = outcome (is_recent now later x.timestamp) tok x.opts x.sig in
        (y.sig_state ≡ (
          if is_empty x.sig
          then no_signature
          else if is_error status
          then invalid_signature
          else valid_signature))
        × (y.auth_status ≡ (if is_empty x.sig then x.auth_status else status))
  unfolding check_signature
  checked now later tok x i = ground (arith, validate_lem now later x.timestamp tok x.opts x.sig i)

  -- The signature of a header is looked at if there is one. It is refused, with the first reason that applies, for
  -- a time (0, if the header has none) more than five minutes from the clock, for want of a key, and for
  -- another hash than that of the whole header under the key; else it is accepted.
  pub parse_options_signature :
      (now later : ℤ) (tok : TokenResult) (opts sig : Bytes)
      → let x = parse_options now later tok opts sig in
        let ts = last_time (pos 0) (read_parts (option_parts opts)) in
        let status = outcome (is_recent now later ts) tok opts sig in
        (x.sig_state ≡ (
          if is_empty sig
          then no_signature
          else if is_error status
          then invalid_signature
          else valid_signature))
        × (x.auth_status ≡ (if is_empty sig then auth_ok else status))
  unfolding parse_options new_options
  parse_options_signature now later tok opts sig =
      let y = add_options (option_parts opts) (new_options opts sig) in
      let a = add_options-AddsAll (option_parts opts) (new_options opts sig) in
      let i = last_time-IsInt64 (read_parts (option_parts opts)) (pos 0) (omega arith) in
      let k = checked now later tok y (rw a.2 i) in
      let untouched = add_options_status (option_parts opts) (new_options opts sig) in
      ground (arith, a.2, a.5, a.6, k, untouched)

  -- A signature is accepted only for a recent time, a known key and its hash of the header.
  pub valid_signature_sound :
      (now later : ℤ) (tok : TokenResult) (opts sig : Bytes)
      → (parse_options now later tok opts sig).sig_state ≡ valid_signature
      → (is_recent now later (last_time (pos 0) (read_parts (option_parts opts))) ≡ true)
        × ((key : Bytes) × (tok ≡ token key) × (h.hmac_hash key opts ≡ sig))
  unfolding is_error
  valid_signature_sound now later (token key) opts sig e =
      let p = parse_options_signature now later (token key) opts sig in
      (ground (arith, p), (key, refl, ground (arith, p, bytes_eq_iff (h.hmac_hash key opts) sig)))
  valid_signature_sound now later no_settings opts sig e =
      absurd (ground (arith, parse_options_signature now later no_settings opts sig))
  valid_signature_sound now later no_key opts sig e =
      absurd (ground (arith, parse_options_signature now later no_key opts sig))
