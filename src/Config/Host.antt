-- ===== src/Config/Host.antt =====
-- internal/config/validators.go and internal/config/config.go: the collector's address and the addresses derived from it.
use apm_go.Prelude.{
  ℕ, Bool, false, not, ◌||◌, ◌&&◌, [], ◌∷◌, ◌++◌, Option, none, some, Bytes, codes, is_empty, ◌==◌,
  if◌then◌else◌,
}
use apm_go.Prelude.Find.{contains}
use apm_go.Prelude.Split.{has_byte}
use apm_go.Config.Fields.{Config}

-- The text up to the last such byte, and the text behind it; `none` without one.
unfoldable pub cut_last : ℕ → Bytes → Option (Bytes × Bytes)
cut_last b [] = none
cut_last b (c ∷ s) = elim (cut_last b s) [
  | some (l, r) ↦ some (c ∷ l, r)
  | none ↦ if c == b then some ([], s) else none
]

-- The texts of the errors of net.SplitHostPort.
pub data SplitError : Type 0 where
  missing_port too_many_colons missing_close unexpected_open unexpected_close : SplitError

unfoldable pub split_error_text : SplitError → Bytes
split_error_text missing_port = codes "missing port in address"
split_error_text too_many_colons = codes "too many colons in address"
split_error_text missing_close = codes "missing ']' in address"
split_error_text unexpected_open = codes "unexpected '[' in address"
split_error_text unexpected_close = codes "unexpected ']' in address"

-- AddrError.Error
unfoldable pub addr_error : Bytes → SplitError → Bytes
unfolding split_error_text
addr_error addr e =
    if is_empty addr
    then split_error_text e
    else codes "address " ++ addr ++ codes ": " ++ split_error_text e

-- An address behind its `[`: up to the first `]`, and what is behind that; `none` without a `]`.
unfoldable pub cut_close : Bytes → Option (Bytes × Bytes)
cut_close [] = none
cut_close (c ∷ s) =
    let rest = cut_close s in
    if c == b']'
    then some ([], s)
    else elim rest [ none ↦ none | some (inner, behind) ↦ some (c ∷ inner, behind) ]

-- An address in brackets: what is behind the `]` has to be the port alone.
unfoldable pub split_bracket : Bytes → Option SplitError
unfolding cut_close has_byte
split_bracket s = elim (cut_close s) [
  | none ↦ some missing_close
  | some (inner, []) ↦ some missing_port
  | some (inner, c ∷ port) ↦
      if c == b':' && not (has_byte b':' port)
      then (if has_byte b'[' inner || has_byte b'[' port
          then some unexpected_open
          else if has_byte b']' port
          then some unexpected_close
          else none)
      else if c == b':'
      then some too_many_colons
      else some missing_port
]

unfoldable pub split_plain : Bytes → Bytes → Option SplitError
unfolding has_byte
split_plain host port =
    if has_byte b':' host
    then some too_many_colons
    else if has_byte b'[' host || has_byte b'[' port
    then some unexpected_open
    else if has_byte b']' host || has_byte b']' port
    then some unexpected_close
    else none

-- The error of net.SplitHostPort; `none` for success.
unfoldable pub split_host_port : Bytes → Option SplitError
unfolding split_bracket split_plain cut_last
split_host_port [] = some missing_port
split_host_port (c ∷ s) = elim (cut_last b':' (c ∷ s)) [
  | none ↦ some missing_port
  | some (host, port) ↦ if c == b'[' then split_bracket s else split_plain host port
]

unfoldable pub is_missing_port : Bytes → SplitError → Bool
unfolding contains addr_error
is_missing_port host e = contains (codes "missing port in address") (addr_error host e)

unfoldable pub is_valid_host : Bytes → Bool
unfolding split_host_port is_missing_port
is_valid_host host = elim (split_host_port host) [
  | none ↦ not (is_empty host)
  | some e ↦ if is_missing_port host e then not (is_empty host) else false
]

module _ {F : Type 0} where
  -- GetCollector; `none` is its panic.
  unfoldable pub get_collector : Config F → Option Bytes
  unfolding split_host_port is_missing_port
  get_collector c = elim (split_host_port c.collector) [
    | none ↦ some c.collector
    | some e ↦ if is_missing_port c.collector e then some (c.collector ++ codes ":443") else none
  ]

  unfoldable pub get_settings_url : Config F → Bytes
  unfolding cut_last
  get_settings_url c =
      if not (is_empty c.settings_url)
      then c.settings_url
      else codes "https://"
        ++ elim (cut_last b':' c.collector) [ none ↦ c.collector | some (host, _) ↦ host ]
