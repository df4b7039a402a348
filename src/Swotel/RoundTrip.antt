-- ===== src/Swotel/RoundTrip.antt =====
-- A value stored in the trace state is read back, if it holds neither of the escapes' bytes.
use apm_go.Prelude.{
  ℕ, true, [], ◌∷◌, ◌++◌, ◌≡◌, refl, arith, Bytes, codes, Lacks, bytes_eq, replace_from, ◌==◌,
  if◌then◌else◌, bytes_eq_refl, All-append, ◌||◌,
}
use apm_go.Otel.{TraceStates, TraceStateLaws}
use apm_go.Swotel.{
  comma_sep, eq_sep, sw, InternalKey, xtrace_opt_resp_key, escape, unescape, set_internal_state,
  get_internal_state, remove_internal_state, capture,
}

-- Writes each byte through a table.
spell : (ℕ → Bytes) → Bytes → Bytes
spell f [] = []
spell f (c ∷ s) = f c ++ spell f s

abbrev hide_comma : ℕ → Bytes
hide_comma c = if c == b',' then comma_sep else c ∷ []

abbrev hide_eq : ℕ → Bytes
hide_eq c = if c == b'=' then eq_sep else c ∷ []

abbrev hide_both : ℕ → Bytes
hide_both c = if c == b',' then comma_sep else hide_eq c

commas_hidden : (s : Bytes) → replace_from (codes ",") comma_sep 0 s ≡ spell hide_comma s
unfolding replace_from spell
commas_hidden [] = refl
commas_hidden (c ∷ s) = ground (arith, commas_hidden s)

both_hidden :
    (s : Bytes) → replace_from (codes "=") eq_sep 0 (spell hide_comma s) ≡ spell hide_both s
unfolding replace_from spell
both_hidden [] = refl
both_hidden (c ∷ s) = ground (arith, both_hidden s)

commas_back :
    (s : Bytes)
    → Lacks b'.' s
    → replace_from comma_sep (codes ",") 0 (spell hide_both s) ≡ spell hide_eq s
unfolding replace_from spell
commas_back [] h = refl
commas_back (c ∷ s) h = ground (arith, commas_back s h.1)

eqs_back : (s : Bytes) → Lacks b'#' s → replace_from eq_sep (codes "=") 0 (spell hide_eq s) ≡ s
unfolding replace_from spell
eqs_back [] h = refl
eqs_back (c ∷ s) h = ground (arith, eqs_back s h.1)

-- Escaping is undone on every text without `.` and `#`.
pub unescape-escape : (s : Bytes) → Lacks b'.' s → Lacks b'#' s → unescape (escape s) ≡ s
unfolding unescape escape
unescape-escape s dot hash = rw (commas_hidden, both_hidden, commas_back s dot, eqs_back s hash)

hide_both-Lacks : (c : ℕ) → Lacks b',' (hide_both c) × Lacks b'=' (hide_both c)
hide_both-Lacks c = ground arith

spell-Lacks : (s : Bytes) → Lacks b',' (spell hide_both s) × Lacks b'=' (spell hide_both s)
unfolding spell
spell-Lacks [] = (tt, tt)
spell-Lacks (c ∷ s) =
    let (comma, eq) = hide_both-Lacks c in
    let (commas, eqs) = spell-Lacks s in
    (
      All-append _ (hide_both c) (spell hide_both s) comma commas,
      All-append _ (hide_both c) (spell hide_both s) eq eqs,
    )

-- Escaped text holds neither of the bytes that separate the members of a trace state.
pub escape-Lacks : (s : Bytes) → Lacks b',' (escape s) × Lacks b'=' (escape s)
unfolding escape
escape-Lacks s = rw (commas_hidden, both_hidden) (spell-Lacks s)

module _ {T : Type 0} ⦃ts : TraceStates T⦄ (laws : TraceStateLaws T) where
  -- What was set under the internal key is read from it, if the trace state accepts it and the text has no
  -- `.` and no `#`; removing the key leaves the empty text there.
  pub get-set_internal_state :
      (t t' : T) (key : InternalKey) (val : Bytes)
      → Lacks b'.' val
      → Lacks b'#' val
      → set_internal_state t key val ≡ (t', true)
      → (get_internal_state t' key ≡ val)
        × (get_internal_state (remove_internal_state t' key) key ≡ [])
  unfolding set_internal_state get_internal_state remove_internal_state
  get-set_internal_state t t' key val dot hash e = (
    rw (laws.get-insert t t' _ _ e) (unescape-escape val dot hash),
    rw (laws.get-delete, bytes_eq_refl) refl,
  )

  -- The captured trace state has every member but SolarWinds' two.
  pub get-capture :
      (t : T) (k : Bytes)
      → ts.get (capture t) k
        ≡ (if bytes_eq k sw || bytes_eq k xtrace_opt_resp_key then [] else ts.get t k)
  unfolding capture
  get-capture t k =
      ground (arith, laws.get-delete (ts.delete t sw) k xtrace_opt_resp_key, laws.get-delete t k sw)
