-- ===== src/Oboe/Remote/Escape.antt =====
-- The address of the settings: its two names are read back from it.
use apm_go.Prelude.{
  ℕ, suc, ap, ◌∙◌, ◌+◌, ◌-◌, ◌*◌, ◌/◌, ◌%◌, ◌<◌, false, [], ◌∷◌, ◌++◌, ◌≡◌, ◌≢◌, refl, arith, Bytes,
  codes, Lacks, All, ltb, ◌==◌, if◌then◌else◌, Bool-cases, inl, inr, split, map, drop, length,
}
use apm_go.Prelude.Split.{split_first, split_alone}
use apm_go.Oboe.Remote.Service.{
  SettingsService, is_path_char, upper_hex, path_escape, trim_slash, build_url,
}

-- What a server makes of an escaped segment.
abbrev hex_number : ℕ → ℕ
hex_number d = if ltb d 58 then d - b'0' else d - b'A' + 10

-- What was read of an escape: nothing, its `%`, or its first digit too.
pub data Pending : Type 0 where
  nothing percent : Pending
  digit : ℕ → Pending

abbrev pub unescape_from : Pending → Bytes → Bytes
unescape_from p [] = []
unescape_from nothing (c ∷ s) =
    let escape = unescape_from percent s in
    let plain = unescape_from nothing s in if c == b'%' then escape else c ∷ plain
unescape_from percent (c ∷ s) = unescape_from (digit (hex_number c)) s
unescape_from (digit d) (c ∷ s) = (d * 16 + hex_number c) ∷ unescape_from nothing s

abbrev pub path_unescape : Bytes → Bytes
path_unescape = unescape_from nothing

hex_number-upper_hex : (d : ℕ) → d < 16 → hex_number (upper_hex d) ≡ d
unfolding upper_hex
hex_number-upper_hex d h = ground arith

path_unescape-path_escape : (s : Bytes) → All (λ c. c < 256) s → path_unescape (path_escape s) ≡ s
unfolding path_escape
path_unescape-path_escape [] h = refl
path_unescape-path_escape (c ∷ s) h = elim (Bool-cases (is_path_char c)) [
  | inl plain ↦
      let other : (c == b'%') ≡ false = unfold is_path_char in ground arith in
      ground (arith, path_unescape-path_escape s h.1)
  | inr escaped ↦
      let high = hex_number-upper_hex (c / 16) (omega (arith, h.0)) in
      let low = hex_number-upper_hex (c % 16) (omega arith) in
      let value : c / 16 * 16 + c % 16 ≡ c = omega arith in
      ground (arith, path_unescape-path_escape s h.1)
]

upper_hex-no_slash : (d : ℕ) → d < 16 → upper_hex d ≢ b'/'
unfolding upper_hex
upper_hex-no_slash d h = ground arith

path_escape-Lacks : (s : Bytes) → All (λ c. c < 256) s → Lacks b'/' (path_escape s)
unfolding path_escape
path_escape-Lacks [] h = tt
path_escape-Lacks (c ∷ s) h = elim (Bool-cases (is_path_char c)) [
  | inl plain ↦
      let other : c ≢ b'/' = unfold is_path_char in ground arith in
      rw plain (other, path_escape-Lacks s h.1)
  | inr escaped ↦ rw escaped (
    omega arith,
    (
      upper_hex-no_slash (c / 16) (omega (arith, h.0)),
      (upper_hex-no_slash (c % 16) (omega arith), path_escape-Lacks s h.1),
    ),
  )
]

drop-append : (xs ys : Bytes) (n : ℕ) → drop (length xs + n) (xs ++ ys) ≡ drop n ys
drop-append [] ys n = ap (λ m. drop m ys) (omega arith)
drop-append (x ∷ xs) ys n =
    let e : length (x ∷ xs) + n ≡ suc (length xs + n) = omega arith in
    ap (λ m. drop m (x ∷ xs ++ ys)) e ∙ drop-append xs ys n

-- Behind the base address and "/v1/settings/" the request's path has two segments, which are unescaped to the service's name
-- and the host's, whatever bytes these have.
pub build_url_lem :
    {T : Type 0} (s : SettingsService T)
    → All (λ c. c < 256) s.service_name
    → All (λ c. c < 256) s.host_name
    → map path_unescape (split b'/' (drop (length (trim_slash s.base_url) + 13) (build_url s)))
      ≡ s.service_name ∷ s.host_name ∷ []
unfolding build_url split
build_url_lem s hs hh =
    let name = path_escape s.service_name in
    let host = path_escape s.host_name in
    let behind : drop (length (trim_slash s.base_url) + 13) (build_url s) ≡ name ++ b'/' ∷ host =
      drop-append (trim_slash s.base_url) (codes "/v1/settings/" ++ (name ++ b'/' ∷ host)) 13 in
    rw
      (
        behind,
        split,
        split_first b'/' name host (path_escape-Lacks s.service_name hs),
        split_alone b'/' host (path_escape-Lacks s.host_name hh),
        path_unescape-path_escape s.service_name hs,
        path_unescape-path_escape s.host_name hh,
      )
      refl
