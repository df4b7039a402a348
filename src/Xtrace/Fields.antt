-- ===== src/Xtrace/Fields.antt =====
-- What each field of the parsed options says of the parts of the header.
use apm_go.Prelude.{
  true, false, ◌||◌, List, [], ◌∷◌, ◌++◌, append_assoc, append-nil, none, some, ◌≡◌, refl, sym,
  arith, Bytes, codes, bytes_eq, bytes_eq_iff, bytes_eq_sound, is_empty, trim_space, cut,
  if◌then◌else◌, inl, inr, Bool-cases, starts_with,
}
use apm_go.Prelude.Int.{ℤ, pos}
use apm_go.Xtrace.{
  Options, option_parts, is_custom_key, put, set_flag, set_pair, add_option, add_options,
  new_options, Hmac, check_signature, parse_options,
}
use apm_go.Oboe.Life.{TokenResult}
use apm_go.Xtrace.Parts.{
  read_part, read_parts, is_trigger, any_trigger, value_or, last_value, time_or, last_time, unknown,
  all_unknown, lookup, custom_or, last_custom, Part, blank, alone, pair,
}

lookup-put :
    (k j v : Bytes) (m : List (Bytes × Bytes))
    → lookup j (put k v m) ≡ (if bytes_eq k j then some v else lookup j m)
unfolding lookup put
lookup-put k j v [] = refl
lookup-put k j v ((i, w) ∷ m) =
    ground (arith, bytes_eq_iff k j, bytes_eq_iff i k, bytes_eq_iff i j, lookup-put k j v m)

-- The keys with a meaning of their own are no custom keys, and differ.
module _ (k : Bytes) where
  not_sw_keys :
      bytes_eq k (codes "sw-keys") ≡ true
      → (is_custom_key k ≡ false)
        × (bytes_eq k (codes "ts") ≡ false)
        × (bytes_eq k (codes "trigger-trace") ≡ false)
  unfolding is_custom_key bytes_eq starts_with
  not_sw_keys e = rw (bytes_eq_sound k (codes "sw-keys") e) (refl, refl, refl)

  not_ts :
      bytes_eq k (codes "ts") ≡ true
      → (is_custom_key k ≡ false) × (bytes_eq k (codes "trigger-trace") ≡ false)
  unfolding is_custom_key bytes_eq starts_with
  not_ts e = rw (bytes_eq_sound k (codes "ts") e) (refl, refl)

  not_trigger : bytes_eq k (codes "trigger-trace") ≡ true → is_custom_key k ≡ false
  unfolding is_custom_key bytes_eq starts_with
  not_trigger e = rw (bytes_eq_sound k (codes "trigger-trace") e) refl

-- What the fields become with one more part.
abbrev pub Adds : Part → Options → Options → Type 0
Adds p x y =
    (y.tt ≡ (x.tt || is_trigger p))
    × (y.sw_keys ≡ value_or (codes "sw-keys") x.sw_keys p)
    × (y.timestamp ≡ time_or x.timestamp p)
    × (y.ignored_keys ≡ x.ignored_keys ++ unknown p)
    × ((key : Bytes) → lookup key y.custom_kvs ≡ custom_or key (lookup key x.custom_kvs) p)
    × (y.opts ≡ x.opts)
    × (y.sig ≡ x.sig)

set_flag-Adds : (k : Bytes) (x : Options) → Adds (alone k) x (set_flag k x)
unfolding set_flag
set_flag-Adds k x = ground (arith, append-nil x.ignored_keys)

set_pair-Adds : (k v : Bytes) (x : Options) → Adds (pair k v) x (set_pair k v x)
unfolding set_pair
set_pair-Adds k v x = (
  ground arith,
  ground arith,
  ground (arith, not_sw_keys k),
  ground (arith, append-nil x.ignored_keys, not_sw_keys k, not_ts k),
  λ key. ground (arith, lookup-put k key v x.custom_kvs, not_sw_keys k, not_ts k, not_trigger k),
  ground arith,
  ground arith,
)

blank-Adds : (x : Options) → Adds blank x x
blank-Adds x = (ground arith, refl, refl, sym (append-nil x.ignored_keys), λ key. refl, refl, refl)

add_option-Adds : (opt : Bytes) (x : Options) → Adds (read_part opt) x (add_option opt x)
unfolding add_option read_part
add_option-Adds opt x =
    let (left, right, found) = cut b'=' opt in
    let k = trim_space left in
    let v = trim_space right in
    elim (Bool-cases (is_empty k)) [
      | inl e ↦ rw (e, add_option, read_part) (blank-Adds x)
      | inr e ↦ elim (Bool-cases found) [
        | inl f ↦ rw (e, f, add_option, read_part) (set_pair-Adds k v x)
        | inr f ↦ rw (e, f, add_option, read_part) (set_flag-Adds k x)
      ]
    ]

-- The fields after all parts.
abbrev pub AddsAll : List Part → Options → Options → Type 0
AddsAll ps x y =
    (y.tt ≡ (x.tt || any_trigger ps))
    × (y.sw_keys ≡ last_value (codes "sw-keys") x.sw_keys ps)
    × (y.timestamp ≡ last_time x.timestamp ps)
    × (y.ignored_keys ≡ x.ignored_keys ++ all_unknown ps)
    × ((key : Bytes) → lookup key y.custom_kvs ≡ last_custom key (lookup key x.custom_kvs) ps)
    × (y.opts ≡ x.opts)
    × (y.sig ≡ x.sig)

pub add_options-AddsAll :
    (opts : List Bytes) (x : Options) → AddsAll (read_parts opts) x (add_options opts x)
unfolding add_options read_parts any_trigger last_value last_time all_unknown last_custom
add_options-AddsAll [] x =
    (ground arith, refl, refl, sym (append-nil x.ignored_keys), λ key. refl, refl, refl)
add_options-AddsAll (opt ∷ opts) x =
    let p = read_part opt in
    let y = add_option opt x in
    let a = add_option-Adds opt x in
    let b = add_options-AddsAll opts y in
    (
      ground (arith, a.0, b.0),
      ground (arith, a.1, b.1),
      ground (arith, a.2, b.2),
      rw (b.3, a.3) (append_assoc x.ignored_keys (unknown p) (all_unknown (read_parts opts))),
      λ key. ground (arith, a.4 key, b.4 key),
      ground (arith, a.5, b.5),
      ground (arith, a.6, b.6),
    )

module _ ⦃h : Hmac⦄ where
  check_signature_keeps :
      (now later : ℤ) (tok : TokenResult) (x : Options)
      → let y = check_signature now later tok x in
        y ≡ record x { sig_state = y.sig_state; auth_status = y.auth_status }
  unfolding check_signature
  check_signature_keeps now later tok x = ground arith

  -- The parsed options are those of the header's parts, each trimmed: a trigger trace is asked for by the key
  -- alone; sw-keys, the custom keys and a readable ts have their last value, 0 for the time if there is none; and
  -- the keys without meaning are collected in order. A signature changes none of these.
  pub parse_options_fields :
      (now later : ℤ) (tok : TokenResult) (opts sig : Bytes)
      → let x = parse_options now later tok opts sig in
        let ps = read_parts (option_parts opts) in
        (x.tt ≡ any_trigger ps)
        × (x.sw_keys ≡ last_value (codes "sw-keys") [] ps)
        × (x.timestamp ≡ last_time (pos 0) ps)
        × (x.ignored_keys ≡ all_unknown ps)
        × ((key : Bytes) → lookup key x.custom_kvs ≡ last_custom key none ps)
        × (x.opts ≡ opts)
        × (x.sig ≡ sig)
  unfolding parse_options new_options lookup
  parse_options_fields now later tok opts sig =
      let x = new_options opts sig in
      let a = add_options-AddsAll (option_parts opts) x in
      let y = add_options (option_parts opts) x in
      let k = check_signature_keeps now later tok y in
      (
        ground (arith, a.0, k),
        ground (arith, a.1, k),
        ground (arith, a.2, k),
        ground (arith, a.3, k),
        λ key. ground (arith, a.4 key, k),
        ground (arith, a.5, k),
        ground (arith, a.6, k),
      )
