-- ===== src/Oboe/Flags/Names.antt =====
-- What flagStringToBin reads: a flag is set exactly when its name is one of the parts.
use apm_go.Prelude.{
  ℕ, ◌<◌, bit_or, ◌≡◌, subst, sym, ◌∙◌, Bool, false, ◌||◌, List, [], ◌∷◌, arith, inl, inr,
  Bool-cases, Bytes, codes, bytes_eq, bytes_eq_sound, split,
}
use apm_go.Oboe.Flags.{
  Flag, override, sample_start, sample_through, sample_through_always, trigger_trace, mask, has,
  add_flag, add_flags, flag_string_to_bin,
}
use apm_go.Oboe.Flags.Bits.{has-bit_or, bits_closed, mask-lt}

abbrev pub name : Flag → Bytes
name override = codes "OVERRIDE"
name sample_start = codes "SAMPLE_START"
name sample_through = codes "SAMPLE_THROUGH"
name sample_through_always = codes "SAMPLE_THROUGH_ALWAYS"
name trigger_trace = codes "TRIGGER_TRACE"

unfoldable pub contains : List Bytes → Bytes → Bool
contains [] s = false
contains (p ∷ ps) s = bytes_eq p s || contains ps s

has-mask : (j k : Flag) → has (mask j) k ≡ bytes_eq (name j) (name k)
unfolding has bytes_eq
has-mask j k = ground arith

module _ (f : ℕ) (h : f < 64) where
  set_named : (j k : Flag) → has (bit_or f (mask j)) k ≡ (has f k || bytes_eq (name j) (name k))
  set_named j k = rw (← has-mask) (has-bit_or f (mask j) k h (mask-lt j))

  -- A part that is a name sets that flag, and any other part sets none.
  data Part (s : Bytes) : Type 0 where
    named : (j : Flag) → s ≡ name j → add_flag f s ≡ bit_or f (mask j) → Part s
    other : add_flag f s ≡ f → ((k : Flag) → bytes_eq s (name k) ≡ false) → Part s

  part : (s : Bytes) → Part s
  unfolding add_flag
  part s = elim (Bool-cases (bytes_eq s (name override))) [
    | inl e ↦ named override (bytes_eq_sound s _ e) (ground arith)
    | inr a ↦ elim (Bool-cases (bytes_eq s (name sample_start))) [
      | inl e ↦ named sample_start (bytes_eq_sound s _ e) (ground arith)
      | inr b ↦ elim (Bool-cases (bytes_eq s (name sample_through))) [
        | inl e ↦ named sample_through (bytes_eq_sound s _ e) (ground arith)
        | inr c ↦ elim (Bool-cases (bytes_eq s (name sample_through_always))) [
          | inl e ↦ named sample_through_always (bytes_eq_sound s _ e) (ground arith)
          | inr d ↦ elim (Bool-cases (bytes_eq s (name trigger_trace))) [
            | inl e ↦ named trigger_trace (bytes_eq_sound s _ e) (ground arith)
            | inr g ↦ other (ground arith) (elim [
              | override ↦ a
              | sample_start ↦ b
              | sample_through ↦ c
              | sample_through_always ↦ d
              | trigger_trace ↦ g
            ])
          ]
        ]
      ]
    ]
  ]

  has-add_flag :
      (s : Bytes)
      → Part s
      → (add_flag f s < 64) × ((k : Flag) → has (add_flag f s) k ≡ (has f k || bytes_eq s (name k)))
  has-add_flag s (named j e p) = (
    subst (λ n. n < 64) (sym p) (bits_closed f (mask j) h (mask-lt j)).0,
    λ k. rw (p, e) (set_named j k),
  )
  has-add_flag s (other p apart) = (rw p h, λ k. ground (arith, p, apart k))

has-add_flags :
    (parts : List Bytes) (f : ℕ)
    → f < 64
    → (add_flags f parts < 64)
      × ((k : Flag) → has (add_flags f parts) k ≡ (has f k || contains parts (name k)))
unfolding add_flags contains
has-add_flags [] f h = (h, λ k. ground arith)
has-add_flags (s ∷ parts) f h =
    let (lt, one) = has-add_flag f h s (part f h s) in
    let (lt', rest) = has-add_flags parts (add_flag f s) lt in
    (lt', λ k. ground (arith, one k, rest k))

has-zero : (k : Flag) → has 0 k ≡ false
unfolding has
has-zero k = ground arith

has_nothing : (k : Flag) → has 0 k ≡ contains (split b',' []) (name k)
unfolding has contains split bytes_eq
has_nothing k = ground arith

-- The flags of a setting are those whose names stand between its commas, and no other bit is set.
pub has-flag_string_to_bin :
    (s : Bytes)
    → (flag_string_to_bin s < 64)
      × ((k : Flag) → has (flag_string_to_bin s) k ≡ contains (split b',' s) (name k))
unfolding flag_string_to_bin
has-flag_string_to_bin [] = (omega arith, λ k. has_nothing k)
has-flag_string_to_bin (c ∷ s) =
    let (lt, all) = has-add_flags (split b',' (c ∷ s)) 0 (omega arith) in
    (lt, λ k. all k ∙ rw (has-zero k))
