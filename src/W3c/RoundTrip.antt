-- ===== src/W3c/RoundTrip.antt =====
-- What a span context writes is what its receiver reads.
use apm_go.Prelude.{
  ℕ, zero, suc, ◌+◌, ◌*◌, ◌/◌, ◌%◌, ◌<◌, true, [], ◌∷◌, ◌++◌, Option, none, some, Bytes, ◌≡◌, refl,
  ap, arith, All, length, ◌==◌, inl, inr, Bool-cases,
}
use apm_go.Otel.{SpanContext}
use apm_go.W3c.{
  SwTraceState, is_hex, hex_run, hex_value, decode_byte, parse_flags, parse_dash, parse_span,
  parse_sw_trace_state, hex_digit, to_hex, sw_from_ctx,
}

hex_digit_lem : (n : ℕ) → n < 16 → (is_hex (hex_digit n) ≡ true) × (hex_value (hex_digit n) ≡ n)
unfolding is_hex hex_digit hex_value
hex_digit_lem n h = ground arith

abbrev pub IsByte : ℕ → Type 0
IsByte b = b < 256

hex_run-to_hex :
    (bs rest : Bytes) (n : ℕ)
    → All IsByte bs
    → n ≡ length bs + length bs
    → hex_run n (to_hex bs ++ rest) ≡ some (to_hex bs, rest)
unfolding hex_run to_hex
hex_run-to_hex [] rest zero h e = refl
hex_run-to_hex [] rest (suc n) h e = absurd (omega arith)
hex_run-to_hex (b ∷ bs) rest zero h e = absurd (omega arith)
hex_run-to_hex (b ∷ bs) rest (suc zero) h e = absurd (omega arith)
hex_run-to_hex (b ∷ bs) rest (suc (suc n)) h e = ground (
  arith,
  hex_digit_lem (b / 16) (omega arith),
  hex_digit_lem (b % 16) (omega arith),
  hex_run-to_hex bs rest n h.1 (omega arith),
)

parse_dash_lem :
    (span : Bytes) (flags : ℕ)
    → IsByte flags
    → parse_dash span (b'-' ∷ to_hex (flags ∷ []))
      ≡ record { is_valid = true; span_id = span; flags = flags }
unfolding parse_dash to_hex hex_run decode_byte
parse_dash_lem span flags h =
    ground
      (arith, hex_digit_lem (flags / 16) (omega arith), hex_digit_lem (flags % 16) (omega arith))

-- Every span context with an id of 8 bytes is read back, with its id in hexadecimal and its flags.
pub parse-sw_from_ctx :
    {T : Type 0} (sc : SpanContext T)
    → length sc.span_id ≡ 8
    → All IsByte sc.span_id
    → IsByte sc.trace_flags
    → parse_sw_trace_state (sw_from_ctx sc)
      ≡ record { is_valid = true; span_id = to_hex sc.span_id; flags = sc.trace_flags }
unfolding sw_from_ctx parse_sw_trace_state
parse-sw_from_ctx sc len bytes flag =
    let rest = b'-' ∷ to_hex (sc.trace_flags ∷ []) in
    ground (
      arith,
      hex_run-to_hex sc.span_id rest 16 bytes (omega arith),
      parse_dash_lem (to_hex sc.span_id) sc.trace_flags flag,
    )

hex_value_lem : (c : ℕ) → is_hex c ≡ true → (hex_digit (hex_value c) ≡ c) × (hex_value c < 16)
unfolding is_hex hex_digit hex_value
hex_value_lem c h = ground arith

-- A run of n digits is the first n bytes.
abbrev Runs : ℕ → Bytes → Option (Bytes × Bytes) → Type 0
Runs n s none = Unit {0}
Runs n s (some (r, rest)) = (s ≡ r ++ rest) × (length r ≡ n) × All (λ c. is_hex c ≡ true) r

longer :
    (n c : ℕ) (s : Bytes)
    → is_hex c ≡ true
    → (o : Option (Bytes × Bytes)) → Runs n s o
    → Runs (suc n) (c ∷ s) (elim o [ none ↦ none | some (r, s') ↦ some (c ∷ r, s') ])
longer n c s e none h = tt
longer n c s e (some (r, rest)) h = (ap (λ t. c ∷ t) h.0, ap suc h.1, (e, h.2))

hex_run-Runs : (n : ℕ) (s : Bytes) → Runs n s (hex_run n s)
unfolding hex_run
hex_run-Runs zero s = (refl, refl, tt)
hex_run-Runs (suc n) [] = tt
hex_run-Runs (suc n) (c ∷ s) = elim (Bool-cases (is_hex c)) [
  | inl e ↦ rw e (longer n c s e (hex_run n s) (hex_run-Runs n s))
  | inr e ↦ rw e tt
]

decode_byte-hex_pair :
    (h l : ℕ)
    → is_hex h ≡ true
    → is_hex l ≡ true
    → (to_hex (decode_byte (h ∷ l ∷ []) ∷ []) ≡ h ∷ l ∷ []) × IsByte (decode_byte (h ∷ l ∷ []))
unfolding to_hex decode_byte
decode_byte-hex_pair h l a b =
    let x = hex_value_lem h a in
    let y = hex_value_lem l b in
    let hi : (hex_value h * 16 + hex_value l) / 16 ≡ hex_value h = omega arith in
    let lo : (hex_value h * 16 + hex_value l) % 16 ≡ hex_value l = omega arith in
    (rw (hi, lo, x.0, y.0) refl, omega arith)

-- What a valid reading says of the text that was read.
abbrev pub IsReading : Bytes → SwTraceState → Type 0
IsReading s r =
    (s ≡ r.span_id ++ b'-' ∷ to_hex (r.flags ∷ []))
    × (length r.span_id ≡ 16)
    × All (λ c. is_hex c ≡ true) r.span_id
    × IsByte r.flags

flags-IsReading :
    (span s : Bytes) (o : Option (Bytes × Bytes))
    → length span ≡ 16
    → All (λ c. is_hex c ≡ true) span
    → Runs 2 s o
    → (parse_flags span o).is_valid ≡ true
    → IsReading (span ++ b'-' ∷ s) (parse_flags span o)
unfolding parse_flags
flags-IsReading span s none n h r e = cc
flags-IsReading span s (some ([], [])) n h r e = absurd (omega (arith, r.1))
flags-IsReading span s (some (a ∷ [], [])) n h r e = absurd (omega (arith, r.1))
flags-IsReading span s (some (a ∷ b ∷ [], [])) n h r e =
    let (back, byte) = decode_byte-hex_pair a b r.2.0 r.2.1.0 in (rw (back, r.0) refl, n, h, byte)
flags-IsReading span s (some (a ∷ b ∷ c ∷ t, [])) n h r e = absurd (omega (arith, r.1))
flags-IsReading span s (some (t, x ∷ xs)) n h r e = cc

dash-IsReading :
    (span s : Bytes)
    → length span ≡ 16
    → All (λ c. is_hex c ≡ true) span
    → (parse_dash span s).is_valid ≡ true
    → IsReading (span ++ s) (parse_dash span s)
unfolding parse_dash
dash-IsReading span [] n h e = cc
dash-IsReading span (c ∷ s) n h e = elim (Bool-cases (c == b'-')) [
  | inl dash ↦
      let is_dash : c ≡ b'-' = ground arith in
      let valid = (rw (dash, parse_dash) at e) in
      rw (dash, parse_dash, is_dash)
        (flags-IsReading span s (hex_run 2 s) n h (hex_run-Runs 2 s) valid)
  | inr other ↦ absurd (ground arith)
]

span-IsReading :
    (s : Bytes) (o : Option (Bytes × Bytes))
    → Runs 16 s o
    → (parse_span o).is_valid ≡ true
    → IsReading s (parse_span o)
unfolding parse_span
span-IsReading s none r e = cc
span-IsReading s (some (span, rest)) r e = rw r.0 (dash-IsReading span rest r.1 r.2 e)

-- A valid reading determines the text: it is the id, 16 digits, a dash and the flags in two digits.
pub parse_sw_trace_state-IsReading :
    (s : Bytes) → (parse_sw_trace_state s).is_valid ≡ true → IsReading s (parse_sw_trace_state s)
unfolding parse_sw_trace_state
parse_sw_trace_state-IsReading s e = span-IsReading s (hex_run 16 s) (hex_run-Runs 16 s) e
