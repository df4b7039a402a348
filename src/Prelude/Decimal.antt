-- ===== src/Prelude/Decimal.antt =====
-- strconv.ParseInt and strconv.FormatInt, in base 10 and 64 bits.
use apm_go.Prelude.Tests.{ltb, leb, ◌==◌, if◌then◌else◌, Bool-cases}
use apm_go.Prelude.Text.{Bytes}
use apm_go.Prelude.Int.{ℤ, pos, negsuc}
use Prim.Native.Nat.{ℕ, zero, suc, ◌+◌, ◌-◌, ◌*◌, ◌/◌, ◌%◌, ◌^◌, ◌<◌, ◌≤◌}
use mathlib.Core.Path.{◌≡◌, ap, ◌∙◌}
use mathlib.Core.Logic.{inl, inr}
use mathlib.Core.Bool.{false, ◌&&◌}
use mathlib.Core.Option.{Option, none, some}
use mathlib.Core.List.{[], ◌∷◌}
use native.Mathlib.Omega.{arith}
use native.Mathlib.Nat.{pow-suc}

-- The number that digits spell behind `n`; `none` at a byte that is no digit.
unfoldable pub read_digits : ℕ → Bytes → Option ℕ
read_digits n [] = some n
read_digits n (c ∷ s) =
    let rest = read_digits (n * 10 + (c - b'0')) s in
    if leb b'0' c && leb c b'9' then rest else none

unfoldable pub read_magnitude : Bytes → Option ℕ
unfolding read_digits
read_magnitude [] = none
read_magnitude (c ∷ s) = read_digits 0 (c ∷ s)

unfoldable pub positive : Option ℕ → Option ℤ
positive none = none
positive (some n) = if ltb n (2 ^ 63) then some (pos n) else none

unfoldable pub negative : Option ℕ → Option ℤ
negative none = none
negative (some zero) = some (pos 0)
negative (some (suc n)) = if leb (suc n) (2 ^ 63) then some (negsuc n) else none

-- A sign, digits, and the int64 range.
unfoldable pub parse_int : Bytes → Option ℤ
unfolding read_magnitude positive negative
parse_int [] = none
parse_int (c ∷ s) =
    if c == b'+'
    then positive (read_magnitude s)
    else if c == b'-'
    then negative (read_magnitude s)
    else positive (read_magnitude (c ∷ s))

-- The digits of `n` before `out`; the fuel is a bound of their number.
unfoldable pub write_digits : ℕ → ℕ → Bytes → Bytes
write_digits zero n out = out
write_digits (suc k) n out =
    let digits = (b'0' + n % 10) ∷ out in
    let rest = write_digits k (n / 10) digits in if ltb n 10 then digits else rest

-- An int64 has at most 19 digits.
unfoldable pub format_int : ℤ → Bytes
unfolding write_digits
format_int (pos n) = write_digits 20 n []
format_int (negsuc n) = b'-' ∷ write_digits 20 (suc n) []

read_digit :
    (n d : ℕ) (out : Bytes)
    → d < 10
    → read_digits n ((b'0' + d) ∷ out) ≡ read_digits (n * 10 + d) out
unfolding read_digits
read_digit n d out h = let e : b'0' + d - b'0' ≡ d = omega arith in ground (arith, e)

positive_fuel : (k n : ℕ) → n < 10 ^ suc k → ltb n 10 ≡ false → 0 < k
positive_fuel zero n h big = absurd (ground arith)
positive_fuel (suc k) n h big = omega arith

read-write_digits :
    (k n : ℕ) (out : Bytes)
    → n < 10 ^ k
    → 0 < k
    → read_digits 0 (write_digits k n out) ≡ read_digits n out
unfolding write_digits
read-write_digits zero n out h p = absurd (omega arith)
read-write_digits (suc k) n out h p = elim (Bool-cases (ltb n 10)) [
  | inl small ↦
      let e : 0 * 10 + n % 10 ≡ n = ground arith in
      rw small (read_digit 0 (n % 10) out (omega arith) ∙ ap (λ m. read_digits m out) e)
  | inr big ↦
      let e : n / 10 * 10 + n % 10 ≡ n = omega arith in
      let room : n < 10 * 10 ^ k = omega (arith, pow-suc 10 k) in
      let bound : n / 10 < 10 ^ k = omega arith in
      let more : 0 < k = positive_fuel k n h big in
      rw big (
        read-write_digits k (n / 10) ((b'0' + n % 10) ∷ out) bound more
        ∙ read_digit (n / 10) (n % 10) out (omega arith)
        ∙ ap (λ m. read_digits m out) e)
]

-- What is written begins with a digit.
write_digits_head :
    (k n : ℕ) (out : Bytes)
    → n < 10 ^ k
    → 0 < k
    → (d : ℕ) × (rest : Bytes) × (write_digits k n out ≡ d ∷ rest) × (b'0' ≤ d) × (d ≤ b'9')
unfolding write_digits
write_digits_head zero n out h p = absurd (omega arith)
write_digits_head (suc k) n out h p = elim (Bool-cases (ltb n 10)) [
  | inl small ↦ (b'0' + n % 10, out, rw small, omega arith, omega arith)
  | inr big ↦
      let room : n < 10 * 10 ^ k = omega (arith, pow-suc 10 k) in
      let bound : n / 10 < 10 ^ k = omega arith in
      let (d, rest, e, lo, hi) =
        write_digits_head k (n / 10) ((b'0' + n % 10) ∷ out) bound (positive_fuel k n h big) in
      (d, rest, rw big e, lo, hi)
]

read_magnitude-write_digits : (n : ℕ) → n < 10 ^ 20 → read_magnitude (write_digits 20 n []) ≡ some n
unfolding read_magnitude read_digits
read_magnitude-write_digits n h =
    let (d, rest, e, lo, hi) = write_digits_head 20 n [] h (omega arith) in
    let all = read-write_digits 20 n [] h (omega arith) in rw e (rw e at all)

parse_int_digits :
    (s : Bytes) (d : ℕ) (rest : Bytes)
    → s ≡ d ∷ rest
    → b'0' ≤ d
    → parse_int s ≡ positive (read_magnitude s)
unfolding parse_int
parse_int_digits s d rest e lo = rw e (ground arith)

abbrev pub IsInt64 : ℤ → Type 0
IsInt64 (pos n) = n < 2 ^ 63
IsInt64 (negsuc n) = n < 2 ^ 63

-- Every int64 is read back from its decimal form.
pub parse_int-format_int : (t : ℤ) → IsInt64 t → parse_int (format_int t) ≡ some t
unfolding format_int
parse_int-format_int (pos n) h =
    let (d, rest, e, lo, hi) = write_digits_head 20 n [] (omega arith) (omega arith) in
    rw (parse_int_digits _ d rest e lo, read_magnitude-write_digits n (omega arith))
      (unfold positive in ground arith)
parse_int-format_int (negsuc n) h =
    let back = read_magnitude-write_digits (suc n) (omega arith) in
    unfold parse_int in rw back (ground arith)

positive-IsInt64 : (o : Option ℕ) (t : ℤ) → positive o ≡ some t → IsInt64 t
unfolding positive
positive-IsInt64 none t h = cc
positive-IsInt64 (some n) (pos m) h = ground arith
positive-IsInt64 (some n) (negsuc m) h = absurd (ground arith)

negative-IsInt64 : (o : Option ℕ) (t : ℤ) → negative o ≡ some t → IsInt64 t
unfolding negative
negative-IsInt64 none t h = cc
negative-IsInt64 (some zero) (pos m) h = ground arith
negative-IsInt64 (some zero) (negsuc m) h = absurd (ground arith)
negative-IsInt64 (some (suc n)) (pos m) h = absurd (ground arith)
negative-IsInt64 (some (suc n)) (negsuc m) h = ground arith

-- What is read fits an int64.
pub parse_int-IsInt64 : (s : Bytes) (t : ℤ) → parse_int s ≡ some t → IsInt64 t
unfolding parse_int
parse_int-IsInt64 [] t h = cc
parse_int-IsInt64 (c ∷ s) t h = ground (
  arith,
  positive-IsInt64 (read_magnitude s) t,
  negative-IsInt64 (read_magnitude s) t,
  positive-IsInt64 (read_magnitude (c ∷ s)) t,
)
