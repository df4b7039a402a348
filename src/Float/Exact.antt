-- ===== src/Float/Exact.antt =====
-- Fixed-point numbers as an instance: an integer counts units of 10⁻⁹. A product is rounded down.
use apm_go.Prelude.{ℕ, ◌/◌, ◌≡◌, refl, [], true, false, arith, if◌then◌else◌}
use apm_go.Prelude.Int.{ℤ, pos, negsuc, ◌+ℤ◌, ◌-ℤ◌, ◌*ℤ◌, leb_ℤ, ltb_ℤ, +ℤ_parts, -ℤ_parts}
use apm_go.Float.{Float64, FloatLaws, IsNonneg}

abbrev pub units : ℕ
units = 1_000_000_000

-- Division of a product of two counts by the scale, rounded down.
abbrev pub rescale : ℤ → ℤ
rescale (pos n) = pos (n / units)
rescale (negsuc n) = negsuc (n / units)

abbrev pub mul_exact : ℤ → ℤ → ℤ
mul_exact a b = rescale (a *ℤ b)

instance abbrev pub exact : Float64 ℤ
exact = record {
  zero_f = pos 0;
  one_f = pos units;
  minus_one = negsuc (999_999_999);
  lt_f = ltb_ℤ;
  le_f = leb_ℤ;
  add_f = ◌+ℤ◌;
  sub_f = ◌-ℤ◌;
  mul_f = mul_exact;
  min_f = λ a b. if leb_ℤ a b then a else b;
  seconds = λ d. d;
  format = λ a. [];
}

le_trans_exact : (a b c : ℤ) → leb_ℤ a b ≡ true → leb_ℤ b c ≡ true → leb_ℤ a c ≡ true
le_trans_exact a b c h k = ground arith

le_of_not_lt_exact : (a b : ℤ) → ltb_ℤ b a ≡ false → leb_ℤ a b ≡ true
le_of_not_lt_exact a b h = ground arith

le_refl_exact : (a : ℤ) → leb_ℤ a a ≡ true
le_refl_exact a = ground arith

min-le_left_exact : (a b : ℤ) → leb_ℤ (if leb_ℤ a b then a else b) a ≡ true
min-le_left_exact a b = ground arith

min-IsNonneg_exact : (a b : ℤ) → IsNonneg a → IsNonneg b → IsNonneg (if leb_ℤ a b then a else b)
min-IsNonneg_exact a b h k = ground arith

add-IsNonneg_exact : (a b : ℤ) → IsNonneg a → IsNonneg b → IsNonneg (a +ℤ b)
add-IsNonneg_exact a b h k = ground (arith, +ℤ_parts a b)

mul-IsNonneg_exact : (a d : ℤ) → IsNonneg a → ltb_ℤ (pos 0) d ≡ true → IsNonneg (mul_exact a d)
unfolding ◌*ℤ◌
mul-IsNonneg_exact (pos a) (pos d) h k = ground arith
mul-IsNonneg_exact (pos a) (negsuc d) h k = ground arith
mul-IsNonneg_exact (negsuc a) d h k = ground arith

sub-IsNonneg_exact : (a : ℤ) → leb_ℤ (pos units) a ≡ true → IsNonneg (a -ℤ pos units)
sub-IsNonneg_exact a h = ground (arith, -ℤ_parts a (pos units))

sub-le_exact : (a : ℤ) → leb_ℤ (a -ℤ pos units) a ≡ true
sub-le_exact a = ground (arith, -ℤ_parts a (pos units))

pub exact-FloatLaws : FloatLaws ℤ
exact-FloatLaws = record {
  zero-IsNumber = refl;
  le-IsNumber = λ a b h. (le_refl_exact a, le_refl_exact b);
  le_of_not_lt = λ a b h k l. le_of_not_lt_exact a b l;
  le_trans_f = le_trans_exact;
  min-le_left = λ a b h k. min-le_left_exact a b;
  min_nonneg = min-IsNonneg_exact;
  add_nonneg = add-IsNonneg_exact;
  mul-seconds_nonneg = mul-IsNonneg_exact;
  sub-one_nonneg = sub-IsNonneg_exact;
  sub-one-le = λ a h. sub-le_exact a;
}
