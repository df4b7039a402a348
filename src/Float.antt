-- ===== src/Float.antt =====
-- The float64 values of the program (sampling buckets and the values that a decision reports).
-- A float type enters as an instance: the operations that the code applies to it, and, apart from
-- them, the facts of IEEE 754 that the theorems on buckets use. `Exact` is an instance.
pub mod Exact
use apm_go.Prelude.{◌≡◌, Bool, true, false, Bytes}
use apm_go.Prelude.Int.{ℤ, pos, ltb_ℤ}

pub record Float64 (F : Type 0) : Type 0 where
  pub zero_f : F
  pub one_f : F
  pub minus_one : F
  pub lt_f : F → F → Bool
  pub le_f : F → F → Bool
  pub add_f : F → F → F
  pub sub_f : F → F → F
  pub mul_f : F → F → F
  -- math.Min
  pub min_f : F → F → F
  -- time.Duration.Seconds, of a count of nanoseconds
  pub seconds : ℤ → F
  -- strconv.FormatFloat(f, 'f', -1, 64)
  pub format : F → Bytes

module _ {F : Type 0} ⦃fl : Float64 F⦄ where
  -- Every value but NaN equals itself.
  abbrev pub IsNumber : F → Type 0
  IsNumber a = fl.le_f a a ≡ true

  abbrev pub IsNonneg : F → Type 0
  IsNonneg a = fl.le_f fl.zero_f a ≡ true

-- What IEEE 754 says of the operations where no operand is NaN.
pub record FloatLaws (F : Type 0) ⦃fl : Float64 F⦄ : Type 0 where
  pub zero-IsNumber : IsNumber fl.zero_f
  pub le-IsNumber : (a b : F) → fl.le_f a b ≡ true → IsNumber a × IsNumber b
  pub le_of_not_lt : (a b : F) → IsNumber a → IsNumber b → fl.lt_f b a ≡ false → fl.le_f a b ≡ true
  pub le_trans_f : (a b c : F) → fl.le_f a b ≡ true → fl.le_f b c ≡ true → fl.le_f a c ≡ true
  pub min-le_left : (a b : F) → IsNumber a → IsNumber b → fl.le_f (fl.min_f a b) a ≡ true
  pub min_nonneg : (a b : F) → IsNonneg a → IsNonneg b → IsNonneg (fl.min_f a b)
  pub add_nonneg : (a b : F) → IsNonneg a → IsNonneg b → IsNonneg (fl.add_f a b)
  -- a positive duration is a finite positive number of seconds
  pub mul-seconds_nonneg :
      (a : F) (d : ℤ) → IsNonneg a → ltb_ℤ (pos 0) d ≡ true → IsNonneg (fl.mul_f a (fl.seconds d))
  pub sub-one_nonneg : (a : F) → fl.le_f fl.one_f a ≡ true → IsNonneg (fl.sub_f a fl.one_f)
  pub sub-one-le : (a : F) → fl.le_f fl.one_f a ≡ true → fl.le_f (fl.sub_f a fl.one_f) a ≡ true
