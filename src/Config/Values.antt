-- ===== src/Config/Values.antt =====
-- internal/config/env.go: the values that texts of the environment and of the struct tags stand for. The kinds of field
-- that reflection tells apart are a function each; the numbers of package strconv are ASCII text.
use apm_go.Prelude.{
  ℕ, Bool, true, false, ◌||◌, Option, none, some, Bytes, [], ◌∷◌, codes, bytes_eq, is_empty,
  trim_space, ◌==◌, ◌≡◌, leb, if◌then◌else◌,
}
use apm_go.Prelude.Decimal.{read_magnitude, parse_int}
use apm_go.Prelude.Int.{ℤ, pos, negsuc}
use apm_go.Float.{Float64}
use apm_go.Config.{to_lower}

-- What the configuration does with floats: strconv.ParseFloat with the value it gives beside an error, constants, and
-- their `%+v` form.
pub record FloatText (F : Type 0) : Type 0 where
  pub parse_float : Bytes → F × Bool
  pub of_nat : ℕ → F
  pub show_float : F → Bytes

-- Constants are ordered as their numbers.
pub record FloatTextLaws (F : Type 0) ⦃fl : Float64 F⦄ ⦃ft : FloatText F⦄ : Type 0 where
  pub le-of_nat : (a b : ℕ) → leb a b ≡ true → fl.le_f (ft.of_nat a) (ft.of_nat b) ≡ true

-- The value, and whether the error is nil.
unfoldable pub to_bool : Bytes → Bool × Bool
unfolding to_lower trim_space
to_bool s =
    let t = to_lower (trim_space s) in
    if bytes_eq t (codes "yes") || bytes_eq t (codes "true") || bytes_eq t (codes "enabled")
    then (true, true)
    else if bytes_eq t (codes "no") || bytes_eq t (codes "false") || bytes_eq t (codes "disabled")
    then (false, true)
    else (false, false)

-- What strconv.Atoi gives beside an error: 0 for no number, and the nearest int for one that is out of range.
unfoldable pub nearest_int : Bytes → ℤ
nearest_int [] = pos 0
nearest_int (c ∷ s) =
    let down = c == b'-' in
    elim (read_magnitude (if down || c == b'+' then s else c ∷ s)) [
      | none ↦ pos 0
      | some n ↦ if down then negsuc 9223372036854775807 else pos 9223372036854775807
    ]

unfoldable pub atoi : Bytes → ℤ × Bool
unfolding nearest_int
atoi s = elim (parse_int s) [ none ↦ (nearest_int s, false) | some n ↦ (n, true) ]

-- stringToValue for an int or an int64.
unfoldable pub int_value : Bytes → ℤ × Bool
unfolding atoi
int_value s = let t = trim_space s in atoi (if is_empty t then codes "0" else t)

unfoldable pub string_value : Bytes → Bytes × Bool
string_value s = (trim_space s, true)

unfoldable pub bool_value : Bytes → Bool × Bool
unfolding to_bool
bool_value s = let t = trim_space s in to_bool (if is_empty t then codes "false" else t)

unfoldable pub float_value : {F : Type 0} ⦃ft : FloatText F⦄ → Bytes → F × Bool
float_value ⦃ft⦄ s = let t = trim_space s in ft.parse_float (if is_empty t then codes "0" else t)

-- os.Getenv
unfoldable pub getenv : (Bytes → Option Bytes) → Bytes → Bytes
getenv env name = elim (env name) [ none ↦ [] | some v ↦ v ]

-- One field of loadEnvsInternal: the variable's value if it is set and read without an error, else the old value.
unfoldable pub from_env : {A : Type 0} → (Bytes → A × Bool) → Bytes → A → A
from_env value v old = if is_empty v then old else let (x, ok) = value v in if ok then x else old
