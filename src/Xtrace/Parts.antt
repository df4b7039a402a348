-- ===== src/Xtrace/Parts.antt =====
-- What the parts of a header say, one after the other.
use apm_go.Prelude.{
  Bool, false, not, ◌&&◌, ◌||◌, List, [], ◌∷◌, ◌++◌, Option, none, some, Bytes, codes, bytes_eq,
  is_empty, trim_space, cut, if◌then◌else◌,
}
use apm_go.Prelude.Int.{ℤ}
use apm_go.Prelude.Decimal.{parse_int}
use apm_go.Xtrace.{is_custom_key}

-- A part: nothing, a key alone, or a key and a value, each without the space around it.
pub data Part : Type 0 where
  blank : Part
  alone : Bytes → Part
  pair : Bytes → Bytes → Part

abbrev pub part_of : Bytes → Bytes → Bool → Part
part_of k v found = if is_empty k then blank else if not found then alone k else pair k v

unfoldable pub read_part : Bytes → Part
read_part opt =
    let (left, right, found) = cut b'=' opt in part_of (trim_space left) (trim_space right) found

unfoldable pub read_parts : List Bytes → List Part
unfolding read_part
read_parts [] = []
read_parts (opt ∷ opts) = read_part opt ∷ read_parts opts

abbrev pub is_trigger : Part → Bool
is_trigger (alone k) = bytes_eq k (codes "trigger-trace")
is_trigger _ = false

unfoldable pub any_trigger : List Part → Bool
any_trigger [] = false
any_trigger (p ∷ ps) = is_trigger p || any_trigger ps

-- The value of the last pair with a key, or what was there before.
abbrev pub value_or : Bytes → Bytes → Part → Bytes
value_or key old (pair k v) = if bytes_eq k key then v else old
value_or key old _ = old

unfoldable pub last_value : Bytes → Bytes → List Part → Bytes
last_value key old [] = old
last_value key old (p ∷ ps) = last_value key (value_or key old p) ps

-- The last timestamp that is an int64.
abbrev pub time_or : ℤ → Part → ℤ
time_or old (pair k v) =
    if bytes_eq k (codes "ts") then elim (parse_int v) [ none ↦ old | some ts ↦ ts ] else old
time_or old _ = old

unfoldable pub last_time : ℤ → List Part → ℤ
last_time old [] = old
last_time old (p ∷ ps) = last_time (time_or old p) ps

-- The keys that are not understood.
abbrev pub unknown : Part → List Bytes
unknown blank = []
unknown (alone k) = if bytes_eq k (codes "trigger-trace") then [] else k ∷ []
unknown (pair k v) =
    if bytes_eq k (codes "sw-keys") || bytes_eq k (codes "trigger-trace")
    then []
    else if bytes_eq k (codes "ts")
    then elim (parse_int v) [ none ↦ k ∷ [] | some ts ↦ [] ]
    else if is_custom_key k
    then []
    else k ∷ []

unfoldable pub all_unknown : List Part → List Bytes
all_unknown [] = []
all_unknown (p ∷ ps) = unknown p ++ all_unknown ps

unfoldable pub lookup : Bytes → List (Bytes × Bytes) → Option Bytes
lookup k [] = none
lookup k ((j, v) ∷ m) = if bytes_eq j k then some v else lookup k m

abbrev pub custom_or : Bytes → Option Bytes → Part → Option Bytes
custom_or key old (pair k v) = if bytes_eq k key && is_custom_key k then some v else old
custom_or key old _ = old

unfoldable pub last_custom : Bytes → Option Bytes → List Part → Option Bytes
last_custom key old [] = old
last_custom key old (p ∷ ps) = last_custom key (custom_or key old p) ps
