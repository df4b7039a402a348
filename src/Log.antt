-- ===== src/Log.antt =====
-- internal/log/logging.go and the logging calls of swo/agent_api.go: the level, its texts, and what is printed. A message
-- comes formatted, and the caller's file and line are an argument; the standard logger's time stamp is left out.
pub mod Levels
use apm_go.Prelude.{
  ℕ, suc, ◌-◌, ◌%◌, Bool, true, false, not, ◌&&◌, List, [], ◌∷◌, ◌++◌, Option, none, some, Bytes,
  codes, bytes_eq, trim_space, ◌==◌, leb, ltb, length, get_elem?, if◌then◌else◌, ◌>>=◌,
}
use apm_go.Prelude.Decimal.{parse_int}
use apm_go.Prelude.Int.{ℤ, pos, pos_part, leb_ℤ, ltb_ℤ}

-- LogLevel is a uint8.
abbrev pub LogLevel : Type 0
LogLevel = ℕ

abbrev pub level_debug : LogLevel
level_debug = 0

abbrev pub level_info : LogLevel
level_info = 1

abbrev pub level_warning : LogLevel
level_warning = 2

abbrev pub level_error : LogLevel
level_error = 3

abbrev pub level_str : List Bytes
level_str = codes "DEBUG" ∷ codes "INFO" ∷ codes "WARN" ∷ codes "ERROR" ∷ []

abbrev pub default_level : LogLevel
default_level = level_warning

-- The index of a text in a list; `none` for the error.
unfoldable pub elem_offset : List Bytes → Bytes → Option ℕ
elem_offset [] e = none
elem_offset (i ∷ s) e =
    let rest = elem_offset s e in
    if bytes_eq e i then some 0 else elim rest [ none ↦ none | some idx ↦ some (suc idx) ]

-- The level, and whether the error is nil.
unfoldable pub str_to_level : Bytes → LogLevel × Bool
unfolding elem_offset
str_to_level e = elim (elem_offset level_str e) [
  | none ↦ (default_level, false)
  | some offset ↦ (offset % 256, true)
]

-- strings.ToUpper
unfoldable pub upper : ℕ → ℕ
upper c = if leb b'a' c && leb c b'z' then c - 32 else c

unfoldable pub to_upper : Bytes → Bytes
unfolding upper
to_upper [] = []
to_upper (c ∷ s) = upper c ∷ to_upper s

unfoldable pub to_log_level : Bytes → LogLevel × Bool
unfolding str_to_level to_upper trim_space
to_log_level level = elim (parse_int level) [
  | some i ↦
      if leb_ℤ (pos 0) i && leb_ℤ i (pos 127) && ltb_ℤ i (pos (length level_str))
      then (pos_part i % 256, true)
      else (default_level, false)
  | none ↦
      let (l, ok) = str_to_level (to_upper (trim_space level)) in
      if ok then (l, true) else (default_level, false)
]

-- The global level, and the lines that were printed, the last one first.
pub record Logger : Type 0 where
  pub log_level : LogLevel
  pub printed : List Bytes

unfoldable pub set_level : LogLevel → Logger → Logger
set_level level l = record l { log_level = level }

unfoldable pub set_level_from_str : Bytes → Logger → Logger
unfolding set_level
set_level_from_str s l =
    let (level, valid) = to_log_level s in set_level (if valid then level else default_level) l

unfoldable pub should_log : LogLevel → Logger → Bool
should_log lv l = leb l.log_level lv

-- `%-5s`
unfoldable pub pad_five : Bytes → Bytes
pad_five [] = codes "     "
pad_five (a ∷ []) = a ∷ codes "    "
pad_five (a ∷ b ∷ []) = a ∷ b ∷ codes "   "
pad_five (a ∷ b ∷ c ∷ []) = a ∷ b ∷ c ∷ codes "  "
pad_five (a ∷ b ∷ c ∷ d ∷ []) = a ∷ b ∷ c ∷ d ∷ codes " "
pad_five s = s

-- What a line of the level begins with; `none` is an index out of range. The caller's file and line are written for a
-- debug message, "na" if they are not known.
unfoldable pub log_prefix : Option (Bytes × Bytes) → LogLevel → Option Bytes
unfolding pad_five
log_prefix caller level = do
  name ← get_elem? level_str level
  some (
      let head = pad_five name ++ codes " [solarwinds_apm] " in
      if level == level_debug
      then elim caller [
        | none ↦ head ++ codes "na:na "
        | some (file, line) ↦ head ++ file ++ codes ":" ++ line ++ codes " "
      ]
      else head)

unfoldable pub log_it : Option (Bytes × Bytes) → LogLevel → Bytes → Logger → Option Logger
unfolding should_log
log_it caller level msg l =
    if not (should_log level l)
    then some l
    else do pre ← log_prefix caller level; some (record l { printed = (pre ++ msg) ∷ l.printed })

-- Debugf and Debug, and likewise for the other levels.
unfoldable pub debugf : Option (Bytes × Bytes) → Bytes → Logger → Option Logger
debugf caller msg = log_it caller level_debug msg

unfoldable pub infof : Option (Bytes × Bytes) → Bytes → Logger → Option Logger
infof caller msg = log_it caller level_info msg

unfoldable pub warningf : Option (Bytes × Bytes) → Bytes → Logger → Option Logger
warningf caller msg = log_it caller level_warning msg

unfoldable pub errorf : Option (Bytes × Bytes) → Bytes → Logger → Option Logger
errorf caller msg = log_it caller level_error msg

-- swo.SetLogLevel: whether it succeeds, and the level it leaves.
unfoldable pub set_log_level : Bytes → Logger → Bool × Logger
unfolding set_level
set_log_level level l =
    let (lv, ok) = to_log_level level in if not ok then (false, l) else (true, set_level lv l)

-- swo.GetLogLevel; `none` is an index out of range.
unfoldable pub get_log_level : Logger → Option Bytes
get_log_level l = get_elem? level_str l.log_level
