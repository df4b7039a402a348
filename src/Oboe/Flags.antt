-- ===== src/Oboe/Flags.antt =====
-- internal/oboe/settings.go (settingFlag), internal/oboe/tracing_mode.go, and flagStringToBin of
-- internal/oboe/oboe.go. A flag set is the value of its uint16.
pub mod Bits
pub mod Names
use apm_go.Prelude.{
  ℕ, ◌-◌, bit_and, bit_or, Bool, true, false, not, List, [], ◌∷◌, Bytes, codes, bytes_eq, split,
  is_empty, ◌==◌, if◌then◌else◌,
}

pub data Flag : Type 0 where
  override sample_start sample_through sample_through_always trigger_trace : Flag

-- 1 << the flag's offset
abbrev pub mask : Flag → ℕ
mask override = 2
mask sample_start = 4
mask sample_through = 8
mask sample_through_always = 16
mask trigger_trace = 32

-- f & mask != 0
unfoldable pub has : ℕ → Flag → Bool
has f k = not (bit_and f (mask k) == 0)

-- f &^ mask
unfoldable pub and_not : ℕ → ℕ → ℕ
and_not f m = f - bit_and f m

unfoldable pub enabled : ℕ → Bool
enabled f = not (bit_and f (bit_or (mask sample_start) (mask sample_through_always)) == 0)

unfoldable pub trigger_trace_enabled : ℕ → Bool
unfolding has
trigger_trace_enabled f = has f trigger_trace

pub data TracingMode : Type 0 where
  trace_disabled trace_enabled trace_unknown : TracingMode

abbrev pub enabled_tracing_mode : Bytes
enabled_tracing_mode = codes "enabled"

abbrev pub disabled_tracing_mode : Bytes
disabled_tracing_mode = codes "disabled"

abbrev pub unknown_tracing_mode : Bytes
unknown_tracing_mode = codes "unknown"

-- NewTracingMode, of a mode of the configuration.
unfoldable pub new_tracing_mode : Bytes → TracingMode
new_tracing_mode mode =
    if bytes_eq mode disabled_tracing_mode
    then trace_disabled
    else if bytes_eq mode enabled_tracing_mode
    then trace_enabled
    else trace_unknown

unfoldable pub is_unknown : TracingMode → Bool
is_unknown trace_unknown = true
is_unknown _ = false

unfoldable pub to_flags : TracingMode → ℕ
to_flags trace_enabled =
    bit_or (bit_or (mask sample_start) (mask sample_through_always)) (mask trigger_trace)
to_flags _ = 0

unfoldable pub to_string : TracingMode → Bytes
to_string trace_enabled = enabled_tracing_mode
to_string trace_disabled = disabled_tracing_mode
to_string _ = unknown_tracing_mode

-- One round of the loop of flagStringToBin.
unfoldable pub add_flag : ℕ → Bytes → ℕ
add_flag flags s =
    if bytes_eq s (codes "OVERRIDE")
    then bit_or flags (mask override)
    else if bytes_eq s (codes "SAMPLE_START")
    then bit_or flags (mask sample_start)
    else if bytes_eq s (codes "SAMPLE_THROUGH")
    then bit_or flags (mask sample_through)
    else if bytes_eq s (codes "SAMPLE_THROUGH_ALWAYS")
    then bit_or flags (mask sample_through_always)
    else if bytes_eq s (codes "TRIGGER_TRACE")
    then bit_or flags (mask trigger_trace)
    else flags

unfoldable pub add_flags : ℕ → List Bytes → ℕ
add_flags flags [] = flags
add_flags flags (s ∷ parts) = add_flags (add_flag flags s) parts

unfoldable pub flag_string_to_bin : Bytes → ℕ
unfolding add_flags
flag_string_to_bin flag_string =
    if is_empty flag_string then 0 else add_flags 0 (split b',' flag_string)
