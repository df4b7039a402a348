-- ===== src/Config.antt =====
-- internal/config/config.go and internal/config/validators.go: the sampling settings of the local configuration, and
-- what is done to service keys. Text is ASCII.
pub mod Sampling
pub mod Keys
pub mod Values
pub mod Fields
pub mod Env
pub mod Files
pub mod Host
pub mod Yaml
pub mod Validate
pub mod Validated
pub mod Outcome
pub mod Collector
pub mod Getters
pub mod Service
pub mod Filters
pub mod Sources
pub mod Settled
pub mod Delta
use apm_go.Prelude.{
  ℕ, ◌+◌, ◌-◌, Bool, true, false, not, ◌&&◌, ◌||◌, List, [], ◌∷◌, ◌++◌, Option, none, some, Bytes,
  codes, bytes_eq, trim_space, cut, split_parts, is_space, ◌==◌, leb, length, take, drop, zero, suc,
  if◌then◌else◌,
}
use apm_go.Prelude.Int.{ℤ, pos, leb_ℤ}
use apm_go.Oboe.Flags.{enabled_tracing_mode, disabled_tracing_mode}
use apm_go.Oboe.Request.{max_sampling_rate}
use apm_go.Oboe.Settings.{LocalConfig}

pub record SamplingConfig : Type 0 where
  pub tracing_mode : Bytes
  pub tracing_mode_configured : Bool
  pub sample_rate : ℤ
  pub sample_rate_configured : Bool

-- strings.ToLower
unfoldable pub lower : ℕ → ℕ
lower c = if leb b'A' c && leb c b'Z' then c + 32 else c

unfoldable pub to_lower : Bytes → Bytes
unfolding lower
to_lower [] = []
to_lower (c ∷ s) = lower c ∷ to_lower s

unfoldable pub is_valid_tracing_mode : Bytes → Bool
is_valid_tracing_mode m = bytes_eq m enabled_tracing_mode || bytes_eq m disabled_tracing_mode

unfoldable pub is_valid_sample_rate : ℤ → Bool
is_valid_sample_rate rate = leb_ℤ (pos 0) rate && leb_ℤ rate (pos max_sampling_rate)

unfoldable pub normalize_tracing_mode : Bytes → Bytes
unfolding to_lower trim_space
normalize_tracing_mode m =
    let mode_str = to_lower (trim_space m) in
    if bytes_eq mode_str (codes "always")
    then enabled_tracing_mode
    else if bytes_eq mode_str (codes "never")
    then disabled_tracing_mode
    else m

-- The values of the `default` tags, after Reset.
unfoldable pub new_sampling_config : SamplingConfig
new_sampling_config = record {
  tracing_mode = enabled_tracing_mode;
  tracing_mode_configured = false;
  sample_rate = pos 1_000_000;
  sample_rate_configured = false;
}

unfoldable pub reset_tracing_mode : SamplingConfig → SamplingConfig
reset_tracing_mode s = record s {
  tracing_mode = enabled_tracing_mode;
  tracing_mode_configured = false;
}

unfoldable pub reset_sample_rate : SamplingConfig → SamplingConfig
reset_sample_rate s = record s { sample_rate = pos 1_000_000; sample_rate_configured = false }

unfoldable pub set_tracing_mode : Bytes → SamplingConfig → SamplingConfig
unfolding normalize_tracing_mode
set_tracing_mode mode s = record s {
  tracing_mode = normalize_tracing_mode mode;
  tracing_mode_configured = true;
}

unfoldable pub set_sample_rate : ℤ → SamplingConfig → SamplingConfig
set_sample_rate rate s = record s { sample_rate = rate; sample_rate_configured = true }

unfoldable pub configured : SamplingConfig → Bool
configured s = s.tracing_mode_configured || s.sample_rate_configured

-- SamplingConfig.validate
unfoldable pub validate : SamplingConfig → SamplingConfig
unfolding is_valid_tracing_mode is_valid_sample_rate reset_tracing_mode reset_sample_rate
validate s =
    let t = if not (is_valid_tracing_mode s.tracing_mode) then reset_tracing_mode s else s in
    if not (is_valid_sample_rate t.sample_rate) then reset_sample_rate t else t

-- The getters of the configuration that the sampling settings are merged from.
unfoldable pub local_config : Bool → SamplingConfig → LocalConfig
unfolding configured
local_config trigger_trace s = record {
  sampling_configured = configured s;
  sample_rate = s.sample_rate;
  tracing_mode = s.tracing_mode;
  trigger_trace_on = trigger_trace;
}

-- spacesPattern, `\s`
unfoldable pub hyphenate : ℕ → ℕ
hyphenate c = if c == 9 || c == 10 || c == 12 || c == 13 || c == 32 then b'-' else c

-- A byte outside of invalidCharacters, `[^a-z0-9.:_-]`
unfoldable pub is_name_char : ℕ → Bool
is_name_char c =
    (leb b'a' c && leb c b'z')
    || (leb b'0' c && leb c b'9')
    || c == b'.'
    || c == b':'
    || c == b'_'
    || c == b'-'

-- A byte in lower case, and a hyphen for a space.
unfoldable pub clean_byte : ℕ → ℕ
unfolding lower hyphenate
clean_byte c = hyphenate (lower c)

unfoldable pub clean_name : Bytes → Bytes
clean_name [] = []
clean_name (c ∷ s) =
    let rest = clean_name s in let d = clean_byte c in if is_name_char d then d ∷ rest else rest

unfoldable pub to_service_key : Bytes → Bytes
unfolding clean_name
to_service_key s =
    let (token, name, found) = cut b':' s in
    if not found then s else token ++ b':' ∷ clean_name name

-- strings.Repeat("*", n)
unfoldable pub stars : ℕ → Bytes
stars zero = []
stars (suc n) = b'*' ∷ stars n

unfoldable pub mask_service_key : Bytes → Bytes
unfolding stars
mask_service_key key =
    let (tk, more) = split_parts b':' key in
    let masked = take 4 tk ++ stars (length tk - 4 - 4) ++ drop (length tk - 4) tk ++ codes ":" in
    if leb (length tk) (4 + 4) then key else elim more [ [] ↦ masked | name ∷ _ ↦ masked ++ name ]
