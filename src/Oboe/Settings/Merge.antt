-- ===== src/Oboe/Settings/Merge.antt =====
-- The precedence between remote, local and URL settings.
use apm_go.Prelude.{
  ℕ, ◌<◌, bit_and, Bool, true, false, not, ◌&&◌, ◌||◌, some, Bytes, is_empty, ◌≡◌, refl, ap, arith,
  if◌then◌else◌,
}
use apm_go.Prelude.Int.{ℤ, ltb_ℤ}
use apm_go.Oboe.Flags.{
  Flag, trigger_trace, override, sample_start, sample_through_always, mask, has, and_not,
  new_tracing_mode, to_flags, TracingMode, trace_enabled, is_unknown,
}
use apm_go.Oboe.Flags.Bits.{has-bit_and, has-and_not, bits_closed, mask-lt}
use apm_go.Oboe.TriggerTrace.{SampleSource, source_file}
use apm_go.Oboe.Settings.{
  LocalConfig, Settings, has_override_flag, merge_local_setting, merge_url_setting,
}
use apm_go.Oboe.Urls.{Regexps, Cache, UrlFilters, get_tracing_mode}

pub to_flags-lt : (m : TracingMode) → to_flags m < 64
unfolding to_flags
to_flags-lt trace_enabled = omega arith
to_flags-lt _ = omega arith

-- Local configuration turns trigger tracing off, and no other flag.
abbrev pub allowed : Bool → Flag → Bool
allowed on trigger_trace = on
allowed on k = true

has-trigger_mask : (k : Flag) → has (mask trigger_trace) k ≡ not (allowed false k)
unfolding has
has-trigger_mask k = ground arith

-- The flags before trigger tracing is looked at.
abbrev base_flags : Bool → Bool → ℕ → ℕ → ℕ
base_flags overrides configured remote local =
    if configured then (if overrides then bit_and remote local else local) else remote

base_flags-lt :
    (overrides configured : Bool) (remote local : ℕ)
    → remote < 64
    → local < 64
    → base_flags overrides configured remote local < 64
base_flags-lt overrides configured remote local h k = ground (arith, bits_closed remote local h k)

merged_flags :
    {F : Type 0} (conf : LocalConfig) (s : Settings F)
    → (merge_local_setting conf s).flags ≡ (
        let f =
          base_flags
            (has_override_flag s)
            conf.sampling_configured
            s.flags
            (to_flags (new_tracing_mode conf.tracing_mode)) in
        if conf.trigger_trace_on then f else and_not f (mask trigger_trace))
unfolding merge_local_setting
merged_flags conf s = ground arith

has-allowed :
    (on : Bool) (f : ℕ) (k : Flag)
    → f < 64
    → has (if on then f else and_not f (mask trigger_trace)) k ≡ (has f k && allowed on k)
has-allowed on f k h =
    ground
      (arith, has-and_not f (mask trigger_trace) k h (mask-lt trigger_trace), has-trigger_mask k)

module _ {F : Type 0} (conf : LocalConfig) (s : Settings F) (small : s.flags < 64) where
  pub merge_local_setting-lt : (merge_local_setting conf s).flags < 64
  merge_local_setting-lt =
      let local = to_flags (new_tracing_mode conf.tracing_mode) in
      let lt = to_flags-lt (new_tracing_mode conf.tracing_mode) in
      let f = base_flags (has_override_flag s) conf.sampling_configured s.flags local in
      let lt' =
        base_flags-lt (has_override_flag s) conf.sampling_configured s.flags local small lt in
      rw (merged_flags conf s)
        (ground (arith, lt', bits_closed f (mask trigger_trace) lt' (mask-lt trigger_trace)))

  -- A flag of the merged settings, while the remote flags are below 64: without local sampling settings the remote one, with
  -- them the local one, and both together if the remote settings may not be overridden; trigger tracing only if it is on locally.
  pub has-merge_local_setting :
      (k : Flag)
      → has (merge_local_setting conf s).flags k ≡ (
          (if conf.sampling_configured
            then has (to_flags (new_tracing_mode conf.tracing_mode)) k
              && (not (has_override_flag s) || has s.flags k)
            else has s.flags k)
          && allowed conf.trigger_trace_on k)
  has-merge_local_setting k =
      let local = to_flags (new_tracing_mode conf.tracing_mode) in
      let lt = to_flags-lt (new_tracing_mode conf.tracing_mode) in
      let f = base_flags (has_override_flag s) conf.sampling_configured s.flags local in
      let lt' =
        base_flags-lt (has_override_flag s) conf.sampling_configured s.flags local small lt in
      let both = has-bit_and s.flags local k small lt in
      rw (merged_flags conf s, has-allowed conf.trigger_trace_on f k lt') (ground (arith, both))

module _ {F : Type 0} (conf : LocalConfig) (s : Settings F) where
  -- The merged rate: the local one if sampling is configured locally, but never above a remote rate that may
  -- not be overridden; the source tells which it is. Nothing else of the settings changes but the flags.
  pub merge_local_setting_rate :
      let m = merge_local_setting conf s in
      let local =
        conf.sampling_configured && (not (has_override_flag s) || ltb_ℤ conf.sample_rate s.value) in
      (m.value ≡ (if local then conf.sample_rate else s.value))
      × (m.source ≡ (if local then source_file else s.source))
      × (m ≡ record s { value = m.value; source = m.source; flags = m.flags })
  unfolding merge_local_setting
  merge_local_setting_rate = ground arith

-- The flags that a URL's tracing mode has.
abbrev pub mode_has : TracingMode → Flag → Bool
mode_has trace_enabled sample_start = true
mode_has trace_enabled sample_through_always = true
mode_has trace_enabled trigger_trace = true
mode_has _ _ = false

has-to_flags : (m : TracingMode) (k : Flag) → has (to_flags m) k ≡ mode_has m k
unfolding has to_flags
has-to_flags m k = ground arith

module _ {F R C : Type 0} ⦃rx : Regexps R⦄ ⦃ca : Cache C⦄ where
  -- What the filter of a URL, which is not empty, makes of merged settings whose remote flags are below 64: the rate stays, and
  -- unless the filter has no mode, the source is the file and the flags are those of its mode; where the remote settings may
  -- not be overridden, they are only those that the remote settings have too. The local switch of trigger traces has no part
  -- in these flags: a filter that enables tracing allows trigger traces that the local configuration turned off.
  pub has-merge_url_setting :
      (now : ℕ) (url : Bytes) (conf : LocalConfig) (s : Settings F) (urls urls' : UrlFilters R C)
      (m : TracingMode) (k : Flag)
      → is_empty url ≡ false
      → get_tracing_mode now url urls ≡ some (m, urls')
      → s.original_flags < 64
      → let merged = merge_local_setting conf s in
        (rate : ℤ) × (flags : ℕ) × (source : SampleSource) × (merge_url_setting now url merged urls
          ≡ some ((rate, flags, source), urls'))
        × (rate ≡ merged.value)
        × (source ≡ (if is_unknown m then merged.source else source_file))
        × (has flags k ≡ (
            if is_unknown m
            then has merged.flags k
            else mode_has m k && (not (has s.original_flags override) || has s.original_flags k)))
  has-merge_url_setting now url conf s urls urls' m k text found small =
      let merged = merge_local_setting conf s in
      let flags =
        if is_unknown m
        then merged.flags
        else if has_override_flag merged
        then bit_and (to_flags m) merged.original_flags
        else to_flags m in
      let kept : merged.original_flags ≡ s.original_flags =
        ap (λ (r : Settings F). r.original_flags) (merge_local_setting_rate conf s).2 in
      (
        merged.value,
        flags,
        (if is_unknown m then merged.source else source_file),
        unfold merge_url_setting in ground arith,
        refl,
        refl,
        unfold has_override_flag in
            ground (
              arith,
              kept,
              has-to_flags m k,
              has-bit_and (to_flags m) s.original_flags k (to_flags-lt m) small,
            ),
      )
