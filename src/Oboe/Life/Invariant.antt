-- ===== src/Oboe/Life/Invariant.antt =====
-- What holds of the settings through every history of updates, requests, expiry checks and flushes.
use apm_go.Prelude.{
  ℕ, ◌<◌, Bool, true, false, not, ◌&&◌, List, [], ◌∷◌, Option, none, some, Bytes, ◌≡◌, sym, subst,
  inl, inr, arith, Bool-cases, Option-cases, if◌then◌else◌, ◌>>=◌,
}
use apm_go.Prelude.Int.{ℤ, pos, ◌≤ℤ◌}
use apm_go.Float.{Float64, FloatLaws}
use apm_go.Metrics.{RateCounts}
use apm_go.Oboe.Bucket.{TokenBucket, consume, new_bucket}
use apm_go.Oboe.Bucket.Bounds.{new_bucket-IsValid, set_rate_cap-IsValid, consume-IsValid}
use apm_go.Oboe.Bucket.Bounds
use apm_go.Oboe.Flags.{has, trigger_trace}
use apm_go.Oboe.Flags.Names.{has-flag_string_to_bin}
use apm_go.Oboe.Settings.{
  LocalConfig, Settings, bucket_setting, put_bucket, merge_local_setting, merge_url_setting,
}
use apm_go.Oboe.Settings.Merge.{merge_local_setting-lt, merge_local_setting_rate}
use apm_go.Oboe.Request.{Oboe, SwState, max_sampling_rate, decide, sample_request, is_invalid}
use apm_go.Oboe.Request.Decision.{plain_decision_lem}
use apm_go.Oboe.Request.Trigger.{trigger_decision_lem}
use apm_go.Oboe.TriggerTrace.{
  TriggerTraceMode, not_present, invalid, relaxed, strict, mode_requested, SampleSource,
}
use apm_go.Oboe.Urls.{Regexps, Cache, UrlFilters}
use apm_go.Oboe.Life.{
  SettingsUpdateArgs, adjust_sample_rate, new_oboe_settings, updated_settings, update_setting,
  check_settings_timeout, remove_setting, flush_rate_counts,
}
use apm_go.Oboe.Life.Calls.{
  Call, updates, checks, removes, flushes, requests, step, run, CallNonneg, AllNonneg, ArgsNonneg,
}

module _ {F : Type 0} ⦃fl : Float64 F⦄ where
  pub record SettingsValid (s : Settings F) : Type 0 where
    pub flags_small : s.flags < 64
    pub value_low : pos 0 ≤ℤ s.value
    pub value_high : s.value ≤ℤ pos max_sampling_rate
    pub bucket_valid : Bounds.IsValid s.bucket
    pub relaxed_valid : Bounds.IsValid s.relaxed_bucket
    pub strict_valid : Bounds.IsValid s.strict_bucket

-- The local sample rate lies in its range.
abbrev pub RateInRange : LocalConfig → Type 0
RateInRange conf = (pos 0 ≤ℤ conf.sample_rate) × (conf.sample_rate ≤ℤ pos max_sampling_rate)

adjust_sample_rate_bounds :
    (rate : ℤ)
    → (pos 0 ≤ℤ adjust_sample_rate rate) × (adjust_sample_rate rate ≤ℤ pos max_sampling_rate)
unfolding adjust_sample_rate
adjust_sample_rate_bounds rate = ground arith

module _ {F : Type 0} ⦃fl : Float64 F⦄ (laws : FloatLaws F) where
  merged-SettingsValid :
      (conf : LocalConfig) (s : Settings F)
      → RateInRange conf
      → SettingsValid s
      → SettingsValid (merge_local_setting conf s)
  merged-SettingsValid conf s r v =
      let small = merge_local_setting-lt conf s v.flags_small in
      let m = merge_local_setting_rate conf s in ground (arith, small, m)

  updated-SettingsValid :
      (conf : LocalConfig) (now : ℕ) (arg : SettingsUpdateArgs F)
      → RateInRange conf
      → ArgsNonneg arg
      → SettingsValid (updated_settings conf now arg)
  unfolding updated_settings new_oboe_settings
  updated-SettingsValid conf now arg r a =
      let fresh = new_bucket-IsValid laws in
      merged-SettingsValid conf _ r (record {
        flags_small = (has-flag_string_to_bin arg.flags).0;
        value_low = (adjust_sample_rate_bounds arg.value).0;
        value_high = (adjust_sample_rate_bounds arg.value).1;
        bucket_valid =
            set_rate_cap-IsValid laws arg.bucket_rate arg.bucket_capacity new_bucket a.rate
              a.capacity fresh;
        relaxed_valid =
            set_rate_cap-IsValid laws arg.trigger_relaxed_bucket_rate
              arg.trigger_relaxed_bucket_capacity new_bucket a.relaxed_rate a.relaxed_capacity
              fresh;
        strict_valid =
            set_rate_cap-IsValid laws arg.trigger_strict_bucket_rate
              arg.trigger_strict_bucket_capacity new_bucket a.strict_rate a.strict_capacity fresh;
      })

  bucket_setting-IsValid :
      (mode : TriggerTraceMode) (s : Settings F)
      → SettingsValid s
      → Bounds.IsValid (bucket_setting mode s)
  unfolding bucket_setting
  bucket_setting-IsValid not_present s v = v.bucket_valid
  bucket_setting-IsValid invalid s v = v.bucket_valid
  bucket_setting-IsValid relaxed s v = v.relaxed_valid
  bucket_setting-IsValid strict s v = v.strict_valid

  put_bucket-SettingsValid :
      (mode : TriggerTraceMode) (b : TokenBucket F) (s : Settings F)
      → SettingsValid s
      → Bounds.IsValid b
      → SettingsValid (put_bucket mode b s)
  unfolding put_bucket
  put_bucket-SettingsValid not_present b s v w = ground arith
  put_bucket-SettingsValid invalid b s v w = ground arith
  put_bucket-SettingsValid relaxed b s v w = ground arith
  put_bucket-SettingsValid strict b s v w = ground arith

  choose-IsValid :
      (take : Bool) (now : ℕ) (b : TokenBucket F)
      → Bounds.IsValid b
      → Bounds.IsValid (if take then (consume now fl.one_f b).0 else b)
  choose-IsValid true now b w = consume-IsValid laws now b w
  choose-IsValid false now b w = w

  decide-SettingsValid :
      (now roll : ℕ) (continued : Bool) (mode : TriggerTraceMode) (sw : SwState) (s : Settings F)
      (rates : RateCounts) (m : ℤ × ℕ × SampleSource)
      → SettingsValid s
      → SettingsValid (decide now roll continued mode sw s rates m).0
  unfolding decide
  decide-SettingsValid now roll continued mode sw s rates (rate, flags, source) v =
      elim (Bool-cases (mode_requested mode && not continued)) [
        | inl trigger ↦
            let b = bucket_setting mode s in
            let asks = not (is_invalid mode) && has flags trigger_trace in
            let l = trigger_decision_lem now mode s rates flags (ground arith) in
            let w = choose-IsValid asks now b (bucket_setting-IsValid mode s v) in
            rw (trigger, decide)
              (subst SettingsValid (sym l.2) (put_bucket-SettingsValid mode _ s v w))
        | inr plain ↦
            let l = plain_decision_lem now roll continued mode sw s rates rate flags source plain in
            let w = consume-IsValid laws now s.bucket v.bucket_valid in
            rw (plain, decide) (subst SettingsValid (sym l.1) (ground arith))
      ]

module _ {F R C : Type 0} ⦃fl : Float64 F⦄ ⦃rx : Regexps R⦄ ⦃ca : Cache C⦄ where
  -- The settings, where there are any, are valid.
  abbrev pub IsValid : Oboe F R C → Type 0
  IsValid o = (s : Settings F) → o.settings ≡ some s → SettingsValid s

  module _ (laws : FloatLaws F) (conf : LocalConfig) (range : RateInRange conf) where
    stored-IsValid :
        (o : Oboe F R C) (s : Settings F) → o.settings ≡ some s → SettingsValid s → IsValid o
    stored-IsValid o s e v s' e' = let same : s ≡ s' = cc in subst SettingsValid same v

    pub emptied-IsValid : (o : Oboe F R C) → o.settings ≡ none → IsValid o
    emptied-IsValid o e s' e' = cc

    decided-IsValid :
        (now roll : ℕ) (continued : Bool) (mode : TriggerTraceMode) (sw : SwState) (s : Settings F)
        (rates : RateCounts) (x : Option ((ℤ × ℕ × SampleSource) × UrlFilters R C))
        (o' : Oboe F R C)
        → SettingsValid s
        → (x >>= λ (m, urls).
            let out = decide now roll continued mode sw s rates m in
            some (record { settings = some out.0; rates = out.1; urls = urls }))
          ≡ some o'
        → IsValid o'
    decided-IsValid now roll continued mode sw s rates none o' w h = cc
    decided-IsValid now roll continued mode sw s rates (some (m, urls)) o' w h =
        stored-IsValid o' (decide now roll continued mode sw s rates m).0 (ground arith)
          (decide-SettingsValid laws now roll continued mode sw s rates m w)

    request-IsValid :
        (now roll : ℕ) (continued : Bool) (url : Bytes) (mode : TriggerTraceMode) (sw : SwState)
        (o o' : Oboe F R C)
        → step conf (requests now roll continued url mode sw) o ≡ some o'
        → IsValid o
        → IsValid o'
    unfolding step sample_request
    request-IsValid now roll continued url mode sw o o' h v = elim (Option-cases o.settings) [
      | inl e ↦ emptied-IsValid o' (ground arith)
      | inr (s, e) ↦
          decided-IsValid now roll continued mode sw s o.rates (merge_url_setting now url s o.urls)
            o' (v s e) (ground arith)
    ]

    pub step-IsValid :
        (c : Call F) (o o' : Oboe F R C)
        → CallNonneg c
        → step conf c o ≡ some o'
        → IsValid o
        → IsValid o'
    unfolding step
    step-IsValid (updates now arg) o o' a h v =
        stored-IsValid o' (updated_settings conf now arg) (unfold update_setting in ground arith)
          (updated-SettingsValid laws conf now arg range a)
    step-IsValid (checks now) o o' a h v =
        λ s' e'. v s' (unfold check_settings_timeout in ground arith)
    step-IsValid removes o o' a h v = emptied-IsValid o' (unfold remove_setting in ground arith)
    step-IsValid flushes o o' a h v = λ s' e'. v s' (unfold flush_rate_counts in ground arith)
    step-IsValid (requests now roll continued url mode sw) o o' a h v =
        request-IsValid now roll continued url mode sw o o' h v

    run-IsValid_from :
        (cs : List (Call F)) (o o' : Oboe F R C)
        → AllNonneg cs
        → run conf cs o ≡ some o'
        → IsValid o
        → IsValid o'
    unfolding run
    run-IsValid_from [] o o' a h v = λ s' e'. v s' (ground arith)
    run-IsValid_from (c ∷ cs) o o' a h v = elim (Option-cases (step conf c o)) [
      | inl e ↦ cc
      | inr (o1, e) ↦ run-IsValid_from cs o1 o' a.1 (rw (e, run) at h) (step-IsValid c o o1 a.0 e v)
    ]

    -- Under a local configuration whose sample rate lies between 0 and 1000000, and for any float type with the laws of IEEE 754:
    -- through every history that does not panic, of updates with nonnegative numbers, requests, expiry checks, removals and
    -- flushes, from an Oboe with no settings, the settings in force have a rate between 0 and 1000000, flags below 64, and
    -- three buckets that hold between 0 and their capacities.
    pub run-SettingsValid :
        (cs : List (Call F)) (o o' : Oboe F R C) (s : Settings F)
        → o.settings ≡ none
        → AllNonneg cs
        → run conf cs o ≡ some o'
        → o'.settings ≡ some s
        → SettingsValid s
    run-SettingsValid cs o o' s e a h stored =
        run-IsValid_from cs o o' a h (emptied-IsValid o e) s stored
