-- ===== src/Oboe/Settings.antt =====
-- internal/oboe/settings.go: the settings of the remote server merged with the local ones, and with
-- those of a URL. The getters of the configuration enter as a record of their results.
pub mod Merge
use apm_go.Prelude.{
  ℕ, bit_and, Bool, true, false, not, Option, none, some, Bytes, is_empty, ◌&&◌, ◌>>=◌,
  if◌then◌else◌, [],
}
use apm_go.Prelude.Int.{ℤ, pos, ltb_ℤ}
use apm_go.Float.{Float64}
use apm_go.Oboe.Bucket.{TokenBucket, new_bucket}
use apm_go.Oboe.Flags.{
  Flag, override, trigger_trace, mask, has, and_not, TracingMode, new_tracing_mode, is_unknown,
  to_flags,
}
use apm_go.Oboe.Urls.{Regexps, Cache, UrlFilters, get_tracing_mode}
use apm_go.Oboe.TriggerTrace.{
  TriggerTraceMode, not_present, invalid, relaxed, strict, SampleSource, source_unset, source_file,
}

pub record LocalConfig : Type 0 where
  pub sampling_configured : Bool
  pub sample_rate : ℤ
  pub tracing_mode : Bytes
  pub trigger_trace_on : Bool

-- The zero SampleSource is SampleSourceNone; newOboeSettings leaves the other fields zero too.
pub record Settings (F : Type 0) : Type 0 where
  pub timestamp : ℕ
  pub flags : ℕ
  pub original_flags : ℕ
  pub value : ℤ
  pub source : SampleSource
  pub ttl : ℤ
  pub trigger_token : Bytes
  pub bucket : TokenBucket F
  pub relaxed_bucket : TokenBucket F
  pub strict_bucket : TokenBucket F

module _ {F : Type 0} where
  unfoldable pub has_override_flag : Settings F → Bool
  unfolding has
  has_override_flag s = has s.original_flags override

  unfoldable pub merge_local_setting : LocalConfig → Settings F → Settings F
  unfolding has_override_flag
  merge_local_setting conf s =
      let local = to_flags (new_tracing_mode conf.tracing_mode) in
      let merged : Settings F =
        (if has_override_flag s && conf.sampling_configured
          then (let lower : Settings F =
                (if ltb_ℤ conf.sample_rate s.value
                  then record s { value = conf.sample_rate; source = source_file }
                  else s) in
              record lower { flags = bit_and lower.flags local })
          else if conf.sampling_configured
          then record s { value = conf.sample_rate; flags = local; source = source_file }
          else s) in
      if not conf.trigger_trace_on
      then record merged { flags = and_not merged.flags (mask trigger_trace) }
      else merged

  -- getTokenBucketSetting: the bucket of a mode.
  unfoldable pub bucket_setting : TriggerTraceMode → Settings F → TokenBucket F
  bucket_setting relaxed s = s.relaxed_bucket
  bucket_setting strict s = s.strict_bucket
  bucket_setting not_present s = s.bucket
  bucket_setting invalid s = s.bucket

  -- The settings after a bucket, which they point to, has changed.
  unfoldable pub put_bucket : TriggerTraceMode → TokenBucket F → Settings F → Settings F
  put_bucket relaxed b s = record s { relaxed_bucket = b }
  put_bucket strict b s = record s { strict_bucket = b }
  put_bucket not_present b s = record s { bucket = b }
  put_bucket invalid b s = record s { bucket = b }

module _ {F R C : Type 0} ⦃rx : Regexps R⦄ ⦃ca : Cache C⦄ where
  -- The rate, the flags and the source for a request, and the filters with their cache afterwards.
  unfoldable pub merge_url_setting :
      ℕ → Bytes → Settings F → UrlFilters R C → Option ((ℤ × ℕ × SampleSource) × UrlFilters R C)
  unfolding has_override_flag
  merge_url_setting now url s urls =
      if is_empty url then some ((s.value, s.flags, s.source), urls) else do
        (mode, urls') ← get_tracing_mode now url urls
        some (
          (if is_unknown mode then (s.value, s.flags, s.source) else (
            s.value,
            (if has_override_flag s
                then bit_and (to_flags mode) s.original_flags
                else to_flags mode),
            source_file,
          )),
          urls',
        )
