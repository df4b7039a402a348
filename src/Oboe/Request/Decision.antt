-- ===== src/Oboe/Request/Decision.antt =====
-- Which requests are traced when no trigger trace starts.
use apm_go.Prelude.{
  ℕ, zero, suc, ◌+◌, ◌<◌, Bool, true, false, not, ◌&&◌, ◌||◌, ◌≡◌, refl, arith, if◌then◌else◌,
}
use Prim.Native.Nat.{min}
use apm_go.Prelude.Int.{ℤ, pos, negsuc}
use apm_go.Float.{Float64}
use apm_go.Metrics.{RateCounts}
use apm_go.Oboe.Bucket.{consume}
use apm_go.Oboe.Bucket.Counts.{count_lem}
use apm_go.Oboe.Flags.{sample_start, sample_through, sample_through_always, has}
use apm_go.Oboe.Settings.{Settings, bucket_setting, put_bucket}
use apm_go.Oboe.TriggerTrace.{
  TriggerTraceMode, not_present, invalid, relaxed, strict, mode_requested, SampleSource,
  source_unset,
}
use apm_go.Oboe.Request.{SwState, should_sample, max_sampling_rate, wish, plain_decision}

-- The rolls below `n` that sample at a rate.
pub sampling_rolls : ℤ → ℕ → ℕ
sampling_rolls rate zero = 0
sampling_rolls rate (suc n) =
    let rest = sampling_rolls rate n in if should_sample rate n then suc rest else rest

sampling_rolls-min : (r n : ℕ) → r < max_sampling_rate → sampling_rolls (pos r) n ≡ min n (r + 1)
unfolding sampling_rolls should_sample
sampling_rolls-min r zero h = omega arith
sampling_rolls-min r (suc n) h = ground (arith, sampling_rolls-min r n h)

-- Of the million rolls, a rate r below a million samples r + 1: one more than it asks for, so that
-- rate 0 samples too.
pub sampling_rolls_off_by_one :
    (r : ℕ) → r < max_sampling_rate → sampling_rolls (pos r) max_sampling_rate ≡ r + 1
sampling_rolls_off_by_one r h = omega (arith, sampling_rolls-min r max_sampling_rate h)

put_bucket-bucket_setting :
    {F : Type 0} (mode : TriggerTraceMode) (s : Settings F)
    → put_bucket mode (bucket_setting mode s) s ≡ s
unfolding put_bucket bucket_setting
put_bucket-bucket_setting not_present s = refl
put_bucket-bucket_setting invalid s = refl
put_bucket-bucket_setting relaxed s = refl
put_bucket-bucket_setting strict s = refl

-- A trace goes on if its sender sampled it, and the flags let it through or the dice do.
abbrev pub goes_on : SwState → ℕ → ℤ → ℕ → Bool
goes_on sw flags rate roll =
    sw.is_valid
    && sw.is_sampled
    && (has flags sample_through_always || has flags sample_through && should_sample rate roll)

abbrev pub starts : ℕ → ℤ → ℕ → Bool
starts flags rate roll = has flags sample_start && should_sample rate roll

-- The decision of the sender is followed, so the values of the rate and of the bucket are unset.
abbrev pub follows : Bool → SwState → ℕ → Bool
follows continued sw flags =
    continued && sw.is_valid && sw.is_sampled && has flags sample_through_always

wish_lem :
    (continued : Bool) (sw : SwState) (flags : ℕ) (rate : ℤ) (roll : ℕ)
    → let w = wish continued sw flags rate roll in
      (w.retval ≡ (if continued then goes_on sw flags rate roll else starts flags rate roll))
      × (w.do_rate_limiting ≡ (not continued && starts flags rate roll))
      × (w.unset_kvs ≡ follows continued sw flags)
unfolding wish
wish_lem true sw flags rate roll = ground arith
wish_lem false sw flags rate roll = ground arith

module _ {F : Type 0} ⦃fl : Float64 F⦄ where
  -- A request that starts no trigger trace: a new one is traced if the flags let it start, the dice sample it
  -- and the bucket has a token, and only then does it take one; a continued one is traced if it goes on, and
  -- takes none. The reported rate and bucket are those in force, or unset where the sender is followed.
  pub plain_decision_lem :
      (now roll : ℕ) (continued : Bool) (mode : TriggerTraceMode) (sw : SwState) (s : Settings F)
      (rates : RateCounts) (rate : ℤ) (flags : ℕ) (source : SampleSource)
      → mode_requested mode && not continued ≡ false
      → let (s', rates', d) =
          plain_decision now roll continued mode sw s rates (rate, flags, source) in
        let (taken, took) = consume now fl.one_f s.bucket in
        (d.trace
          ≡ (if continued then goes_on sw flags rate roll else starts flags rate roll && took))
        × (s'
            ≡ (if not continued && starts flags rate roll then record s { bucket = taken } else s))
        × (d.rate ≡ (if follows continued sw flags then negsuc 0 else rate))
        × (d.source ≡ (if follows continued sw flags then source_unset else source))
        × (d.bucket_cap ≡ (if follows continued sw flags then fl.minus_one else s'.bucket.capacity))
        × (d.bucket_rate
            ≡ (if follows continued sw flags then fl.minus_one else s'.bucket.rate_per_sec))
  unfolding plain_decision put_bucket bucket_setting mode_requested
  plain_decision_lem now roll true mode sw s rates rate flags source h =
      let w = wish true sw flags rate roll in
      ground (
        arith,
        wish_lem true sw flags rate roll,
        count_lem now w.retval true w.do_rate_limiting false (bucket_setting mode s) rates,
        put_bucket-bucket_setting mode s,
      )
  plain_decision_lem now roll false not_present sw s rates rate flags source h =
      let w = wish false sw flags rate roll in
      ground (
        arith,
        wish_lem false sw flags rate roll,
        count_lem now w.retval false w.do_rate_limiting false s.bucket rates,
      )
  plain_decision_lem now roll false invalid sw s rates rate flags source h = cc
  plain_decision_lem now roll false relaxed sw s rates rate flags source h = cc
  plain_decision_lem now roll false strict sw s rates rate flags source h = cc
