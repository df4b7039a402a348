-- ===== src/Oboe/Bucket.antt =====
-- internal/oboe/token_bucket.go. A call holds the bucket's lock throughout, so a method is a function
-- from the bucket to the bucket; the time of the call is an argument.
pub mod Bounds
pub mod Counts
pub mod Limit
use apm_go.Prelude.{ℕ, Bool, true, false, not, if◌then◌else◌}
use apm_go.Prelude.Int.{ℤ, pos, leb_ℤ}
use apm_go.Float.{Float64}
use apm_go.Metrics.{
  RateCounts, requested_inc, sampled_inc, limited_inc, through_inc, trigger_trace_inc, traced_inc,
}
use apm_go.Oboe.Time.{sub_time}

pub record TokenBucket (F : Type 0) : Type 0 where
  pub rate_per_sec : F
  pub capacity : F
  pub available : F
  pub last : ℕ

-- The counters that a request which passes the bucket adds to.
unfoldable pub count_traced : Bool → Bool → RateCounts → RateCounts
count_traced has_metadata is_trigger_trace c =
    let c1 = if has_metadata then through_inc c else c in
    let c2 = if is_trigger_trace then trigger_trace_inc c1 else c1 in traced_inc c2

module _ {F : Type 0} ⦃fl : Float64 F⦄ where
  open fl use {zero_f, one_f, lt_f, le_f, add_f, sub_f, mul_f, min_f, seconds}

  -- &tokenBucket{}
  unfoldable pub new_bucket : TokenBucket F
  new_bucket = record { rate_per_sec = zero_f; capacity = zero_f; available = zero_f; last = 0 }

  unfoldable pub set_rate_cap : F → F → TokenBucket F → TokenBucket F
  set_rate_cap rate cap b = record {
    rate_per_sec = rate;
    capacity = cap;
    available = if lt_f cap b.available then cap else b.available;
    last = b.last;
  }

  unfoldable pub update : ℕ → TokenBucket F → TokenBucket F
  update now b =
      if lt_f b.available b.capacity
      then (let delta = sub_time now b.last in
          if leb_ℤ delta (pos 0)
          then record b { last = now }
          else let new_tokens = mul_f b.rate_per_sec (seconds delta) in
            record b { last = now; available = min_f b.capacity (add_f b.available new_tokens) })
      else b

  unfoldable pub consume : ℕ → F → TokenBucket F → TokenBucket F × Bool
  consume now size b =
      let u = update now b in
      if le_f size u.available
      then (record u { available = sub_f u.available size }, true)
      else (u, false)

  unfoldable pub count :
      ℕ → Bool → Bool → Bool → Bool → TokenBucket F → RateCounts → TokenBucket F × RateCounts × Bool
  unfolding count_traced
  count now sampled has_metadata rate_limit is_trigger_trace b c =
      let c0 = requested_inc c in
      let c1 = if has_metadata then c0 else sampled_inc c0 in
      if not sampled
      then (b, c1, sampled)
      else if rate_limit
      then (let (b', took) = consume now one_f b in
          if not took
          then (b', limited_inc c1, false)
          else (b', count_traced has_metadata is_trigger_trace c1, sampled))
      else (b, count_traced has_metadata is_trigger_trace c1, sampled)
