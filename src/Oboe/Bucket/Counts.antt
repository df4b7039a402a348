-- ===== src/Oboe/Bucket/Counts.antt =====
-- What `count` answers, and that the counters which it keeps add up.
use apm_go.Prelude.{
  ℕ, suc, ◌+◌, ◌^◌, ◌<◌, List, [], ◌∷◌, ◌≡◌, Bool, true, false, ◌&&◌, ◌||◌, not, arith, length,
  if◌then◌else◌,
}
use apm_go.Float.{Float64}
use apm_go.Metrics.{
  RateCounts, add_one, no_counts, flush, requested_inc, sampled_inc, limited_inc, through_inc,
  trigger_trace_inc, traced_inc,
}
use apm_go.Oboe.Bucket.{TokenBucket, consume, count}

module _ {F : Type 0} ⦃fl : Float64 F⦄ where
  -- The answer, the bucket and every counter after `count`, on all of its branches: the request passes if
  -- it is sampled and, where the rate is limited, a token was taken; only such a sampled request touches
  -- the bucket.
  pub count_lem :
      (now : ℕ) (sampled has_metadata rate_limit is_trigger_trace : Bool) (b : TokenBucket F)
      (c : RateCounts)
      → let (b', c', passed) = count now sampled has_metadata rate_limit is_trigger_trace b c in
        let (taken, took) = consume now fl.one_f b in
        (passed ≡ (sampled && (not rate_limit || took)))
        × (b' ≡ (if sampled && rate_limit then taken else b))
        × (c'.requested ≡ add_one c.requested)
        × (c'.sampled ≡ (if has_metadata then c.sampled else add_one c.sampled))
        × (c'.limited
            ≡ (if sampled && rate_limit && not took then add_one c.limited else c.limited))
        × (c'.traced ≡ (if passed then add_one c.traced else c.traced))
        × (c'.through ≡ (if passed && has_metadata then add_one c.through else c.through))
        × (c'.ttraced ≡ (if passed && is_trigger_trace then add_one c.ttraced else c.ttraced))
  unfolding count requested_inc sampled_inc limited_inc through_inc trigger_trace_inc traced_inc
  count_lem now true true true tt' b c = ground arith
  count_lem now true true false tt' b c = ground arith
  count_lem now true false rate_limit tt' b c = ground arith
  count_lem now false has_metadata rate_limit tt' b c = ground arith

pub record Request : Type 0 where
  pub now : ℕ
  pub sampled : Bool
  pub has_metadata : Bool
  pub rate_limit : Bool
  pub is_trigger_trace : Bool

-- What happens to the counters: requests are counted, and the metrics callback flushes.
pub data CountCall : Type 0 where
  counts : Request → CountCall
  flushes : CountCall

-- What a history leaves: the flushed counters and the answers, in order, and the counters at its end.
pub record Report : Type 0 where
  pub published : List RateCounts
  pub answers : List Bool
  pub rates : RateCounts

module _ {F : Type 0} ⦃fl : Float64 F⦄ where
  abbrev pub count_request :
      Request → TokenBucket F → RateCounts → TokenBucket F × RateCounts × Bool
  count_request r b c = count r.now r.sampled r.has_metadata r.rate_limit r.is_trigger_trace b c

  unfoldable pub run : List CountCall → TokenBucket F → RateCounts → Report
  run [] b c = record { published = []; answers = []; rates = c }
  run (counts r ∷ cs) b c =
      let (b', c', passed) = count_request r b c in
      let rest = run cs b' c' in record rest { answers = passed ∷ rest.answers }
  run (flushes ∷ cs) b c =
      let (c', taken) = flush c in
      let rest = run cs b c' in record rest { published = taken ∷ rest.published }

-- The sum of one counter over the flushed values.
abbrev pub total : (RateCounts → ℕ) → List RateCounts → ℕ
total f [] = 0
total f (c ∷ cs) = f c + total f cs

abbrev pub count_true : List Bool → ℕ
count_true [] = 0
count_true (true ∷ xs) = suc (count_true xs)
count_true (false ∷ xs) = count_true xs

module _ {F : Type 0} ⦃fl : Float64 F⦄ where
  run_conserves :
      (cs : List CountCall) (b : TokenBucket F) (c : RateCounts)
      → c.requested + length cs < 2 ^ 64
      → c.traced + length cs < 2 ^ 64
      → let r = run cs b c in
        (total (λ t. t.requested) r.published + r.rates.requested ≡ c.requested + length r.answers)
        × (total (λ t. t.traced) r.published + r.rates.traced ≡ c.traced + count_true r.answers)
  unfolding run flush
  run_conserves [] b c h k = omega arith
  run_conserves (counts r ∷ cs) b c h k =
      let (b', c', passed) = count_request r b c in
      let l = count_lem r.now r.sampled r.has_metadata r.rate_limit r.is_trigger_trace b c in
      ground (arith, l.2, l.5, run_conserves cs b' c')
  run_conserves (flushes ∷ cs) b c h k = ground (arith, run_conserves cs b (flush c).0)

  -- However requests and flushes alternate, no request is lost or counted twice: in a history of fewer
  -- than 2^64 calls from zero counters, the flushed and the remaining values of the request counter add up
  -- to the number of requests, and those of the trace counter to the number of requests that passed.
  pub run-no_counts_conserves :
      (cs : List CountCall) (b : TokenBucket F)
      → length cs < 2 ^ 64
      → let r = run cs b no_counts in
        (total (λ t. t.requested) r.published + r.rates.requested ≡ length r.answers)
        × (total (λ t. t.traced) r.published + r.rates.traced ≡ count_true r.answers)
  run-no_counts_conserves cs b h =
      let p = run_conserves cs b no_counts (omega arith) (omega arith) in
      (omega (arith, p.0), omega (arith, p.1))
