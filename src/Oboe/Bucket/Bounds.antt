-- ===== src/Oboe/Bucket/Bounds.antt =====
-- The bucket never holds more than its capacity, nor less than nothing.
use apm_go.Prelude.{ℕ, List, [], ◌∷◌, ◌≡◌, true, false, arith}
use apm_go.Prelude.Int.{ℤ, pos, leb_ℤ, ltb_ℤ}
use apm_go.Float.{Float64, FloatLaws, IsNonneg}
use apm_go.Oboe.Time.{sub_time}
use apm_go.Oboe.Bucket.{TokenBucket, new_bucket, set_rate_cap, update, consume}

lt_of_not_le : (d : ℤ) → leb_ℤ d (pos 0) ≡ false → ltb_ℤ (pos 0) d ≡ true
lt_of_not_le d h = ground arith

-- What the package does with a bucket that it made: new settings, and one token at a time.
pub data BucketCall (F : Type 0) : Type 0 where
  sets : F → F → BucketCall F
  takes : ℕ → BucketCall F

module _ {F : Type 0} ⦃fl : Float64 F⦄ where
  pub run : List (BucketCall F) → TokenBucket F → TokenBucket F
  run [] b = b
  run (sets rate cap ∷ cs) b = run cs (set_rate_cap rate cap b)
  run (takes now ∷ cs) b = run cs (consume now fl.one_f b).0

  -- Every rate and capacity that the calls set is a number of at least 0.
  abbrev pub SetsNonneg : List (BucketCall F) → Type 0
  SetsNonneg [] = Unit {0}
  SetsNonneg (sets rate cap ∷ cs) = IsNonneg rate × IsNonneg cap × SetsNonneg cs
  SetsNonneg (takes now ∷ cs) = SetsNonneg cs

  pub record IsValid (b : TokenBucket F) : Type 0 where
    pub rate_nonneg : IsNonneg b.rate_per_sec
    pub capacity_nonneg : IsNonneg b.capacity
    pub available_nonneg : IsNonneg b.available
    pub within : fl.le_f b.available b.capacity ≡ true

  module _ (laws : FloatLaws F) where
    pub new_bucket-IsValid : IsValid new_bucket
    unfolding new_bucket
    new_bucket-IsValid = record {
      rate_nonneg = laws.zero-IsNumber;
      capacity_nonneg = laws.zero-IsNumber;
      available_nonneg = laws.zero-IsNumber;
      within = laws.zero-IsNumber;
    }

    pub set_rate_cap-IsValid :
        (rate cap : F) (b : TokenBucket F)
        → IsNonneg rate
        → IsNonneg cap
        → IsValid b
        → IsValid (set_rate_cap rate cap b)
    unfolding set_rate_cap
    set_rate_cap-IsValid rate cap b hr hc v =
        let number = (laws.le-IsNumber _ _ hc).1 in
        let held = (laws.le-IsNumber _ _ v.within).0 in
        let fits = laws.le_of_not_lt b.available cap held number in ground arith

    pub update-IsValid : (now : ℕ) (b : TokenBucket F) → IsValid b → IsValid (update now b)
    unfolding update
    update-IsValid now b v =
        let number = (laws.le-IsNumber _ _ v.capacity_nonneg).1 in
        let gain = laws.mul-seconds_nonneg b.rate_per_sec (sub_time now b.last) v.rate_nonneg in
        let more = fl.mul_f b.rate_per_sec (fl.seconds (sub_time now b.last)) in
        let sum = fl.add_f b.available more in
        let total = laws.add_nonneg b.available more v.available_nonneg in
        ground (
          arith,
          lt_of_not_le (sub_time now b.last),
          laws.min_nonneg b.capacity sum v.capacity_nonneg,
          laws.min-le_left b.capacity sum number,
          laws.le-IsNumber fl.zero_f sum,
        )

    pub consume-IsValid :
        (now : ℕ) (b : TokenBucket F) → IsValid b → IsValid (consume now fl.one_f b).0
    unfolding consume
    consume-IsValid now b v =
        let u = update now b in
        let w = update-IsValid now b v in
        ground (
          arith,
          w,
          laws.sub-one_nonneg u.available,
          laws.sub-one-le u.available,
          laws.le_trans_f (fl.sub_f u.available fl.one_f) u.available u.capacity,
        )

    run-IsValid :
        (cs : List (BucketCall F)) (b : TokenBucket F)
        → SetsNonneg cs
        → IsValid b
        → IsValid (run cs b)
    unfolding run
    run-IsValid [] b h v = v
    run-IsValid (sets rate cap ∷ cs) b h v =
        run-IsValid cs (set_rate_cap rate cap b) h.2 (set_rate_cap-IsValid rate cap b h.0 h.1 v)
    run-IsValid (takes now ∷ cs) b h v =
        run-IsValid cs (consume now fl.one_f b).0 h (consume-IsValid now b v)

    -- Whatever nonnegative rates and capacities a new bucket is given, and whenever tokens are asked
    -- of it, it holds at least 0 and at most its capacity.
    pub run-new_bucket-IsValid :
        (cs : List (BucketCall F)) → SetsNonneg cs → IsValid (run cs new_bucket)
    run-new_bucket-IsValid cs h = run-IsValid cs new_bucket h new_bucket-IsValid
