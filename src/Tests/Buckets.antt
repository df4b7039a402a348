-- ===== src/Tests/Buckets.antt =====
-- Token buckets and their counters.
use apm_go.Prelude.{ℕ, ◌+◌, ◌-◌, ◌*◌, ◌≤◌, List, [], ◌∷◌, refl, arith}
use apm_go.Prelude.Int.{ℤ, pos}
use apm_go.Float.Exact.{units, exact, exact-FloatLaws}
use apm_go.Oboe.Bucket.{TokenBucket, new_bucket}
use apm_go.Oboe.Bucket.Bounds.{BucketCall, sets, takes, IsValid, run-new_bucket-IsValid}
use apm_go.Oboe.Bucket.Bounds
use apm_go.Oboe.Bucket.Limit.{granted, allowance, granted_window}

-- Two tokens a second, and room for four.
abbrev pub two_of_four : TokenBucket ℤ
two_of_four = record {
  rate_per_sec = pos (2 * units);
  capacity = pos (4 * units);
  available = pos (4 * units);
  last = 5 * units;
}

two_of_four-IsValid : IsValid two_of_four
two_of_four-IsValid = record {
  rate_nonneg = refl;
  capacity_nonneg = refl;
  available_nonneg = refl;
  within = refl;
}

abbrev bucket_calls : List (BucketCall ℤ)
bucket_calls = sets (pos (2 * units)) (pos (4 * units)) ∷ takes (9 * units) ∷ takes (9 * units) ∷ []

run-new_bucket-IsValid_example : IsValid (Bounds.run bucket_calls new_bucket)
run-new_bucket-IsValid_example =
    run-new_bucket-IsValid exact-FloatLaws bucket_calls (refl, refl, tt)

abbrev ask_times : List ℕ
ask_times = 6 * units ∷ 6 * units ∷ 7 * units ∷ []

granted_window_example :
    granted ask_times two_of_four * (units * units)
    ≤ units * units + allowance (7 * units - 6 * units) two_of_four
granted_window_example =
    granted_window ask_times (6 * units) (7 * units) two_of_four two_of_four-IsValid (omega arith)
      (omega arith, (omega arith, (omega arith, omega arith)))
