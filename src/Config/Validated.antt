-- ===== src/Config/Validated.antt =====
-- What validation accepts and what it leaves: a configuration with each field in its range.
use apm_go.Prelude.{
  Bool, true, false, not, ◌&&◌, is_empty, [], some, ◌≡◌, ◌⊎◌, refl, arith, codes, bytes_eq,
  trim_space, if◌then◌else◌,
}
use apm_go.Prelude.Decimal.{parse_int}
use apm_go.Prelude.Int.{ℤ, pos, ◌≤ℤ◌}
use apm_go.Float.{Float64}
use apm_go.Log.{to_log_level}
use apm_go.Config.{SamplingConfig, is_valid_tracing_mode, validate, local_config}
use apm_go.Config.Fields.{Config, default_collector}
use apm_go.Config.Host.{is_valid_host}
use apm_go.Config.Validate.{
  is_valid_ec2_metadata_timeout, is_valid_service_key, validate_address, validate_buckets,
  validate_config,
}
use apm_go.Config.Values.{FloatText, FloatTextLaws, int_value}
use apm_go.Oboe.Life.Invariant.{RateInRange}

default_collector-valid : is_valid_host default_collector ≡ true
unfolding is_valid_host bytes_eq
default_collector-valid = refl

default_debug_level-valid : (to_log_level (codes "warn")).1 ≡ true
unfolding to_log_level parse_int bytes_eq trim_space
default_debug_level-valid = refl

default_timeout : (int_value (codes "1000")).0 ≡ pos 1000
unfolding int_value parse_int trim_space
default_timeout = refl

timeout_in_range :
    (t : ℤ)
    → let valid = if is_valid_ec2_metadata_timeout t then t else (int_value (codes "1000")).0 in
      (pos 0 ≤ℤ valid) × (valid ≤ℤ pos 3000)
timeout_in_range t = rw default_timeout (unfold is_valid_ec2_metadata_timeout in ground arith)

validate_sampling :
    (s : SamplingConfig) (trigger_trace : Bool)
    → RateInRange (local_config trigger_trace (validate s))
      × (is_valid_tracing_mode (validate s).tracing_mode ≡ true)
unfolding validate local_config bytes_eq
validate_sampling s trigger_trace = ground arith

module _ {F : Type 0} ⦃fl : Float64 F⦄ ⦃ft : FloatText F⦄ where
  pub record IsValidConfig (lambda : Bool) (c : Config F) : Type 0 where
    pub collector : is_valid_host c.collector ≡ true
    pub timeout : (pos 0 ≤ℤ c.ec2_metadata_timeout) × (c.ec2_metadata_timeout ≤ℤ pos 3000)
    pub transaction_name : (lambda ≡ true) ⊎ (c.transaction_name ≡ [])
    pub service_key :
        (lambda ≡ true) ⊎ ((c.service_key ≡ []) ⊎ (is_valid_service_key c.service_key ≡ true))
    pub sampling :
        (s : SamplingConfig) × (c.sampling ≡ some s)
        × RateInRange (local_config c.trigger_trace s)
        × (is_valid_tracing_mode s.tracing_mode ≡ true)
    pub debug_level : (to_log_level c.debug_level).1 ≡ true
    pub cap :
        (fl.le_f (ft.of_nat 0) c.token_bucket_cap ≡ true)
        × (fl.le_f c.token_bucket_cap (ft.of_nat 8) ≡ true)
    pub rate :
        (fl.le_f (ft.of_nat 0) c.token_bucket_rate ≡ true)
        × (fl.le_f c.token_bucket_rate (ft.of_nat 4) ≡ true)

  -- The service key that validation rejects.
  abbrev pub bad_key : Bool → Config F → Bool
  bad_key lambda c =
      not lambda
      && not (is_empty c.service_key)
      && not (is_valid_service_key (validate_address lambda c).service_key)

  -- What validation leaves of a configuration with an acceptable key.
  abbrev pub validated : Bool → Config F → SamplingConfig → Config F
  validated lambda c s =
      validate_buckets (record (validate_address lambda c) { sampling = some (validate s) })

  pub rejected_key :
      (lambda : Bool) (c : Config F)
      → bad_key lambda c ≡ true
      → validate_config lambda c ≡ some (validate_address lambda c, false)
  unfolding validate_config
  rejected_key lambda c bad = rw (validate_config, bad) refl

  pub accepted_key :
      (lambda : Bool) (c : Config F) (s : SamplingConfig)
      → bad_key lambda c ≡ false
      → c.sampling ≡ some s
      → validate_config lambda c ≡ some (validated lambda c s, true)
  unfolding validate_config
  accepted_key lambda c s good h = rw (validate_config, good, h) refl

  module _ (laws : FloatTextLaws F) where
    buckets_in_range :
        (c : Config F)
        → (fl.le_f (ft.of_nat 0) (validate_buckets c).token_bucket_cap ≡ true)
          × (fl.le_f (validate_buckets c).token_bucket_cap (ft.of_nat 8) ≡ true)
          × (fl.le_f (ft.of_nat 0) (validate_buckets c).token_bucket_rate ≡ true)
          × (fl.le_f (validate_buckets c).token_bucket_rate (ft.of_nat 4) ≡ true)
    unfolding validate_buckets
    buckets_in_range c = ground (
      arith,
      laws.le-of_nat 0 0 refl,
      laws.le-of_nat 0 8 refl,
      laws.le-of_nat 8 8 refl,
      laws.le-of_nat 0 4 refl,
      laws.le-of_nat 4 4 refl,
    )

    validated-IsValidConfig :
        (lambda : Bool) (c : Config F) (s : SamplingConfig)
        → (lambda ≡ true)
          ⊎ ((c.service_key ≡ [])
              ⊎ (is_valid_service_key (validate_address lambda c).service_key ≡ true))
        → IsValidConfig lambda (validated lambda c s)
    validated-IsValidConfig lambda c s h =
        let (in_range, mode) = validate_sampling s c.trigger_trace in
        let (cap_lo, cap_hi, rate_lo, rate_hi) = buckets_in_range (validate_address lambda c) in
        unfold validate_address validate_buckets in
        record {
          collector = ground (arith, default_collector-valid);
          timeout = timeout_in_range c.ec2_metadata_timeout;
          transaction_name = ground arith;
          service_key = ground (arith, h);
          sampling = (validate s, refl, in_range, mode);
          debug_level = ground (arith, default_debug_level-valid);
          cap = (cap_lo, cap_hi);
          rate = (rate_lo, rate_hi);
        }

    pub accepted-IsValidConfig :
        (lambda : Bool) (c : Config F) (s : SamplingConfig)
        → bad_key lambda c ≡ false
        → IsValidConfig lambda (validated lambda c s)
    accepted-IsValidConfig lambda c s good = validated-IsValidConfig lambda c s (ground arith)
