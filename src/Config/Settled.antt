-- ===== src/Config/Settled.antt =====
-- Validation is settled after one time.
use apm_go.Prelude.{
  Bool, true, false, [], some, ◌≡◌, inl, inr, refl, arith, Bool-cases, cut, ap, subst, ◌∙◌,
}
use apm_go.Float.{Float64}
use apm_go.Config.{SamplingConfig, is_valid_tracing_mode, validate, local_config, to_service_key}
use apm_go.Config.Keys.{to_service_key_twice}
use apm_go.Config.Fields.{Config}
use apm_go.Config.Validated.{
  IsValidConfig, bad_key, validated, rejected_key, accepted_key, accepted-IsValidConfig,
}
use apm_go.Config.Validate.{
  is_valid_ec2_metadata_timeout, is_valid_token_bucket_cap, is_valid_token_bucket_rate,
  validate_address, validate_buckets, validate_config,
}
use apm_go.Config.Values.{FloatText, FloatTextLaws}
use apm_go.Oboe.Life.Invariant.{RateInRange}

to_service_key_nil : to_service_key [] ≡ []
unfolding to_service_key cut
to_service_key_nil = refl

validate_valid :
    (s : SamplingConfig) (trigger_trace : Bool)
    → RateInRange (local_config trigger_trace s)
    → is_valid_tracing_mode s.tracing_mode ≡ true
    → validate s ≡ s
unfolding validate local_config
validate_valid s trigger_trace r m = ground arith

module _ {F : Type 0} ⦃fl : Float64 F⦄ ⦃ft : FloatText F⦄ where
  address_valid :
      (lambda : Bool) (c : Config F)
      → IsValidConfig lambda c
      → (lambda ≡ false → to_service_key c.service_key ≡ c.service_key)
      → validate_address lambda c ≡ c
  unfolding validate_address is_valid_ec2_metadata_timeout
  address_valid lambda c v k = ground (arith, v.collector, v.timeout, v.transaction_name)

  buckets_valid : (lambda : Bool) (c : Config F) → IsValidConfig lambda c → validate_buckets c ≡ c
  unfolding validate_buckets is_valid_token_bucket_cap is_valid_token_bucket_rate
  buckets_valid lambda c v = ground (arith, v.debug_level, v.cap, v.rate)

  sampling_valid :
      (c : Config F) (s : SamplingConfig)
      → c.sampling ≡ some s
      → validate s ≡ s
      → record c { sampling = some (validate s) } ≡ c
  sampling_valid c s h e = ground arith

  service_key_clean :
      (lambda : Bool) (c : Config F)
      → lambda ≡ false
      → to_service_key (validate_address lambda c).service_key
        ≡ (validate_address lambda c).service_key
  unfolding validate_address
  service_key_clean lambda c l =
      ground (arith, to_service_key_twice c.service_key, to_service_key_nil)

  -- A valid configuration with a clean key passes validation unchanged.
  validate_config_valid :
      (lambda : Bool) (c : Config F)
      → IsValidConfig lambda c
      → (lambda ≡ false → to_service_key c.service_key ≡ c.service_key)
      → validate_config lambda c ≡ some (c, true)
  validate_config_valid lambda c v k =
      let (s, h, r, m) = v.sampling in
      let a = address_valid lambda c v k in
      let same = sampling_valid c s h (validate_valid s c.trigger_trace r m) in
      let good : bad_key lambda c ≡ false = rw a (ground (arith, v.service_key)) in
      accepted_key lambda c s good h
      ∙ ap (λ d. some (validate_buckets (record d { sampling = some (validate s) }), true)) a
      ∙ ap (λ d. some (validate_buckets d, true)) same
      ∙ ap (λ d. some (d, true)) (buckets_valid lambda c v)

  module _ (laws : FloatTextLaws F) where
    -- What validation accepts and leaves, it accepts again and leaves as it is.
    pub validate_config_twice :
        (lambda : Bool) (c d : Config F) (s : SamplingConfig)
        → c.sampling ≡ some s
        → validate_config lambda c ≡ some (d, true)
        → validate_config lambda d ≡ some (d, true)
    validate_config_twice lambda c d s h e = elim (Bool-cases (bad_key lambda c)) [
      | inl bad ↦ let e' = rejected_key lambda c bad in absurd cc
      | inr good ↦
          let e' = accepted_key lambda c s good h in
          let same : validated lambda c s ≡ d = cc in
          subst (λ d. validate_config lambda d ≡ some (d, true)) same
            (validate_config_valid lambda (validated lambda c s)
              (accepted-IsValidConfig laws lambda c s good)
              (unfold validate_buckets in service_key_clean lambda c))
    ]
