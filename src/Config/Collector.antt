-- ===== src/Config/Collector.antt =====
-- The collector's address: what is valid, and what the getter returns.
use apm_go.Prelude.{
  Bool, true, false, List, ◌++◌, some, ◌≡◌, ◌⊎◌, inl, inr, refl, arith, Bytes, codes, Option-cases,
  bytes_eq,
}
use apm_go.Float.{Float64}
use apm_go.Config.{SamplingConfig}
use apm_go.Config.Fields.{Config, reset, ConfigOption}
use apm_go.Config.Files.{System}
use apm_go.Config.Host.{is_valid_host, get_collector}
use apm_go.Config.Validated.{IsValidConfig}
use apm_go.Config.Outcome.{IsDisabled, reads_null, load_configuration_outcome}
use apm_go.Config.Validate.{has_lambda_env, load_configuration}
use apm_go.Config.Values.{FloatText, FloatTextLaws}

get_collector_total :
    {F : Type 0} (c : Config F)
    → is_valid_host c.collector ≡ true
    → (address : Bytes) × (get_collector c ≡ some address)
unfolding is_valid_host get_collector
get_collector_total c h = elim (Option-cases (get_collector c)) [
  | inl f ↦ absurd (ground arith)
  | inr (address, f) ↦ (address, f)
]

module _ {F : Type 0} ⦃fl : Float64 F⦄ ⦃ft : FloatText F⦄ where
  outcome_host :
      (lambda : Bool) (d : Config F)
      → (IsValidConfig lambda d × (d.is_enabled ≡ true)) ⊎ IsDisabled d
      → is_valid_host d.collector ≡ true
  unfolding is_valid_host bytes_eq
  outcome_host lambda d (inl v) = v.0.collector
  outcome_host lambda d (inr v) = rw v.collector refl

  -- After Load, whatever it read that was no null document, the getter of the collector's address does not panic: what it returns is the address, with
  -- the port 443 if the address has none.
  pub load_configuration-get_collector :
      (laws : FloatTextLaws F) (sys : System F) (opts : List ConfigOption) (c : Config F)
      (s : SamplingConfig)
      → c.sampling ≡ some s
      → reads_null sys (reset c) ≡ false
      → (d : Config F) × (address : Bytes) × (load_configuration sys opts c ≡ some d)
        × (get_collector d ≡ some address)
        × ((address ≡ d.collector) ⊎ (address ≡ d.collector ++ codes ":443"))
  load_configuration-get_collector laws sys opts c s h read =
      elim (load_configuration_outcome laws sys opts c s h) [
        | inl (null, e) ↦ absurd (ground arith)
        | inr (d, r, e, out) ↦
            let valid = outcome_host (has_lambda_env sys.lookup_env) d out in
            let (address, f) = get_collector_total d valid in
            (d, address, e, f, unfold get_collector in ground arith)
      ]
