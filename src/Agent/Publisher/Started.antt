-- ===== src/Agent/Publisher/Started.antt =====
-- When the publisher starts, and what its shutdown reaches.
use apm_go.Prelude.{
  Bool, true, false, not, ◌&&◌, ◌||◌, Option, none, some, ◌≡◌, arith, if◌then◌else◌,
}
use apm_go.Config.Fields.{Config}
use apm_go.Config.Getters.{get_runtime_metrics}
use apm_go.Agent.Publisher.{
  MetricsSdk, Metering, new_metrics_publisher, new_meter_provider, set_provider,
  configure_and_start, shutdown_publisher,
}
use apm_go.Oboe.Gauges.{register_otel_sample_rate_metrics}

abbrev pub is_some : {A : Type 0} → Option A → Bool
is_some o = elim o [ none ↦ false | some x ↦ true ]

-- A new publisher starts without an error exactly if its provider is made, the gauges of the request counters are registered, the
-- runtime's metrics start where they are configured, and the registry is made. Its shutdown then reaches the provider. After an
-- error it reaches none, though the provider stays set for the process where only the registry failed.
pub configure_and_start_lem :
    {F D M G R : Type 0} (sdk : MetricsSdk D M G R) (conf : Config F) (resource : R)
    (m : Metering M)
    → let (ok, c, after) = configure_and_start sdk conf resource new_metrics_publisher m in
      let made = new_meter_provider sdk resource (get_runtime_metrics conf) in
      let running : Bool = elim made [
        | none ↦ false
        | some mp ↦
            register_otel_sample_rate_metrics (sdk.meter mp)
            && (sdk.start_runtime mp || not (get_runtime_metrics conf))
      ] in
      let registry : Option G = elim made [ none ↦ none | some mp ↦ sdk.new_registry mp ] in
      (ok ≡ (running && is_some registry))
      × ((shutdown_publisher sdk c).1 ≡ (if ok then made else none))
      × (c.metrics_registry ≡ (if running then registry else none))
      × (after.global_provider ≡ (if running then made else m.global_provider))
unfolding configure_and_start set_provider shutdown_publisher
configure_and_start_lem sdk conf resource m = ground arith
