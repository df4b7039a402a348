-- ===== src/Agent/Publisher.antt =====
-- internal/reporter/metrics_publisher.go: the publisher of metrics. The SDK's constructors are an interface; `none` stands for
-- an error of theirs.
pub mod Started
use apm_go.Prelude.{Bool, true, false, List, [], ◌∷◌, Option, none, some, if◌then◌else◌, ◌>>=◌}
use apm_go.Config.Fields.{Config}
use apm_go.Config.Getters.{get_runtime_metrics}
use apm_go.Oboe.Gauges.{Meter, register_otel_sample_rate_metrics}

-- metric.WithProducer(runtime.NewProducer())
pub data ReaderOption : Type 0 where
  with_runtime_producer : ReaderOption

-- A reader D, a meter provider M, a registry G and a resource R, with what makes and stops them.
pub record MetricsSdk (D M G R : Type 0) : Type 0 where
  pub new_reader : List ReaderOption → Option D
  pub new_provider : D → R → M
  pub meter : M → Meter
  pub start_runtime : M → Bool
  pub new_registry : M → Option G
  pub shutdown_provider : M → Bool

pub record MetricsPublisher (M G : Type 0) : Type 0 where
  pub metrics_registry : Option G
  pub meter_provider : Option M

-- What is set for the process: the global meter provider, and the providers that collect the request counters and the
-- runtime's metrics.
pub record Metering (M : Type 0) : Type 0 where
  pub global_provider : Option M
  pub sampling_metrics : List M
  pub runtime_metrics : List M

abbrev pub new_metrics_publisher : {M G : Type 0} → MetricsPublisher M G
new_metrics_publisher = record { metrics_registry = none; meter_provider = none }

module _ {D M G R : Type 0} where
  unfoldable pub new_meter_provider : MetricsSdk D M G R → R → Bool → Option M
  new_meter_provider sdk resource runtime = do
    reader ← sdk.new_reader (if runtime then with_runtime_producer ∷ [] else [])
    some (sdk.new_provider reader resource)

  -- ConfigureAndStart behind runtime.Start.
  unfoldable pub set_provider :
      MetricsSdk D M G R
      → M
      → MetricsPublisher M G
      → Metering M
      → Bool × MetricsPublisher M G × Metering M
  set_provider sdk mp c m =
      let global = record m { global_provider = some mp } in
      elim (sdk.new_registry mp) [
        | none ↦ (false, record c { metrics_registry = none }, global)
        | some registry ↦
            (true, record c { metrics_registry = some registry; meter_provider = some mp }, global)
      ]

  -- ConfigureAndStart: whether there is no error, the publisher, and what is set then.
  unfoldable pub configure_and_start :
      {F : Type 0}
      → MetricsSdk D M G R
      → Config F
      → R
      → MetricsPublisher M G
      → Metering M
      → Bool × MetricsPublisher M G × Metering M
  unfolding get_runtime_metrics new_meter_provider set_provider register_otel_sample_rate_metrics
  configure_and_start sdk conf resource c m =
      elim (new_meter_provider sdk resource (get_runtime_metrics conf)) [
        | none ↦ (false, c, m)
        | some mp ↦
            let sampled = record m { sampling_metrics = mp ∷ m.sampling_metrics } in
            let started = record sampled { runtime_metrics = mp ∷ sampled.runtime_metrics } in
            if register_otel_sample_rate_metrics (sdk.meter mp)
            then (if get_runtime_metrics conf
                then if sdk.start_runtime mp
                  then set_provider sdk mp c started
                  else (false, c, sampled)
                else set_provider sdk mp c sampled)
            else (false, c, m)
      ]

  -- Shutdown: whether there is no error, and the provider that is shut down.
  unfoldable pub shutdown_publisher : MetricsSdk D M G R → MetricsPublisher M G → Bool × Option M
  shutdown_publisher sdk c = elim c.meter_provider [
    | none ↦ (true, none)
    | some mp ↦ (sdk.shutdown_provider mp, some mp)
  ]
