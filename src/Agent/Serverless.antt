-- ===== src/Agent/Serverless.antt =====
-- swo/agent_lambda.go and internal/sampler/sampler.go: the start of the agent in a lambda environment. The SDK's constructors are
-- an interface; `none` stands for an error of theirs.
pub mod Begun
use apm_go.Prelude.{
  Bool, true, false, List, [], ◌∷◌, Option, none, some, Bytes, codes, is_empty, if◌then◌else◌,
}
use apm_go.Config.Values.{getenv}
use apm_go.Exporters.{Env, setenv}
use apm_go.Oboe.Gauges.{Meter, register_otel_sample_rate_metrics}
use apm_go.Utils.{agent_version}

-- NewSampler: an error without an Oboe.
unfoldable pub new_sampler : {O : Type 0} → Option O → Option O
new_sampler o = o

-- What the constructors return: an exporter of metrics X, of spans Y, a registry G and a resource R; the provider of a reader of
-- X has a meter.
pub record LambdaSdk (X Y G R : Type 0) : Type 0 where
  pub new_metric_exporter : Option X
  pub meter_of : X → Meter
  pub new_trace_exporter : Option Y
  pub new_otel_registry : X → Option G
  pub merge_default : List (Bytes × Bytes) → Option R

-- The tracer provider: spans are exported as they end.
pub record Tracer (Y G R O : Type 0) : Type 0 where
  pub syncer : Y
  pub resource : R
  pub traced_sampler : O
  pub span_registry : G

-- What is set for the process; the meter provider and the flusher are those of a reader of X.
pub record LambdaGlobals (X Y G R O : Type 0) : Type 0 where
  pub environment : Env
  pub watching : List O
  pub global_meter : Option X
  pub global_propagator : Bool
  pub global_tracer : Option (Tracer Y G R O)

unfoldable pub override_endpoint : Env → Env
unfolding getenv setenv
override_endpoint env =
    let name = codes "OTEL_EXPORTER_OTLP_ENDPOINT" in
    if is_empty (getenv env name) then setenv name (codes "http://localhost:4317") env else env

unfoldable pub lambda_attributes : Bytes → List (Bytes × Bytes)
lambda_attributes stream =
    (codes "sw.data.module", codes "apm")
    ∷ (codes "sw.apm.version", agent_version)
    ∷ (codes "faas.instance", stream)
    ∷ []

module _ {X Y G R O : Type 0} where
  -- StartLambda from the sampler on, with the exporter of spans and the registry.
  unfoldable pub start_tracing :
      LambdaSdk X Y G R
      → O
      → Bytes
      → X
      → Y
      → G
      → LambdaGlobals X Y G R O
      → Option X × LambdaGlobals X Y G R O
  unfolding new_sampler lambda_attributes
  start_tracing sdk o stream reader exporter registry g = elim (new_sampler (some o)) [
    | none ↦ (none, g)
    | some smplr ↦
        let propagating = record g { global_propagator = true } in
        elim (sdk.merge_default (lambda_attributes stream)) [
          | none ↦ (none, propagating)
          | some resrc ↦ (
            some reader,
            record propagating {
              global_tracer = some (record {
                syncer = exporter;
                resource = resrc;
                traced_sampler = smplr;
                span_registry = registry;
              });
            },
          )
        ]
  ]

  -- StartLambda with a new Oboe: the flusher, and what is set.
  unfoldable pub start_lambda :
      LambdaSdk X Y G R → O → Bytes → LambdaGlobals X Y G R O → Option X × LambdaGlobals X Y G R O
  unfolding override_endpoint start_tracing register_otel_sample_rate_metrics
  start_lambda sdk o stream before =
      let g = record before {
        environment = override_endpoint before.environment;
        watching = o ∷ before.watching;
      } in
      elim sdk.new_metric_exporter [
        | none ↦ (none, g)
        | some reader ↦
            let metered = record g { global_meter = some reader } in
            if register_otel_sample_rate_metrics (sdk.meter_of reader)
            then elim sdk.new_trace_exporter [
              | none ↦ (none, metered)
              | some exporter ↦ elim (sdk.new_otel_registry reader) [
                | none ↦ (none, metered)
                | some registry ↦ start_tracing sdk o stream reader exporter registry metered
              ]
            ]
            else (none, metered)
      ]
