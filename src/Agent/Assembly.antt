-- ===== src/Agent/Assembly.antt =====
-- swo/agent.go: the start of the agent with its resource, its publisher of metrics and its sampler.
pub mod Assembled
use apm_go.Prelude.{
  Bool, true, false, not, ◌&&◌, ◌||◌, List, ◌∷◌, ◌++◌, Option, none, some, ◌≡◌, refl, arith, Bytes,
  Lacks, if◌then◌else◌,
}
use apm_go.Prelude.Split.{has_byte}
use apm_go.Agent.{Setup, Stop, Running, not_running, start_agent}
use apm_go.Agent.Publisher.{MetricsSdk, Metering, new_metrics_publisher, configure_and_start}
use apm_go.Agent.Publisher.Started.{is_some}
use apm_go.Agent.Resources.{Detection, create_resource}
use apm_go.Agent.Serverless.{new_sampler}
use apm_go.Agent.Startup.{start_agent_lem}
use apm_go.Config.Fields.{Config}
use apm_go.Config.Validate.{is_valid_service_key}
use apm_go.Exporters.{Env}

-- What the SDK does for an agent: resources R, of which serviceNameFromResource reads a name, readers D, meter providers M and
-- registries G, and whether the exporter of spans is made.
pub record AgentSdk (R D M G : Type 0) : Type 0 where
  pub detection : Detection R
  pub service_name_from_resource : R → Bytes
  pub metrics : MetricsSdk D M G R
  pub new_span_exporter : Bool

module _ {F R D M G : Type 0} where
  -- What each step of Start would return, for a new Oboe o.
  unfoldable pub setup_of :
      {O : Type 0}
      → AgentSdk R D M G
      → Config F
      → List (Bytes × Bytes)
      → Env
      → Metering M
      → O
      → Setup
  unfolding create_resource configure_and_start new_sampler
  setup_of sdk c attrs env m o =
      let (resrc, err, after) = create_resource sdk.detection c attrs env in
      let (published, publisher, metering) =
        configure_and_start sdk.metrics c resrc new_metrics_publisher m in
      record {
        resource = if is_some err then none else some (sdk.service_name_from_resource resrc);
        span_exporter = sdk.new_span_exporter;
        metrics_publisher = published;
        sampler = is_some (new_sampler (some o));
      }

  -- Start
  unfoldable pub start :
      {T O : Type 0}
      → AgentSdk R D M G
      → Config F
      → Option T
      → List (Bytes × Bytes)
      → Env
      → Metering M
      → O
      → Stop × Bool × Running
  unfolding setup_of start_agent
  start sdk c transport attrs env m o =
      start_agent c transport (setup_of sdk c attrs env m o) not_running
