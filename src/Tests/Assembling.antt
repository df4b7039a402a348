-- ===== src/Tests/Assembling.antt =====
-- The agent put together from its resource, its publisher and its updater.
use apm_go.Prelude.{true, false, [], none, some, ◌≡◌, refl, Bytes, codes, cut}
use apm_go.Agent.Assembly.{AgentSdk, start}
use apm_go.Agent.Assembly.Assembled.{start_lem}
use apm_go.Agent.Publisher.{
  MetricsSdk, Metering, new_metrics_publisher, new_meter_provider, configure_and_start,
  shutdown_publisher,
}
use apm_go.Agent.Publisher.Started.{configure_and_start_lem}
use apm_go.Agent.Resources.{
  Detection, SdkError, schema_url_conflict, other_error, joined, no_errors, error_and, is_conflict,
  create_resource,
}
use apm_go.Agent.Resources.Conflicts.{has_conflict, create_resource_lem}
use apm_go.Agent.Serverless.{LambdaSdk, LambdaGlobals}
use apm_go.Config.Fields.{new_config}
use apm_go.Config.Getters.{parsed_service_key}
use apm_go.Config.Validate.{is_valid_service_key}
use apm_go.Config.Values.{getenv}
use apm_go.Exporters.{Env}
use apm_go.Tests.Agents.{go_config}
use apm_go.Tests.Fixtures.{has_byte-Lacks}
use apm_go.Tests.Loading.{sixty_four}

abbrev no_env : Env
no_env name = none

-- A detector failed, and another has an old schema. A resource is the service's name.
abbrev two_errors : SdkError
two_errors =
    joined (error_and (other_error (codes "timeout")) (error_and schema_url_conflict no_errors))

abbrev detection : Detection Bytes
detection = record {
  new_resource = λ env options. (getenv env (codes "OTEL_SERVICE_NAME"), some two_errors);
  default_resource = λ env. [];
  merge = λ old custom. (custom, none);
}

create_resource_lem_example :
    let (r, err, after) = create_resource detection go_config [] no_env in
    (r ≡ getenv after (codes "OTEL_SERVICE_NAME"))
    × (err ≡ none)
    × (has_conflict err ≡ false)
    × (getenv after (codes "OTEL_SERVICE_NAME") ≡ (parsed_service_key go_config).0.service_name)
unfolding create_resource
create_resource_lem_example = create_resource_lem detection go_config [] no_env

-- The registry is not made.
abbrev no_registry : MetricsSdk Bytes Bytes Bytes Bytes
no_registry = record {
  new_reader = λ options. some (codes "reader");
  new_provider = λ reader resource. resource;
  meter = λ provider. record { make_gauge = λ name. true; register_callback = λ names. true };
  start_runtime = λ provider. true;
  new_registry = λ provider. none;
  shutdown_provider = λ provider. true;
}

abbrev no_metering : Metering Bytes
no_metering = record { global_provider = none; sampling_metrics = []; runtime_metrics = [] }

configure_and_start_lem_example :
    let (ok, c, after) =
      configure_and_start no_registry go_config (codes "go") new_metrics_publisher no_metering in
    (ok ≡ false)
    × ((shutdown_publisher no_registry c).1 ≡ none)
    × (c.metrics_registry ≡ none)
    × (after.global_provider ≡ some (codes "go"))
unfolding new_meter_provider configure_and_start new_config
configure_and_start_lem_example =
    configure_and_start_lem no_registry go_config (codes "go") no_metering

abbrev agent_sdk : AgentSdk Bytes Bytes Bytes Bytes
agent_sdk = record {
  detection = detection;
  service_name_from_resource = λ resource. resource;
  metrics = record no_registry { new_registry = λ provider. some (codes "registry") };
  new_span_exporter = true;
}

start_lem_example :
    let (stop, ok, r) =
      start agent_sdk go_config (some (codes "http")) [] no_env no_metering (codes "oboe") in
    (ok ≡ true) × (r.tracing ≡ ok) × (r.polling ≡ true)
unfolding is_valid_service_key cut is_conflict configure_and_start new_config
start_lem_example =
    start_lem agent_sdk go_config (some (codes "http")) [] no_env no_metering (codes "oboe")
      sixty_four (codes "go") refl refl (has_byte-Lacks b':' sixty_four refl) refl

-- Every constructor succeeds, and the environment has no endpoint.
abbrev lambda_sdk : LambdaSdk Bytes Bytes Bytes Bytes
lambda_sdk = record {
  new_metric_exporter = some (codes "reader");
  meter_of = λ reader. record { make_gauge = λ name. true; register_callback = λ names. true };
  new_trace_exporter = some (codes "exporter");
  new_otel_registry = λ reader. some (codes "registry");
  merge_default = λ attributes. some (codes "resource");
}

abbrev before_lambda : LambdaGlobals Bytes Bytes Bytes Bytes Bytes
before_lambda = record {
  environment = no_env;
  watching = [];
  global_meter = none;
  global_propagator = false;
  global_tracer = none;
}
