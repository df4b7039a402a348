-- ===== src/Agent/Assembly/Assembled.antt =====
-- When the assembled agent traces.
use apm_go.Prelude.{
  Bool, true, not, ◌&&◌, ◌||◌, List, ◌∷◌, ◌++◌, Option, none, some, ◌≡◌, refl, arith, Bytes, Lacks,
}
use apm_go.Prelude.Split.{has_byte}
use apm_go.Agent.{Setup}
use apm_go.Agent.Assembly.{AgentSdk, setup_of, start}
use apm_go.Agent.Publisher.{Metering, new_metrics_publisher, configure_and_start}
use apm_go.Agent.Publisher.Started.{is_some}
use apm_go.Agent.Resources.{
  SdkError, no_errors, join_all, with_error, resource_env, resource_options, create_resource,
}
use apm_go.Agent.Resources.Conflicts.{kept, create_resource_lem}
use apm_go.Agent.Serverless.{new_sampler}
use apm_go.Agent.Startup.{has_resource, is_set_up, start_agent_lem}
use apm_go.Config.Fields.{Config}
use apm_go.Config.Validate.{is_valid_service_key}
use apm_go.Exporters.{Env}

is_some-join_all :
    (e f : Option SdkError)
    → is_some (join_all (with_error e (with_error f no_errors))) ≡ (is_some e || is_some f)
unfolding join_all with_error
is_some-join_all none none = refl
is_some-join_all none (some f) = refl
is_some-join_all (some e) f = refl

has_resource-setup_of :
    {F R D M G O : Type 0} (sdk : AgentSdk R D M G) (c : Config F) (attrs : List (Bytes × Bytes))
    (env : Env) (m : Metering M) (o : O)
    → let after = resource_env c env in
      let (custom, e) = sdk.detection.new_resource after (resource_options attrs after) in
      let (resrc, f) = sdk.detection.merge (sdk.detection.default_resource after) custom in
      has_resource (setup_of sdk c attrs env m o)
      ≡ (not (is_some (kept e)) && not (is_some (kept f)))
unfolding setup_of
has_resource-setup_of sdk c attrs env m o =
    let after = resource_env c env in
    let (custom, e) = sdk.detection.new_resource after (resource_options attrs after) in
    let (resrc, f) = sdk.detection.merge (sdk.detection.default_resource after) custom in
    let made = create_resource_lem sdk.detection c attrs env in
    rw (made.1, is_some-join_all (kept e) (kept f)) (ground arith)

setup_of-fields :
    {F R D M G O : Type 0} (sdk : AgentSdk R D M G) (c : Config F) (attrs : List (Bytes × Bytes))
    (env : Env) (m : Metering M) (o : O)
    → let after = resource_env c env in
      let (custom, e) = sdk.detection.new_resource after (resource_options attrs after) in
      let (resrc, f) = sdk.detection.merge (sdk.detection.default_resource after) custom in
      let setup = setup_of sdk c attrs env m o in
      (setup.span_exporter ≡ sdk.new_span_exporter)
      × (setup.metrics_publisher
          ≡ (configure_and_start sdk.metrics c resrc new_metrics_publisher m).0)
      × (setup.sampler ≡ true)
unfolding setup_of new_sampler create_resource
setup_of-fields sdk c attrs env m o = (refl, refl, refl)

-- The truth values that the two lemmas above put in place of the set-up's fields.
started_flags :
    (setup : Setup) (ok tracing polling colon e f exporter published : Bool)
    → ok ≡ (is_set_up setup && not colon)
    → tracing ≡ ok
    → polling ≡ (has_resource setup && not colon)
    → has_resource setup ≡ (e && f)
    → setup.span_exporter ≡ exporter
    → setup.metrics_publisher ≡ published
    → setup.sampler ≡ true
    → (ok ≡ ((e && f && not colon) && exporter && published))
      × (tracing ≡ ok)
      × (polling ≡ (e && f && not colon))
started_flags setup ok tracing polling colon e f exporter published a b d g h i j = ground arith

-- Start of an enabled agent with a valid service key, whose sampler is of a new Oboe: it starts without an error, and traces, exactly
-- if the service's name in the key has no colon, the exporter of spans and the publisher of metrics are made, and of the two
-- steps that make the resource none has an error without a conflict of schemas. It polls for settings even if the exporter or
-- the publisher fails.
pub start_lem :
    {F R D M G T O : Type 0} (sdk : AgentSdk R D M G) (c : Config F) (transport : Option T)
    (attrs : List (Bytes × Bytes)) (env : Env) (m : Metering M) (o : O) (token name : Bytes)
    → c.is_enabled ≡ true
    → c.service_key ≡ token ++ b':' ∷ name
    → Lacks b':' token
    → is_valid_service_key (token ++ b':' ∷ name) ≡ true
    → let (stop, ok, r) = start sdk c transport attrs env m o in
      let after = resource_env c env in
      let (custom, e) = sdk.detection.new_resource after (resource_options attrs after) in
      let (resrc, f) = sdk.detection.merge (sdk.detection.default_resource after) custom in
      let (published, publisher, metering) =
        configure_and_start sdk.metrics c resrc new_metrics_publisher m in
      let named = not (is_some (kept e)) && not (is_some (kept f)) && not (has_byte b':' name) in
      (ok ≡ (named && sdk.new_span_exporter && published)) × (r.tracing ≡ ok) × (r.polling ≡ named)
unfolding start
start_lem sdk c transport attrs env m o token name on key lacks valid =
    let after = resource_env c env in
    let (custom, e) = sdk.detection.new_resource after (resource_options attrs after) in
    let f = (sdk.detection.merge (sdk.detection.default_resource after) custom).1 in
    let setup = setup_of sdk c attrs env m o in
    let l = start_agent_lem c transport setup token name on key lacks valid in
    let fields = setup_of-fields sdk c attrs env m o in
    started_flags setup _ _ _ _ (not (is_some (kept e))) (not (is_some (kept f))) _ _ l.0 l.1 l.2
      (has_resource-setup_of sdk c attrs env m o) fields.0 fields.1 fields.2
