-- ===== src/Agent.antt =====
-- swo/agent.go, swo/agent_api.go, swo/oboe_holder.go, swo/resource.go (the optional detectors) and internal/oboe/settings_http_updater.go: how the
-- agent is started and asked. What the SDK's constructors return is an argument; `none` stands for an error of theirs.
pub mod Startup
pub mod Ready
pub mod Resources
pub mod Publisher
pub mod Serverless
pub mod Assembly
use apm_go.Prelude.{
  ℕ, Bool, true, false, not, List, [], ◌∷◌, ◌++◌, Option, none, some, Bytes, codes, is_empty,
  trim_space, if◌then◌else◌, ◌>>=◌,
}
use apm_go.Config.Fields.{Config}
use apm_go.Config.Getters.{get_enabled, parsed_service_key, get_proxy}
use apm_go.Config.Host.{get_settings_url}
use apm_go.EntrySpans.{Manager, EntrySpanError, set_transaction_name}
use apm_go.Oboe.Life.{has_default_setting}
use apm_go.Oboe.Remote.Service.{SettingsService, new_settings_service}
use apm_go.Oboe.Request.{Oboe}
use apm_go.Otel.{SpanContext, SpanContexts}
use apm_go.Prelude.Find.{contains}

-- NewSettingsUpdater: the updater that does nothing, the one that polls, or the error of an invalid service key.
pub data SettingsUpdater (T : Type 0) : Type 0 where
  null_updater : SettingsUpdater T
  http_updater : SettingsService T → SettingsUpdater T

unfoldable pub new_settings_updater :
    {F T : Type 0} → Config F → Option T → Bytes → Option (SettingsUpdater T)
unfolding get_enabled parsed_service_key get_settings_url new_settings_service get_proxy
new_settings_updater c transport service_name =
    let (key, ok) = parsed_service_key c in
    if not (get_enabled c)
    then some null_updater
    else if not ok
    then none
    else some (
        http_updater (
          new_settings_service (get_proxy c) transport (get_settings_url c) service_name []
            key.token))

-- What the steps of Start return: the service's name of the resource, and whether each constructor succeeds.
pub record Setup : Type 0 where
  pub resource : Option Bytes
  pub span_exporter : Bool
  pub metrics_publisher : Bool
  pub sampler : Bool

-- What the agent has running, or set for the whole process.
pub record Running : Type 0 where
  pub global_oboe : Bool
  pub polling : Bool
  pub publishing : Bool
  pub tracing : Bool
  pub service_name : Bytes

-- What the function that Start returns does.
pub data Stop : Type 0 where
  stop_nothing stop_updater stop_all : Stop

abbrev pub not_running : Running
not_running = record {
  global_oboe = false;
  polling = false;
  publishing = false;
  tracing = false;
  service_name = [];
}

-- Start from the exporter of spans on.
unfoldable pub start_exporting : Setup → Running → Stop × Bool × Running
start_exporting setup r =
    let published = record r { publishing = true } in
    if not setup.span_exporter
    then (stop_updater, false, r)
    else if not setup.metrics_publisher
    then (stop_updater, false, r)
    else if not setup.sampler
    then (stop_updater, false, published)
    else (stop_all, true, record published { tracing = true })

-- Start: the function to stop it, whether there is no error, and what is running then.
unfoldable pub start_agent :
    {F T : Type 0} → Config F → Option T → Setup → Running → Stop × Bool × Running
unfolding get_enabled new_settings_updater start_exporting
start_agent c transport setup r =
    if not (get_enabled c) then (stop_nothing, true, r) else elim setup.resource [
      | none ↦ (stop_nothing, false, r)
      | some svc_name ↦
          let named = record r { service_name = svc_name; global_oboe = true } in
          elim (new_settings_updater c transport svc_name) [
            | none ↦ (stop_nothing, false, named)
            | some updater ↦ start_exporting setup (record named { polling = true })
          ]
    ]

-- The function that Start returned. A shutdown of the SDK that fails ends the program and is not here.
unfoldable pub stop_agent : Stop → Running → Running
stop_agent stop_nothing r = r
stop_agent stop_updater r = record r { polling = false }
stop_agent stop_all r = record r {
  global_oboe = false;
  polling = false;
  publishing = false;
  tracing = false;
}

-- What WaitForReady selects: a tick, with the Oboe at the time of the next look, or the end of the context.
pub data ReadyEvent (F R C : Type 0) : Type 0 where
  looked : Oboe F R C → ReadyEvent F R C
  context_done : ReadyEvent F R C

module _ {F R C : Type 0} where
  -- The loop: whether it is ready, or `none` while it waits.
  unfoldable pub ready_loop : Oboe F R C → List (ReadyEvent F R C) → Option Bool
  unfolding has_default_setting
  ready_loop o [] = if has_default_setting o then some true else none
  ready_loop o (looked next ∷ es) =
      let rest = ready_loop next es in if has_default_setting o then some true else rest
  ready_loop o (context_done ∷ es) = if has_default_setting o then some true else some false

  -- WaitForReady, of the global Oboe.
  unfoldable pub wait_for_ready :
      Config F → Option (Oboe F R C) → List (ReadyEvent F R C) → Option Bool
  unfolding get_enabled ready_loop
  wait_for_ready c global es =
      if not (get_enabled c)
      then some true
      else elim global [ none ↦ some false | some o ↦ ready_loop o es ]

-- swo.SetTransactionName, of the context's span context; `entry_error no_error` is its success.
pub data NameError : Type 0 where
  invalid_name no_span_context : NameError
  entry_error : EntrySpanError → NameError

unfoldable pub set_name_in_context :
    {T : Type 0} ⦃sc : SpanContexts T⦄
    → SpanContext T
    → Bytes
    → Manager
    → Manager × Option ℕ × NameError
unfolding set_transaction_name trim_space
set_name_in_context ⦃sc⦄ span name m =
    let trimmed = trim_space name in
    if is_empty trimmed
    then (m, none, invalid_name)
    else if not (sc.is_valid span)
    then (m, none, no_span_context)
    else let (after, handle, e) = set_transaction_name span.trace_id trimmed m in
      (after, handle, entry_error e)

-- getOptionalDetectors
pub data Detector : Type 0 where
  uams_detector ec2_detector azurevm_detector k8s_detector : Detector

unfoldable pub get_optional_detectors : Bytes → List Detector
unfolding contains
get_optional_detectors disabled =
    (if not (contains (codes "uams") disabled) then uams_detector ∷ [] else [])
    ++ (if not (contains (codes "ec2") disabled) then ec2_detector ∷ [] else [])
    ++ (if not (contains (codes "azurevm") disabled) then azurevm_detector ∷ [] else [])
    ++ (if not (contains (codes "k8s") disabled) then k8s_detector ∷ [] else [])
