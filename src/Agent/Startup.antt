-- ===== src/Agent/Startup.antt =====
-- How the agent starts and stops.
use apm_go.Prelude.{
  Bool, true, false, not, ◌&&◌, ◌∷◌, ◌++◌, Option, none, some, ◌≡◌, arith, Bytes, Lacks,
}
use apm_go.Prelude.Split.{has_byte}
use apm_go.Agent.{
  Setup, not_running, new_settings_updater, start_exporting, start_agent, stop_agent,
}
use apm_go.Config.Fields.{Config}
use apm_go.Config.Getters.{get_enabled, get_service_key, parsed_service_key}
use apm_go.Config.Service.{parse_service_key_lem}
use apm_go.Config.Validate.{is_valid_service_key}

abbrev pub has_resource : Setup → Bool
has_resource setup = elim setup.resource [ none ↦ false | some name ↦ true ]

-- Everything that the SDK constructs for Start.
abbrev pub is_set_up : Setup → Bool
is_set_up setup =
    has_resource setup && setup.span_exporter && setup.metrics_publisher && setup.sampler

-- An enabled agent with a valid service key starts without an error exactly if every constructor succeeds and the service's
-- name in the key has no colon, and only then it traces. It polls for settings as soon as there is a resource and the key is
-- taken apart, and publishes metrics once the exporter of spans and the publisher are there.
pub start_agent_lem :
    {F T : Type 0} (c : Config F) (transport : Option T) (setup : Setup) (token name : Bytes)
    → c.is_enabled ≡ true
    → c.service_key ≡ token ++ b':' ∷ name
    → Lacks b':' token
    → is_valid_service_key (token ++ b':' ∷ name) ≡ true
    → let (stop, ok, r) = start_agent c transport setup not_running in
      (ok ≡ (is_set_up setup && not (has_byte b':' name)))
      × (r.tracing ≡ ok)
      × (r.polling ≡ (has_resource setup && not (has_byte b':' name)))
      × (r.publishing ≡ (
          has_resource setup
          && not (has_byte b':' name)
          && setup.span_exporter
          && setup.metrics_publisher))
unfolding start_agent new_settings_updater start_exporting get_enabled parsed_service_key
    get_service_key
start_agent_lem c transport setup token name on key lacks valid =
    ground (arith, parse_service_key_lem token name lacks valid)

-- However far Start came, the function that it returns leaves no goroutine polling and nothing traced. It leaves metrics being
-- published just where the sampler was what failed.
pub stop_agent-start_agent :
    {F T : Type 0} (c : Config F) (transport : Option T) (setup : Setup)
    → let (stop, ok, r) = start_agent c transport setup not_running in
      let q = stop_agent stop r in
      (q.polling ≡ false)
      × (q.tracing ≡ false)
      × (q.publishing ≡ (r.publishing && not setup.sampler))
unfolding start_agent new_settings_updater start_exporting stop_agent
stop_agent-start_agent c transport setup = ground arith
