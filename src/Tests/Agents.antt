-- ===== src/Tests/Agents.antt =====
-- The exporters, the proxy, and invocations.
use apm_go.Prelude.{
  ℕ, zero, suc, refl, arith, true, false, List, [], ◌∷◌, ◌++◌, Option, none, some, ◌≡◌, Bytes,
  codes, bytes_eq, length, All, take, if◌then◌else◌,
}
use apm_go.Prelude.Int.{ℤ}
use apm_go.Config.{stars, to_lower}
use apm_go.Prelude.Find.{contains}
use apm_go.Config.Delta.{UrlParser, get_delta}
use apm_go.Config.Delta.Masked.{shown, service_key-get_delta}
use apm_go.Config.Fields.{Config, new_config}
use apm_go.Config.Getters.{get_api_token}
use apm_go.Exporters.{Env, span_exporter_options, setenv}
use apm_go.Exporters.Auth.{sent_token, span_exporter_token}
use apm_go.Lambda.{
  BaseOutcome, returned, panicked, panic_string, WrappedHandler, Process, invocations,
}
use apm_go.Lambda.Invocations.{invocations_lem, error_flags, cold_flags}
use apm_go.Oboe.Watcher.{failed, waiting, wait_loop}
use apm_go.Oboe.Watcher.Wait.{StatAnswer, absent, broken, is_waiting, timeline, wait_loop_ends}
use apm_go.Proxy.{ProxyUrl, Exchange, grpc_proxy_dial, http_connect_handshake}
use apm_go.Proxy.Dialing.{is_failure, grpc_proxy_dial_lem}
use apm_go.Float.Exact.{exact}
use apm_go.Tests.Fixtures.{has_byte-Lacks}
use apm_go.Tests.Loading.{eights, sixty_four}

abbrev go_key : Bytes
go_key = sixty_four ++ b':' ∷ codes "go"

abbrev pub go_config : Config ℤ
go_config = record (new_config {F = ℤ}) { is_enabled = true; service_key = go_key }

abbrev headers_env : Env
headers_env name =
    if bytes_eq name (codes "OTEL_EXPORTER_OTLP_HEADERS") then some (codes "a=b") else none

span_exporter_token_example :
    let endpoint = codes "https://otel.solarwinds.com:443" in
    let token = some (get_api_token go_config) in
    (sent_token (span_exporter_options go_config endpoint headers_env).0 ≡ token)
    × (sent_token
          (span_exporter_options go_config endpoint (
            setenv
              (codes "OTEL_EXPORTER_OTLP_TRACES_HEADERS")
              (codes "authorization=x")
              headers_env)).0
        ≡ sent_token (span_exporter_options go_config endpoint headers_env).0)
unfolding contains to_lower bytes_eq
span_exporter_token_example =
    span_exporter_token go_config (codes "https://otel.solarwinds.com:443")
      (codes "authorization=x") headers_env

abbrev http_proxy : Option ProxyUrl
http_proxy = some (record { scheme = codes "http"; user = none })

-- The proxy asks for credentials.
abbrev denied : Exchange
denied = record { written = true; status = some 407 }

grpc_proxy_dial_lem_example :
    let d = grpc_proxy_dial http_proxy true true denied in
    (is_failure d ≡ true) × (d.open_connection ≡ true)
unfolding http_connect_handshake bytes_eq
grpc_proxy_dial_lem_example = grpc_proxy_dial_lem http_proxy true true denied

abbrev handler : WrappedHandler
handler = record { fn_name = codes "f"; region = codes "r" }

abbrev fresh : Process
fresh = record { warm_start = false; has_flusher = true; flushes = [] }

abbrev calls : List (Option Bytes × BaseOutcome Bytes)
calls = (none, panicked (panic_string (codes "oops"))) ∷ (some (codes "id"), returned [] none) ∷ []

invocations_lem_example :
    let (spans, last) = invocations handler calls fresh in
    All (λ s. s.ended ≡ true) spans
    × (error_flags spans ≡ true ∷ false ∷ [])
    × (cold_flags spans ≡ true ∷ false ∷ [])
    × (length last.flushes ≡ 2)
invocations_lem_example = invocations_lem handler calls fresh

-- The file cannot be looked at from the second of three ticks on.
abbrev second : ℕ → StatAnswer
second zero = absent
second (suc k) = broken

wait_loop_ends_example :
    (wait_loop (take 1 (timeline second 3)) ≡ waiting)
    × (wait_loop (take 2 (timeline second 3)) ≡ failed)
    × (is_waiting (wait_loop (timeline second 3)) ≡ false)
wait_loop_ends_example = wait_loop_ends second 3 1 (omega arith) refl

-- No proxy is parsed.
instance abbrev no_urls : UrlParser
no_urls = record { parse_url = λ s. none }

-- Another token with the same ends.
abbrev other_token : Bytes
other_token = codes "0123ffffffffffffffffffffffffffffffffffffffffffffffffffffffffcdef"

service_key-get_delta_example :
    (shown (codes "ServiceKey") (get_delta go_config)
      ≡ codes "0123********************************************************cdef:go" ∷ [])
    × (get_delta go_config
        ≡ get_delta (record go_config { service_key = other_token ++ b':' ∷ codes "go" }))
unfolding stars
service_key-get_delta_example =
    service_key-get_delta go_config sixty_four other_token (codes "go")
      (has_byte-Lacks b':' sixty_four refl) (has_byte-Lacks b':' other_token refl)
      (has_byte-Lacks b':' (codes "go") refl) (omega arith) refl refl refl
