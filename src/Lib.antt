-- ===== src/Lib.antt =====
-- A model of apm-go, SolarWinds' tracing agent for Go: how it is configured and started, how it decides which
-- requests to trace, what it reads and writes in headers for that, and how it names transactions.
--
-- The parts and how they meet. The agent (swo) loads the configuration (internal/config) from the defaults, a YAML
-- file, the environment and options, and validates it. If it is enabled, it starts `oboe` (internal/oboe), the
-- exporters (internal/otelsetup), the sampler and the processor. A server's settings are polled, or watched for in
-- a file in a lambda environment, and reach oboe through UpdateSetting, are merged with the local configuration and
-- expire. The OpenTelemetry SDK asks the sampler (internal/sampler) about each span: it reads the sender's state
-- from the trace state (internal/w3cfmt, internal/swotel) and the trigger trace options from the context
-- (internal/xtrace, put there by internal/propagator), and asks SampleRequest, which takes tokens from a bucket and
-- counts requests (internal/metrics). The span processor (internal/processor) tracks entry spans
-- (internal/entryspans) and names their transactions (internal/txn). The HTTP handler
-- (instrumentation/net/http/swohttp) answers the options in the response, and the lambda wrapper (swolambda) makes
-- a span of each invocation.
--
-- Files:
-- Prelude: shared names; Prelude/Text has Go's string functions on byte lists, Prelude/Split and Prelude/Find lemmas on
--   texts that are cut, split and searched, Prelude/Decimal strconv's ParseInt and FormatInt, Prelude/Int the integers
--   over native numbers.
-- Float: the float64 operations as an interface with laws; Float/Exact is fixed-point arithmetic as an instance,
--   which rounds down where float64 rounds to the nearest.
-- Log: internal/log/logging.go, and the logging calls of swo/agent_api.go.
-- Metrics: internal/metrics/rate_counts.go, the request counters. Response: internal/metrics/otel.go and swo/log.go.
-- Oboe/Time: time.Time and time.Duration. Oboe/Bucket: token_bucket.go. Oboe/Flags: the flags of settings.go,
--   tracing_mode.go and flagStringToBin. Oboe/Urls: url.go. Oboe/TriggerTrace: trigger_trace.go and
--   sample_decision.go. Oboe/Settings: settings.go. Oboe/Request: SampleRequest of oboe.go. Oboe/Life: the rest of
--   oboe.go. Oboe/Remote: settings_http.go, settings_lambda.go and the poller of settings_http_updater.go;
--   Oboe/Remote/Service: settings_http_service.go. Oboe/Watcher: file_watcher.go. Oboe/Gauges: the metrics of oboe.go.
--   (All in internal/oboe.)
-- Otel: what is used of OpenTelemetry's trace package, as interfaces.
-- Swotel: internal/swotel/tracestate.go. W3c: internal/w3cfmt/w3cfmt.go. Xtrace: internal/xtrace.
-- Sampler: internal/sampler/sampler.go. Propagator: internal/propagator/propagator.go.
-- EntrySpans: internal/entryspans/entryspans.go. Txn: internal/txn/txn.go. Processor:
--   internal/processor/processor.go. Handler: instrumentation/net/http/swohttp/handler.go.
--   Lambda: instrumentation/github.com/aws/aws-lambda-go/swolambda/swolambda.go.
-- Config: internal/config. Values and Env are env.go, Fields the fields with their tags and options, Files and Yaml
--   the configuration file, Host and Validate validators.go and Load, Getters the getters, Delta what is logged of a
--   configuration. The code goes over the fields by reflection, the model names them one by one.
-- Host: internal/host/k8s, and Host/Uams internal/uams. Exporters: internal/otelsetup. Proxy: internal/proxy/helpers.go.
-- Agent: swo/agent.go, swo/agent_api.go and swo/oboe_holder.go; Agent/Resources: swo/resource.go; Agent/Publisher:
--   internal/reporter/metrics_publisher.go; Agent/Assembly: Start with these; Agent/Serverless: swo/agent_lambda.go.
-- Utils: internal/utils.
-- Tests: instances of the interfaces, and the theorems at concrete inputs.
--
-- How state and operations correspond. A struct is a record and a method a function from the old state to the new
-- one; a method that holds a lock, or one atomic operation, is one step, and a history is a list of calls or, for
-- the poller and its goroutines, a path of a step relation. A panic is `none`. The clock, the random roll, the
-- environment, the files read and the results of network calls are arguments. Counters are 64-bit patterns that
-- wrap around and are observed as int64, flag sets are numbers under 2^16 with bit operations, times are
-- nanoseconds since the zero time. Text is a list of bytes, and ASCII where the code trims or splits it. Loops over
-- lists and strings are recursion on them; a loop that waits or retries is recursion on the list of what each round
-- finds. The one fuel is the 20 digits that FormatInt may write: an int64 has at most 19, and every int64 is read
-- back from its text (Prelude/Decimal).
--
-- Third-party code is an interface: regexp and freecache (Oboe/Urls), trace.TraceState, SpanContext and the SDK's
-- samplers (Otel, Sampler), text map carriers (Propagator), HMAC-SHA1 (Xtrace), the keys of semconv (Txn), the YAML
-- decoder and the file system (Config/Files, Config/Yaml), strconv's float texts (Config/Values), net/url's parser,
-- the JSON decoders and the HTTP client (Oboe/Remote/Service, Oboe/Watcher), the dialers (Proxy), gRPC and TLS
-- (Exporters), and what the SDK's constructors return (Agent, Agent/Resources, Agent/Publisher, Agent/Serverless),
-- and package uuid (Host/Uams).
--
-- Not modelled: the histogram of NewOtelRegistry and the readers and providers themselves, which are the SDK's;
-- thin wrappers that hand handlers to other instrumentation; the random source (internal/rand), which is an
-- argument; how log messages are formatted; constants, test helpers and examples. A lock is not modelled beyond
-- making a method one step, so races between methods on fields that no lock guards are out of reach.
pub mod Prelude
pub mod Float
pub mod Metrics
pub mod Oboe
pub mod Otel
pub mod Swotel
pub mod W3c
pub mod Xtrace
pub mod Sampler
pub mod EntrySpans
pub mod Txn
pub mod Processor
pub mod Propagator
pub mod Handler
pub mod Config
pub mod Log
pub mod Host
pub mod Exporters
pub mod Agent
pub mod Proxy
pub mod Lambda
pub mod Utils
pub mod Response
pub mod Tests
