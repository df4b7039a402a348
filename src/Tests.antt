-- ===== src/Tests.antt =====
-- The theorems at concrete inputs.
mod Fixtures
mod Buckets
mod Requests
mod Settings
mod Headers
mod Spans
mod Remote
mod Keys
mod Loading
mod Agents
mod Watching
mod Assembling
mod Gauges
