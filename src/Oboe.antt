-- ===== src/Oboe.antt =====
-- internal/oboe: the sampling decision, its settings and its token buckets.
pub mod Time
pub mod Bucket
pub mod Flags
pub mod Urls
pub mod TriggerTrace
pub mod Settings
pub mod Request
pub mod Life
pub mod Remote
pub mod Watcher
pub mod Gauges
