-- ===== src/Tests.antt =====
-- The theorems at concrete inputs, part by part.
pub mod Streams
pub mod Http
pub mod Poll
pub mod Readiness
pub mod Bodies
pub mod Fields
pub mod Resources
pub mod Filesystem
pub mod Redis
pub mod Requests
pub mod Engine
pub mod Resolve
pub mod Workload
pub mod Instances
pub mod Tcp
pub mod Udp
pub mod Addresses
