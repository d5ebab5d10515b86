-- ===== src/Http.antt =====
-- crates/wasmlet/src/engine/wasi/http
pub mod Errors
pub mod ResponseBody
pub mod OutgoingBody
pub mod Fields
pub mod Requests
