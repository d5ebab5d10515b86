-- ===== src/Sockets.antt =====
-- crates/wasmlet/src/engine/wasi/sockets
pub mod Errors
pub mod Address
pub mod Options
pub mod Tcp
pub mod Udp
