-- ===== src/Lib.antt =====
-- wasmlet, a host for WebAssembly components: the parts of its engine that carry the meaning of the
-- WASI interfaces, as functions, with what they guarantee to a guest and to the operator.
--
-- A guest talks to the host through resources. Streams (crates/wasmlet/src/engine/wasi/io/mod.rs)
-- read and write over standard output, TCP connections or HTTP bodies, and a stream may have a budget.
-- TCP sockets (engine/wasi/sockets/tcp.rs) are a state machine behind a lock, UDP sockets
-- (engine/wasi/sockets/udp.rs) have a state that follows the peer; the tests of addresses,
-- the options and the codes of errors are in engine/wasi/sockets/util.rs. A body that a guest writes
-- (engine/wasi/http/body.rs) passes through a channel to the HTTP server, which polls it for frames.
-- The engine (engine/mod.rs) bounds the time that a guest runs, and instantiates workloads that import
-- from one another in an order that serves them all; a call between two workloads carries its values from
-- one store to the other (engine/workload/value.rs). Files are reached through descriptors whose
-- permissions come from a preopened directory (engine/wasi/filesystem/mod.rs). Beside the host stands a guest,
-- the client of redis (examples/rust/redis/src), a component that sends commands and reads frames over streams.
--
--   Base       shared names: numbers, tests, lists, `Result`, `Poll`
--   Sockets    util.rs: Errors (codes), Address (tests, in Address/Conversions the conversions), Options;
--              tcp.rs: Tcp (`TcpState`), Tcp/Socket (`TcpSocket`); udp.rs: Udp
--   Http       body.rs: ResponseBody (`OutgoingResponseBody`), OutgoingBody (with the calls in
--              http/host/types.rs); Fields: `HostFields` there, over `WithChildren` of engine/mod.rs;
--              Requests: the parts of a request (request.rs, conv.rs and host/types.rs)
--              Errors: the codes of wasi:http
--   Io         io/mod.rs: Output (`OutputStream`), Blocking (its waiting calls), Input (`InputStream`);
--              Os: what these call; the content sender of body.rs is in Output and Blocking;
--              Streams: io/streams.rs and io/error.rs, the calls of a guest on the streams of its table;
--              Poll: `poll` of io/poll.rs, and Readiness: the two checks of `Pollable` that it makes
--   Filesystem filesystem/mod.rs: Methods (`Descriptor`), Open (`open_at`), Times, Errors; Sessions: what a
--              guest does with descriptors, in its children what it may reach
--   Engine     engine/mod.rs: Epoch (`Engine::new_store`), Resolve (`resolve_workload_import`) and in
--              Resolve/Passes `resolve_imports` and the passes of `apply_manifest` over the workloads
--              Workload: `lower` and `lift` of workload/value.rs, and `handle_workload_import`;
--              Instances: `handle_workload` and `invoke`, the pool of instances and the permits
--   Redis      examples/rust/redis/src: database.rs in Commands, Sink (`CommandSink`), Stream (`FrameStream`)
--              and Pool (with pool.rs); resp3.rs: Values
--   Tests      the theorems at concrete inputs
--
-- A function keeps the name of the Rust function, and a type that of the Rust type. A method that
-- changes `self` or the world outside returns what is left of both, beside its result. `World` is all
-- that lies outside the program; tokio, rustix and the standard library's sockets are fields of the
-- records `Os`, `Transport`, `TcpOs`, `Probe`, `UdpOs`, `Sockopt`, `Channel`, `BodyOs`, `HeaderLib`,
-- `UriLib`, `Wasmtime`, `Table`, `SinkOs`, `StreamOs`, `Decoder` and `SocketOs`, and what is relied on of
-- them is named by the records `IsPrompt`, `IsFaithful`, `IsLive`, `IsServed`, `IsSteady`, `TracksPeer`,
-- `Delivers`, `Drains`, `IsMap`, `KeepsValues`, `IsLinux`, `IsPrefix`, `KeepsOutputs`, `ParsesBack` and
-- `KeepsSeconds`. An
-- object behind an `Arc` is a handle.
--
-- Numbers are natural numbers; a conversion that may fail or saturate, and an addition that is
-- checked, is written out with the width it has. A `usize` has 64 bits, in a component 32, and the target
-- is Linux: the branches for macOS and Windows are left out. An `await` in a loop takes fuel; the theorems on those
-- loops state which fuel is enough, which is one more than the bytes to send and the number of times
-- that the transport may make the caller wait. The rounds of `apply_manifest` take fuel too, as much as
-- there are workloads; the loop that decodes frames takes one more than the bytes it has. What `poll` reads at each turn of its loop and each time that it is woken is a
-- list, at whose end the model stops.
--
-- Not modelled: the configuration, the command line, the loading of plugins, and what only passes a
-- call on to a library (clocks, random numbers, the HTTP client).
pub mod Base
pub mod Sockets
pub mod Http
pub mod Io
pub mod Filesystem
pub mod Engine
pub mod Redis
pub mod Tests
