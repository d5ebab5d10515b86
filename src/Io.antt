-- ===== src/Io.antt =====
-- crates/wasmlet/src/engine/wasi/io/mod.rs: the streams, their errors and what a call gives back.
-- A socket, channel, lock or semaphore behind an `Arc` is named by a handle.
pub mod Os
pub mod Output
pub mod Blocking
pub mod Input
pub mod Budget
pub mod Streams
pub mod Poll
pub mod Readiness
use wasmx.Base.{ℕ, Option, Bool, true, false}
use wasmx.Sockets.Errors.{IoError, ErrorKind}
use wasmx.Sockets.Errors
use wasmx.Http.Errors as HttpErrors

abbrev pub Handle : Type 0
Handle = ℕ

-- `MAX_BUFFER_SIZE`
abbrev pub max_buffer_size : ℕ
max_buffer_size = 8192

pub data Error : Type 0 where
  http : HttpErrors.ErrorCode → Error
  sockets : Errors.ErrorCode → Error
  overflow would_block write_budget_exceeded : Error
  short_write : ℕ → Error
  stdio : IoError → Error
  deadlock : Error

pub data InputStream : Type 0 where
  empty : InputStream
  tcp_stream udp_socket http : Handle → InputStream

-- `OutgoingBodyContentSender` of http/body.rs
pub record ContentSender : Type 0 where
  pub conn : Handle
  pub permits : Handle
  pub chunks : Handle

pub data OutputStream : Type 0 where
  discard stdout stderr : OutputStream
  tcp_stream udp_socket : Handle → OutputStream
  limited : ℕ → OutputStream → OutputStream
  http_pending : Handle → OutputStream
  http_writing : ContentSender → OutputStream
  tracing : Handle → OutputStream

pub data Pollable : Type 0 where
  tcp_socket tcp_stream_readable tcp_stream_writable : Handle → Pollable
  udp_socket_readable udp_socket_writable semaphore sleep : Handle → Pollable
  ready : Pollable

-- What ends the guest: the `bail!`s and the slice that panics.
pub data Trap : Type 0 where
  lock_contended content_length_overflow write_not_permitted invalid_length : Trap
  slice_out_of_range : Trap

-- `wasmtime::Result<Result<A, Option<Error>>>`: a value, the inner error or the outer one. An inner
-- `None` says that the stream is closed.
pub data Outcome {ℓ} (A : Type ℓ) : Type ℓ where
  ok : A → Outcome A
  fail : Option Error → Outcome A
  trap : Trap → Outcome A

-- `err.kind() == std::io::ErrorKind::WouldBlock`
abbrev pub is_would_block : IoError → Bool
is_would_block e = elim e.kind [ ErrorKind.would_block ↦ true | _ ↦ false ]
