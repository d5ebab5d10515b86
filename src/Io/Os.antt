-- ===== src/Io/Os.antt =====
-- What io/mod.rs calls of the standard library, tokio and rustix. `World` is all that lies outside
-- the program; a call that may change it, an `await` among them, returns the world after it.
use wasmx.Base.{ℕ, Bool, List, Result, ⊤, ◌≡◌, refl, ◌⊎◌, inl, inr}
use wasmx.Sockets.Errors.{Errno, IoError}
use wasmx.Http.Errors.{ErrorCode}
use wasmx.Io.{Handle, ContentSender}

-- `std::io::{Stdout, Stderr}`
pub data StdStream : Type 0 where
  out err : StdStream

-- `oneshot::Receiver::try_recv`
pub data TryRecv {ℓ} (A : Type ℓ) : Type ℓ where
  received : A → TryRecv A
  empty closed : TryRecv A

-- `Semaphore::try_acquire_many_owned`
pub data TryAcquire : Type 0 where
  acquired closed no_permits : TryAcquire

-- A transport that takes and gives bytes, a `TcpStream` or a connected `UdpSocket`: `try_write` or
-- `try_send`, `writable`, `try_read` or `try_recv` into a buffer of the given length, `readable`.
pub record Transport (World : Type 0) : Type 0 where
  pub try_write : Handle → List ℕ → World → Result ℕ IoError × World
  pub writable : Handle → World → Result ⊤ IoError × World
  pub try_read : Handle → ℕ → World → Result (List ℕ) IoError × World
  pub readable : Handle → World → Result ⊤ IoError × World

pub record Os : Type 1 where
  pub World : Type 0
  pub write_all : StdStream → List ℕ → World → Result ⊤ IoError × World
  pub flush_all : StdStream → World → Result ⊤ IoError × World
  pub send_buffer_size : Handle → World → Result ℕ Errno
  pub tcp : Transport World
  pub udp : Transport World
  -- the `oneshot` on which an `HttpPending` stream waits for its sender
  pub body_try_recv : Handle → World → TryRecv ContentSender × World
  -- the lock and the `oneshot` on which a connection reports its failure
  pub conn_is_free : Handle → World → Bool
  pub conn_try_recv : Handle → World → TryRecv ErrorCode × World
  pub conn_is_empty : Handle → World → Bool
  -- the permits of an outgoing body, one for each byte
  pub available_permits : Handle → World → ℕ
  pub try_acquire_many : Handle → ℕ → World → TryAcquire × World
  pub acquire_many : Handle → ℕ → World → Result ⊤ ⊤ × World
  -- the channel of chunks; the permits travel with the chunk, or are given back with a failure
  pub send_chunk : Handle → List ℕ → ℕ → World → Result ⊤ ⊤ × World

pub TryRecv-cases {ℓ} :
    {A : Type ℓ} (r : TryRecv A)
    → ((a : A) × (r ≡ TryRecv.received a)) ⊎ (r ≡ TryRecv.empty) ⊎ (r ≡ TryRecv.closed)
TryRecv-cases (TryRecv.received a) = inl (a, refl)
TryRecv-cases TryRecv.empty = inr (inl refl)
TryRecv-cases TryRecv.closed = inr (inr refl)
