-- ===== src/Io/Input.antt =====
-- The operations of `InputStream` in crates/wasmlet/src/engine/wasi/io/mod.rs, and the two of
-- `OutputStream` that read from one. A loop that waits takes fuel, a unit for each attempt to read.
pub mod Bounds
use mathlib.Core.Option
use Prim.Native.String.{String}
use wasmx.Base.{
  ℕ, zero, suc, List, [], ◌∷◌, Option, none, some, Result, ok, err, ⊤, leb, ◌==◌, min,
  if◌then◌else◌, length, take, u64_max,
}
use wasmx.Sockets.Errors.{IoError, from_io_error}
use wasmx.Http.Errors as HttpErrors
use wasmx.Io.{
  Handle, Error, InputStream, OutputStream, Pollable, Outcome, fail, trap, is_would_block,
  max_buffer_size,
}
use wasmx.Io.Os.{Os, Transport}
use wasmx.Io.Output.{check_write, write}
use wasmx.Io.Blocking.{blocking_write_and_flush, socket_failed, Waited}

abbrev pub read_buffer_size : ℕ → ℕ
read_buffer_size len = min (if leb len u64_max then len else max_buffer_size) max_buffer_size

-- `wasi::http::ErrorCode::InternalError(Some("not supported yet".into()))`
abbrev pub unsupported {ℓ} : {A : Type ℓ} → Outcome A
unsupported =
    fail (some (Error.http (HttpErrors.ErrorCode.internal_error (some "not supported yet"))))

-- `Ok(n)` of an attempt into a buffer of `len` bytes, cut to the bytes read
abbrev pub socket_read : ℕ → List ℕ → Outcome (List ℕ)
socket_read len [] = if len == 0 then Outcome.ok [] else fail none
socket_read len (b ∷ bs) = Outcome.ok (take len (b ∷ bs))

abbrev pub count_bytes {ℓ} : {W : Type ℓ} → Outcome (List ℕ) × W → Outcome ℕ × W
count_bytes (Outcome.ok buf, w) = (Outcome.ok (length buf), w)
count_bytes (fail e, w) = (fail e, w)
count_bytes (trap t, w) = (trap t, w)

module _ {W : Type 0} (t : Transport W) where
  -- the arms of `read` for a socket, with a buffer of `len` bytes
  unfoldable pub read_socket : Handle → ℕ → W → Outcome (List ℕ) × W
  read_socket h len w =
      let (r, w') = t.try_read h len w in
      elim r [
        | ok bs ↦ (socket_read len bs, w')
        | err e ↦ if is_would_block e then (Outcome.ok [], w') else (socket_failed e, w')
      ]

  -- the `loop` of `blocking_read` for a socket
  unfoldable pub read_loop : ℕ → Handle → ℕ → W → Option (Outcome (List ℕ) × W)
  read_loop zero h len w = none
  read_loop (suc fuel) h len w =
      let (r, w1) = t.try_read h len w in
      elim r [
        | ok bs ↦ some (socket_read len bs, w1)
        | err e ↦
            (let (q, w2) = t.readable h w1 in
              let waited : Option (Outcome (List ℕ) × W) = elim q [
                | ok _ ↦ read_loop fuel h len w2
                | err e' ↦ some (socket_failed e', w2)
              ] in
              if is_would_block e then waited else some (socket_failed e, w1))
      ]

module _ (os : Os) where
  open os use {World}

  unfoldable pub read : InputStream → ℕ → World → Outcome (List ℕ) × World
  read InputStream.empty len w = (fail none, w)
  read (InputStream.tcp_stream h) len w = read_socket os.tcp h (read_buffer_size len) w
  read (InputStream.udp_socket h) len w = read_socket os.udp h (read_buffer_size len) w
  read (InputStream.http h) len w = (unsupported, w)

  unfoldable pub blocking_read : ℕ → InputStream → ℕ → World → Option (Outcome (List ℕ) × World)
  blocking_read fuel InputStream.empty len w = some (fail none, w)
  blocking_read fuel (InputStream.tcp_stream h) len w =
      read_loop os.tcp fuel h (read_buffer_size len) w
  blocking_read fuel (InputStream.udp_socket h) len w =
      read_loop os.udp fuel h (read_buffer_size len) w
  blocking_read fuel (InputStream.http h) len w = some (unsupported, w)

  unfoldable pub skip : InputStream → ℕ → World → Outcome ℕ × World
  skip s len w = count_bytes (read s len w)

  unfoldable pub blocking_skip : ℕ → InputStream → ℕ → World → Option (Outcome ℕ × World)
  blocking_skip fuel s len w = Option.map count_bytes (blocking_read fuel s len w)

  -- The last step of a splice: `buf` was read, and is written.
  abbrev pub spliced : ℕ → Outcome ⊤ × OutputStream × World → Outcome ℕ × OutputStream × World
  spliced n (Outcome.ok u, s, w) = (Outcome.ok n, s, w)
  spliced n (fail e, s, w) = (fail e, s, w)
  spliced n (trap t, s, w) = (trap t, s, w)

  unfoldable pub splice_read :
      OutputStream → Outcome (List ℕ) × World → Outcome ℕ × OutputStream × World
  splice_read s (Outcome.ok buf, w) = spliced (length buf) (write os s buf w)
  splice_read s (fail e, w) = (fail e, s, w)
  splice_read s (trap t, w) = (trap t, s, w)

  unfoldable pub splice_checked :
      InputStream → ℕ → Outcome ℕ × OutputStream × World → Outcome ℕ × OutputStream × World
  splice_checked src len (Outcome.ok n, s, w) = splice_read s (read src (min n len) w)
  splice_checked src len (fail e, s, w) = (fail e, s, w)
  splice_checked src len (trap t, s, w) = (trap t, s, w)

  unfoldable pub splice : OutputStream → InputStream → ℕ → World → Outcome ℕ × OutputStream × World
  splice s src len w = splice_checked src len (check_write os s w)

  unfoldable pub blocking_splice_read :
      ℕ → OutputStream → Outcome (List ℕ) × World → Option (Outcome ℕ × OutputStream × World)
  blocking_splice_read fuel s (Outcome.ok buf, w) =
      Option.map (spliced (length buf)) (blocking_write_and_flush os fuel s buf w)
  blocking_splice_read fuel s (fail e, w) = some (fail e, s, w)
  blocking_splice_read fuel s (trap t, w) = some (trap t, s, w)

  unfoldable pub blocking_splice :
      ℕ → OutputStream → InputStream → ℕ → World → Option (Outcome ℕ × OutputStream × World)
  blocking_splice fuel s src len w =
      Option.bind (blocking_read fuel src len w) (blocking_splice_read fuel s)

unfoldable pub subscribe : InputStream → Pollable
subscribe InputStream.empty = Pollable.ready
subscribe (InputStream.tcp_stream h) = Pollable.tcp_stream_readable h
subscribe (InputStream.udp_socket h) = Pollable.udp_socket_readable h
subscribe (InputStream.http h) = Pollable.ready
