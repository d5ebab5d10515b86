-- ===== src/Io/Output.antt =====
-- The operations of `OutputStream` in crates/wasmlet/src/engine/wasi/io/mod.rs that do not wait, and
-- `OutgoingBodyContentSender::write` of http/body.rs. Each gives back the stream as it leaves it,
-- `*self`, and the world. On Linux; a `usize` has 64 bits.
pub mod Promise
use Prim.Native.String.{String}
use wasmx.Base.{
  ℕ, zero, suc, ◌-◌, Bool, true, false, List, Option, none, some, Result, ok, err, ⊤, min, ltb, leb,
  ◌==◌, not, if◌then◌else◌, length, replicate, u32_max, u64_max,
}
use wasmx.Sockets.Errors.{Errno, IoError, from_errno, from_io_error}
use wasmx.Sockets.Errors
use wasmx.Http.Errors as HttpErrors
use wasmx.Io.{
  Handle, Error, OutputStream, ContentSender, Pollable, Outcome, Trap, fail, trap, is_would_block,
}
use wasmx.Io.Os.{Os, StdStream, TryRecv, TryAcquire}

-- `OutputStream::is_terminal`, of a process whose standard streams are terminals or not
unfoldable pub is_terminal : (StdStream → Bool) → OutputStream → Bool
is_terminal tty OutputStream.stdout = tty StdStream.out
is_terminal tty OutputStream.stderr = tty StdStream.err
is_terminal tty _ = false

-- `Self::Limited` once the inner stream has written or refused
abbrev pub charge {ℓ} :
    {W : Type ℓ} → ℕ → ℕ → Outcome ⊤ × OutputStream × W → Outcome ⊤ × OutputStream × W
charge budget n (Outcome.ok u, s, w) = (Outcome.ok u, OutputStream.limited (budget - n) s, w)
charge budget n (fail e, s, w) = (fail e, OutputStream.limited budget s, w)
charge budget n (trap t, s, w) = (trap t, OutputStream.limited budget s, w)

-- `Self::Limited` once the inner stream has said how much it takes
abbrev pub within {ℓ} :
    {W : Type ℓ} → ℕ → Outcome ℕ × OutputStream × W → Outcome ℕ × OutputStream × W
within budget (Outcome.ok n, s, w) = (Outcome.ok (min n budget), OutputStream.limited budget s, w)
within budget (fail e, s, w) = (fail e, OutputStream.limited budget s, w)
within budget (trap t, s, w) = (trap t, OutputStream.limited budget s, w)

-- `wasi::http::ErrorCode::InternalError(Some("cannot write to unsent body".into()))`
abbrev pub unsent_body : Option Error
unsent_body =
    some (Error.http (HttpErrors.ErrorCode.internal_error (some "cannot write to unsent body")))

-- A write to a socket: `Ok(n)` short of the contents is an error.
abbrev pub socket_written : ℕ → Result ℕ IoError → Outcome ⊤
socket_written len (ok n) = if ltb n len then fail (some (Error.short_write n)) else Outcome.ok tt
socket_written len (err e) =
    if is_would_block e
    then fail (some (Error.sockets Errors.ErrorCode.would_block))
    else fail (some (Error.sockets (from_io_error e)))

abbrev pub std_written : Result ⊤ IoError → Outcome ⊤
std_written (ok _) = Outcome.ok tt
std_written (err e) = fail (some (Error.stdio e))

module _ (os : Os) where
  open os use {World}

  -- the arm `Self::HttpWriting` of `check_write`
  unfoldable pub check_write_http : ContentSender → World → Outcome ℕ × World
  check_write_http c w =
      if os.conn_is_free c.conn w
      then (let (r, w') = os.conn_try_recv c.conn w in
          elim r [
            | TryRecv.received e ↦ (fail (some (Error.http e)), w')
            | TryRecv.empty ↦ (Outcome.ok (min (os.available_permits c.permits w') u32_max), w')
            | TryRecv.closed ↦ (fail none, w')
          ])
      else (trap Trap.lock_contended, w)

  unfoldable pub check_write : OutputStream → World → Outcome ℕ × OutputStream × World
  unfolding check_write_http
  check_write OutputStream.discard w = (Outcome.ok u64_max, OutputStream.discard, w)
  check_write OutputStream.stdout w = (Outcome.ok u64_max, OutputStream.stdout, w)
  check_write OutputStream.stderr w = (Outcome.ok u64_max, OutputStream.stderr, w)
  check_write (OutputStream.tcp_stream h) w = elim (os.send_buffer_size h w) [
    | ok size ↦
        (Outcome.ok (if leb size u64_max then size else u64_max), OutputStream.tcp_stream h, w)
    | err e ↦ (fail (some (Error.sockets (from_errno e))), OutputStream.tcp_stream h, w)
  ]
  check_write (OutputStream.udp_socket h) w =
      (fail (some (Error.sockets Errors.ErrorCode.not_supported)), OutputStream.udp_socket h, w)
  check_write (OutputStream.limited zero s) w =
      (fail (some Error.write_budget_exceeded), OutputStream.limited zero s, w)
  check_write (OutputStream.limited (suc b) s) w = within (suc b) (check_write s w)
  check_write (OutputStream.http_pending rx) w =
      let (r, w1) = os.body_try_recv rx w in
      elim r [
        | TryRecv.received body ↦
            (let (o, w2) = check_write_http body w1 in (o, OutputStream.http_writing body, w2))
        | TryRecv.empty ↦ (fail unsent_body, OutputStream.http_pending rx, w1)
        | TryRecv.closed ↦ (fail none, OutputStream.http_pending rx, w1)
      ]
  check_write (OutputStream.http_writing body) w =
      let (o, w') = check_write_http body w in (o, OutputStream.http_writing body, w')
  check_write (OutputStream.tracing span) w = (Outcome.ok u64_max, OutputStream.tracing span, w)

  -- `OutgoingBodyContentSender::write`, once `n` permits were asked for
  unfoldable pub send_acquired : ContentSender → List ℕ → TryAcquire × World → Outcome ⊤ × World
  send_acquired c contents (TryAcquire.acquired, w) =
      let (r, w') = os.send_chunk c.chunks contents (length contents) w in
      elim r [ ok _ ↦ (Outcome.ok tt, w') | err _ ↦ (fail none, w') ]
  send_acquired c contents (TryAcquire.closed, w) = (fail none, w)
  send_acquired c contents (TryAcquire.no_permits, w) = (trap Trap.write_not_permitted, w)

  unfoldable pub write_http : ContentSender → List ℕ → World → Outcome ⊤ × World
  write_http c contents w =
      if os.conn_is_free c.conn w
      then (let (r, w1) = os.conn_try_recv c.conn w in
          elim r [
            | TryRecv.received e ↦ (fail (some (Error.http e)), w1)
            | TryRecv.empty ↦
                if ltb u32_max (length contents)
                then (trap Trap.content_length_overflow, w1)
                else send_acquired c contents (os.try_acquire_many c.permits (length contents) w1)
            | TryRecv.closed ↦ (fail none, w1)
          ])
      else (trap Trap.lock_contended, w)

  unfoldable pub write : OutputStream → List ℕ → World → Outcome ⊤ × OutputStream × World
  write OutputStream.discard contents w = (Outcome.ok tt, OutputStream.discard, w)
  write OutputStream.stdout contents w =
      let (r, w') = os.write_all StdStream.out contents w in
      (std_written r, OutputStream.stdout, w')
  write OutputStream.stderr contents w =
      let (r, w') = os.write_all StdStream.err contents w in
      (std_written r, OutputStream.stderr, w')
  write (OutputStream.tcp_stream h) contents w =
      let (r, w') = os.tcp.try_write h contents w in
      (socket_written (length contents) r, OutputStream.tcp_stream h, w')
  write (OutputStream.udp_socket h) contents w =
      let (r, w') = os.udp.try_write h contents w in
      (socket_written (length contents) r, OutputStream.udp_socket h, w')
  write (OutputStream.limited budget s) contents w =
      let inner = write s contents w in
      if ltb u64_max (length contents)
      then (fail (some Error.overflow), OutputStream.limited budget s, w)
      else if ltb budget (length contents)
      then (fail (some Error.write_budget_exceeded), OutputStream.limited budget s, w)
      else charge budget (length contents) inner
  write (OutputStream.http_pending rx) contents w =
      let (r, w1) = os.body_try_recv rx w in
      elim r [
        | TryRecv.received body ↦
            (let (o, w2) = write_http body contents w1 in (o, OutputStream.http_writing body, w2))
        | TryRecv.empty ↦ (fail (some Error.would_block), OutputStream.http_pending rx, w1)
        | TryRecv.closed ↦ (fail none, OutputStream.http_pending rx, w1)
      ]
  write (OutputStream.http_writing body) contents w =
      let (o, w') = write_http body contents w in (o, OutputStream.http_writing body, w')
  write (OutputStream.tracing span) contents w = (Outcome.ok tt, OutputStream.tracing span, w)

  -- `flush`, and `blocking_flush`, which awaits nothing else
  unfoldable pub flush : OutputStream → World → Outcome ⊤ × World
  flush OutputStream.stdout w = let (r, w') = os.flush_all StdStream.out w in (std_written r, w')
  flush OutputStream.stderr w = let (r, w') = os.flush_all StdStream.err w in (std_written r, w')
  flush (OutputStream.limited budget s) w = flush s w
  flush _ w = (Outcome.ok tt, w)

  -- `write_zeroes`; a length that is no `usize` cannot occur
  unfoldable pub write_zeroes : OutputStream → ℕ → World → Outcome ⊤ × OutputStream × World
  write_zeroes s len w = write s (replicate len 0) w

  unfoldable pub subscribe : OutputStream → World → Result Pollable Trap
  subscribe (OutputStream.tcp_stream h) w = ok (Pollable.tcp_stream_writable h)
  subscribe (OutputStream.udp_socket h) w = ok (Pollable.udp_socket_writable h)
  subscribe (OutputStream.limited zero s) w = ok Pollable.ready
  subscribe (OutputStream.limited (suc b) s) w = subscribe s w
  subscribe (OutputStream.http_writing c) w =
      if os.conn_is_free c.conn w
      then (if os.conn_is_empty c.conn w
          then ok (Pollable.semaphore c.permits)
          else ok Pollable.ready)
      else err Trap.lock_contended
  subscribe _ w = ok Pollable.ready
