-- ===== src/Io/Blocking.antt =====
-- The operations of `OutputStream` in io/mod.rs that wait, and
-- `OutgoingBodyContentSender::blocking_write_and_flush` of http/body.rs. The loops over a socket take
-- fuel, one unit for each attempt to write; `none` says that it ran out.
pub mod Delivery
use mathlib.Core.Option
use wasmx.Base.{
  ℕ, zero, suc, List, Option, none, some, Result, ok, err, ⊤, ltb, ◌==◌, if◌then◌else◌, length,
  drop, replicate, u32_max, u64_max,
}
use wasmx.Sockets.Errors.{IoError, from_io_error}
use wasmx.Io.{Handle, Error, OutputStream, ContentSender, Outcome, Trap, fail, trap, is_would_block}
use wasmx.Io.Os.{Os, StdStream, TryRecv, Transport}
use wasmx.Io.Output.{charge, std_written}

abbrev pub socket_failed {ℓ} : {A : Type ℓ} → IoError → Outcome A
socket_failed e = fail (some (Error.sockets (from_io_error e)))

module _ {W : Type 0} (t : Transport W) where
  -- the `loop` of `Self::TcpStream` and of `Self::UdpSocket`
  unfoldable pub write_loop : ℕ → Handle → List ℕ → W → Option (Outcome ⊤ × W)
  write_loop zero h contents w = none
  write_loop (suc fuel) h contents w =
      let (r, w1) = t.try_write h contents w in
      elim r [
        | ok n ↦
            (let rest = write_loop fuel h (drop n contents) w1 in
              if n == length contents
              then some (Outcome.ok tt, w1)
              else if ltb (length contents) n
              then some (trap Trap.slice_out_of_range, w1)
              else rest)
        | err e ↦
            (let (q, w2) = t.writable h w1 in
              let waited : Option (Outcome ⊤ × W) = elim q [
                | ok _ ↦ write_loop fuel h contents w2
                | err e' ↦ some (socket_failed e', w2)
              ] in
              if is_would_block e then waited else some (socket_failed e, w1))
      ]

module _ (os : Os) where
  open os use {World}

  -- `write_all`, then `flush`
  unfoldable pub write_all_and_flush : StdStream → List ℕ → World → Outcome ⊤ × World
  write_all_and_flush std contents w =
      let (r, w1) = os.write_all std contents w in
      elim r [
        | ok _ ↦ (let (q, w2) = os.flush_all std w1 in (std_written q, w2))
        | err e ↦ (fail (some (Error.stdio e)), w1)
      ]

  -- `OutgoingBodyContentSender::blocking_write_and_flush`
  unfoldable pub blocking_write_http : ContentSender → List ℕ → World → Outcome ⊤ × World
  blocking_write_http c contents w =
      if os.conn_is_free c.conn w
      then (let (r, w1) = os.conn_try_recv c.conn w in
          elim r [
            | TryRecv.received e ↦ (fail (some (Error.http e)), w1)
            | TryRecv.empty ↦
                if ltb u32_max (length contents)
                then (trap Trap.content_length_overflow, w1)
                else (let (a, w2) = os.acquire_many c.permits (length contents) w1 in
                    elim a [
                      | ok _ ↦
                          (let (q, w3) = os.send_chunk c.chunks contents (length contents) w2 in
                            elim q [ ok _ ↦ (Outcome.ok tt, w3) | err _ ↦ (fail none, w3) ])
                      | err _ ↦ (fail none, w2)
                    ])
            | TryRecv.closed ↦ (fail none, w1)
          ])
      else (trap Trap.lock_contended, w)

  abbrev pub Waited : Type 0
  Waited = Option (Outcome ⊤ × OutputStream × World)

  abbrev pub on_stream : OutputStream → Outcome ⊤ × World → Outcome ⊤ × OutputStream × World
  on_stream s (r, w) = (r, s, w)

  unfoldable pub blocking_write_and_flush : ℕ → OutputStream → List ℕ → World → Waited
  blocking_write_and_flush fuel OutputStream.discard contents w =
      some (Outcome.ok tt, OutputStream.discard, w)
  blocking_write_and_flush fuel OutputStream.stdout contents w =
      some (on_stream OutputStream.stdout (write_all_and_flush StdStream.out contents w))
  blocking_write_and_flush fuel OutputStream.stderr contents w =
      some (on_stream OutputStream.stderr (write_all_and_flush StdStream.err contents w))
  blocking_write_and_flush fuel (OutputStream.tcp_stream h) contents w =
      Option.map (on_stream (OutputStream.tcp_stream h)) (write_loop os.tcp fuel h contents w)
  blocking_write_and_flush fuel (OutputStream.udp_socket h) contents w =
      Option.map (on_stream (OutputStream.udp_socket h)) (write_loop os.udp fuel h contents w)
  blocking_write_and_flush fuel (OutputStream.limited budget s) contents w =
      let inner = blocking_write_and_flush fuel s contents w in
      if ltb u64_max (length contents)
      then some (fail (some Error.overflow), OutputStream.limited budget s, w)
      else if ltb budget (length contents)
      then some (fail (some Error.write_budget_exceeded), OutputStream.limited budget s, w)
      else Option.map (charge budget (length contents)) inner
  blocking_write_and_flush fuel (OutputStream.http_pending rx) contents w =
      let (r, w1) = os.body_try_recv rx w in
      elim r [
        | TryRecv.received body ↦
            some (on_stream (OutputStream.http_writing body) (blocking_write_http body contents w1))
        | TryRecv.empty ↦ some (fail (some Error.deadlock), OutputStream.http_pending rx, w1)
        | TryRecv.closed ↦ some (fail none, OutputStream.http_pending rx, w1)
      ]
  blocking_write_and_flush fuel (OutputStream.http_writing body) contents w =
      some (on_stream (OutputStream.http_writing body) (blocking_write_http body contents w))
  blocking_write_and_flush fuel (OutputStream.tracing span) contents w =
      some (Outcome.ok tt, OutputStream.tracing span, w)

  unfoldable pub blocking_write_zeroes_and_flush : ℕ → OutputStream → ℕ → World → Waited
  blocking_write_zeroes_and_flush fuel s len w = blocking_write_and_flush fuel s (replicate len 0) w
