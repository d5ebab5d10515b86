-- ===== src/Http/OutgoingBody.antt =====
-- crates/wasmlet/src/engine/wasi/http: `OutgoingBody` and `OutgoingBodySender` of body.rs, with the calls
-- on them in host/types.rs, `HostOutgoingBody` and the part of `HostResponseOutparam::set` on the body.
-- A body stands here as what its mutex holds; its place in the resource table is left out.
pub mod Handshake
pub mod Streams
use wasmx.Base.{ℕ, Option, none, some, Result, ok, err, ⊤, if◌then◌else◌}
use wasmx.Io.{Handle, OutputStream, ContentSender}
use wasmx.Io.Os.{Os, TryRecv}
use wasmx.Http.Errors.{ErrorCode}

-- `OutgoingBodySender`; `chunks` is its `data`
pub record BodySender : Type 0 where
  pub conn : Handle
  pub permits : Handle
  pub chunks : Handle
  pub trailers : Handle

pub data OutgoingBody : Type 0 where
  created : Option ℕ → Option BodySender → OutgoingBody
  pending : Handle → OutgoingBody
  trailers : Handle → Handle → OutgoingBody
  dropped finished corrupted : OutgoingBody

-- `std::sync::Mutex<OutgoingBody>`, as `try_lock` finds it
pub data BodyLock : Type 0 where
  contended poisoned : BodyLock
  holds : OutgoingBody → BodyLock

-- The `bail!`s of the calls.
pub data BodyTrap : Type 0 where
  lock_contended lock_poisoned was_dropped was_finished was_corrupted : BodyTrap
  already_set conn_contended bad_trailers : BodyTrap

abbrev pub content_sender : BodySender → ContentSender
content_sender s = record { conn = s.conn; permits = s.permits; chunks = s.chunks }

-- `OutputStream::Limited`, where there is a limit
abbrev pub limit_stream : Option ℕ → OutputStream → OutputStream
limit_stream none s = s
limit_stream (some budget) s = OutputStream.limited budget s

-- The channels of bodies: a new `oneshot` for a content sender, known by one handle at both ends; a send on
-- it, whose result is thrown away; and a send of trailers.
pub record BodyOs (os : Os) : Type 0 where
  pub oneshot : os.World → Handle × os.World
  pub send_content : Handle → ContentSender → os.World → os.World
  pub send_trailers : Handle → Option Handle → os.World → Result ⊤ ⊤ × os.World

module _ (os : Os) (bos : BodyOs os) where
  open os use {World}

  -- A call: the outer error or the result of the guest, the body and the world.
  abbrev pub Reply {ℓ κ} : Type ℓ → Type κ → Type (ℓ ⊔ κ)
  Reply A E = Result (Result A E) BodyTrap × BodyLock × World

  -- `HostOutgoingBody::write`
  unfoldable pub write : BodyLock → World → Reply OutputStream ⊤
  write contended w = (err lock_contended, contended, w)
  write poisoned w = (err lock_poisoned, poisoned, w)
  write (holds (created limit (some s))) w = (
    ok (ok (limit_stream limit (OutputStream.http_writing (content_sender s)))),
    holds (trailers s.conn s.trailers),
    w,
  )
  write (holds (created limit none)) w =
      let (h, w') = bos.oneshot w in
      (ok (ok (limit_stream limit (OutputStream.http_pending h))), holds (pending h), w')
  write (holds (pending h)) w = (ok (err tt), holds (pending h), w)
  write (holds (trailers conn tx)) w = (ok (err tt), holds (trailers conn tx), w)
  write (holds dropped) w = (err was_dropped, holds corrupted, w)
  write (holds finished) w = (err was_finished, holds corrupted, w)
  write (holds corrupted) w = (err was_corrupted, holds corrupted, w)

  -- the failure that a connection has reported, if it has
  abbrev pub reported : TryRecv ErrorCode → Result ⊤ ErrorCode
  reported (TryRecv.received e) = err e
  reported _ = ok tt

  -- `finish` once the trailers were sent, or not
  unfoldable pub finish_conn : Handle → Result ⊤ ⊤ × World → Reply ⊤ ErrorCode
  finish_conn conn (err _, w) =
      (ok (err (ErrorCode.internal_error (some "trailer receiver dropped"))), holds finished, w)
  finish_conn conn (ok _, w) =
      if os.conn_is_free conn w
      then (let (r, w') = os.conn_try_recv conn w in (ok (reported r), holds finished, w'))
      else (err conn_contended, holds finished, w)

  -- the arm of `finish` with a sender; trailers whose lock is poisoned are an error
  unfoldable pub finish_sent :
      Handle → Handle → Option (Result Handle ⊤) → World → Reply ⊤ ErrorCode
  unfolding finish_conn
  finish_sent conn tx none w = finish_conn conn (bos.send_trailers tx none w)
  finish_sent conn tx (some (ok h)) w = finish_conn conn (bos.send_trailers tx (some h) w)
  finish_sent conn tx (some (err _)) w = (err bad_trailers, holds finished, w)

  abbrev pub unsent : ErrorCode
  unsent = ErrorCode.internal_error (some "cannot finish an unsent body")

  -- `HostOutgoingBody::finish`
  unfoldable pub finish : Option (Result Handle ⊤) → BodyLock → World → Reply ⊤ ErrorCode
  unfolding finish_sent
  finish t contended w = (err lock_contended, contended, w)
  finish t poisoned w = (err lock_poisoned, poisoned, w)
  finish t (holds (created limit none)) w = (ok (err unsent), holds finished, w)
  finish t (holds (created limit (some s))) w = finish_sent s.conn s.trailers t w
  finish t (holds (pending h)) w = (ok (err unsent), holds finished, w)
  finish t (holds (trailers conn tx)) w = finish_sent conn tx t w
  finish t (holds dropped) w = (err was_dropped, holds finished, w)
  finish t (holds finished) w = (err was_finished, holds finished, w)
  finish t (holds corrupted) w = (err was_corrupted, holds finished, w)

  -- `HostOutgoingBody::drop`
  unfoldable pub drop : BodyLock → Result ⊤ BodyTrap × BodyLock
  drop contended = (err lock_contended, contended)
  drop poisoned = (err lock_poisoned, poisoned)
  drop (holds dropped) = (err was_dropped, holds dropped)
  drop (holds finished) = (err was_finished, holds dropped)
  drop (holds corrupted) = (err was_corrupted, holds dropped)
  drop (holds _) = (ok tt, holds dropped)

  -- `HostResponseOutparam::set`, on the body of the response
  unfoldable pub set : BodySender → BodyLock → World → Result ⊤ BodyTrap × BodyLock × World
  set s contended w = (err lock_contended, contended, w)
  set s poisoned w = (err lock_poisoned, poisoned, w)
  set s (holds (created limit (some t))) w = (err already_set, holds corrupted, w)
  set s (holds (trailers conn tx)) w = (err already_set, holds corrupted, w)
  set s (holds (created limit none)) w = (ok tt, holds (created limit (some s)), w)
  set s (holds (pending h)) w =
      (ok tt, holds (trailers s.conn s.trailers), bos.send_content h (content_sender s) w)
  set s (holds dropped) w = (ok tt, holds corrupted, w)
  set s (holds finished) w = (ok tt, holds corrupted, w)
  set s (holds corrupted) w = (err was_corrupted, holds corrupted, w)
