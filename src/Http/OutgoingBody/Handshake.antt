-- ===== src/Http/OutgoingBody/Handshake.antt =====
-- The guest writes to a body before or after it sets the response.
use wasmx.Base.{ℕ, ◌≡◌, refl, Option, none, ok}
use wasmx.Io.{Handle, OutputStream, ContentSender}
use wasmx.Io.Os.{Os, TryRecv}
use wasmx.Io.Output.{check_write}
use wasmx.Http.OutgoingBody.{
  BodySender, created, holds, BodyOs, content_sender, limit_stream, write, set,
}

module _ (os : Os) (bos : BodyOs os) where
  -- tokio: what is sent on a `oneshot` is received.
  pub record Delivers : Type 0 where
    pub delivered :
        (h : Handle) (c : ContentSender) (w : os.World)
        → (os.body_try_recv h (bos.send_content h c w)).0 ≡ TryRecv.received c

  module _ (d : Delivers) where
    -- Whether the guest takes the stream of a body after the response was set or before: the body ends in
    -- the same state. The stream writes to the sender of the response, at once or, if it was taken
    -- before, from its next check on; both have the limit of the body.
    pub write-set :
        (limit : Option ℕ) (s : BodySender) (w : os.World)
        → let (_, early, w1) = set os bos s (holds (created limit none)) w in
          let (r1, l1, _) = write os bos early w1 in
          let (r2, late, w2) = write os bos (holds (created limit none)) w in
          let (_, l2, w3) = set os bos s late w2 in
          (l1 ≡ l2)
          × (r1 ≡ ok (ok (limit_stream limit (OutputStream.http_writing (content_sender s)))))
          × ((h : Handle) × (r2 ≡ ok (ok (limit_stream limit (OutputStream.http_pending h))))
              × ((check_write os (OutputStream.http_pending h) w3).1
                  ≡ OutputStream.http_writing (content_sender s)))
    unfolding write set check_write
    write-set limit s w = (
      refl,
      refl,
      (
        (bos.oneshot w).0,
        refl,
        rw (d.delivered (bos.oneshot w).0 (content_sender s) (bos.oneshot w).1, check_write) refl,
      ),
    )
