-- ===== src/Http/ResponseBody/Complete.antt =====
-- `OutgoingResponseBody` of http/body.rs over a channel that holds what the guest has sent, and whose
-- senders are gone.
use wasmx.Base.{
  ℕ, zero, suc, ◌+◌, ◌≤◌, ◌≡◌, ◌∙◌, ap, refl, List, [], ◌∷◌, Option, none, some, ok, err, pending,
  ready, arith, length, u64_max,
}
use mathlib.Core.Option
use wasmx.Io.{Handle}
use wasmx.Http.ResponseBody.{
  Channel, OutgoingResponseBody, content_length, new, count_bytes, emit, finish, receive,
  poll_frame,
}

-- `mpsc::Receiver`, once every sender is gone: it gives what is queued, in order, and then the end.
pub record Drains {World : Type 0} (channel : Channel World) : Type 1 where
  pub IsClosed : Handle → World → Type 0
  pub queued : Handle → World → List (List ℕ)
  pub takes :
      (rx : Handle) (w : World) (chunk : List ℕ) (chunks : List (List ℕ))
      → IsClosed rx w
      → queued rx w ≡ chunk ∷ chunks
      → let (r, w') = channel.poll_recv rx w in
        (r ≡ ready (some chunk)) × IsClosed rx w' × (queued rx w' ≡ chunks)
  pub ends :
      (rx : Handle) (w : World)
      → IsClosed rx w
      → queued rx w ≡ []
      → (channel.poll_recv rx w).0 ≡ ready none

unfoldable pub total : List (List ℕ) → ℕ
total [] = 0
total (chunk ∷ chunks) = length chunk + total chunks

abbrev halfway : Handle → ℕ → ℕ → OutgoingResponseBody
halfway rx limit sent = record {
  contents = some rx;
  buffer = [];
  content_length = some (record { limit = limit; sent = sent });
}

count_bytes-fits :
    (limit sent n : ℕ)
    → sent + n ≤ limit
    → limit ≤ u64_max
    → count_bytes (record { limit = limit; sent = sent }) n
      ≡ ok (record { limit = limit; sent = sent + n })
unfolding count_bytes
count_bytes-fits limit sent n fits bound = ground arith

module _ {World : Type 0} (channel : Channel World) where
  -- The data frames of a body that is polled to its end, at most so often; nothing where it fails, waits or goes
  -- on.
  unfoldable pub collect : ℕ → OutgoingResponseBody → World → Option (List (List ℕ))
  collect zero b w = none
  collect (suc polls) b w =
      let (r, b', w') = poll_frame channel b w in
      let rest = collect polls b' w' in
      elim r [
        | pending ↦ none
        | ready none ↦ some []
        | ready (some (ok frame)) ↦ Option.map (λ frames. frame ∷ frames) rest
        | ready (some (err e)) ↦ none
      ]

  module _ (drains : Drains channel) where
    poll_frame-fits :
        (rx limit sent : ℕ) (chunk : List ℕ) (w : World)
        → sent + length chunk ≤ limit
        → limit ≤ u64_max
        → (channel.poll_recv rx w).0 ≡ ready (some chunk)
        → poll_frame channel (halfway rx limit sent) w ≡ (
          ready (some (ok chunk)),
          halfway rx limit (sent + length chunk),
          (channel.poll_recv rx w).1,
        )
    unfolding poll_frame receive emit
    poll_frame-fits rx limit sent chunk w fits bound e =
        rw (e, poll_frame, receive, count_bytes-fits limit sent (length chunk) fits bound, emit)
          refl

    poll_frame-end :
        (rx limit : ℕ) (w : World)
        → (channel.poll_recv rx w).0 ≡ ready none
        → (poll_frame channel (halfway rx limit limit) w).0 ≡ ready none
    unfolding poll_frame receive finish
    poll_frame-end rx limit w e = rw (e, poll_frame, receive) (ground arith)

    collect-more :
        (polls : ℕ) (b b' : OutgoingResponseBody) (w w' : World) (frame : List ℕ)
        → poll_frame channel b w ≡ (ready (some (ok frame)), b', w')
        → collect (suc polls) b w ≡ Option.map (λ frames. frame ∷ frames) (collect polls b' w')
    unfolding collect
    collect-more polls b b' w w' frame e =
        rw (ap (λ p. p.0) e, collect)
          (ap (λ p. Option.map (λ frames. frame ∷ frames) (collect polls p.1 p.2)) e)

    collect-end :
        (polls : ℕ) (b : OutgoingResponseBody) (w : World)
        → (poll_frame channel b w).0 ≡ ready none
        → collect (suc polls) b w ≡ some []
    unfolding collect
    collect-end polls b w e = rw (e, collect) refl

    collect-rest :
        (rx limit : ℕ) (chunks : List (List ℕ)) (sent : ℕ) (w : World)
        → drains.IsClosed rx w
        → drains.queued rx w ≡ chunks
        → sent + total chunks ≡ limit
        → limit ≤ u64_max
        → collect (suc (length chunks)) (halfway rx limit sent) w ≡ some chunks
    unfolding total
    collect-rest rx limit [] sent w c q whole bound =
        let e : sent ≡ limit = omega arith in
        rw e (
          collect-end 0 (halfway rx limit limit) w
            (poll_frame-end rx limit w (drains.ends rx w c q)))
    collect-rest rx limit (chunk ∷ chunks) sent w c q whole bound =
        let (e, c', q') = drains.takes rx w chunk chunks c q in
        let w' = (channel.poll_recv rx w).1 in
        collect-more (suc (length chunks)) (halfway rx limit sent)
          (halfway rx limit (sent + length chunk)) w w' chunk
          (poll_frame-fits rx limit sent chunk w (omega arith) bound e)
        ∙ ap (Option.map (λ frames. chunk ∷ frames))
            (collect-rest rx limit chunks (sent + length chunk) w' c' q' (omega arith) bound)

    -- Where a guest has sent chunks of exactly `limit` bytes in all and dropped its end, the body gives these
    -- chunks, each as it is and in order, and then its end, within a poll for each chunk and one more.
    pub collect-all :
        (rx limit : ℕ) (chunks : List (List ℕ)) (w : World)
        → drains.IsClosed rx w
        → drains.queued rx w ≡ chunks
        → total chunks ≡ limit
        → limit ≤ u64_max
        → collect (suc (length chunks)) (new rx [] (some (content_length limit))) w ≡ some chunks
    unfolding new
    collect-all rx limit chunks w c q whole bound =
        collect-rest rx limit chunks 0 w c q (omega arith) bound
