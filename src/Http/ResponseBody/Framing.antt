-- ===== src/Http/ResponseBody/Framing.antt =====
-- The frames of an `OutgoingResponseBody` of http/body.rs against its `Content-Length`.
use wasmx.Base.{
  ℕ, zero, suc, ◌+◌, ◌≤◌, ◌≡◌, refl, List, [], ◌∷◌, Option, none, some, Result, ok, err, Poll,
  pending, ready, arith, length, inl, inr, Result-cases, List-cases,
}
use wasmx.Base.{◌⊎◌, ap, subst}
use wasmx.Io.{Handle}
use wasmx.Http.Errors.{ErrorCode}
use wasmx.Http.ResponseBody.{
  ContentLength, Channel, OutgoingResponseBody, Frame, content_length, new, count_bytes, emit,
  finish, receive, poll_frame,
}

-- What a consumer has that polls until an error or the end: the bytes of the data frames before it.
received-cases :
    (p : Poll (Option (List ℕ)))
    → (p ≡ pending) ⊎ (p ≡ ready none) ⊎ ((chunk : List ℕ) × (p ≡ ready (some chunk)))
received-cases pending = inl refl
received-cases (ready none) = inr (inl refl)
received-cases (ready (some chunk)) = inr (inr (chunk, refl))

Frame-cases :
    (f : Frame)
    → (f ≡ pending)
      ⊎ (f ≡ ready none)
      ⊎ ((chunk : List ℕ) × (f ≡ ready (some (ok chunk))))
      ⊎ ((e : Option ErrorCode) × (f ≡ ready (some (err e))))
Frame-cases pending = inl refl
Frame-cases (ready none) = inr (inl refl)
Frame-cases (ready (some (ok chunk))) = inr (inr (inl (chunk, refl)))
Frame-cases (ready (some (err e))) = inr (inr (inr (e, refl)))

pub data Verdict : Type 0 where
  ended : ℕ → Verdict
  failed : ℕ → Option ErrorCode → Verdict
  unfinished : ℕ → Verdict

abbrev pub bytes : Verdict → ℕ
bytes (ended n) = n
bytes (failed n e) = n
bytes (unfinished n) = n

-- What a verdict means for a body of `limit` bytes.
pub IsFramed : ℕ → Verdict → Type 0
IsFramed limit (ended n) = n ≡ limit
IsFramed limit (failed n e) = n ≤ limit
IsFramed limit (unfinished n) = n ≤ limit

module _ {World : Type 0} (channel : Channel World) where
  -- At most `polls` polls of the body.
  unfoldable pub consume : ℕ → ℕ → OutgoingResponseBody → World → Verdict
  consume zero total b w = unfinished total
  consume (suc polls) total b w =
      let (f, b', w') = poll_frame channel b w in
      elim f [
        | pending ↦ consume polls total b' w'
        | ready none ↦ ended total
        | ready (some (ok chunk)) ↦ consume polls (total + length chunk) b' w'
        | ready (some (err e)) ↦ failed total e
      ]

  -- A body that has sent `total` of `limit` bytes, and was not at its end.
  pub record Owes (limit total : ℕ) (b : OutgoingResponseBody) : Type 0 where
    pub counted : b.content_length ≡ some (record { limit = limit; sent = total })
    pub within : total ≤ limit
    pub live : (rx : Handle) × (b.contents ≡ some rx)

  Answers : ℕ → ℕ → Frame × OutgoingResponseBody → Type 0
  Answers limit total (pending, b) = Owes limit total b
  Answers limit total (ready none, b) = total ≡ limit
  Answers limit total (ready (some (ok chunk)), b) = Owes limit (total + length chunk) b
  Answers limit total (ready (some (err e)), b) = Unit {0}

  -- The account of one chunk.
  Counts : ℕ → ℕ → ℕ → Result ContentLength (Option ℕ) → Type 0
  Counts limit total n (ok c) =
      (c ≡ record { limit = limit; sent = total + n }) × (total + n ≤ limit)
  Counts limit total n (err e) = Unit {0}

  count_bytes-Counts :
      (limit total n : ℕ)
      → Counts limit total n (count_bytes (record { limit = limit; sent = total }) n)
  unfolding count_bytes Counts
  count_bytes-Counts limit total n = ground arith

  counted_elim :
      (limit total n : ℕ) (c : ContentLength)
      → count_bytes (record { limit = limit; sent = total }) n ≡ ok c
      → Counts limit total n (ok c)
  counted_elim limit total n c e = subst (Counts limit total n) e (count_bytes-Counts limit total n)

  emit-Answers :
      (limit total : ℕ) (b : OutgoingResponseBody) (chunk : List ℕ)
      → Owes limit total b
      → Answers limit total (emit b chunk)
  unfolding emit Answers Counts
  emit-Answers limit total b chunk o =
      rw o.counted
        (elim (Result-cases (count_bytes (record { limit = limit; sent = total }) (length chunk))) [
          | inl (c, e) ↦
              rw (e, emit)
                (let (same, fits) = counted_elim limit total (length chunk) c e in
                  record { counted = ap some same; within = fits; live = o.live })
          | inr (n, e) ↦ rw (e, emit) tt
        ])

  finish-Answers :
      (limit total : ℕ) (b : OutgoingResponseBody)
      → Owes limit total b
      → Answers limit total (finish b)
  unfolding finish Answers
  finish-Answers limit total b o = rw o.counted (ground arith)

  Steps : ℕ → ℕ → Frame × OutgoingResponseBody × World → Type 0
  unfolding Answers
  Steps limit total (f, b, w) = Answers limit total (f, b)

  receive-Steps :
      (limit total : ℕ) (rx : Handle) (b : OutgoingResponseBody) (w : World)
      → Owes limit total b
      → Steps limit total (receive channel (some rx) b w)
  unfolding receive Steps Answers
  receive-Steps limit total rx b w o = elim (received-cases (channel.poll_recv rx w).0) [
    | inl e ↦ rw (e, receive) o
    | inr (inl e) ↦ rw (e, receive) (finish-Answers limit total b o)
    | inr (inr (chunk, e)) ↦ rw (e, receive) (emit-Answers limit total b chunk o)
  ]

  poll_frame-Steps :
      (limit total : ℕ) (b : OutgoingResponseBody) (w : World)
      → Owes limit total b
      → Steps limit total (poll_frame channel b w)
  unfolding poll_frame Steps
  poll_frame-Steps limit total b w o = elim (List-cases b.buffer) [
    | inl e ↦ simp (e, poll_frame, o.live.1) (receive-Steps limit total o.live.0 b w o)
    | inr (x, xs, e) ↦
        simp (e, poll_frame)
          (emit-Answers limit total (record b { buffer = [] }) (x ∷ xs)
            (record { counted = o.counted; within = o.within; live = o.live }))
  ]

  consume-Owes :
      (polls limit total : ℕ) (b : OutgoingResponseBody) (w : World)
      → Owes limit total b
      → IsFramed limit (consume polls total b w)
  unfolding consume IsFramed Steps Answers
  consume-Owes zero limit total b w o = o.within
  consume-Owes (suc polls) limit total b w o =
      let (f, b', w') = poll_frame channel b w in
      let said = poll_frame-Steps limit total b w o in
      elim (Frame-cases f) [
        | inl e ↦
            rw (e, consume)
              (consume-Owes polls limit total b' w'
                (subst (λ f. Answers limit total (f, b')) e said))
        | inr (inl e) ↦ rw (e, consume) (subst (λ f. Answers limit total (f, b')) e said)
        | inr (inr (inl (c, e))) ↦
            rw (e, consume)
              (consume-Owes polls limit (total + length c) b' w'
                (subst (λ f. Answers limit total (f, b')) e said))
        | inr (inr (inr (n, e))) ↦ rw (e, consume) o.within
      ]

  -- A response body with a `Content-Length` that the server polls: whatever the guest sends and
  -- whatever was buffered, its end is reported only after data frames of exactly that many bytes,
  -- and the frames before an error, or before the last poll, never hold more.
  pub consume-IsFramed :
      (polls limit : ℕ) (rx : Handle) (buffer : List ℕ) (w : World)
      → IsFramed limit (consume polls 0 (new rx buffer (some (content_length limit))) w)
  unfolding new
  consume-IsFramed polls limit rx buffer w =
      consume-Owes polls limit 0 (new rx buffer (some (content_length limit))) w
        (record { counted = refl; within = ground arith; live = (rx, refl) })
