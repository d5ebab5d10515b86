-- ===== src/Http/ResponseBody.antt =====
-- crates/wasmlet/src/engine/wasi/http/body.rs: `ContentLength` and `OutgoingResponseBody`, the body of
-- a response that the guest writes, as the HTTP server polls it. A `usize` has 64 bits.
pub mod Framing
pub mod Complete
use wasmx.Base.{
  ℕ, ◌+◌, ◌-◌, Bool, true, false, List, [], ◌∷◌, Option, none, some, Result, ok, err, Poll, pending,
  ready, ltb, if◌then◌else◌, length, u64_max,
}
use wasmx.Io.{Handle}
use wasmx.Http.Errors.{ErrorCode}

pub record ContentLength : Type 0 where
  pub limit : ℕ
  pub sent : ℕ

-- `ContentLength::new`
abbrev pub content_length : ℕ → ContentLength
content_length limit = record { limit = limit; sent = 0 }

-- `mpsc::Receiver::poll_recv`: a chunk, or nothing once every sender is gone.
pub record Channel (World : Type 0) : Type 0 where
  pub poll_recv : Handle → World → Poll (Option (List ℕ)) × World

pub record OutgoingResponseBody : Type 0 where
  pub contents : Option Handle
  pub buffer : List ℕ
  pub content_length : Option ContentLength

unfoldable pub new : Handle → List ℕ → Option ContentLength → OutgoingResponseBody
new contents buffer content_length = record {
  contents = some contents;
  buffer = buffer;
  content_length = content_length;
}

abbrev pub Frame : Type 0
Frame = Poll (Option (Result (List ℕ) (Option ErrorCode)))

abbrev pub size_error : Option ℕ → Frame
size_error n = ready (some (err (some (ErrorCode.http_request_body_size n))))

-- The account of a chunk of `n` bytes: the new count, or the error.
unfoldable pub count_bytes : ContentLength → ℕ → Result ContentLength (Option ℕ)
count_bytes c n =
    if ltb u64_max n
    then err none
    else if ltb u64_max (c.sent + n)
    then err none
    else if ltb c.limit (c.sent + n)
    then err (some (c.sent + n))
    else ok (record c { sent = c.sent + n })

-- A chunk becomes a data frame, if its bytes can be accounted for.
unfoldable pub emit : OutgoingResponseBody → List ℕ → Frame × OutgoingResponseBody
unfolding count_bytes
emit b chunk = elim b.content_length [
  | none ↦ (ready (some (ok chunk)), b)
  | some c ↦ elim (count_bytes c (length chunk)) [
    | ok c' ↦ (ready (some (ok chunk)), record b { content_length = some c' })
    | err n ↦ (size_error n, b)
  ]
]

-- The guest has dropped its end: the count has to be the limit.
unfoldable pub finish : OutgoingResponseBody → Frame × OutgoingResponseBody
finish b =
    let b' = record b { contents = none } in
    elim b.content_length [
      | none ↦ (ready none, b')
      | some c ↦
          if ltb c.sent c.limit
          then (size_error (some c.sent), b')
          else if ltb c.limit c.sent
          then (size_error (some c.sent), b')
          else (ready none, b')
    ]

module _ {World : Type 0} (channel : Channel World) where
  unfoldable pub receive :
      Option Handle → OutgoingResponseBody → World → Frame × OutgoingResponseBody × World
  unfolding emit finish
  receive none b w = (ready none, b, w)
  receive (some rx) b w =
      let (r, w') = channel.poll_recv rx w in
      elim r [
        | pending ↦ (pending, b, w')
        | ready none ↦ (let (f, b') = finish b in (f, b', w'))
        | ready (some chunk) ↦ (let (f, b') = emit b chunk in (f, b', w'))
      ]

  -- `poll_frame`: what is buffered, then what the guest sends
  unfoldable pub poll_frame : OutgoingResponseBody → World → Frame × OutgoingResponseBody × World
  unfolding receive
  poll_frame b w = elim b.buffer [
    | [] ↦ receive b.contents b w
    | x ∷ xs ↦ (let (f, b') = emit (record b { buffer = [] }) (x ∷ xs) in (f, b', w))
  ]

unfoldable pub is_end_stream : OutgoingResponseBody → Bool
is_end_stream b = elim b.contents [ none ↦ true | some _ ↦ false ]

-- `size_hint`, where it is exact
unfoldable pub size_hint : OutgoingResponseBody → Option ℕ
size_hint b = elim b.content_length [ none ↦ none | some c ↦ some (c.limit - c.sent) ]
