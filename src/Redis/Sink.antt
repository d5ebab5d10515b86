-- ===== src/Redis/Sink.antt =====
-- examples/rust/redis/src/database.rs: `CommandSink`, with an encoder of frames and an output stream. The component
-- runs on 32 bits.
pub mod Order
use wasmx.Base.{
  ℕ, Bool, true, List, [], ◌∷◌, ◌≡◌, Result, ok, err, ⊤, if◌then◌else◌, ◌==◌, min, length, take,
  drop, map, u32_max,
}
use wasmx.Redis.{BytesFrame}
use wasmx.Redis.Commands.{Command, from_command}

-- `extend_encode` of the crate, on a buffer; and the output stream
pub record SinkOs : Type 1 where
  pub World : Type 0
  pub Failure : Type 0
  pub StreamError : Type 0
  pub extend_encode : List ℕ → BytesFrame → Result ⊤ Failure × List ℕ
  pub check_write : World → Result ℕ StreamError × World
  pub write : List ℕ → World → Result ⊤ StreamError × World

pub record CommandSink : Type 0 where
  pub buffer : List ℕ

module _ (os : SinkOs) where
  open os use {World, Failure, StreamError}

  -- the value that a call returns where it ends well
  abbrev pub returning : {A : Type 0} → A → Result ⊤ Failure → Result A Failure
  returning a (ok _) = ok a
  returning a (err e) = err e

  unfoldable pub feed : CommandSink → Command → Result Bool Failure × CommandSink
  feed s command =
      let (r, b) = os.extend_encode s.buffer (from_command command) in
      (returning true r, record { buffer = b })

  -- the loop of `feed_many`
  unfoldable pub encode_all : List ℕ → List BytesFrame → Result ⊤ Failure × List ℕ
  encode_all b [] = (ok tt, b)
  encode_all b (f ∷ fs) =
      let (r, b1) = os.extend_encode b f in elim r [ ok _ ↦ encode_all b1 fs | err e ↦ (err e, b1) ]

  unfoldable pub feed_many : CommandSink → List Command → Result ℕ Failure × CommandSink
  feed_many s commands =
      let n = min (length commands) u32_max in
      let (r, b) = encode_all s.buffer (take n (map from_command commands)) in
      (returning n r, record { buffer = b })

  unfoldable pub buffered_bytes : CommandSink → ℕ
  buffered_bytes s = min (length s.buffer) u32_max

  -- `write` with the permit of the stream
  unfoldable pub write_permitted :
      ℕ → CommandSink → World → Result ⊤ StreamError × CommandSink × World
  write_permitted permit s w =
      let n = min (min permit u32_max) (length s.buffer) in
      if n == 0
      then (ok tt, s, w)
      else (let (r, w1) = os.write (take n s.buffer) w in
          (r, record { buffer = drop n s.buffer }, w1))

  unfoldable pub write : CommandSink → World → Result ⊤ StreamError × CommandSink × World
  write s w =
      let (r, w1) = os.check_write w in
      elim r [ ok permit ↦ write_permitted permit s w1 | err e ↦ (err e, s, w1) ]
