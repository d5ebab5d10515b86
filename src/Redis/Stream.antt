-- ===== src/Redis/Stream.antt =====
-- examples/rust/redis/src/database.rs: `Codec` and `FrameStream`, with the two decoders of the crate and an input stream.
-- The component runs on 32 bits. The loop of `read` takes fuel, one unit for each call of the decoder.
pub mod Loop
pub mod Pieces
use mathlib.Core.Option
use wasmx.Base.{
  ℕ, zero, suc, Bool, true, List, [], ◌∷◌, ◌++◌, Option, none, some, Result, ok, err, if◌then◌else◌,
  ◌==◌, min, length, take, drop, u32_max,
}
use wasmx.Redis.{Frame2, BytesFrame, Frame}

-- A `Decoder` of the crate: its state as it starts, and a call of it.
pub record Decoder (F E : Type 0) : Type 1 where
  pub State : Type 0
  pub default : State
  pub decode : State → List ℕ → Result (Option F) E × State × List ℕ

pub record StreamOs : Type 1 where
  pub World : Type 0
  pub Failure : Type 0
  pub StreamError : Type 0
  pub resp2 : Decoder Frame2 Failure
  pub resp3 : Decoder BytesFrame Failure
  pub read : ℕ → World → Result (List ℕ) StreamError × World

module _ (os : StreamOs) where
  open os use {World, Failure, StreamError}

  pub data Codec : Type 0 where
    resp2 : os.resp2.State → Codec
    resp3 : os.resp3.State → Codec

  pub data FrameStreamError : Type 0 where
    io : StreamError → FrameStreamError
    decode : Failure → FrameStreamError

  pub record FrameStream : Type 0 where
    pub frames : List Frame
    pub buffer : List ℕ
    pub codec : Codec

  -- `?` and `frame.map`
  abbrev pub framed :
      {F : Type 0} → (F → Frame) → Result (Option F) Failure → Result (Option Frame) Failure
  framed f (ok frame) = ok (Option.map f frame)
  framed f (err e) = err e

  -- `Decoder for Codec`
  unfoldable pub codec_decode : Codec → List ℕ → Result (Option Frame) Failure × Codec × List ℕ
  codec_decode (Codec.resp2 c) src =
      let (r, c1, b) = os.resp2.decode c src in (framed Frame.resp2 r, Codec.resp2 c1, b)
  codec_decode (Codec.resp3 c) src =
      let (r, c1, b) = os.resp3.decode c src in (framed Frame.resp3 r, Codec.resp3 c1, b)

  unfoldable pub new : FrameStream
  new = record { frames = []; buffer = []; codec = Codec.resp2 os.resp2.default }

  unfoldable pub use_resp2 : FrameStream → FrameStream
  use_resp2 s = elim s.codec [
    | Codec.resp2 _ ↦ s
    | Codec.resp3 _ ↦ record {
      frames = s.frames;
      buffer = s.buffer;
      codec = Codec.resp2 os.resp2.default;
    }
  ]

  unfoldable pub use_resp3 : FrameStream → FrameStream
  use_resp3 s = elim s.codec [
    | Codec.resp3 _ ↦ s
    | Codec.resp2 _ ↦ record {
      frames = s.frames;
      buffer = s.buffer;
      codec = Codec.resp3 os.resp3.default;
    }
  ]

  -- `pop_front`
  abbrev pub pop_front : List Frame → Option Frame × List Frame
  pop_front [] = (none, [])
  pop_front (f ∷ fs) = (some f, fs)

  unfoldable pub next : FrameStream → Option Frame × FrameStream
  next s =
      let (f, fs) = pop_front s.frames in
      (f, record { frames = fs; buffer = s.buffer; codec = s.codec })

  unfoldable pub next_many : FrameStream → ℕ → List Frame × FrameStream
  next_many s limit =
      let n = min limit (length s.frames) in
      (take n s.frames, record { frames = drop n s.frames; buffer = s.buffer; codec = s.codec })

  unfoldable pub buffered_frames : FrameStream → ℕ
  buffered_frames s = min (length s.frames) u32_max

  unfoldable pub unparsed_bytes : FrameStream → ℕ
  unparsed_bytes s = min (length s.buffer) u32_max

  -- the `while let` of `read`
  unfoldable pub decode_loop :
      ℕ → Codec → List ℕ → List Frame → Option (Result Bool FrameStreamError × FrameStream)
  unfolding codec_decode
  decode_loop zero c b fs = none
  decode_loop (suc fuel) c b fs =
      let (r, c1, b1) = codec_decode c b in
      elim r [
        | ok (some f) ↦ decode_loop fuel c1 b1 (fs ++ f ∷ [])
        | ok none ↦ some (ok true, record { frames = fs; buffer = b1; codec = c1 })
        | err e ↦
            some (err (FrameStreamError.decode e), record { frames = fs; buffer = b1; codec = c1 })
      ]

  unfoldable pub read :
      ℕ → FrameStream → World → Option (Result Bool FrameStreamError × FrameStream) × World
  read fuel s w =
      let (r, w1) = os.read 8096 w in
      elim r [
        | ok buf ↦ (decode_loop fuel s.codec (s.buffer ++ buf) s.frames, w1)
        | err e ↦ (some (err (FrameStreamError.io e), s), w1)
      ]

  -- `FrameStream::finish`
  unfoldable pub finish : FrameStream → Result (List Frame) ℕ
  finish s = if length s.buffer == 0 then ok s.frames else err (min (length s.buffer) u32_max)
