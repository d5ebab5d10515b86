-- ===== src/Tests/Redis.antt =====
-- A client of redis with an encoder that writes the name of a command, decoders of frames of two bytes, an input stream of
-- a list of pieces and an output stream that takes three bytes at a time.
use wasmx.Base.{
  ℕ, ◌≡◌, ◌↔◌, refl, true, List, [], ◌∷◌, ◌++◌, Option, none, some, ap, ◌<◌, Result, ok, err, ⊤,
  arith, length,
}
use wasmx.Redis.{bytes, Frame2, Frames2, BytesFrame, BytesFrames, Frame}
use wasmx.Redis.Commands.{Command, from_command, from_ping, cmd}
use wasmx.Redis.Sink.{SinkOs, CommandSink, feed, feed_many, encode_all, write, write_permitted}
use wasmx.Redis.Sink.Order as Sink
use wasmx.Redis.Sink.Order.{IsFaithful, done, feeds, feeds_many, writes, encodings, Session-pending}
use wasmx.Redis.Stream.{
  Decoder, StreamOs, Codec, FrameStream, codec_decode, decode_loop, read, next,
}
use wasmx.Redis.Stream.Loop.{IsPrefix}
use wasmx.Redis.Stream.Pieces as Stream
use wasmx.Redis.Stream.Pieces.{start, reads, nexts, Session-decode_loop}
use wasmx.Redis.Values.{Value, Values, FrameValue, Converted, into_value}
use wasmx.Redis.Values.Replies.{as_resp3, reply_frame, into_value_iff}

abbrev name_of : BytesFrame → List ℕ
name_of (BytesFrame.array (BytesFrames.cons (BytesFrame.blob_string name) _)) = name
name_of _ = []

abbrev sink_os : SinkOs
sink_os = record {
  World = List ℕ;
  Failure = ⊤;
  StreamError = ⊤;
  extend_encode = λ b f. (ok tt, b ++ name_of f);
  check_write = λ w. (ok 3, w);
  write = λ b w. (ok tt, w ++ b);
}

abbrev faithful : IsFaithful sink_os
faithful = record {
  encoding = name_of;
  sent = λ w. w;
  encoded = λ b f e. refl;
  checked = λ w. refl;
  written = λ b w e. refl;
}

abbrev ping : Command
ping = Command.ping none

abbrev get_a : Command
get_a = Command.get (97 ∷ [])

-- The key stands before the value, and the channel before the message.
set_frame :
    from_command (Command.set (97 ∷ []) (98 ∷ []))
    ≡ BytesFrame.array (
        BytesFrames.cons (BytesFrame.blob_string (bytes "set")) (
          BytesFrames.cons
            (BytesFrame.blob_string (97 ∷ []))
            (BytesFrames.cons (BytesFrame.blob_string (98 ∷ [])) BytesFrames.nil)))
unfolding from_command cmd
set_frame = refl

publish_frame :
    from_command (Command.publish (97 ∷ []) (98 ∷ []))
    ≡ BytesFrame.array (
        BytesFrames.cons (BytesFrame.blob_string (bytes "publish")) (
          BytesFrames.cons
            (BytesFrame.blob_string (97 ∷ []))
            (BytesFrames.cons (BytesFrame.blob_string (98 ∷ [])) BytesFrames.nil)))
unfolding from_command cmd
publish_frame = refl

abbrev sink : List ℕ → CommandSink
sink b = record { buffer = b }

-- `ping` in a list, a write of three bytes, `get`, and a write again
abbrev calls :
    Sink.Session sink_os
      (sink [])
      []
      (ping ∷ get_a ∷ [])
      (sink (116 ∷ []))
      (112 ∷ 105 ∷ 110 ∷ 103 ∷ 103 ∷ 101 ∷ [])
unfolding feed feed_many encode_all write write_permitted from_command from_ping cmd
calls =
    feeds_many 1 (ping ∷ []) (get_a ∷ []) (sink []) (sink (bytes "ping")) (sink (116 ∷ [])) []
      (bytes "pingge") refl (omega arith)
      (writes (get_a ∷ []) (sink (bytes "ping")) (sink (103 ∷ [])) (sink (116 ∷ [])) []
        (bytes "pin") (bytes "pingge") refl
        (feeds get_a [] (sink (103 ∷ [])) (sink (bytes "gget")) (sink (116 ∷ [])) (bytes "pin")
          (bytes "pingge") refl
          (writes [] (sink (bytes "gget")) (sink (116 ∷ [])) (sink (116 ∷ [])) (bytes "pin")
            (bytes "pingge") (bytes "pingge") refl (done (sink (116 ∷ [])) (bytes "pingge")))))

Session-pending_example : bytes "pingget" ≡ encodings sink_os faithful (ping ∷ get_a ∷ [])
Session-pending_example =
    Session-pending sink_os faithful (ping ∷ get_a ∷ []) (sink []) (sink (116 ∷ [])) []
      (bytes "pingge") calls

-- A decoder of frames of two bytes.
abbrev decode_two : {F E : Type 0} → (ℕ → ℕ → F) → List ℕ → Result (Option F) E × ⊤ × List ℕ
decode_two k [] = (ok none, tt, [])
decode_two k (a ∷ []) = (ok none, tt, a ∷ [])
decode_two k (a ∷ b ∷ r) = (ok (some (k a b)), tt, r)

abbrev two : {F E : Type 0} → (ℕ → ℕ → F) → Decoder F E
two k = record { State = ⊤; default = tt; decode = λ s b. decode_two k b }

consumed_two :
    {F E : Type 0} (k : ℕ → ℕ → F) (b : List ℕ) (f : F)
    → (decode_two {E = E} k b).0 ≡ ok (some f)
    → length (decode_two {E = E} k b).2 < length b
consumed_two k [] f h = (let q = h in cc)
consumed_two k (a ∷ []) f h = (let q = h in cc)
consumed_two k (a ∷ b ∷ r) f h = omega arith

extended_two :
    {F E : Type 0} (k : ℕ → ℕ → F) (b more : List ℕ) (f : F)
    → (decode_two {E = E} k b).0 ≡ ok (some f)
    → decode_two {E = E} k (b ++ more)
      ≡ (ok (some f), (decode_two {E = E} k b).1, (decode_two {E = E} k b).2 ++ more)
extended_two k [] more f h = (let q = h in cc)
extended_two k (a ∷ []) more f h = (let q = h in cc)
extended_two k (a ∷ b ∷ r) more f h = ap (λ z. (z, tt, r ++ more)) h

waiting_two :
    {F E : Type 0} (k : ℕ → ℕ → F) (b : List ℕ)
    → (decode_two {E = E} k b).0 ≡ ok none
    → decode_two {E = E} k b ≡ (ok none, tt, b)
waiting_two k [] h = refl
waiting_two k (a ∷ []) h = refl
waiting_two k (a ∷ b ∷ r) h = (let q = h in cc)

abbrev prefix_two : {F E : Type 0} (k : ℕ → ℕ → F) → IsPrefix {F = F} {E = E} (two k)
prefix_two k = record {
  empty = λ c. refl;
  consumed = λ c. consumed_two k;
  IsPlain = λ c b. ⊤;
  plain_start = λ c b more h. tt;
  plain_rest = λ c b f h e. tt;
  extended = λ c b more f h. extended_two k b more f;
  waiting = λ c b h. waiting_two k b;
}

abbrev frame2 : ℕ → ℕ → Frame2
frame2 a b = Frame2.simple_string (a ∷ b ∷ [])

abbrev frame3 : ℕ → ℕ → BytesFrame
frame3 a b = BytesFrame.simple_string (a ∷ b ∷ [])

abbrev read_piece : List (List ℕ) → Result (List ℕ) ⊤ × List (List ℕ)
read_piece [] = (err tt, [])
read_piece (p ∷ ps) = (ok p, ps)

abbrev stream_os : StreamOs
stream_os = record {
  World = List (List ℕ);
  Failure = ⊤;
  StreamError = ⊤;
  resp2 = two frame2;
  resp3 = two frame3;
  read = λ n w. read_piece w;
}

abbrev codec : Codec stream_os
codec = Codec.resp2 tt

abbrev stream : List Frame → List ℕ → FrameStream stream_os
stream fs b = record { frames = fs; buffer = b; codec = codec }

abbrev frame : ℕ → ℕ → Frame
frame a b = Frame.resp2 (frame2 a b)

-- one byte, and then four with which two frames are whole, of which one is taken
abbrev reading :
    Stream.Session stream_os codec
      (1 ∷ 2 ∷ 3 ∷ 4 ∷ 5 ∷ [])
      (frame 1 2 ∷ [])
      (stream (frame 3 4 ∷ []) (5 ∷ []))
unfolding read decode_loop codec_decode next
reading =
    nexts (1 ∷ 2 ∷ 3 ∷ 4 ∷ 5 ∷ []) (frame 1 2) [] (stream (frame 1 2 ∷ frame 3 4 ∷ []) (5 ∷ []))
      (stream (frame 3 4 ∷ []) (5 ∷ []))
      (reads 6 (1 ∷ []) (2 ∷ 3 ∷ 4 ∷ 5 ∷ []) [] (stream [] (1 ∷ []))
        (stream (frame 1 2 ∷ frame 3 4 ∷ []) (5 ∷ [])) ((2 ∷ 3 ∷ 4 ∷ 5 ∷ []) ∷ []) []
        (reads 6 [] (1 ∷ []) [] (stream [] []) (stream [] (1 ∷ []))
          ((1 ∷ []) ∷ (2 ∷ 3 ∷ 4 ∷ 5 ∷ []) ∷ []) ((2 ∷ 3 ∷ 4 ∷ 5 ∷ []) ∷ []) start refl refl)
        refl refl)
      refl

Session-decode_loop_example :
    decode_loop stream_os 6 codec (1 ∷ 2 ∷ 3 ∷ 4 ∷ 5 ∷ []) []
    ≡ some (ok true, stream (frame 1 2 ∷ frame 3 4 ∷ []) (5 ∷ []))
Session-decode_loop_example =
    Session-decode_loop stream_os (prefix_two frame2) (prefix_two frame3) codec
      (1 ∷ 2 ∷ 3 ∷ 4 ∷ 5 ∷ []) (frame 1 2 ∷ []) (stream (frame 3 4 ∷ []) (5 ∷ [])) tt reading

-- the array of an error and an integer, in the second protocol
abbrev reply : Frame
reply = Frame.resp2 (
    Frame2.array
      (Frames2.cons (Frame2.error (1 ∷ [])) (Frames2.cons (Frame2.integer 7) Frames2.nil)))

abbrev reply_value : FrameValue
reply_value = FrameValue.value (
    Value.array
      (Values.cons (Value.simple_error (1 ∷ [])) (Values.cons (Value.number 7) Values.nil)))

into_value_iff_example :
    (into_value reply ≡ Converted.done reply_value) ↔ (as_resp3 reply ≡ reply_frame reply_value)
into_value_iff_example = into_value_iff reply reply_value
