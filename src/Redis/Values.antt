-- ===== src/Redis/Values.antt =====
-- examples/rust/redis/src/resp3.rs: the values that a component is given for the frames of a reply.
pub mod Lossless
pub mod Replies
use wasmx.Base.{ℕ, Bool, List}
use wasmx.Redis.{
  VerbatimStringFormat, Frame2, Frames2, BytesFrame, BytesFrames, Pairs, Frame, resp2, resp3,
}

-- `resp3::VerbatimFormat` of redis/wit
pub data VerbatimFormat : Type 0 where
  markdown text : VerbatimFormat

-- `resp3::Value`; an `IndirectValue` is the value in it.
mutual
  pub data Value : Type 0 where
    blob_string simple_string simple_error blob_error big_number : List ℕ → Value
    number double : ℕ → Value
    null : Value
    boolean : Bool → Value
    verbatim_string : VerbatimFormat → List ℕ → Value
    array set : Values → Value
    map : Entries → Value

  pub data Values : Type 0 where
    nil : Values
    cons : Value → Values → Values

  pub data Entries : Type 0 where
    end : Entries
    entry : Value → Value → Entries → Entries

pub data FrameValue : Type 0 where
  value : Value → FrameValue
  push : Values → FrameValue

-- How a conversion ends: an error is that of an inner push, and `hello` and chunked strings are `todo!()`s.
pub data Converted (A : Type 0) : Type 0 where
  done : A → Converted A
  inner_push panics : Converted A

infixl 5 ◌>>=◌
abbrev pub ◌>>=◌ : {A B : Type 0} → Converted A → (A → Converted B) → Converted B
done a >>= f = f a
inner_push >>= f = inner_push
panics >>= f = panics

unfoldable pub from_format : VerbatimStringFormat → VerbatimFormat
from_format VerbatimStringFormat.text = VerbatimFormat.text
from_format VerbatimStringFormat.markdown = VerbatimFormat.markdown

unfoldable mutual
  -- `From<resp2::types::BytesFrame> for Value`
  pub from_resp2 : Frame2 → Value
  from_resp2 (Frame2.simple_string bytes) = Value.simple_string bytes
  from_resp2 (Frame2.error bytes) = Value.simple_error bytes
  from_resp2 (Frame2.integer n) = Value.number n
  from_resp2 (Frame2.bulk_string bytes) = Value.blob_string bytes
  from_resp2 (Frame2.array frames) = Value.array (from_resp2s frames)
  from_resp2 Frame2.null = Value.null

  pub from_resp2s : Frames2 → Values
  from_resp2s Frames2.nil = Values.nil
  from_resp2s (Frames2.cons f fs) = Values.cons (from_resp2 f) (from_resp2s fs)

unfoldable mutual
  -- `TryFrom<BytesFrame> for Value`
  pub try_from : BytesFrame → Converted Value
  try_from (BytesFrame.blob_string d) = done (Value.blob_string d)
  try_from (BytesFrame.blob_error d) = done (Value.blob_error d)
  try_from (BytesFrame.simple_string d) = done (Value.simple_string d)
  try_from (BytesFrame.simple_error d) = done (Value.simple_error d)
  try_from (BytesFrame.boolean b) = done (Value.boolean b)
  try_from BytesFrame.null = done Value.null
  try_from (BytesFrame.number n) = done (Value.number n)
  try_from (BytesFrame.double n) = done (Value.double n)
  try_from (BytesFrame.big_number d) = done (Value.big_number d)
  try_from (BytesFrame.verbatim_string f d) = done (Value.verbatim_string (from_format f) d)
  try_from (BytesFrame.array fs) = do vs ← try_froms fs; done (Value.array vs)
  try_from (BytesFrame.map ps) = do es ← try_pairs ps; done (Value.map es)
  try_from (BytesFrame.set fs) = do vs ← try_froms fs; done (Value.set vs)
  try_from BytesFrame.hello = panics
  try_from (BytesFrame.chunked_string d) = panics
  try_from (BytesFrame.push fs) = inner_push

  pub try_froms : BytesFrames → Converted Values
  try_froms BytesFrames.nil = done Values.nil
  try_froms (BytesFrames.cons f fs) = do v ← try_from f; vs ← try_froms fs; done (Values.cons v vs)

  pub try_pairs : Pairs → Converted Entries
  try_pairs Pairs.end = done Entries.end
  try_pairs (Pairs.pair k v ps) = do
    a ← try_from k
    b ← try_from v
    es ← try_pairs ps
    done (Entries.entry a b es)

-- `TryFrom<BytesFrame> for FrameValue`
unfoldable pub try_from_frame : BytesFrame → Converted FrameValue
unfolding try_from
try_from_frame (BytesFrame.push fs) = do vs ← try_froms fs; done (push vs)
try_from_frame frame = do v ← try_from frame; done (value v)

-- `into_value`, which is `TryFrom<Frame> for FrameValue`
unfoldable pub into_value : Frame → Converted FrameValue
unfolding from_resp2 try_from_frame
into_value (resp2 frame) = done (value (from_resp2 frame))
into_value (resp3 frame) = try_from_frame frame
