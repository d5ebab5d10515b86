-- ===== src/Redis.antt =====
-- examples/rust/redis/src: a client of redis as a component, with the frames of the crate `redis_protocol`. Bytes and
-- texts are lists of numbers; attributes of frames, which the client never sets and drops where it reads, are left
-- out.
pub mod Values
pub mod Commands
pub mod Sink
pub mod Stream
pub mod Pool
use Prim.Native.Char.{code}
use Prim.Native.String.{String}
use wasmx.Base.{ℕ, Bool, List, [], ◌∷◌}

-- The bytes of a text of ASCII.
abbrev pub bytes : String → List ℕ
bytes String.[] = []
bytes (String.◌∷◌ c s) = code c ∷ bytes s

pub data VerbatimStringFormat : Type 0 where
  text markdown : VerbatimStringFormat

-- `resp2::types::BytesFrame`; an integer is kept as its bits
mutual
  pub data Frame2 : Type 0 where
    simple_string error bulk_string : List ℕ → Frame2
    integer : ℕ → Frame2
    array : Frames2 → Frame2
    null : Frame2

  pub data Frames2 : Type 0 where
    nil : Frames2
    cons : Frame2 → Frames2 → Frames2

-- `resp3::types::BytesFrame`; numbers and doubles are kept as their bits
mutual
  pub data BytesFrame : Type 0 where
    blob_string blob_error simple_string simple_error big_number : List ℕ → BytesFrame
    boolean : Bool → BytesFrame
    null hello : BytesFrame
    number double : ℕ → BytesFrame
    verbatim_string : VerbatimStringFormat → List ℕ → BytesFrame
    chunked_string : List ℕ → BytesFrame
    array set push : BytesFrames → BytesFrame
    map : Pairs → BytesFrame

  pub data BytesFrames : Type 0 where
    nil : BytesFrames
    cons : BytesFrame → BytesFrames → BytesFrames

  pub data Pairs : Type 0 where
    end : Pairs
    pair : BytesFrame → BytesFrame → Pairs → Pairs

-- `database::Frame`
pub data Frame : Type 0 where
  resp2 : Frame2 → Frame
  resp3 : BytesFrame → Frame
