-- ===== src/Redis/Stream/Pieces.antt =====
-- What a `FrameStream` of database.rs gives out, against the pieces in which its bytes arrive.
use mathlib.Core.List.{append_assoc}
use mathlib.Core.Option.{some-injective}
use wasmx.Base.{
  ℕ, suc, ◌<◌, ◌+◌, ◌≡◌, refl, inl, inr, ◌∙◌, sym, ap, Bool, true, List, [], ◌∷◌, ◌++◌, some,
  Result, ok, err, arith, length, min, take-append-drop, length-append, Result-cases, List-cases,
}
use wasmx.Redis.{Frame}
use wasmx.Redis.Stream.{
  StreamOs, Codec, FrameStream, FrameStreamError, next, next_many, decode_loop, read,
}
use wasmx.Redis.Stream.Loop.{
  IsPrefix, IsPlain, IsPlain-start, Decodes-IsPlain, Decodes, stop, codec-empty,
  decode_loop-Decodes, Decodes-decode_loop, Decodes-append, decode_loop-ends,
}

module _ (os : StreamOs) where
  -- The calls of a component on a stream that holds nothing and stands at the codec `c`: the bytes that have been read,
  -- the frames that have been taken, and the stream.
  pub data Session (c : Codec os) : List ℕ → List Frame → FrameStream os → Type 0 where
    start : Session c [] [] (record { frames = []; buffer = []; codec = c })
    reads :
        (fuel : ℕ) (bs buf : List ℕ) (gs : List Frame) (s t : FrameStream os) (w v : os.World)
        → Session c bs gs s
        → os.read 8096 w ≡ (ok buf, v)
        → read os fuel s w ≡ (some (ok true, t), v)
        → Session c (bs ++ buf) gs t
    nexts :
        (bs : List ℕ) (f : Frame) (gs : List Frame) (s t : FrameStream os)
        → Session c bs gs s
        → next os s ≡ (some f, t)
        → Session c bs (gs ++ f ∷ []) t
    nexts_many :
        (limit : ℕ) (bs : List ℕ) (hs gs : List Frame) (s t : FrameStream os)
        → Session c bs gs s
        → next_many os s limit ≡ (hs, t)
        → Session c bs (gs ++ hs) t

  module _ (p2 : IsPrefix os.resp2) (p3 : IsPrefix os.resp3) where
    -- `read` ends: on fuel of more than the bytes that it holds and those that the stream gives it, it returns.
    pub read-ends :
        (fuel : ℕ) (s : FrameStream os) (w : os.World)
        → ((buf : List ℕ) → (os.read 8096 w).0 ≡ ok buf → length s.buffer + length buf < fuel)
        → (r : Result Bool (FrameStreamError os)) × (t : FrameStream os) × (read os fuel s w
            ≡ (some (r, t), (os.read 8096 w).1))
    unfolding read
    read-ends fuel s w k = elim (Result-cases (os.read 8096 w).0) [
      | inl (buf, e) ↦
          let (r, t, q) =
            decode_loop-ends os p2 p3 fuel s.codec (s.buffer ++ buf) s.frames
              (omega (arith, k buf e, length-append s.buffer buf)) in
          (r, t, rw (e, read) (ap (λ z. (z, (os.read 8096 w).1)) q))
      | inr (x, e) ↦ (err (FrameStreamError.io x), s, rw (e, read) refl)
    ]

    read_lem :
        (fuel : ℕ) (buf : List ℕ) (s t : FrameStream os) (w v : os.World)
        → os.read 8096 w ≡ (ok buf, v)
        → read os fuel s w ≡ (some (ok true, t), v)
        → decode_loop os fuel s.codec (s.buffer ++ buf) s.frames ≡ some (ok true, t)
    unfolding read
    read_lem fuel buf s t w v e h = (let g = rw (e, read) at h in ap (λ z. z.0) g)

    -- `t` is `s` without the frames `hs` at the front.
    abbrev Takes : List Frame → FrameStream os → FrameStream os → Type 0
    Takes hs s t = (s.frames ≡ hs ++ t.frames) × (t.buffer ≡ s.buffer) × (t.codec ≡ s.codec)

    next-Takes : (f : Frame) (s t : FrameStream os) → next os s ≡ (some f, t) → Takes (f ∷ []) s t
    unfolding next
    next-Takes f s t h = elim (List-cases s.frames) [
      | inl e ↦ (let q = rw (e, next) at h in cc)
      | inr (x, xs, e) ↦
          let g = rw (e, next) at h in
          let i = some-injective x f (ap (λ z. z.0) g) in
          (
            e ∙ ap (λ z. z ∷ xs) i ∙ ap (λ z. f ∷ z.1.frames) g,
            sym (ap (λ z. z.1.buffer) g),
            sym (ap (λ z. z.1.codec) g),
          )
    ]

    next_many-Takes :
        (limit : ℕ) (hs : List Frame) (s t : FrameStream os)
        → next_many os s limit ≡ (hs, t)
        → Takes hs s t
    unfolding next_many
    next_many-Takes limit hs s t h =
        let n = min limit (length s.frames) in
        (
          sym (take-append-drop n s.frames) ∙ ap (λ z. z.0 ++ z.1.frames) h,
          sym (ap (λ z. z.1.buffer) h),
          sym (ap (λ z. z.1.codec) h),
        )

    Takes-Decodes :
        (c : Codec os) (bs : List ℕ) (gs hs : List Frame) (s t : FrameStream os)
        → Takes hs s t
        → Decodes os c bs (gs ++ s.frames) s.codec s.buffer
        → Decodes os c bs ((gs ++ hs) ++ t.frames) t.codec t.buffer
    Takes-Decodes c bs gs hs s t (e, i, j) d = rw (i, j, append_assoc gs hs t.frames, sym e) d

    Session-Decodes :
        (c : Codec os) (bs : List ℕ) (gs : List Frame) (s : FrameStream os)
        → IsPlain os p2 p3 c bs
        → Session c bs gs s
        → Decodes os c bs (gs ++ s.frames) s.codec s.buffer
    Session-Decodes c _ _ _ pl start = stop c [] (codec-empty os p2 p3 c)
    Session-Decodes c _ _ _ pl (reads fuel bs buf gs s t w v k e h) =
        let before = Session-Decodes c bs gs s (IsPlain-start os p2 p3 c bs buf pl) k in
        let (hs, d, q) =
          decode_loop-Decodes os p2 p3 fuel s.codec (s.buffer ++ buf) s.frames t
            (Decodes-IsPlain os p2 p3 c s.codec bs s.buffer buf (gs ++ s.frames) pl before)
            (read_lem fuel buf s t w v e h) in
        rw (q, sym (append_assoc gs s.frames hs))
          (Decodes-append os p2 p3 c s.codec t.codec bs s.buffer t.buffer buf (gs ++ s.frames) hs pl
            before d)
    Session-Decodes c _ _ _ pl (nexts bs f gs s t k h) =
        Takes-Decodes c bs gs (f ∷ []) s t (next-Takes f s t h) (Session-Decodes c bs gs s pl k)
    Session-Decodes c _ _ _ pl (nexts_many n bs hs gs s t k h) =
        Takes-Decodes c bs gs hs s t (next_many-Takes n hs s t h) (Session-Decodes c bs gs s pl k)

    -- Where no reply among the bytes read so far is sent in chunks, the frames that have been taken and then those that
    -- wait are those that the loop makes of all these bytes at once, on fuel of one more than their number; and it
    -- ends at the same codec with the same bytes left.
    pub Session-decode_loop :
        (c : Codec os) (bs : List ℕ) (gs : List Frame) (s : FrameStream os)
        → IsPlain os p2 p3 c bs
        → Session c bs gs s
        → decode_loop os (suc (length bs)) c bs []
          ≡ some (ok true, record { frames = gs ++ s.frames; buffer = s.buffer; codec = s.codec })
    Session-decode_loop c bs gs s pl k =
        Decodes-decode_loop os p2 p3 (suc (length bs)) c s.codec bs s.buffer [] (gs ++ s.frames)
          (Session-Decodes c bs gs s pl k) (omega arith)
