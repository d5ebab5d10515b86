-- ===== src/Redis/Stream/Loop.antt =====
-- The loop of `FrameStream::read` in database.rs: where it ends, and how it goes on with more bytes.
use mathlib.Core.List.{append_assoc, append-nil}
use mathlib.Core.Option.{some-injective}
use wasmx.Base.{
  ℕ, zero, suc, ◌<◌, ◌≡◌, refl, inl, inr, ◌⊎◌, ◌∙◌, sym, ap, subst, Bool, true, List, [], ◌∷◌, ◌++◌,
  Option, none, some, Result, ok, err, arith, length,
}
use wasmx.Redis.{Frame}
use wasmx.Redis.Stream.{
  Decoder, StreamOs, Codec, FrameStream, FrameStreamError, framed, codec_decode, decode_loop,
}

-- A decoder of the crate. It makes nothing of no bytes, and a frame of at least one. Its bytes are plain where it stands
-- between two replies and no reply in them is sent in chunks, which the third protocol allows: then a frame is made of
-- the first bytes, whatever follows them, and a decoder that has not all of a frame leaves everything as it was.
-- Of chunks nothing is said: they are taken from the bytes before there is a frame.
pub record IsPrefix {F E : Type 0} (d : Decoder F E) : Type 1 where
  pub empty : (c : d.State) → d.decode c [] ≡ (ok none, c, [])
  pub consumed :
      (c : d.State) (b : List ℕ) (f : F)
      → (d.decode c b).0 ≡ ok (some f)
      → length (d.decode c b).2 < length b
  pub IsPlain : d.State → List ℕ → Type 0
  pub plain_start : (c : d.State) (b more : List ℕ) → IsPlain c (b ++ more) → IsPlain c b
  pub plain_rest :
      (c : d.State) (b : List ℕ) (f : F)
      → IsPlain c b
      → (d.decode c b).0 ≡ ok (some f)
      → IsPlain (d.decode c b).1 (d.decode c b).2
  pub extended :
      (c : d.State) (b more : List ℕ) (f : F)
      → IsPlain c (b ++ more)
      → (d.decode c b).0 ≡ ok (some f)
      → d.decode c (b ++ more) ≡ (ok (some f), (d.decode c b).1, (d.decode c b).2 ++ more)
  pub waiting :
      (c : d.State) (b : List ℕ)
      → IsPlain c b
      → (d.decode c b).0 ≡ ok none
      → d.decode c b ≡ (ok none, c, b)

Answer-cases {ℓ} :
    {F E : Type ℓ} (r : Result (Option F) E)
    → ((f : F) × (r ≡ ok (some f))) ⊎ (r ≡ ok none) ⊎ ((e : E) × (r ≡ err e))
Answer-cases (ok (some f)) = inl (f, refl)
Answer-cases (ok none) = inr (inl refl)
Answer-cases (err e) = inr (inr (e, refl))

module _ (os : StreamOs) where
  -- The loop in small steps: from a codec and bytes to the frames made, the codec and the bytes left.
  pub data Decodes : Codec os → List ℕ → List Frame → Codec os → List ℕ → Type 0 where
    stop : (c : Codec os) (b : List ℕ) → codec_decode os c b ≡ (ok none, c, b) → Decodes c b [] c b
    step :
        (c d e : Codec os) (b r q : List ℕ) (f : Frame) (fs : List Frame)
        → codec_decode os c b ≡ (ok (some f), d, r)
        → Decodes d r fs e q
        → Decodes c b (f ∷ fs) e q

  module _ (p2 : IsPrefix os.resp2) (p3 : IsPrefix os.resp3) where
    -- The bytes are plain for the decoder that the codec holds.
    abbrev pub IsPlain : Codec os → List ℕ → Type 0
    IsPlain (Codec.resp2 c) b = p2.IsPlain c b
    IsPlain (Codec.resp3 c) b = p3.IsPlain c b

    pub IsPlain-start : (c : Codec os) (b more : List ℕ) → IsPlain c (b ++ more) → IsPlain c b
    IsPlain-start (Codec.resp2 c) b more h = p2.plain_start c b more h
    IsPlain-start (Codec.resp3 c) b more h = p3.plain_start c b more h

    -- The laws of the decoders, of the codec that holds one of them.
    pub codec-empty : (c : Codec os) → codec_decode os c [] ≡ (ok none, c, [])
    unfolding codec_decode
    codec-empty (Codec.resp2 c) = rw (p2.empty c) refl
    codec-empty (Codec.resp3 c) = rw (p3.empty c) refl

    framed-some :
        {F : Type 0} (k : F → Frame) (r : Result (Option F) os.Failure) (f : Frame)
        → framed os k r ≡ ok (some f)
        → (x : F) × (r ≡ ok (some x)) × (k x ≡ f)
    framed-some k (ok (some x)) f h = (x, refl, (let q = h in cc))
    framed-some k (ok none) f h = (let q = h in cc)
    framed-some k (err e) f h = (let q = h in cc)

    framed-none :
        {F : Type 0} (k : F → Frame) (r : Result (Option F) os.Failure)
        → framed os k r ≡ ok none
        → r ≡ ok none
    framed-none k (ok (some x)) h = (let q = h in cc)
    framed-none k (ok none) h = refl
    framed-none k (err e) h = (let q = h in cc)

    codec-consumed :
        (c d : Codec os) (b r : List ℕ) (f : Frame)
        → codec_decode os c b ≡ (ok (some f), d, r)
        → length r < length b
    unfolding codec_decode
    codec-consumed (Codec.resp2 c) d b r f h =
        let (x, e, k) = framed-some Frame.resp2 (os.resp2.decode c b).0 f (ap (λ z. z.0) h) in
        rw (sym (ap (λ z. z.2) h)) (p2.consumed c b x e)
    codec-consumed (Codec.resp3 c) d b r f h =
        let (x, e, k) = framed-some Frame.resp3 (os.resp3.decode c b).0 f (ap (λ z. z.0) h) in
        rw (sym (ap (λ z. z.2) h)) (p3.consumed c b x e)

    codec-rest :
        (c d : Codec os) (b r : List ℕ) (f : Frame)
        → IsPlain c b
        → codec_decode os c b ≡ (ok (some f), d, r)
        → IsPlain d r
    unfolding codec_decode
    codec-rest (Codec.resp2 c) d b r f pl h =
        let (x, e, k) = framed-some Frame.resp2 (os.resp2.decode c b).0 f (ap (λ z. z.0) h) in
        subst (λ z. IsPlain z.1 z.2) h (p2.plain_rest c b x pl e)
    codec-rest (Codec.resp3 c) d b r f pl h =
        let (x, e, k) = framed-some Frame.resp3 (os.resp3.decode c b).0 f (ap (λ z. z.0) h) in
        subst (λ z. IsPlain z.1 z.2) h (p3.plain_rest c b x pl e)

    codec-extended :
        (c d : Codec os) (b r more : List ℕ) (f : Frame)
        → IsPlain c (b ++ more)
        → codec_decode os c b ≡ (ok (some f), d, r)
        → codec_decode os c (b ++ more) ≡ (ok (some f), d, r ++ more)
    unfolding codec_decode
    codec-extended (Codec.resp2 c) d b r more f pl h =
        let (x, e, k) = framed-some Frame.resp2 (os.resp2.decode c b).0 f (ap (λ z. z.0) h) in
        rw (p2.extended c b more x pl e, k) (ap (λ z. (ok (some f), z.1, z.2 ++ more)) h)
    codec-extended (Codec.resp3 c) d b r more f pl h =
        let (x, e, k) = framed-some Frame.resp3 (os.resp3.decode c b).0 f (ap (λ z. z.0) h) in
        rw (p3.extended c b more x pl e, k) (ap (λ z. (ok (some f), z.1, z.2 ++ more)) h)

    codec-waiting :
        (c d : Codec os) (b r : List ℕ)
        → IsPlain c b
        → codec_decode os c b ≡ (ok none, d, r)
        → codec_decode os c b ≡ (ok none, c, b)
    unfolding codec_decode
    codec-waiting (Codec.resp2 c) d b r pl h =
        rw (p2.waiting c b pl (framed-none Frame.resp2 (os.resp2.decode c b).0 (ap (λ z. z.0) h)))
          refl
    codec-waiting (Codec.resp3 c) d b r pl h =
        rw (p3.waiting c b pl (framed-none Frame.resp3 (os.resp3.decode c b).0 (ap (λ z. z.0) h)))
          refl

    -- The loop takes the small steps, and comes to their end on enough fuel; so more bytes go on from there.
    pub decode_loop-Decodes :
        (fuel : ℕ) (c : Codec os) (b : List ℕ) (fs : List Frame) (s : FrameStream os)
        → IsPlain c b
        → decode_loop os fuel c b fs ≡ some (ok true, s)
        → (gs : List Frame) × Decodes c b gs s.codec s.buffer × (s.frames ≡ fs ++ gs)
    unfolding decode_loop
    decode_loop-Decodes zero c b fs s pl h = (let q = h in cc)
    decode_loop-Decodes (suc n) c b fs s pl h =
        let c1 = (codec_decode os c b).1 in
        let b1 = (codec_decode os c b).2 in
        elim (Answer-cases (codec_decode os c b).0) [
          | inl (f, e) ↦
              let q = ap (λ z. (z, c1, b1)) e in
              let (gs, t, k) =
                decode_loop-Decodes n c1 b1 (fs ++ f ∷ []) s (codec-rest c c1 b b1 f pl q)
                  (rw (e, decode_loop) at h) in
              (f ∷ gs, step c c1 s.codec b b1 s.buffer f gs q t, k ∙ append_assoc fs (f ∷ []) gs)
          | inr (inl e) ↦
              let q = rw (e, decode_loop) at h in
              let w = codec-waiting c c1 b b1 pl (ap (λ z. (z, c1, b1)) e) in
              let k : record { frames = fs; buffer = b; codec = c } ≡ s =
                ap (λ z. record { frames = fs; buffer = z.2; codec = z.1 }) (sym w)
                ∙ ap (λ z. z.1)
                    (some-injective (ok true, record { frames = fs; buffer = b1; codec = c1 })
                      (ok true, s) q) in
              subst
                (λ z. (gs : List Frame) × Decodes c b gs z.codec z.buffer × (z.frames ≡ fs ++ gs)) k
                ([], stop c b w, sym (append-nil fs))
          | inr (inr (x, e)) ↦ (let q = rw (e, decode_loop) at h in cc)
        ]

    pub Decodes-decode_loop :
        (fuel : ℕ) (c d : Codec os) (b r : List ℕ) (fs gs : List Frame)
        → Decodes c b gs d r
        → length b < fuel
        → decode_loop os fuel c b fs
          ≡ some (ok true, record { frames = fs ++ gs; buffer = r; codec = d })
    unfolding decode_loop
    Decodes-decode_loop zero _ _ _ _ fs _ (stop c b e) k = elim k [ ]
    Decodes-decode_loop (suc n) _ _ _ _ fs _ (stop c b e) k =
        rw (decode_loop, e, append-nil fs) (rw e refl)
    Decodes-decode_loop zero _ _ _ _ fs _ (step c d e b u r f gs h t) k = elim k [ ]
    Decodes-decode_loop (suc n) _ _ _ _ fs _ (step c d e b u r f gs h t) k =
        rw (decode_loop, h, sym (append_assoc fs (f ∷ []) gs))
          (rw h (
            Decodes-decode_loop n d e u r (fs ++ f ∷ []) gs t
              (omega (arith, codec-consumed c d b u f h))))

    pub Decodes-append :
        (c d e : Codec os) (b r q more : List ℕ) (gs hs : List Frame)
        → IsPlain c (b ++ more)
        → Decodes c b gs d r
        → Decodes d (r ++ more) hs e q
        → Decodes c (b ++ more) (gs ++ hs) e q
    Decodes-append _ _ e _ _ q more _ hs pl (stop c b h) k = k
    Decodes-append _ _ e _ _ q more _ hs pl (step c d x b r u f fs h t) k =
        let g = codec-extended c d b r more f pl h in
        step c d e (b ++ more) (r ++ more) q f (fs ++ hs) g (
          Decodes-append d x e r u q more fs hs (codec-rest c d (b ++ more) (r ++ more) f pl g) t k)

    -- Plain bytes are still plain where the loop has come to.
    pub Decodes-IsPlain :
        (c d : Codec os) (b r more : List ℕ) (gs : List Frame)
        → IsPlain c (b ++ more)
        → Decodes c b gs d r
        → IsPlain d (r ++ more)
    Decodes-IsPlain _ _ _ _ more _ pl (stop c b h) = pl
    Decodes-IsPlain _ _ _ _ more _ pl (step c d x b r u f fs h t) =
        Decodes-IsPlain d x r u more fs
          (codec-rest c d (b ++ more) (r ++ more) f pl (codec-extended c d b r more f pl h)) t

    -- On fuel of more than the number of the bytes the loop ends, with a frame stream and `true` or an error.
    pub decode_loop-ends :
        (fuel : ℕ) (c : Codec os) (b : List ℕ) (fs : List Frame)
        → length b < fuel
        → (r : Result Bool (FrameStreamError os)) × (s : FrameStream os) × (decode_loop os fuel c b
              fs
            ≡ some (r, s))
    unfolding decode_loop
    decode_loop-ends zero c b fs k = elim k [ ]
    decode_loop-ends (suc n) c b fs k =
        let c1 = (codec_decode os c b).1 in
        let b1 = (codec_decode os c b).2 in
        elim (Answer-cases (codec_decode os c b).0) [
          | inl (f, e) ↦
              rw (e, decode_loop)
                (decode_loop-ends n c1 b1 (fs ++ f ∷ [])
                  (omega (arith, codec-consumed c c1 b b1 f (ap (λ z. (z, c1, b1)) e))))
          | inr (inl e) ↦
              (ok true, record { frames = fs; buffer = b1; codec = c1 }, rw (e, decode_loop) refl)
          | inr (inr (x, e)) ↦ (
            err (FrameStreamError.decode x),
            record { frames = fs; buffer = b1; codec = c1 },
            rw (e, decode_loop) refl,
          )
        ]
