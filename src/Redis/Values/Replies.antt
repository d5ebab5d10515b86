-- ===== src/Redis/Values/Replies.antt =====
-- The values of whole replies in resp3.rs, in both protocols.
use wasmx.Base.{◌≡◌, ◌↔◌, ◌⊎◌, inl, inr, refl, ◌∙◌, sym, ap}
use wasmx.Redis.{BytesFrame, BytesFrames, Frame, resp2, resp3}
use wasmx.Redis.Values.{
  Value, FrameValue, value, push, done, ◌>>=◌, from_resp2, try_from, try_froms, try_from_frame,
  into_value,
}
use wasmx.Redis.Values.Lossless.{
  to_frame, to_frames, upgrade, try_from-to_frame, try_froms-to_frames, to_frame-try_from,
  to_frames-try_froms, try_from-upgrade, done-injective, bind-done,
}

-- The frame of the third protocol that says what a frame says.
unfoldable pub as_resp3 : Frame → BytesFrame
as_resp3 (resp2 frame) = upgrade frame
as_resp3 (resp3 frame) = frame

-- The frame of a reply that is a value or a push.
unfoldable pub reply_frame : FrameValue → BytesFrame
reply_frame (value v) = to_frame v
reply_frame (push vs) = BytesFrame.push (to_frames vs)

-- A frame is converted as a value unless it is a push.
push-cases :
    (f : BytesFrame)
    → (try_from_frame f ≡ (try_from f >>= (λ v. done (value v))))
      ⊎ ((fs : BytesFrames) × (f ≡ BytesFrame.push fs))
unfolding try_from_frame
push-cases (BytesFrame.push fs) = inr (fs, refl)
push-cases (BytesFrame.blob_string d) = inl refl
push-cases (BytesFrame.blob_error d) = inl refl
push-cases (BytesFrame.simple_string d) = inl refl
push-cases (BytesFrame.simple_error d) = inl refl
push-cases (BytesFrame.big_number d) = inl refl
push-cases (BytesFrame.boolean b) = inl refl
push-cases BytesFrame.null = inl refl
push-cases BytesFrame.hello = inl refl
push-cases (BytesFrame.number n) = inl refl
push-cases (BytesFrame.double n) = inl refl
push-cases (BytesFrame.verbatim_string f d) = inl refl
push-cases (BytesFrame.chunked_string d) = inl refl
push-cases (BytesFrame.array fs) = inl refl
push-cases (BytesFrame.set fs) = inl refl
push-cases (BytesFrame.map ps) = inl refl

push-value : (fs : BytesFrames) (v : Value) → ¬ (try_from (BytesFrame.push fs) ≡ done v)
unfolding try_from
push-value fs v h = (let q = h in cc)

reply_frame-try_from_frame :
    (f : BytesFrame) (x : FrameValue) → try_from_frame f ≡ done x → f ≡ reply_frame x
unfolding try_from_frame reply_frame
reply_frame-try_from_frame f x h = elim (push-cases f) [
  | inl e ↦
      let (v, d, k) = bind-done (try_from f) (λ v. done (value v)) x (sym e ∙ h) in
      sym (to_frame-try_from f v d) ∙ ap reply_frame (done-injective (value v) x k)
  | inr (fs, e) ↦
      let (vs, d, k) =
        bind-done (try_froms fs) (λ vs. done (push vs)) x (ap try_from_frame (sym e) ∙ h) in
      e
      ∙ ap BytesFrame.push (sym (to_frames-try_froms fs vs d))
      ∙ ap reply_frame (done-injective (push vs) x k)
]

try_from_frame-reply_frame :
    (f : BytesFrame) (x : FrameValue) → f ≡ reply_frame x → try_from_frame f ≡ done x
unfolding try_from_frame reply_frame
try_from_frame-reply_frame f (value v) h = elim (push-cases f) [
  | inl e ↦ e ∙ ap (λ z. z >>= (λ y. done (value y))) (ap try_from h ∙ try_from-to_frame v)
  | inr (fs, e) ↦ elim (push-value fs v (ap try_from (sym e ∙ h) ∙ try_from-to_frame v)) [ ]
]
try_from_frame-reply_frame f (push vs) h = ap try_from_frame h ∙ rw (try_froms-to_frames vs) refl

into_value-as_resp3 : (f : Frame) → into_value f ≡ try_from_frame (as_resp3 f)
unfolding into_value as_resp3
into_value-as_resp3 (resp2 f) = elim (push-cases (upgrade f)) [
  | inl e ↦ sym (e ∙ ap (λ z. z >>= (λ v. done (value v))) (try_from-upgrade f))
  | inr (fs, e) ↦ elim (push-value fs (from_resp2 f) (ap try_from (sym e) ∙ try_from-upgrade f)) [ ]
]
into_value-as_resp3 (resp3 f) = refl

-- A frame of either protocol is converted to a value or a push exactly when it says what the frame of that reply says.
pub into_value_iff :
    (f : Frame) (x : FrameValue) → (into_value f ≡ done x) ↔ (as_resp3 f ≡ reply_frame x)
into_value_iff f x = (
  λ h. reply_frame-try_from_frame (as_resp3 f) x (sym (into_value-as_resp3 f) ∙ h),
  λ h. into_value-as_resp3 f ∙ try_from_frame-reply_frame (as_resp3 f) x h,
)
