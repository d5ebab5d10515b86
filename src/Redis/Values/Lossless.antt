-- ===== src/Redis/Values/Lossless.antt =====
-- Conversions of resp3.rs lose nothing of the frames that they are given.
use wasmx.Base.{◌≡◌, refl, ◌∙◌, sym, ap}
use wasmx.Redis.{VerbatimStringFormat, Frame2, Frames2, BytesFrame, BytesFrames, Pairs}
use wasmx.Redis.Values.{
  VerbatimFormat, Value, Values, Entries, Converted, done, inner_push, panics, from_format,
  from_resp2, from_resp2s, ◌>>=◌, try_from, try_froms, try_pairs,
}

abbrev to_format : VerbatimFormat → VerbatimStringFormat
to_format VerbatimFormat.text = VerbatimStringFormat.text
to_format VerbatimFormat.markdown = VerbatimStringFormat.markdown

-- The frame of a value, without attributes.
unfoldable mutual
  pub to_frame : Value → BytesFrame
  to_frame (Value.blob_string d) = BytesFrame.blob_string d
  to_frame (Value.simple_string d) = BytesFrame.simple_string d
  to_frame (Value.simple_error d) = BytesFrame.simple_error d
  to_frame (Value.blob_error d) = BytesFrame.blob_error d
  to_frame (Value.big_number d) = BytesFrame.big_number d
  to_frame (Value.number n) = BytesFrame.number n
  to_frame (Value.double n) = BytesFrame.double n
  to_frame Value.null = BytesFrame.null
  to_frame (Value.boolean b) = BytesFrame.boolean b
  to_frame (Value.verbatim_string f d) = BytesFrame.verbatim_string (to_format f) d
  to_frame (Value.array vs) = BytesFrame.array (to_frames vs)
  to_frame (Value.set vs) = BytesFrame.set (to_frames vs)
  to_frame (Value.map es) = BytesFrame.map (to_pairs es)

  pub to_frames : Values → BytesFrames
  to_frames Values.nil = BytesFrames.nil
  to_frames (Values.cons v vs) = BytesFrames.cons (to_frame v) (to_frames vs)

  pub to_pairs : Entries → Pairs
  to_pairs Entries.end = Pairs.end
  to_pairs (Entries.entry k v es) = Pairs.pair (to_frame k) (to_frame v) (to_pairs es)

-- Every value is that of its frame.
mutual
  unfolding try_from to_frame from_format

  pub try_from-to_frame : (v : Value) → try_from (to_frame v) ≡ done v
  try_from-to_frame (Value.blob_string d) = refl
  try_from-to_frame (Value.simple_string d) = refl
  try_from-to_frame (Value.simple_error d) = refl
  try_from-to_frame (Value.blob_error d) = refl
  try_from-to_frame (Value.big_number d) = refl
  try_from-to_frame (Value.number n) = refl
  try_from-to_frame (Value.double n) = refl
  try_from-to_frame Value.null = refl
  try_from-to_frame (Value.boolean b) = refl
  try_from-to_frame (Value.verbatim_string VerbatimFormat.text d) = refl
  try_from-to_frame (Value.verbatim_string VerbatimFormat.markdown d) = refl
  try_from-to_frame (Value.array vs) = rw (try_froms-to_frames vs) refl
  try_from-to_frame (Value.set vs) = rw (try_froms-to_frames vs) refl
  try_from-to_frame (Value.map es) = rw (try_pairs-to_pairs es) refl

  pub try_froms-to_frames : (vs : Values) → try_froms (to_frames vs) ≡ done vs
  try_froms-to_frames Values.nil = refl
  try_froms-to_frames (Values.cons v vs) = rw (try_from-to_frame v, try_froms-to_frames vs) refl

  try_pairs-to_pairs : (es : Entries) → try_pairs (to_pairs es) ≡ done es
  try_pairs-to_pairs Entries.end = refl
  try_pairs-to_pairs (Entries.entry k v es) =
      rw (try_from-to_frame k, try_from-to_frame v, try_pairs-to_pairs es) refl

pub done-injective : {A : Type 0} (a b : A) → done a ≡ done b → a ≡ b
done-injective a b e = cc

pub bind-done :
    {A B : Type 0} (r : Converted A) (k : A → Converted B) (b : B)
    → (r >>= k) ≡ done b
    → (a : A) × (r ≡ done a) × (k a ≡ done b)
bind-done (done a) k b h = (a, refl, h)
bind-done inner_push k b h = (let q = h in cc)
bind-done panics k b h = (let q = h in cc)

format-lem : (f : VerbatimStringFormat) → to_format (from_format f) ≡ f
unfolding from_format
format-lem VerbatimStringFormat.text = refl
format-lem VerbatimStringFormat.markdown = refl

-- A frame with a value is that of its value.
mutual
  unfolding try_from to_frame from_format

  pub to_frame-try_from : (f : BytesFrame) (v : Value) → try_from f ≡ done v → to_frame v ≡ f
  to_frame-try_from (BytesFrame.blob_string d) v h = ap to_frame (sym (done-injective _ v h))
  to_frame-try_from (BytesFrame.verbatim_string f d) v h =
      ap to_frame (sym (done-injective _ v h))
      ∙ ap (λ z. BytesFrame.verbatim_string z d) (format-lem f)
  to_frame-try_from (BytesFrame.array fs) v h =
      let (vs, e, k) = bind-done (try_froms fs) (λ z. done (Value.array z)) v h in
      ap to_frame (sym (done-injective _ v k)) ∙ ap BytesFrame.array (to_frames-try_froms fs vs e)
  to_frame-try_from (BytesFrame.blob_error d) v h = ap to_frame (sym (done-injective _ v h))
  to_frame-try_from (BytesFrame.simple_string d) v h = ap to_frame (sym (done-injective _ v h))
  to_frame-try_from (BytesFrame.simple_error d) v h = ap to_frame (sym (done-injective _ v h))
  to_frame-try_from (BytesFrame.big_number d) v h = ap to_frame (sym (done-injective _ v h))
  to_frame-try_from (BytesFrame.boolean d) v h = ap to_frame (sym (done-injective _ v h))
  to_frame-try_from (BytesFrame.number d) v h = ap to_frame (sym (done-injective _ v h))
  to_frame-try_from (BytesFrame.double d) v h = ap to_frame (sym (done-injective _ v h))
  to_frame-try_from BytesFrame.null v h = ap to_frame (sym (done-injective _ v h))
  to_frame-try_from BytesFrame.hello v h = (let q = h in cc)
  to_frame-try_from (BytesFrame.chunked_string d) v h = (let q = h in cc)
  to_frame-try_from (BytesFrame.push fs) v h = (let q = h in cc)
  to_frame-try_from (BytesFrame.set fs) v h =
      let (vs, e, k) = bind-done (try_froms fs) (λ z. done (Value.set z)) v h in
      ap to_frame (sym (done-injective _ v k)) ∙ ap BytesFrame.set (to_frames-try_froms fs vs e)
  to_frame-try_from (BytesFrame.map ps) v h =
      let (vs, e, k) = bind-done (try_pairs ps) (λ z. done (Value.map z)) v h in
      ap to_frame (sym (done-injective _ v k)) ∙ ap BytesFrame.map (to_pairs-try_pairs ps vs e)

  pub to_frames-try_froms :
      (fs : BytesFrames) (vs : Values) → try_froms fs ≡ done vs → to_frames vs ≡ fs
  to_frames-try_froms BytesFrames.nil vs h = ap to_frames (sym (done-injective _ vs h))
  to_frames-try_froms (BytesFrames.cons f fs) vs h =
      let (v, e, k) =
        bind-done (try_from f) (λ z. try_froms fs >>= (λ zs. done (Values.cons z zs))) vs h in
      let (us, d, j) = bind-done (try_froms fs) (λ zs. done (Values.cons v zs)) vs k in
      ap to_frames (sym (done-injective _ vs j))
      ∙ ap (λ z. BytesFrames.cons z (to_frames us)) (to_frame-try_from f v e)
      ∙ ap (BytesFrames.cons f) (to_frames-try_froms fs us d)

  to_pairs-try_pairs : (ps : Pairs) (es : Entries) → try_pairs ps ≡ done es → to_pairs es ≡ ps
  to_pairs-try_pairs Pairs.end es h = ap to_pairs (sym (done-injective _ es h))
  to_pairs-try_pairs (Pairs.pair k v ps) es h =
      let (a, e, i) =
        bind-done (try_from k)
          (λ z. try_from v >>= (λ y. try_pairs ps >>= (λ zs. done (Entries.entry z y zs)))) es h in
      let (b, d, j) =
        bind-done (try_from v) (λ y. try_pairs ps >>= (λ zs. done (Entries.entry a y zs))) es i in
      let (us, c, g) = bind-done (try_pairs ps) (λ zs. done (Entries.entry a b zs)) es j in
      ap to_pairs (sym (done-injective _ es g))
      ∙ ap (λ z. Pairs.pair z (to_frame b) (to_pairs us)) (to_frame-try_from k a e)
      ∙ ap (λ z. Pairs.pair k z (to_pairs us)) (to_frame-try_from v b d)
      ∙ ap (Pairs.pair k v) (to_pairs-try_pairs ps us c)

-- The frame of the third protocol that says what one of the second says.
unfoldable mutual
  pub upgrade : Frame2 → BytesFrame
  upgrade (Frame2.simple_string d) = BytesFrame.simple_string d
  upgrade (Frame2.error d) = BytesFrame.simple_error d
  upgrade (Frame2.integer n) = BytesFrame.number n
  upgrade (Frame2.bulk_string d) = BytesFrame.blob_string d
  upgrade (Frame2.array fs) = BytesFrame.array (upgrades fs)
  upgrade Frame2.null = BytesFrame.null

  pub upgrades : Frames2 → BytesFrames
  upgrades Frames2.nil = BytesFrames.nil
  upgrades (Frames2.cons f fs) = BytesFrames.cons (upgrade f) (upgrades fs)

mutual
  unfolding try_from from_resp2 upgrade

  pub try_from-upgrade : (f : Frame2) → try_from (upgrade f) ≡ done (from_resp2 f)
  try_from-upgrade (Frame2.simple_string d) = refl
  try_from-upgrade (Frame2.error d) = refl
  try_from-upgrade (Frame2.integer n) = refl
  try_from-upgrade (Frame2.bulk_string d) = refl
  try_from-upgrade (Frame2.array fs) = rw (try_froms-upgrades fs) refl
  try_from-upgrade Frame2.null = refl

  try_froms-upgrades : (fs : Frames2) → try_froms (upgrades fs) ≡ done (from_resp2s fs)
  try_froms-upgrades Frames2.nil = refl
  try_froms-upgrades (Frames2.cons f fs) = rw (try_from-upgrade f, try_froms-upgrades fs) refl
