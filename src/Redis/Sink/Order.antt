-- ===== src/Redis/Sink/Order.antt =====
-- What a `CommandSink` of database.rs sends, over any calls of a component.
use wasmx.Base.{
  ℕ, ◌≤◌, ◌≡◌, refl, inl, inr, ◌∙◌, sym, ap, true, List, [], ◌∷◌, ◌++◌, ok, err, arith, length,
  take, drop, map, min, u32_max, ◌==◌, Bool-cases, Result-cases, take-append-drop, take_all,
}
use mathlib.Core.List.{append_assoc, append-nil}
use wasmx.Redis.{BytesFrame}
use wasmx.Redis.Commands.{Command, from_command}
use wasmx.Redis.Sink.{SinkOs, CommandSink, feed, feed_many, encode_all, write, write_permitted}

-- An encoder that writes the bytes of a frame after those of the buffer, and a stream with a record of the bytes that it
-- has taken, to which a write that succeeds adds its bytes.
pub record IsFaithful (os : SinkOs) : Type 0 where
  pub encoding : BytesFrame → List ℕ
  pub sent : os.World → List ℕ
  pub encoded :
      (b : List ℕ) (f : BytesFrame)
      → (os.extend_encode b f).0 ≡ ok tt
      → (os.extend_encode b f).1 ≡ b ++ encoding f
  pub checked : (w : os.World) → sent (os.check_write w).1 ≡ sent w
  pub written :
      (b : List ℕ) (w : os.World) → (os.write b w).0 ≡ ok tt → sent (os.write b w).1 ≡ sent w ++ b

module _ (os : SinkOs) where
  open os use {World}

  -- The calls of a component that succeed, with the commands that it gives in their order; a call of `write` whose
  -- permit is refused may stand among them.
  pub data Session : CommandSink → World → List Command → CommandSink → World → Type 0 where
    done : (s : CommandSink) (w : World) → Session s w [] s w
    feeds :
        (c : Command) (cs : List Command) (s t u : CommandSink) (w v : World)
        → feed os s c ≡ (ok true, t)
        → Session t w cs u v
        → Session s w (c ∷ cs) u v
    feeds_many :
        (n : ℕ) (bs cs : List Command) (s t u : CommandSink) (w v : World)
        → feed_many os s bs ≡ (ok n, t)
        → length bs ≤ u32_max
        → Session t w cs u v
        → Session s w (bs ++ cs) u v
    writes :
        (cs : List Command) (s t u : CommandSink) (w w1 v : World)
        → write os s w ≡ (ok tt, t, w1)
        → Session t w1 cs u v
        → Session s w cs u v
    refused :
        (e : os.StreamError) (cs : List Command) (s u : CommandSink) (w w1 v : World)
        → os.check_write w ≡ (err e, w1)
        → Session s w1 cs u v
        → Session s w cs u v

  module _ (f : IsFaithful os) where
    -- the bytes of commands
    abbrev pub encodings : List Command → List ℕ
    encodings [] = []
    encodings (c ∷ cs) = f.encoding (from_command c) ++ encodings cs

    encodings-append : (bs cs : List Command) → encodings (bs ++ cs) ≡ encodings bs ++ encodings cs
    encodings-append [] cs = refl
    encodings-append (b ∷ bs) cs =
        ap (λ z. f.encoding (from_command b) ++ z) (encodings-append bs cs)
        ∙ sym (append_assoc (f.encoding (from_command b)) (encodings bs) (encodings cs))

    encode_all_lem :
        (b : List ℕ) (cs : List Command)
        → (encode_all os b (map from_command cs)).0 ≡ ok tt
        → (encode_all os b (map from_command cs)).1 ≡ b ++ encodings cs
    unfolding encode_all
    encode_all_lem b [] h = sym (append-nil b)
    encode_all_lem b (c ∷ cs) h = elim (Result-cases (os.extend_encode b (from_command c)).0) [
      | inl (u, e) ↦
          let g = f.encoded b (from_command c) e in
          rw e (
            encode_all_lem (os.extend_encode b (from_command c)).1 cs (rw e at h)
            ∙ ap (λ z. z ++ encodings cs) g
            ∙ append_assoc b (f.encoding (from_command c)) (encodings cs))
      | inr (x, e) ↦ (let q = rw e at h in cc)
    ]

    -- what has been sent, and what waits to be
    abbrev pub pending : CommandSink → World → List ℕ
    pending s w = f.sent w ++ s.buffer

    feed_lem :
        (c : Command) (s t : CommandSink)
        → feed os s c ≡ (ok true, t)
        → t.buffer ≡ s.buffer ++ f.encoding (from_command c)
    unfolding feed
    feed_lem c s t h = elim (Result-cases (os.extend_encode s.buffer (from_command c)).0) [
      | inl (u, e) ↦ sym (ap (λ z. z.1.buffer) h) ∙ f.encoded s.buffer (from_command c) e
      | inr (x, e) ↦ (let q = rw e at h in cc)
    ]

    length-map : (cs : List Command) → length (map from_command cs) ≡ length cs
    length-map [] = refl
    length-map (c ∷ cs) = omega (arith, length-map cs)

    take-map :
        (cs : List Command)
        → length cs ≤ u32_max
        → take (min (length cs) u32_max) (map from_command cs) ≡ map from_command cs
    take-map cs k =
        let e : min (length cs) u32_max ≡ length (map from_command cs) =
          omega (arith, length-map cs) in
        rw e (take_all (map from_command cs))

    feed_many_lem :
        (n : ℕ) (cs : List Command) (s t : CommandSink)
        → feed_many os s cs ≡ (ok n, t)
        → length cs ≤ u32_max
        → t.buffer ≡ s.buffer ++ encodings cs
    unfolding feed_many
    feed_many_lem n cs s t h k =
        let g = rw (take-map cs k) at h in
        elim (Result-cases (encode_all os s.buffer (map from_command cs)).0) [
          | inl (u, e) ↦ sym (ap (λ z. z.1.buffer) g) ∙ encode_all_lem s.buffer cs e
          | inr (x, e) ↦ (let q = rw e at g in cc)
        ]

    write_permitted_lem :
        (permit : ℕ) (s t : CommandSink) (w v : World)
        → write_permitted os permit s w ≡ (ok tt, t, v)
        → pending t v ≡ pending s w
    unfolding write_permitted
    write_permitted_lem permit s t w v h =
        let n = min (min permit u32_max) (length s.buffer) in
        elim (Bool-cases (n == 0)) [
          | inl e ↦ (let g = rw (e, write_permitted) at h in sym (ap (λ z. pending z.1 z.2) g))
          | inr e ↦ elim (Result-cases (os.write (take n s.buffer) w).0) [
            | inl (u, k) ↦
                let g = rw (e, write_permitted) at h in
                sym (ap (λ z. pending z.1 z.2) g)
                ∙ ap (λ z. z ++ drop n s.buffer) (f.written (take n s.buffer) w k)
                ∙ append_assoc (f.sent w) (take n s.buffer) (drop n s.buffer)
                ∙ ap (λ z. f.sent w ++ z) (take-append-drop n s.buffer)
            | inr (x, k) ↦ (let g = rw (e, write_permitted) at h in let q = rw k at g in cc)
          ]
        ]

    write_lem :
        (s t : CommandSink) (w v : World) → write os s w ≡ (ok tt, t, v) → pending t v ≡ pending s w
    unfolding write
    write_lem s t w v h = elim (Result-cases (os.check_write w).0) [
      | inl (permit, e) ↦
          write_permitted_lem permit s t (os.check_write w).1 v (rw (e, write) at h)
          ∙ ap (λ z. z ++ s.buffer) (f.checked w)
      | inr (x, e) ↦ (let q = rw (e, write) at h in cc)
    ]

    -- Where the calls of a component succeed, the bytes that the stream has taken, and then those that wait, are those
    -- of before and then the encodings of the commands in the order in which they were given.
    pub Session-pending :
        (cs : List Command) (s t : CommandSink) (w v : World)
        → Session s w cs t v
        → f.sent v ++ t.buffer ≡ (f.sent w ++ s.buffer) ++ encodings cs
    Session-pending _ _ _ _ _ (done s w) = sym (append-nil (f.sent w ++ s.buffer))
    Session-pending _ _ _ _ _ (feeds c cs s t u w v e k) =
        let a = f.encoding (from_command c) in
        Session-pending cs t u w v k
        ∙ ap (λ z. (f.sent w ++ z) ++ encodings cs) (feed_lem c s t e)
        ∙ ap (λ z. z ++ encodings cs) (sym (append_assoc (f.sent w) s.buffer a))
        ∙ append_assoc (f.sent w ++ s.buffer) a (encodings cs)
    Session-pending _ _ _ _ _ (feeds_many n bs cs s t u w v e h k) =
        Session-pending cs t u w v k
        ∙ ap (λ z. (f.sent w ++ z) ++ encodings cs) (feed_many_lem n bs s t e h)
        ∙ ap (λ z. z ++ encodings cs) (sym (append_assoc (f.sent w) s.buffer (encodings bs)))
        ∙ append_assoc (f.sent w ++ s.buffer) (encodings bs) (encodings cs)
        ∙ ap (λ z. (f.sent w ++ s.buffer) ++ z) (sym (encodings-append bs cs))
    Session-pending _ _ _ _ _ (writes cs s t u w w1 v e k) =
        Session-pending cs t u w1 v k ∙ ap (λ z. z ++ encodings cs) (write_lem s t w w1 e)
    Session-pending _ _ _ _ _ (refused x cs s u w w1 v e k) =
        Session-pending cs s u w1 v k
        ∙ ap (λ z. (z ++ s.buffer) ++ encodings cs) (sym (ap (λ z. f.sent z.1) e) ∙ f.checked w)
