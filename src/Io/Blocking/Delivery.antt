-- ===== src/Io/Blocking/Delivery.antt =====
-- The waiting loop of io/mod.rs: what it has sent when it ends, and that it ends.
use wasmx.Base.{
  ℕ, zero, suc, ◌+◌, ◌≤◌, ◌<◌, ◌≡◌, ◌≢◌, refl, inl, inr, Bool, true, false, List, [], ◌∷◌, ◌++◌,
  Option, none, some, ok, err, ⊤, arith, length, take, drop, ◌==◌, length-drop, Bool-cases, ==_iff,
  ltb-le, ◌∙◌, sym, ap, Result-cases, take-add,
}
use mathlib.Core.List.{append_assoc, append-nil}
use wasmx.Io.{Handle, Error, Outcome, fail, trap, is_would_block}
use wasmx.Sockets.Errors.{IoError}
use wasmx.Io.Os.{Transport}
use wasmx.Io.Blocking.{write_loop}

abbrev pub is_trap : Outcome ⊤ → Bool
is_trap (trap _) = true
is_trap _ = false

module _ {W : Type 0} (t : Transport W) (h : Handle) where
  -- A transport with a record of the bytes that it has taken for `h`: a write that returns `n` took
  -- the first `n` bytes, and nothing else adds to the record.
  pub record IsFaithful : Type 0 where
    pub sent : W → List ℕ
    pub count : (cs : List ℕ) (n : ℕ) (w : W) → (t.try_write h cs w).0 ≡ ok n → n ≤ length cs
    pub written :
        (cs : List ℕ) (n : ℕ) (w : W)
        → (t.try_write h cs w).0 ≡ ok n
        → sent (t.try_write h cs w).1 ≡ sent w ++ take n cs
    pub refused :
        (cs : List ℕ) (w : W)
        → ((n : ℕ) → (t.try_write h cs w).0 ≢ ok n)
        → sent (t.try_write h cs w).1 ≡ sent w
    pub waited : (w : W) → sent (t.writable h w).1 ≡ sent w

  -- A transport that does not stall for ever: a write of something takes at least a byte, and each
  -- wait after a refusal uses up some of a bounded patience.
  pub record IsLive : Type 0 where
    pub patience : W → ℕ
    pub progress : (cs : List ℕ) (w : W) → cs ≢ [] → (t.try_write h cs w).0 ≢ ok 0
    pub steady :
        (cs : List ℕ) (n : ℕ) (w : W)
        → (t.try_write h cs w).0 ≡ ok n
        → patience (t.try_write h cs w).1 ≤ patience w
    pub worn :
        (cs : List ℕ) (e : IoError) (w : W)
        → (t.try_write h cs w).0 ≡ err e
        → is_would_block e ≡ true
        → patience (t.writable h (t.try_write h cs w).1).1 < patience w

module _ {W : Type 0} (t : Transport W) (h : Handle) (f : IsFaithful t h) where
  -- What the loop may have done, that began at `w` with `cs` to send.
  abbrev Sends : List ℕ → W → Option (Outcome ⊤ × W) → Type 0
  Sends cs w none = Unit
  Sends cs w (some (r, v)) =
      (k : ℕ) × (k ≤ length cs)
      × (f.sent v ≡ f.sent w ++ take k cs)
      × (r ≡ Outcome.ok tt → k ≡ length cs)
      × (is_trap r ≡ false)

  Sends-after :
      (cs : List ℕ) (n : ℕ) (w v : W) (o : Option (Outcome ⊤ × W))
      → n ≤ length cs
      → f.sent v ≡ f.sent w ++ take n cs
      → Sends (drop n cs) v o
      → Sends cs w o
  Sends-after cs n w v none l e s = tt
  Sends-after cs n w v (some (r, u)) l e (k, kl, ke, kr, kt) = (
    n + k,
    omega (arith, length-drop n cs),
    ke
        ∙ ap (λ x. x ++ take k (drop n cs)) e
        ∙ append_assoc (f.sent w) (take n cs) (take k (drop n cs))
        ∙ ap (◌++◌ (f.sent w)) (take-add n k cs l),
    λ q. omega (arith, length-drop n cs, kr q),
    kt,
  )

  Sends-none :
      (cs : List ℕ) (w v : W) (e : Option Error)
      → f.sent v ≡ f.sent w
      → Sends cs w (some (fail e, v))
  Sends-none cs w v e s = (0, omega arith, s ∙ sym (append-nil (f.sent w)), (λ q. cc), refl)

  Sends-same :
      (cs : List ℕ) (w v : W) (o : Option (Outcome ⊤ × W))
      → f.sent v ≡ f.sent w
      → Sends cs v o
      → Sends cs w o
  Sends-same cs w v none e s = tt
  Sends-same cs w v (some (r, u)) e (k, kl, ke, kr, kt) =
      (k, kl, ke ∙ ap (λ x. x ++ take k cs) e, kr, kt)

  refused_err :
      (cs : List ℕ) (w : W) (x : IoError)
      → (t.try_write h cs w).0 ≡ err x
      → f.sent (t.try_write h cs w).1 ≡ f.sent w
  refused_err cs w x e = f.refused cs w (λ n p. cc)

  pub write_loop-Sends : (fuel : ℕ) (cs : List ℕ) (w : W) → Sends cs w (write_loop t fuel h cs w)
  unfolding write_loop
  write_loop-Sends zero cs w = tt
  write_loop-Sends (suc fuel) cs w =
      let w1 = (t.try_write h cs w).1 in
      let w2 = (t.writable h w1).1 in
      elim (Result-cases (t.try_write h cs w).0) [
        | inl (n, e) ↦
            rw (e, write_loop)
              (elim (Bool-cases (n == length cs)) [
                | inl d ↦ rw d (
                  n,
                  f.count cs n w e,
                  f.written cs n w e,
                  (λ q. (==_iff n (length cs)).0 d),
                  refl,
                )
                | inr d ↦
                    rw (d, ltb-le (length cs) n (f.count cs n w e))
                      (Sends-after cs n w w1 _ (f.count cs n w e) (f.written cs n w e)
                        (write_loop-Sends fuel (drop n cs) w1))
              ])
        | inr (x, e) ↦
            rw (e, write_loop)
              (elim (Bool-cases (is_would_block x)) [
                | inl d ↦ rw d (elim (Result-cases (t.writable h w1).0) [
                  | inl (u, g) ↦ rw g (
                      Sends-same cs w w2 _ (f.waited w1 ∙ refused_err cs w x e)
                        (write_loop-Sends fuel cs w2))
                  | inr (y, g) ↦ rw g (Sends-none cs w w2 _ (f.waited w1 ∙ refused_err cs w x e))
                ])
                | inr d ↦ rw d (Sends-none cs w w1 _ (refused_err cs w x e))
              ])
      ]

module _ {W : Type 0} (t : Transport W) (h : Handle) (f : IsFaithful t h) (l : IsLive t h) where
  -- An attempt that takes part of the contents leaves less to send.
  shorter :
      (cs : List ℕ) (n : ℕ) (w : W)
      → (t.try_write h cs w).0 ≡ ok n
      → n ≢ length cs
      → length (drop n cs) < length cs
  shorter [] n w e d = absurd (d (omega (arith, f.count [] n w e)))
  shorter (c ∷ cs) zero w e d = absurd (l.progress (c ∷ cs) w (λ p. cc) e)
  shorter (c ∷ cs) (suc n) w e d = omega (arith, length-drop (suc n) (c ∷ cs))

  write_loop-ne-none :
      (fuel : ℕ) (cs : List ℕ) (w : W)
      → length cs + l.patience w < fuel
      → write_loop t fuel h cs w ≢ none
  unfolding write_loop
  write_loop-ne-none zero cs w m = absurd (omega arith)
  write_loop-ne-none (suc fuel) cs w m =
      let w1 = (t.try_write h cs w).1 in
      let w2 = (t.writable h w1).1 in
      elim (Result-cases (t.try_write h cs w).0) [
        | inl (n, e) ↦
            rw (e, write_loop)
              (elim (Bool-cases (n == length cs)) [
                | inl d ↦ rw d (λ p. cc)
                | inr d ↦
                    rw (d, ltb-le (length cs) n (f.count cs n w e))
                      (write_loop-ne-none fuel (drop n cs) w1
                        (omega (arith, l.steady cs n w e, shorter cs n w e (ground arith))))
              ])
        | inr (x, e) ↦
            rw (e, write_loop)
              (elim (Bool-cases (is_would_block x)) [
                | inl d ↦ rw d (elim (Result-cases (t.writable h w1).0) [
                  | inl (u, g) ↦
                      rw g (write_loop-ne-none fuel cs w2 (omega (arith, l.worn cs x w e d)))
                  | inr (y, g) ↦ rw g (λ p. cc)
                ])
                | inr d ↦ rw d (λ p. cc)
              ])
      ]

  Sends-elim :
      (cs : List ℕ) (w : W) (o : Option (Outcome ⊤ × W))
      → Sends t h f cs w o
      → o ≢ none
      → (r : Outcome ⊤) × (v : W) × (k : ℕ) × (o ≡ some (r, v))
        × (k ≤ length cs)
        × (f.sent v ≡ f.sent w ++ take k cs)
        × (r ≡ Outcome.ok tt → k ≡ length cs)
        × (is_trap r ≡ false)
  Sends-elim cs w none s e = absurd (e refl)
  Sends-elim cs w (some (r, v)) (k, kl, ke, kr, kt) e = (r, v, k, refl, kl, ke, kr, kt)

  -- On a transport that is faithful and live, a waiting write ends, given one unit of fuel more than
  -- the bytes to send and the patience of the transport together. It does not trap; it has sent, once
  -- and in order, the first `k` bytes of the contents and nothing else, and all of them if it
  -- reports success.
  pub write_loop-delivers :
      (fuel : ℕ) (cs : List ℕ) (w : W)
      → length cs + l.patience w < fuel
      → (r : Outcome ⊤) × (v : W) × (k : ℕ) × (write_loop t fuel h cs w ≡ some (r, v))
        × (k ≤ length cs)
        × (f.sent v ≡ f.sent w ++ take k cs)
        × (r ≡ Outcome.ok tt → k ≡ length cs)
        × (is_trap r ≡ false)
  write_loop-delivers fuel cs w m =
      Sends-elim cs w _ (write_loop-Sends t h f fuel cs w) (write_loop-ne-none fuel cs w m)
