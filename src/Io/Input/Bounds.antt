-- ===== src/Io/Input/Bounds.antt =====
-- How much the reads of io/mod.rs give, and when they give nothing.
use wasmx.Base.{
  ℕ, zero, suc, ◌≤◌, ◌<◌, ◌≡◌, ◌≢◌, refl, inl, inr, true, List, [], ◌∷◌, Option, none, some, err, ⊤,
  arith, length, length-take, Bool-cases, Result-cases, min, ◌==◌,
}
use wasmx.Sockets.Errors.{IoError}
use wasmx.Io.{
  Handle, InputStream, OutputStream, Outcome, fail, trap, is_would_block, max_buffer_size,
}
use wasmx.Io.Os.{Os, Transport}
use wasmx.Io.Input.{
  read_buffer_size, socket_read, read_socket, read_loop, read, blocking_read, splice, splice_read,
  splice_checked, spliced,
}
use wasmx.Io.Output.{check_write, write}

-- A read for `len` bytes gives at most `len` and at most 8192.
abbrev pub IsWithin : ℕ → Outcome (List ℕ) → Type 0
IsWithin len (Outcome.ok buf) = (length buf ≤ len) × (length buf ≤ max_buffer_size)
IsWithin len _ = Unit {0}

read_buffer_size-le :
    (len : ℕ) → (read_buffer_size len ≤ len) × (read_buffer_size len ≤ max_buffer_size)
read_buffer_size-le len = (ground arith, ground arith)

socket_read-IsWithin :
    (len : ℕ) (bs : List ℕ) → IsWithin len (socket_read (read_buffer_size len) bs)
socket_read-IsWithin len [] = ground arith
socket_read-IsWithin len (b ∷ bs) =
    let le = read_buffer_size-le len in
    (
      omega (arith, le.0, length-take (read_buffer_size len) (b ∷ bs)),
      omega (arith, le.1, length-take (read_buffer_size len) (b ∷ bs)),
    )

-- A read into a buffer that has room gives no empty list.
abbrev pub IsFull : ℕ → Outcome (List ℕ) → Type 0
IsFull len (Outcome.ok buf) = len ≢ 0 → 0 < length buf
IsFull len _ = Unit {0}

read_buffer_size-pos : (len : ℕ) → len ≢ 0 → 0 < read_buffer_size len
read_buffer_size-pos len h = ground arith

socket_read-IsFull : (len : ℕ) (bs : List ℕ) → IsFull len (socket_read (read_buffer_size len) bs)
socket_read-IsFull len [] = elim (Bool-cases (read_buffer_size len == 0)) [
  | inl e ↦ rw e (λ h. absurd (ground (arith, read_buffer_size-pos len h)))
  | inr e ↦ rw e tt
]
socket_read-IsFull len (b ∷ bs) =
    λ h. omega (arith, read_buffer_size-pos len h, length-take (read_buffer_size len) (b ∷ bs))

-- A transport whose reader is served at last: each wait after a read that would block uses up some
-- of a bounded patience.
pub record IsServed {W : Type 0} (t : Transport W) (h : Handle) : Type 0 where
  pub patience : W → ℕ
  pub worn :
      (len : ℕ) (e : IoError) (w : W)
      → (t.try_read h len w).0 ≡ err e
      → is_would_block e ≡ true
      → patience (t.readable h (t.try_read h len w).1).1 < patience w

module _ {W : Type 0} (t : Transport W) where
  read_socket-IsWithin :
      (h len : ℕ) (w : W) → IsWithin len (read_socket t h (read_buffer_size len) w).0
  unfolding read_socket
  read_socket-IsWithin h len w = elim (Result-cases (t.try_read h (read_buffer_size len) w).0) [
    | inl (bs, e) ↦ rw (e, read_socket) (socket_read-IsWithin len bs)
    | inr (x, e) ↦
        rw (e, read_socket)
          (elim (Bool-cases (is_would_block x)) [ inl d ↦ rw d (omega arith) | inr d ↦ rw d tt ])
  ]

  -- What a waiting read has to give, when it ends.
  abbrev Gives : ℕ → Option (Outcome (List ℕ) × W) → Type 0
  Gives len none = Unit
  Gives len (some (r, v)) = IsWithin len r × IsFull len r

  read_loop-Gives :
      (fuel h len : ℕ) (w : W) → Gives len (read_loop t fuel h (read_buffer_size len) w)
  unfolding read_loop
  read_loop-Gives zero h len w = tt
  read_loop-Gives (suc fuel) h len w =
      let size = read_buffer_size len in
      let w1 = (t.try_read h size w).1 in
      elim (Result-cases (t.try_read h size w).0) [
        | inl (bs, e) ↦ rw (e, read_loop) (socket_read-IsWithin len bs, socket_read-IsFull len bs)
        | inr (x, e) ↦
            rw (e, read_loop)
              (elim (Bool-cases (is_would_block x)) [
                | inl d ↦ rw d (elim (Result-cases (t.readable h w1).0) [
                  | inl (u, g) ↦ rw g (read_loop-Gives fuel h len (t.readable h w1).1)
                  | inr (y, g) ↦ rw g (tt, tt)
                ])
                | inr d ↦ rw d (tt, tt)
              ])
      ]

module _ {W : Type 0} (t : Transport W) (h : Handle) (l : IsServed t h) where
  read_loop-ne-none :
      (fuel size : ℕ) (w : W) → l.patience w < fuel → read_loop t fuel h size w ≢ none
  unfolding read_loop
  read_loop-ne-none zero size w m = absurd (omega arith)
  read_loop-ne-none (suc fuel) size w m =
      let w1 = (t.try_read h size w).1 in
      elim (Result-cases (t.try_read h size w).0) [
        | inl (bs, e) ↦ rw (e, read_loop) (λ p. cc)
        | inr (x, e) ↦
            rw (e, read_loop)
              (elim (Bool-cases (is_would_block x)) [
                | inl d ↦ rw d (elim (Result-cases (t.readable h w1).0) [
                  | inl (u, g) ↦ rw g (
                      read_loop-ne-none fuel size (t.readable h w1).1
                        (omega (arith, l.worn size x w e d)))
                  | inr (y, g) ↦ rw g (λ p. cc)
                ])
                | inr d ↦ rw d (λ p. cc)
              ])
      ]

  Gives-elim :
      (len : ℕ) (o : Option (Outcome (List ℕ) × W))
      → Gives t len o
      → o ≢ none
      → (r : Outcome (List ℕ)) × (v : W) × (o ≡ some (r, v)) × IsWithin len r × IsFull len r
  Gives-elim len none s e = absurd (e refl)
  Gives-elim len (some (r, v)) s e = (r, v, refl, s.0, s.1)

module _ (os : Os) where
  -- Given one unit of fuel more than the patience of the connection, a waiting read from a TCP
  -- stream ends. If it gives bytes, they are at most `len` and at most 8192, and at least one unless
  -- `len` is 0.
  pub blocking_read-tcp :
      (fuel h len : ℕ) (w : os.World) (l : IsServed os.tcp h)
      → l.patience w < fuel
      → (r : Outcome (List ℕ)) × (v : os.World) × (blocking_read os fuel
            (InputStream.tcp_stream h)
            len
            w
          ≡ some (r, v))
        × IsWithin len r
        × IsFull len r
  unfolding blocking_read
  blocking_read-tcp fuel h len w l m =
      Gives-elim os.tcp h l len _ (read_loop-Gives os.tcp fuel h len w)
        (read_loop-ne-none os.tcp h l fuel (read_buffer_size len) w m)

  read-IsWithin : (s : InputStream) (len : ℕ) (w : os.World) → IsWithin len (read os s len w).0
  unfolding read
  read-IsWithin InputStream.empty len w = tt
  read-IsWithin (InputStream.tcp_stream h) len w = read_socket-IsWithin os.tcp h len w
  read-IsWithin (InputStream.udp_socket h) len w = read_socket-IsWithin os.udp h len w
  read-IsWithin (InputStream.http h) len w = tt

  abbrev IsSpliced : ℕ → Outcome ℕ → Type 0
  IsSpliced len (Outcome.ok n) = (n ≤ len) × (n ≤ max_buffer_size)
  IsSpliced len _ = Unit {0}

  spliced-IsSpliced :
      (len n : ℕ) (t : Outcome ⊤ × OutputStream × os.World)
      → n ≤ len
      → n ≤ max_buffer_size
      → IsSpliced len (spliced os n t).0
  spliced-IsSpliced len n (Outcome.ok u, s, w) h k = (h, k)
  spliced-IsSpliced len n (fail e, s, w) h k = tt
  spliced-IsSpliced len n (trap e, s, w) h k = tt

  splice_read-IsSpliced :
      (len : ℕ) (s : OutputStream) (t : Outcome (List ℕ) × os.World)
      → IsWithin len t.0
      → IsSpliced len (splice_read os s t).0
  unfolding splice_read
  splice_read-IsSpliced len s (Outcome.ok buf, w) h =
      spliced-IsSpliced len (length buf) (write os s buf w) h.0 h.1
  splice_read-IsSpliced len s (fail e, w) h = tt
  splice_read-IsSpliced len s (trap e, w) h = tt

  splice_checked-bounds :
      (src : InputStream) (len n : ℕ) (t : Outcome ℕ × OutputStream × os.World)
      → (splice_checked os src len t).0 ≡ Outcome.ok n
      → (m : ℕ) × (t.0 ≡ Outcome.ok m) × (n ≤ m) × (n ≤ len) × (n ≤ max_buffer_size)
  unfolding splice_checked
  splice_checked-bounds src len n (Outcome.ok m, s, w) e =
      let k =
        splice_read-IsSpliced (min m len) s (read os src (min m len) w)
          (read-IsWithin src (min m len) w) in
      let b = rw e at k in (m, refl, omega (arith, b.0), omega (arith, b.0), b.1)
  splice_checked-bounds src len n (fail x, s, w) e = cc
  splice_checked-bounds src len n (trap x, s, w) e = cc

  -- A splice that reports `n` bytes moved had room announced for at least `n` by `check_write`, and
  -- `n` is at most the length asked for and at most 8192.
  pub splice_bounds :
      (s : OutputStream) (src : InputStream) (len n : ℕ) (w : os.World)
      → (splice os s src len w).0 ≡ Outcome.ok n
      → (m : ℕ) × ((check_write os s w).0 ≡ Outcome.ok m)
        × (n ≤ m)
        × (n ≤ len)
        × (n ≤ max_buffer_size)
  unfolding splice
  splice_bounds s src len n w e = splice_checked-bounds src len n (check_write os s w) e
