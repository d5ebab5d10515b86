-- ===== src/Io/Budget.antt =====
-- The budget of `OutputStream::Limited` in io/mod.rs, over any sequence of calls by the guest.
pub mod Charges
use mathlib.Core.Option
use wasmx.Base.{
  ℕ, zero, suc, ◌+◌, ◌-◌, ◌≤◌, ◌≡◌, refl, inl, inr, List, [], ◌∷◌, Option, none, some, ⊤, arith,
  min, length, replicate, ltb, Bool-cases, u64_max, ltb-false→le, length-replicate,
}
use wasmx.Io.{InputStream, OutputStream, Outcome, fail, trap, limited}
use wasmx.Io.Os.{Os}
use wasmx.Io.Output.{check_write, write, write_zeroes, flush, within, charge}
use wasmx.Io.Blocking.{blocking_write_and_flush, blocking_write_zeroes_and_flush, Waited}
use wasmx.Io.Input.{
  splice, splice_checked, splice_read, spliced, read, blocking_splice, blocking_splice_read,
  blocking_read,
}

-- The calls of the guest on one stream; those that wait come with fuel.
pub data Call : Type 0 where
  checks flushes : Call
  writes : List ℕ → Call
  zeroes : ℕ → Call
  splices : InputStream → ℕ → Call
  waits : ℕ → List ℕ → Call
  waits_zeroes : ℕ → ℕ → Call
  waits_splices : ℕ → InputStream → ℕ → Call

-- The bytes that a call has reported as written.
abbrev pub accepted : ℕ → Outcome ⊤ → ℕ
accepted n (Outcome.ok u) = n
accepted n _ = 0

abbrev pub moved : Outcome ℕ → ℕ
moved (Outcome.ok n) = n
moved _ = 0

module _ (os : Os) where
  abbrev pub Served : Type 0
  Served = ℕ × OutputStream × os.World

  abbrev pub served : ℕ → Outcome ⊤ × OutputStream × os.World → Served
  served n (r, s, w) = (accepted n r, s, w)

  unfoldable pub serve : Call → OutputStream → os.World → Option Served
  serve checks s w = let (r, s', w') = check_write os s w in some (0, s', w')
  serve flushes s w = some (0, s, (flush os s w).1)
  serve (writes cs) s w = some (served (length cs) (write os s cs w))
  serve (zeroes n) s w = some (served n (write_zeroes os s n w))
  serve (splices src len) s w = let (r, s', w') = splice os s src len w in some (moved r, s', w')
  serve (waits fuel cs) s w =
      Option.map (served (length cs)) (blocking_write_and_flush os fuel s cs w)
  serve (waits_zeroes fuel n) s w =
      Option.map (served n) (blocking_write_zeroes_and_flush os fuel s n w)
  serve (waits_splices fuel src len) s w =
      Option.map (λ t. (moved t.0, t.1, t.2)) (blocking_splice os fuel s src len w)

  -- All the bytes that a sequence of calls has reported, with the stream and world after it.
  unfoldable pub run : List Call → ℕ → OutputStream → os.World → Option Served
  run [] a s w = some (a, s, w)
  run (c ∷ cs) a s w = elim (serve c s w) [ none ↦ none | some (n, s', w') ↦ run cs (a + n) s' w' ]

  -- A budget of `b` of which `n` bytes are used.
  abbrev pub IsCharged : ℕ → ℕ → OutputStream → Type 0
  IsCharged b n t = (left : ℕ) × (inner : OutputStream) × (t ≡ limited left inner) × (left + n ≡ b)

  -- After a call on a stream with budget `b`.
  abbrev pub Charges : ℕ → Option Served → Type 0
  Charges b none = Unit {0}
  Charges b (some (n, t, w)) = IsCharged b n t
