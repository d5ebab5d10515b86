-- ===== src/Http/OutgoingBody/Streams.antt =====
-- The streams that a guest may take of an `OutgoingBody` of http.
use wasmx.Base.{ℕ, ◌+◌, ◌≤◌, List, [], ◌∷◌, Option, Result, ok, ⊤, arith}
use wasmx.Io.{Handle, OutputStream}
use wasmx.Io.Os.{Os}
use wasmx.Http.OutgoingBody.{
  BodySender, BodyLock, created, holds, BodyOs, Reply, write, finish, finish_sent, finish_conn,
  drop, set,
}

pub data Call : Type 0 where
  writes drops : Call
  finishes : Option (Result Handle ⊤) → Call
  sets : BodySender → Call

-- How many streams the body may still give.
abbrev pub left : BodyLock → ℕ
left (holds (created limit s)) = 1
left _ = 0

module _ (os : Os) (bos : BodyOs os) where
  -- The streams that a call gives, and what it leaves.
  abbrev pub Served : Type 0
  Served = ℕ × BodyLock × os.World

  abbrev pub streams : Reply os bos OutputStream ⊤ → Served
  streams (ok (ok s), l, w) = (1, l, w)
  streams (_, l, w) = (0, l, w)

  unfoldable pub serve : Call → BodyLock → os.World → Served
  serve writes l w = streams (write os bos l w)
  serve drops l w = (0, (drop os bos l).1, w)
  serve (finishes t) l w = let (_, l', w') = finish os bos t l w in (0, l', w')
  serve (sets s) l w = let (_, l', w') = set os bos s l w in (0, l', w')

  unfoldable pub run : List Call → BodyLock → os.World → ℕ
  run [] l w = 0
  run (c ∷ cs) l w = let (n, l', w') = serve c l w in n + run cs l' w'

  serve-left :
      (c : Call) (l : BodyLock) (w : os.World)
      → let (n, l', w') = serve c l w in n + left l' ≤ left l
  unfolding serve write finish finish_sent finish_conn drop set
  serve-left writes l w = ground arith
  serve-left drops l w = ground arith
  serve-left (finishes t) l w = ground arith
  serve-left (sets s) l w = ground arith

  -- Whatever the guest and the host do with a body, in whatever order, at most one stream to it is given.
  pub run-le : (cs : List Call) (l : BodyLock) (w : os.World) → run cs l w ≤ left l
  unfolding run
  run-le [] l w = omega arith
  run-le (c ∷ cs) l w =
      let (n, l', w') = serve c l w in omega (arith, serve-left c l w, run-le cs l' w')
