-- ===== src/Redis/Pool.antt =====
-- examples/rust/redis/src/pool.rs, with `connect` and `PendingConnection` of database.rs. What the pool's mutex holds
-- stands here as `try_lock` finds it; sockets are those of the host.
use mathlib.Core.List.{append_assoc, append-nil}
use wasmx.Base.{
  ℕ, zero, suc, ◌≡◌, refl, sym, ap, ◌∙◌, Bool, List, [], ◌∷◌, ◌++◌, Result, ok, err, ⊤,
  if◌then◌else◌, length,
}
use wasmx.Redis.Sink.{CommandSink}
use wasmx.Redis.Stream.{StreamOs, FrameStream, new}

pub record SocketOs : Type 1 where
  pub World : Type 0
  pub Socket : Type 0
  pub InputStream : Type 0
  pub OutputStream : Type 0
  pub ErrorCode : Type 0
  pub is_would_block : ErrorCode → Bool
  pub create_tcp_socket : World → Result Socket ErrorCode × World
  -- of an address and a port
  pub start_connect : Socket → List ℕ → ℕ → World → Result ⊤ ErrorCode × World
  pub finish_connect : Socket → World → Result (InputStream × OutputStream) ErrorCode × World
  -- `subscribe().block()`
  pub block : Socket → World → World

module _ (os : SocketOs) (sos : StreamOs) where
  open os use {World, Socket, InputStream, OutputStream, ErrorCode}

  -- `ActiveConnection`, with the streams of its frame stream and of its command sink beside them
  pub record ActiveConnection : Type 0 where
    pub socket : Socket
    pub rx : InputStream
    pub frames : FrameStream sos
    pub tx : OutputStream
    pub commands : CommandSink

  pub data Connection : Type 0 where
    active : ActiveConnection → Connection
    pending : Socket → Connection

  -- `Mutex<VecDeque<ActiveConnection>>`
  pub data Pool : Type 0 where
    contended poisoned : Pool
    holds : List ActiveConnection → Pool

  unfoldable pub connect : World → Result Socket ErrorCode × World
  connect w =
      let (r, w1) = os.create_tcp_socket w in
      elim r [
        | ok sock ↦
            (let (q, w2) = os.start_connect sock (127 ∷ 0 ∷ 0 ∷ 1 ∷ []) 6379 w1 in
              elim q [ ok _ ↦ (ok sock, w2) | err e ↦ (err e, w2) ])
        | err e ↦ (err e, w1)
      ]

  -- `res?` of `finish`, and the connection
  abbrev pub connected :
      Socket → Result (InputStream × OutputStream) ErrorCode → Result ActiveConnection ErrorCode
  connected socket (ok (rx, tx)) = ok (record {
    socket = socket;
    rx = rx;
    frames = new sos;
    tx = tx;
    commands = record { buffer = [] };
  })
  connected socket (err e) = err e

  -- a second `finish_connect` where the first would block
  unfoldable pub finish_again :
      Socket
      → Result (InputStream × OutputStream) ErrorCode
      → World
      → Result (InputStream × OutputStream) ErrorCode × World
  finish_again socket (ok s) w = (ok s, w)
  finish_again socket (err e) w =
      if os.is_would_block e then os.finish_connect socket (os.block socket w) else (err e, w)

  -- `PendingConnection::finish`
  unfoldable pub finish : Socket → World → Result ActiveConnection ErrorCode × World
  finish socket w =
      let (r, w1) = os.finish_connect socket w in
      let (q, w2) = finish_again socket r w1 in (connected socket q, w2)

  -- `get` where the pool has nothing for it
  unfoldable pub get_pending : Pool → World → Result Connection ErrorCode × Pool × World
  get_pending pool w =
      let (r, w1) = connect w in
      elim r [ ok conn ↦ (ok (pending conn), pool, w1) | err e ↦ (err e, pool, w1) ]

  unfoldable pub get : Pool → World → Result Connection ErrorCode × Pool × World
  get (holds (conn ∷ conns)) w = (ok (active conn), holds conns, w)
  get pool w = get_pending pool w

  unfoldable pub put : ActiveConnection → Pool → Pool
  put connection (holds conns) = holds (conns ++ connection ∷ [])
  put connection pool = pool

  -- `n` calls of `get`, while the pool has a connection for them
  abbrev gets : ℕ → Pool → World → List ActiveConnection × Pool
  gets zero pool w = ([], pool)
  gets (suc n) pool w =
      let (r, next, v) = get pool w in
      elim r [ ok (active c) ↦ (let (cs, end) = gets n next v in (c ∷ cs, end)) | _ ↦ ([], next) ]

  abbrev puts : List ActiveConnection → Pool → Pool
  puts [] pool = pool
  puts (c ∷ cs) pool = puts cs (put c pool)

  puts_lem : (cs ds : List ActiveConnection) → puts cs (holds ds) ≡ holds (ds ++ cs)
  unfolding put
  puts_lem [] ds = ap holds (sym (append-nil ds))
  puts_lem (c ∷ cs) ds = puts_lem cs (ds ++ c ∷ []) ∙ ap holds (append_assoc ds (c ∷ []) cs)

  gets_lem :
      (cs ds : List ActiveConnection) (w : World)
      → gets (length cs) (holds (cs ++ ds)) w ≡ (cs, holds ds)
  unfolding get
  gets_lem [] ds w = refl
  gets_lem (c ∷ cs) ds w = rw (gets_lem cs ds w) refl

  -- What is put in a pool that is free is got from it in the same order, after what it held.
  gets-puts :
      (cs ds : List ActiveConnection) (w : World)
      → gets (length (ds ++ cs)) (puts cs (holds ds)) w ≡ (ds ++ cs, holds [])
  gets-puts cs ds w =
      ap (λ z. gets (length (ds ++ cs)) z w)
        (puts_lem cs ds ∙ ap holds (sym (append-nil (ds ++ cs))))
      ∙ gets_lem (ds ++ cs) [] w
