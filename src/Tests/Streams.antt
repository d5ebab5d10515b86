-- ===== src/Tests/Streams.antt =====
-- The streams of io/mod.rs over a small system: a socket that is busy for a while and then takes two
-- bytes at a time, and an outgoing body with a hundred permits.
use wasmx.Base.{
  ℕ, zero, suc, ◌≤◌, ◌<◌, ◌≡◌, ◌≢◌, refl, true, false, List, [], ◌∷◌, ◌++◌, some, Result, ok, err,
  ⊤, arith, min, length, take, leb, if◌then◌else◌,
}
use wasmx.Sockets.Errors.{IoError, ErrorKind, Errno}
use wasmx.Io.{Handle, InputStream, OutputStream, Outcome, limited, is_would_block}
use wasmx.Io.Os.{Os, Transport, TryRecv, TryAcquire}
use wasmx.Io.Output.{check_write, check_write_http, write, write_zeroes}
use wasmx.Io.Output.Promise.{is_refusal, IsPrompt, write-check_write}
use wasmx.Io.Blocking.{write_loop}
use wasmx.Io.Blocking.Delivery.{is_trap, IsFaithful, IsLive, write_loop-delivers}
use wasmx.Io.Input.{blocking_read, splice, splice_checked, splice_read, read, read_socket}
use wasmx.Io.Input.Bounds.{IsServed, IsWithin, IsFull, blocking_read-tcp}
use wasmx.Io.Budget.{Call, run, serve, checks, writes, zeroes}

-- How long the socket is busy, and what it has taken.
abbrev Net : Type 0
Net = ℕ × List ℕ

abbrev busy : IoError
busy = record { errno = some Errno.again; kind = ErrorKind.would_block }

abbrev try_write : Handle → List ℕ → Net → Result ℕ IoError × Net
try_write h cs (zero, taken) =
    (ok (min 2 (length cs)), (zero, taken ++ take (min 2 (length cs)) cs))
try_write h cs (suc k, taken) = (err busy, (suc k, taken))

abbrev wait : Handle → Net → Result ⊤ IoError × Net
wait h (zero, taken) = (ok tt, (zero, taken))
wait h (suc k, taken) = (ok tt, (k, taken))

abbrev try_read : Handle → ℕ → Net → Result (List ℕ) IoError × Net
try_read h n (zero, taken) = (ok (take n (7 ∷ 8 ∷ 9 ∷ [])), (zero, taken))
try_read h n (suc k, taken) = (err busy, (suc k, taken))

abbrev socket : Transport Net
socket = record { try_write = try_write; writable = wait; try_read = try_read; readable = wait }

abbrev acquire : ℕ → Net → TryAcquire × Net
acquire n w = if leb n 100 then (TryAcquire.acquired, w) else (TryAcquire.no_permits, w)

abbrev pub os : Os
os = record {
  World = Net;
  write_all = λ s cs w. (ok tt, w);
  flush_all = λ s w. (ok tt, w);
  send_buffer_size = λ h w. ok 512;
  tcp = socket;
  udp = socket;
  body_try_recv = λ h w. (TryRecv.received (record { conn = 0; permits = 1; chunks = 2 }), w);
  conn_is_free = λ h w. true;
  conn_try_recv = λ h w. (TryRecv.empty, w);
  conn_is_empty = λ h w. true;
  available_permits = λ h w. 100;
  try_acquire_many = λ h n w. acquire n w;
  acquire_many = λ h n w. (ok tt, w);
  send_chunk = λ h cs n w. (ok tt, w);
}

os-IsPrompt : IsPrompt os
os-IsPrompt = record { conn_empty = λ h w e. refl; permits = λ h n w e. ground arith }

socket-IsFaithful : IsFaithful socket 4
socket-IsFaithful = record {
  sent = λ w. w.1;
  count = λ cs n w. count cs n w;
  written = λ cs n w. written cs n w;
  refused = λ cs w. refused cs w;
  waited = λ w. waited w;
}
  where
    count : (cs : List ℕ) (n : ℕ) (w : Net) → (try_write 4 cs w).0 ≡ ok n → n ≤ length cs
    count cs n (zero, taken) e = ground arith
    count cs n (suc k, taken) e = cc

    written :
        (cs : List ℕ) (n : ℕ) (w : Net)
        → (try_write 4 cs w).0 ≡ ok n
        → (try_write 4 cs w).1.1 ≡ w.1 ++ take n cs
    written cs n (zero, taken) e = cc
    written cs n (suc k, taken) e = cc

    refused :
        (cs : List ℕ) (w : Net)
        → ((n : ℕ) → (try_write 4 cs w).0 ≢ ok n)
        → (try_write 4 cs w).1.1 ≡ w.1
    refused cs (zero, taken) e = absurd (e (min 2 (length cs)) refl)
    refused cs (suc k, taken) e = refl

    waited : (w : Net) → (wait 4 w).1.1 ≡ w.1
    waited (zero, taken) = refl
    waited (suc k, taken) = refl

socket-IsLive : IsLive socket 4
socket-IsLive = record {
  patience = λ w. w.0;
  progress = λ cs w. progress cs w;
  steady = λ cs n w. steady cs n w;
  worn = λ cs e w. worn cs e w;
}
  where
    progress : (cs : List ℕ) (w : Net) → cs ≢ [] → (try_write 4 cs w).0 ≢ ok 0
    progress [] w h e = h refl
    progress (c ∷ cs) (zero, taken) h e = ground arith
    progress (c ∷ cs) (suc k, taken) h e = cc

    steady :
        (cs : List ℕ) (n : ℕ) (w : Net) → (try_write 4 cs w).0 ≡ ok n → (try_write 4 cs w).1.0 ≤ w.0
    steady cs n (zero, taken) e = omega arith
    steady cs n (suc k, taken) e = omega arith

    worn :
        (cs : List ℕ) (e : IoError) (w : Net)
        → (try_write 4 cs w).0 ≡ err e
        → is_would_block e ≡ true
        → (wait 4 (try_write 4 cs w).1).1.0 < w.0
    worn cs e (zero, taken) h b = cc
    worn cs e (suc k, taken) h b = omega arith

socket-IsServed : IsServed socket 4
socket-IsServed = record { patience = λ w. w.0; worn = λ n e w. worn n e w }
  where
    worn :
        (n : ℕ) (e : IoError) (w : Net)
        → (try_read 4 n w).0 ≡ err e
        → is_would_block e ≡ true
        → (wait 4 (try_read 4 n w).1).1.0 < w.0
    worn n e (zero, taken) h b = cc
    worn n e (suc k, taken) h b = omega arith

-- Two writes, one check and some zeroes on a budget of ten.
abbrev calls : List Call
calls = checks ∷ writes (1 ∷ 2 ∷ 3 ∷ []) ∷ zeroes 4 ∷ writes (5 ∷ []) ∷ []

check_pending :
    (check_write os (limited 50 (OutputStream.http_pending 3)) (0, [])).0 ≡ Outcome.ok 50
unfolding check_write check_write_http
check_pending = refl

run-calls :
    run os calls 0 (limited 10 OutputStream.stdout) (0, [])
    ≡ some (8, limited 2 OutputStream.stdout, (0, []))
unfolding run serve check_write write write_zeroes
run-calls = refl

splice_two : (splice os OutputStream.stdout (InputStream.tcp_stream 4) 2 (0, [])).0 ≡ Outcome.ok 2
unfolding splice splice_checked splice_read check_write read read_socket write
splice_two = refl

write-check_write_example :
    let (_, s, w) = check_write os (limited 50 (OutputStream.http_pending 3)) (0, []) in
    is_refusal (write os s (1 ∷ 2 ∷ 3 ∷ []) w).0 ≡ false
write-check_write_example =
    write-check_write os os-IsPrompt (limited 50 (OutputStream.http_pending 3)) (1 ∷ 2 ∷ 3 ∷ [])
      (0, []) 50 check_pending (omega arith)

write_loop-delivers_example :
    (r : Outcome ⊤) × (v : Net) × (k : ℕ) × (write_loop socket 9 4 (1 ∷ 2 ∷ 3 ∷ []) (2, 6 ∷ [])
      ≡ some (r, v))
    × (k ≤ 3)
    × (v.1 ≡ (6 ∷ []) ++ take k (1 ∷ 2 ∷ 3 ∷ []))
    × (r ≡ Outcome.ok tt → k ≡ 3)
    × (is_trap r ≡ false)
unfolding socket-IsLive socket-IsFaithful
write_loop-delivers_example =
    write_loop-delivers socket 4 socket-IsFaithful socket-IsLive 9 (1 ∷ 2 ∷ 3 ∷ []) (2, 6 ∷ [])
      (omega arith)

blocking_read-tcp_example :
    (r : Outcome (List ℕ)) × (v : Net) × (blocking_read os 5 (InputStream.tcp_stream 4) 2 (3, [])
      ≡ some (r, v))
    × IsWithin 2 r
    × IsFull 2 r
unfolding socket-IsServed
blocking_read-tcp_example = blocking_read-tcp os 5 4 2 (3, []) socket-IsServed (omega arith)
