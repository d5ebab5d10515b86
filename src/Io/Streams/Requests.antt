-- ===== src/Io/Streams/Requests.antt =====
-- The requests of a guest to streams.rs and error.rs, and what is reported as written to one stream.
use mathlib.Core.Option
use wasmx.Base.{
  ℕ, ◌+◌, List, [], ◌∷◌, Option, none, some, Result, ok, ⊤, ◌==◌, length, if◌then◌else◌,
}
use wasmx.Io.{Handle}
use wasmx.Io.Os.{Os}
use wasmx.Io.Streams.{
  Table, StreamError, HostTrap, Reply, host_read, host_blocking_read, host_skip, host_blocking_skip,
  host_subscribe_input, host_drop_input, host_check_write, host_write,
  host_blocking_write_and_flush, host_flush, host_blocking_flush, host_subscribe_output,
  host_write_zeroes, host_blocking_write_zeroes_and_flush, host_splice, host_blocking_splice,
  host_drop_output, host_drop_error,
}

-- The calls on the output stream that a handle names; those that wait come with fuel.
pub data Call : Type 0 where
  checks flushes waits_flushes : Call
  writes : List ℕ → Call
  zeroes : ℕ → Call
  splices : Handle → ℕ → Call
  waits : ℕ → List ℕ → Call
  waits_zeroes : ℕ → ℕ → Call
  waits_splices : ℕ → Handle → ℕ → Call

pub data Request : Type 0 where
  reads skips : Handle → ℕ → Request
  waits_reads waits_skips : ℕ → Handle → ℕ → Request
  output : Handle → Call → Request
  subscribes_input subscribes_output drops_input drops_output drops_error : Handle → Request

-- the bytes that an answer reports as written
abbrev pub taken : ℕ → Result (Result ⊤ StreamError) HostTrap → ℕ
taken n (ok (ok _)) = n
taken n _ = 0

abbrev pub moved : Result (Result ℕ StreamError) HostTrap → ℕ
moved (ok (ok n)) = n
moved _ = 0

abbrev pub nothing {ℓ} : {A : Type ℓ} → A → ℕ
nothing r = 0

module _ (os : Os) (table : Table) where
  -- The bytes reported, the table and the world.
  abbrev pub Served : Type 0
  Served = ℕ × table.State × os.World

  abbrev pub counted {ℓ} :
      {A : Type ℓ} → (Result (Result A StreamError) HostTrap → ℕ) → Reply os table A → Served
  counted count (r, t, w) = (count r, t, w)

  abbrev pub changed {ℓ} : {A : Type ℓ} → os.World → A × table.State → Served
  changed w (r, t) = (0, t, w)

  -- a call on the stream `k`
  unfoldable pub serve_call : Handle → Call → table.State → os.World → Option Served
  serve_call k checks t w = some (counted nothing (host_check_write os table k t w))
  serve_call k flushes t w = some (counted nothing (host_flush os table k t w))
  serve_call k waits_flushes t w = some (counted nothing (host_blocking_flush os table k t w))
  serve_call k (writes cs) t w = some (counted (taken (length cs)) (host_write os table k cs t w))
  serve_call k (zeroes n) t w = some (counted (taken n) (host_write_zeroes os table k n t w))
  serve_call k (splices src len) t w = some (counted moved (host_splice os table k src len t w))
  serve_call k (waits fuel cs) t w =
      Option.map (counted (taken (length cs)))
        (host_blocking_write_and_flush os table fuel k cs t w)
  serve_call k (waits_zeroes fuel n) t w =
      Option.map (counted (taken n)) (host_blocking_write_zeroes_and_flush os table fuel k n t w)
  serve_call k (waits_splices fuel src len) t w =
      Option.map (counted moved) (host_blocking_splice os table fuel k src len t w)

  -- what a call on the stream `k` reports of the stream `h`
  abbrev pub credit : Handle → Handle → Served → Served
  credit h k (n, t, w) = (if h == k then n else 0, t, w)

  -- A request, with the bytes that it reports as written to the stream `h`.
  unfoldable pub serve : Handle → Request → table.State → os.World → Option Served
  serve h (reads k len) t w = some (counted nothing (host_read os table k len t w))
  serve h (skips k len) t w = some (counted nothing (host_skip os table k len t w))
  serve h (waits_reads fuel k len) t w =
      Option.map (counted nothing) (host_blocking_read os table fuel k len t w)
  serve h (waits_skips fuel k len) t w =
      Option.map (counted nothing) (host_blocking_skip os table fuel k len t w)
  serve h (output k c) t w = Option.map (credit h k) (serve_call k c t w)
  serve h (subscribes_input k) t w = some (changed w (host_subscribe_input os table k t))
  serve h (subscribes_output k) t w = some (changed w (host_subscribe_output os table k t w))
  serve h (drops_input k) t w = some (changed w (host_drop_input os table k t))
  serve h (drops_output k) t w = some (changed w (host_drop_output os table k t))
  serve h (drops_error k) t w = some (changed w (host_drop_error os table k t))

  -- Requests one after the other, with all that they report of the stream `h`; `none` is that fuel ran out.
  unfoldable pub run : Handle → List Request → ℕ → table.State → os.World → Option Served
  run h [] a t w = some (a, t, w)
  run h (r ∷ rs) a t w = elim (serve h r t w) [
    | none ↦ none
    | some (n, t1, w1) ↦ run h rs (a + n) t1 w1
  ]
