-- ===== src/Io/Streams.antt =====
-- crates/wasmlet/src/engine/wasi/io: streams.rs, the calls of a guest on the streams in its resource table, with
-- `push_pollable` of mod.rs and error.rs. The table is wasmtime's.
pub mod Requests
pub mod Accounts
pub mod Budgets
pub mod Sessions
use mathlib.Core.Option
use wasmx.Base.{ℕ, List, Option, none, some, Result, ok, err, ⊤}
use wasmx.Io.{Handle, Error, InputStream, OutputStream, Pollable, Trap, Outcome, fail, trap}
use wasmx.Io.Os.{Os}
use wasmx.Io.Output as Output
use wasmx.Io.Input as Input
use wasmx.Io.Blocking.{blocking_write_and_flush, blocking_write_zeroes_and_flush}

-- `ResourceTable`, with what it holds of each type; `set_output` is a write through `get_mut`.
pub record Table : Type 1 where
  pub State : Type 0
  pub input : State → Handle → Option InputStream
  pub output : State → Handle → Option OutputStream
  pub error : State → Handle → Option Error
  pub set_output : Handle → OutputStream → State → State
  pub push_error : Error → State → Option (Handle × State)
  pub push_pollable : Pollable → State → Option (Handle × State)
  pub delete_input : Handle → State → Option State
  pub delete_output : Handle → State → Option State
  pub delete_error : Handle → State → Option State

-- `StreamError` of wasi:io
pub data StreamError : Type 0 where
  closed : StreamError
  last_operation_failed : Handle → StreamError

-- What ends the guest: a failure of the table, by its context, or of the stream.
pub data HostTrap : Type 0 where
  get_input_stream get_output_stream get_error push_error push_pollable : HostTrap
  delete_input_stream delete_output_stream delete_error : HostTrap
  stream : Trap → HostTrap

module _ (os : Os) (table : Table) where
  open os use {World}

  abbrev pub State : Type 0
  State = table.State

  abbrev pub Reply {ℓ} : Type ℓ → Type ℓ
  Reply A = Result (Result A StreamError) HostTrap × State × World

  -- the `match` on what a stream returns
  unfoldable pub answer {ℓ} :
      {A : Type ℓ} → Outcome A → State → Result (Result A StreamError) HostTrap × State
  answer (Outcome.ok a) t = (ok (ok a), t)
  answer (fail none) t = (ok (err closed), t)
  answer (fail (some e)) t = elim (table.push_error e t) [
    | none ↦ (err HostTrap.push_error, t)
    | some (h, t1) ↦ (ok (err (last_operation_failed h)), t1)
  ]
  answer (trap x) t = (err (stream x), t)

  abbrev pub answered {ℓ} : {A : Type ℓ} → Outcome A × World → State → Reply A
  answered (r, w) t = let (a, t1) = answer r t in (a, t1, w)

  -- `get_input_stream_mut`, and a call of the stream
  unfoldable pub on_input {ℓ} :
      {A : Type ℓ} → Handle → (InputStream → Outcome A × World) → State → World → Reply A
  on_input h f t w = elim (table.input t h) [
    | none ↦ (err get_input_stream, t, w)
    | some s ↦ answered (f s) t
  ]

  unfoldable pub on_input_waiting {ℓ} :
      {A : Type ℓ}
      → Handle
      → (InputStream → Option (Outcome A × World))
      → State
      → World
      → Option (Reply A)
  on_input_waiting h f t w = elim (table.input t h) [
    | none ↦ some (err get_input_stream, t, w)
    | some s ↦ Option.map (λ z. answered z t) (f s)
  ]

  -- what a call has left of the stream `h`
  abbrev pub stored {ℓ} : {A : Type ℓ} → Handle → Outcome A × OutputStream × World → State → Reply A
  stored h (r, s, w) t = answered (r, w) (table.set_output h s t)

  -- `get_output_stream_mut`, and a call of the stream
  unfoldable pub on_output {ℓ} :
      {A : Type ℓ}
      → Handle
      → (OutputStream → Outcome A × OutputStream × World)
      → State
      → World
      → Reply A
  on_output h f t w = elim (table.output t h) [
    | none ↦ (err get_output_stream, t, w)
    | some s ↦ stored h (f s) t
  ]

  unfoldable pub on_output_waiting {ℓ} :
      {A : Type ℓ}
      → Handle
      → (OutputStream → Option (Outcome A × OutputStream × World))
      → State
      → World
      → Option (Reply A)
  on_output_waiting h f t w = elim (table.output t h) [
    | none ↦ some (err get_output_stream, t, w)
    | some s ↦ Option.map (λ z. stored h z t) (f s)
  ]

  -- `HostInputStream`
  unfoldable pub host_read : Handle → ℕ → State → World → Reply (List ℕ)
  host_read h len t w = on_input h (λ s. Input.read os s len w) t w

  unfoldable pub host_blocking_read : ℕ → Handle → ℕ → State → World → Option (Reply (List ℕ))
  host_blocking_read fuel h len t w =
      on_input_waiting h (λ s. Input.blocking_read os fuel s len w) t w

  unfoldable pub host_skip : Handle → ℕ → State → World → Reply ℕ
  host_skip h len t w = on_input h (λ s. Input.skip os s len w) t w

  unfoldable pub host_blocking_skip : ℕ → Handle → ℕ → State → World → Option (Reply ℕ)
  host_blocking_skip fuel h len t w =
      on_input_waiting h (λ s. Input.blocking_skip os fuel s len w) t w

  -- `push_pollable`
  unfoldable pub host_push_pollable : Pollable → State → Result Handle HostTrap × State
  host_push_pollable p t = elim (table.push_pollable p t) [
    | none ↦ (err HostTrap.push_pollable, t)
    | some (h, t1) ↦ (ok h, t1)
  ]

  unfoldable pub host_subscribe_input : Handle → State → Result Handle HostTrap × State
  host_subscribe_input h t = elim (table.input t h) [
    | none ↦ (err get_input_stream, t)
    | some s ↦ host_push_pollable (Input.subscribe s) t
  ]

  -- a `delete` of the table with its context
  abbrev pub deleted : HostTrap → State → Option State → Result ⊤ HostTrap × State
  deleted context t none = (err context, t)
  deleted context t (some t1) = (ok tt, t1)

  unfoldable pub host_drop_input : Handle → State → Result ⊤ HostTrap × State
  host_drop_input h t = deleted delete_input_stream t (table.delete_input h t)

  -- `HostOutputStream`
  unfoldable pub host_check_write : Handle → State → World → Reply ℕ
  host_check_write h t w = on_output h (λ s. Output.check_write os s w) t w

  unfoldable pub host_write : Handle → List ℕ → State → World → Reply ⊤
  host_write h contents t w = on_output h (λ s. Output.write os s contents w) t w

  unfoldable pub host_blocking_write_and_flush :
      ℕ → Handle → List ℕ → State → World → Option (Reply ⊤)
  host_blocking_write_and_flush fuel h contents t w =
      on_output_waiting h (λ s. blocking_write_and_flush os fuel s contents w) t w

  -- a flush, or a waiting flush, which awaits nothing else, leaves its stream as it was
  abbrev pub flushed : OutputStream → World → Outcome ⊤ × OutputStream × World
  flushed s w = let (r, w1) = Output.flush os s w in (r, s, w1)

  unfoldable pub host_flush : Handle → State → World → Reply ⊤
  host_flush h t w = on_output h (λ s. flushed s w) t w

  unfoldable pub host_blocking_flush : Handle → State → World → Reply ⊤
  host_blocking_flush h t w = on_output h (λ s. flushed s w) t w

  unfoldable pub host_subscribe_output : Handle → State → World → Result Handle HostTrap × State
  host_subscribe_output h t w = elim (table.output t h) [
    | none ↦ (err get_output_stream, t)
    | some s ↦ elim (Output.subscribe os s w) [
      | ok p ↦ host_push_pollable p t
      | err x ↦ (err (stream x), t)
    ]
  ]

  unfoldable pub host_write_zeroes : Handle → ℕ → State → World → Reply ⊤
  host_write_zeroes h len t w = on_output h (λ s. Output.write_zeroes os s len w) t w

  unfoldable pub host_blocking_write_zeroes_and_flush :
      ℕ → Handle → ℕ → State → World → Option (Reply ⊤)
  host_blocking_write_zeroes_and_flush fuel h len t w =
      on_output_waiting h (λ s. blocking_write_zeroes_and_flush os fuel s len w) t w

  unfoldable pub host_splice : Handle → Handle → ℕ → State → World → Reply ℕ
  host_splice h src len t w = elim (table.input t src) [
    | none ↦ (err get_input_stream, t, w)
    | some i ↦ on_output h (λ s. Input.splice os s i len w) t w
  ]

  unfoldable pub host_blocking_splice : ℕ → Handle → Handle → ℕ → State → World → Option (Reply ℕ)
  host_blocking_splice fuel h src len t w = elim (table.input t src) [
    | none ↦ some (err get_input_stream, t, w)
    | some i ↦ on_output_waiting h (λ s. Input.blocking_splice os fuel s i len w) t w
  ]

  unfoldable pub host_drop_output : Handle → State → Result ⊤ HostTrap × State
  host_drop_output h t = deleted delete_output_stream t (table.delete_output h t)

  -- `HostError`; the text is that of the error
  unfoldable pub host_to_debug_string : Handle → State → Result Error HostTrap
  host_to_debug_string h t = elim (table.error t h) [ none ↦ err get_error | some e ↦ ok e ]

  unfoldable pub host_drop_error : Handle → State → Result ⊤ HostTrap × State
  host_drop_error h t = deleted HostTrap.delete_error t (table.delete_error h t)
