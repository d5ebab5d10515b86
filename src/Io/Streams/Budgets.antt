-- ===== src/Io/Streams/Budgets.antt =====
-- Requests to streams.rs and error.rs one by one, and a sequence of them: what they do to the budget of one stream.
use mathlib.Core.Option
use wasmx.Base.{ℕ, ◌+◌, ◌≡◌, refl, inl, inr, Option, none, some, ⊤, length, Option-cases}
use wasmx.Io.{Handle, OutputStream, InputStream, Outcome, limited}
use wasmx.Io.Os.{Os}
use wasmx.Io.Input as Input
use wasmx.Io.Output as Output
use wasmx.Io.Blocking.{blocking_write_and_flush, blocking_write_zeroes_and_flush}
use wasmx.Io.Budget as Budget
use wasmx.Io.Budget.{accepted, Charges}
use wasmx.Io.Budget.Charges.{serve-Charges}
use wasmx.Io.Streams.{
  Table, HostTrap, on_input, on_input_waiting, answered, flushed, host_check_write, host_write,
  host_blocking_write_and_flush, host_flush, host_blocking_flush, host_write_zeroes,
  host_blocking_write_zeroes_and_flush, host_splice, host_blocking_splice,
}
use wasmx.Io.Streams.Requests.{
  Request, reads, skips, waits_reads, waits_skips, output, subscribes_input, subscribes_output,
  drops_input, drops_output, drops_error, Call, checks, flushes, waits_flushes, writes, zeroes,
  splices, waits, waits_zeroes, waits_splices, Served, counted, nothing, changed, credit, taken,
  serve_call, serve, run,
}
use wasmx.Io.Streams.Requests as Requests
use wasmx.Io.Streams.Accounts.{
  KeepsOutputs, IsAccounted, Accounts, Charged, same-IsAccounted, answer-output, taken-Agrees,
  moved-Agrees, trapped-Accounts, on_output-Accounts, on_output_waiting-Accounts,
}

module _ (os : Os) (table : Table) (keeps : KeepsOutputs table) (h : Handle) (b : ℕ) where
  abbrev pub Kept : ℕ → table.State → Type 0
  Kept = IsAccounted os table keeps h b

  abbrev pub Goes : ℕ → Option (Served os table) → Type 0
  Goes = Accounts os table keeps h b

  pub unchanged :
      (a : ℕ) (t u : table.State) → table.output u h ≡ table.output t h → Kept a t → Kept (a + 0) u
  unchanged = same-IsAccounted os table keeps h b

  -- Calls on input streams.
  pub on_input-Goes {ℓ} :
      {A : Type ℓ} (k : Handle) (f : InputStream → Outcome A × os.World) (a : ℕ) (t : table.State)
      (w : os.World)
      → Kept a t
      → Goes a (some (counted os table nothing (on_input os table k f t w)))
  unfolding on_input
  on_input-Goes k f a t w m = elim (Option-cases (table.input t k)) [
    | inl e ↦ rw (e, on_input) (unchanged a t t refl m)
    | inr (s, e) ↦
        rw (e, on_input)
          (unchanged a t (answered os table (f s) t).1 (answer-output os table keeps h b (f s).0 t)
            m)
  ]

  answered-Goes {ℓ} :
      {A : Type ℓ} (o : Option (Outcome A × os.World)) (a : ℕ) (t : table.State)
      → Kept a t
      → Goes a (Option.map (counted os table nothing) (Option.map (λ z. answered os table z t) o))
  answered-Goes none a t m = tt
  answered-Goes (some (r, w)) a t m =
      unchanged a t (answered os table (r, w) t).1 (answer-output os table keeps h b r t) m

  pub on_input_waiting-Goes {ℓ} :
      {A : Type ℓ} (k : Handle) (f : InputStream → Option (Outcome A × os.World)) (a : ℕ)
      (t : table.State) (w : os.World)
      → Kept a t
      → Goes a (Option.map (counted os table nothing) (on_input_waiting os table k f t w))
  unfolding on_input_waiting
  on_input_waiting-Goes k f a t w m = elim (Option-cases (table.input t k)) [
    | inl e ↦ rw (e, on_input_waiting) (unchanged a t t refl m)
    | inr (s, e) ↦ rw (e, on_input_waiting) (answered-Goes (f s) a t m)
  ]

  -- Calls on output streams.
  served-Charged :
      (left n : ℕ) (o : Option (Outcome ⊤ × OutputStream × os.World))
      → Charges os left (Option.map (Budget.served os n) o)
      → Charged os table keeps h b left (accepted n) o
  served-Charged left n none c = tt
  served-Charged left n (some z) c = c

  moved-Charged :
      (left : ℕ) (o : Option (Outcome ℕ × OutputStream × os.World))
      → Charges os left (Option.map (λ t. (Budget.moved t.0, t.1, t.2)) o)
      → Charged os table keeps h b left Budget.moved o
  moved-Charged left none c = tt
  moved-Charged left (some z) c = c

  splices-Goes :
      (k src : Handle) (len a : ℕ) (t : table.State) (w : os.World)
      → Kept a t
      → Goes a (
          some (
            credit os table h k
              (counted os table Requests.moved (host_splice os table k src len t w))))
  unfolding host_splice Budget.serve
  splices-Goes k src len a t w m = elim (Option-cases (table.input t src)) [
    | inl e ↦
        rw (e, host_splice)
          (trapped-Accounts os table keeps h b Budget.moved Requests.moved k a
            HostTrap.get_input_stream t w (moved-Agrees os table keeps h b) m)
    | inr (i, e) ↦
        rw (e, host_splice)
          (on_output-Accounts os table keeps h b Budget.moved Requests.moved k
            (λ s. Input.splice os s i len w) a t w (moved-Agrees os table keeps h b)
            (λ left inner. serve-Charges os (Budget.splices i len) left inner w) m)
  ]

  waits_splices-Goes :
      (fuel : ℕ) (k src : Handle) (len a : ℕ) (t : table.State) (w : os.World)
      → Kept a t
      → Goes a (
          Option.map (credit os table h k) (
            Option.map
              (counted os table Requests.moved)
              (host_blocking_splice os table fuel k src len t w)))
  unfolding host_blocking_splice Budget.serve
  waits_splices-Goes fuel k src len a t w m = elim (Option-cases (table.input t src)) [
    | inl e ↦
        rw (e, host_blocking_splice)
          (trapped-Accounts os table keeps h b Budget.moved Requests.moved k a
            HostTrap.get_input_stream t w (moved-Agrees os table keeps h b) m)
    | inr (i, e) ↦
        rw (e, host_blocking_splice)
          (on_output_waiting-Accounts os table keeps h b Budget.moved Requests.moved k
            (λ s. Input.blocking_splice os fuel s i len w) a t w (moved-Agrees os table keeps h b)
            (λ left inner.
              moved-Charged left (Input.blocking_splice os fuel (limited left inner) i len w)
                (serve-Charges os (Budget.waits_splices fuel i len) left inner w))
            m)
  ]

  pub serve_call-Goes :
      (k : Handle) (c : Call) (a : ℕ) (t : table.State) (w : os.World)
      → Kept a t
      → Goes a (Option.map (credit os table h k) (serve_call os table k c t w))
  unfolding serve_call host_check_write host_flush host_blocking_flush host_write host_write_zeroes
      host_blocking_write_and_flush host_blocking_write_zeroes_and_flush Budget.serve
  serve_call-Goes k checks a t w m =
      on_output-Accounts os table keeps h b (λ r. 0) nothing k (λ s. Output.check_write os s w) a t
        w (λ r u. refl, λ x. refl) (λ left inner. serve-Charges os Budget.checks left inner w) m
  serve_call-Goes k flushes a t w m =
      on_output-Accounts os table keeps h b (λ r. 0) nothing k (λ s. flushed os table s w) a t w
        (λ r u. refl, λ x. refl) (λ left inner. serve-Charges os Budget.flushes left inner w) m
  serve_call-Goes k waits_flushes a t w m =
      on_output-Accounts os table keeps h b (λ r. 0) nothing k (λ s. flushed os table s w) a t w
        (λ r u. refl, λ x. refl) (λ left inner. serve-Charges os Budget.flushes left inner w) m
  serve_call-Goes k (writes cs) a t w m =
      on_output-Accounts os table keeps h b (accepted (length cs)) (taken (length cs)) k
        (λ s. Output.write os s cs w) a t w (taken-Agrees os table keeps h b (length cs))
        (λ left inner. serve-Charges os (Budget.writes cs) left inner w) m
  serve_call-Goes k (zeroes n) a t w m =
      on_output-Accounts os table keeps h b (accepted n) (taken n) k
        (λ s. Output.write_zeroes os s n w) a t w (taken-Agrees os table keeps h b n)
        (λ left inner. serve-Charges os (Budget.zeroes n) left inner w) m
  serve_call-Goes k (splices src len) a t w m = splices-Goes k src len a t w m
  serve_call-Goes k (waits fuel cs) a t w m =
      on_output_waiting-Accounts os table keeps h b (accepted (length cs)) (taken (length cs)) k
        (λ s. blocking_write_and_flush os fuel s cs w) a t w
        (taken-Agrees os table keeps h b (length cs))
        (λ left inner.
          served-Charged left (length cs)
            (blocking_write_and_flush os fuel (limited left inner) cs w)
            (serve-Charges os (Budget.waits fuel cs) left inner w))
        m
  serve_call-Goes k (waits_zeroes fuel n) a t w m =
      on_output_waiting-Accounts os table keeps h b (accepted n) (taken n) k
        (λ s. blocking_write_zeroes_and_flush os fuel s n w) a t w
        (taken-Agrees os table keeps h b n)
        (λ left inner.
          served-Charged left n (blocking_write_zeroes_and_flush os fuel (limited left inner) n w)
            (serve-Charges os (Budget.waits_zeroes fuel n) left inner w))
        m
  serve_call-Goes k (waits_splices fuel src len) a t w m = waits_splices-Goes fuel k src len a t w m
