-- ===== src/Tests/Resources.antt =====
-- A resource table of output streams, with inputs from a socket, and the requests of a guest to two of its streams.
use mathlib.Core.Option.{some-injective}
use wasmx.Base.{
  ℕ, suc, ◌+◌, ◌≤◌, ◌≡◌, ◌≢◌, refl, sym, ◌∙◌, ap, ◌⊎◌, inl, inr, List, [], ◌∷◌, Option, none, some,
  ◌==◌, if◌then◌else◌, ==_iff, Bool-cases,
}
use wasmx.Io.{Handle, InputStream, OutputStream, limited}
use wasmx.Io.Input.{splice, splice_checked, splice_read, read, read_socket}
use wasmx.Io.Output.{check_write, write, write_zeroes}
use wasmx.Io.Streams.{
  Table, answer, on_output, host_check_write, host_write, host_write_zeroes, host_splice,
  host_drop_output,
}
use wasmx.Io.Streams.Requests.{
  Request, output, drops_output, checks, writes, zeroes, splices, serve_call, serve, run,
}
use wasmx.Io.Streams.Accounts.{KeepsOutputs}
use wasmx.Io.Streams.Sessions.{run-budget}
use wasmx.Tests.Streams.{os}

-- the next handle, and the output streams
abbrev Slots : Type 0
Slots = ℕ × (Handle → Option OutputStream)

abbrev put : Handle → Option OutputStream → Slots → Slots
put k o (n, f) = (n, λ h. if h == k then o else f h)

abbrev table : Table
table = record {
  State = Slots;
  input = λ t h. some (InputStream.tcp_stream h);
  output = λ t. t.1;
  error = λ t h. none;
  set_output = λ k u. put k (some u);
  push_error = λ e t. some (t.0, (suc t.0, t.1));
  push_pollable = λ p t. some (t.0, (suc t.0, t.1));
  delete_input = λ k t. some t;
  delete_output = λ k t. some (put k none t);
  delete_error = λ k t. some t;
}

put_same : (k : Handle) (o : Option OutputStream) (t : Slots) → (put k o t).1 k ≡ o
put_same k o t = rw ((==_iff k k).1 refl) refl

put_other : (k h : Handle) (o : Option OutputStream) (t : Slots) → h ≢ k → (put k o t).1 h ≡ t.1 h
put_other k h o t n = elim (Bool-cases (h == k)) [
  | inl e ↦ elim (n ((==_iff h k).0 e)) [ ]
  | inr e ↦ rw e refl
]

keeps : KeepsOutputs table
keeps = record {
  set_same = λ k s u t e. put_same k (some u) t;
  set_other = λ k h u t n. put_other k h (some u) t n;
  pushed_error =
      λ e k h t u p. ap (λ z. z.1.1 h) (sym (some-injective (t.0, (suc t.0, t.1)) (k, u) p));
  pushed_pollable =
      λ e k h t u p. ap (λ z. z.1.1 h) (sym (some-injective (t.0, (suc t.0, t.1)) (k, u) p));
  deleted_input = λ k h t u p. ap (λ z. z.1 h) (sym (some-injective t u p));
  deleted_error = λ k h t u p. ap (λ z. z.1 h) (sym (some-injective t u p));
  deleted_same =
      λ k t u p. ap (λ z. z.1 k) (sym (some-injective (put k none t) u p)) ∙ put_same k none t;
  deleted_other = λ k h t u n p.
      ap (λ z. z.1 h) (sym (some-injective (put k none t) u p)) ∙ put_other k h none t n;
}

-- stream 0 has a budget of ten bytes, and stream 1 one of five
abbrev before : Slots
before = (
  2,
  λ h.
      if h == 0
      then some (limited 10 OutputStream.stdout)
      else if h == 1
      then some (limited 5 OutputStream.stdout)
      else none,
)

abbrev requests : List Request
requests =
    output 0 (writes (1 ∷ 2 ∷ 3 ∷ []))
    ∷ output 1 (zeroes 4)
    ∷ output 0 (splices 7 2)
    ∷ output 0 (writes (1 ∷ 2 ∷ 3 ∷ 4 ∷ 5 ∷ 6 ∷ []))
    ∷ drops_output 1
    ∷ output 0 checks
    ∷ []

abbrev keep : ℕ → Slots → Slots
keep n = put 0 (some (limited n OutputStream.stdout))

abbrev failed : Slots → Slots
failed (n, f) = (suc n, f)

abbrev after : Slots
after = keep 5 (
    put 1 none
      (failed (keep 5 (keep 5 (put 1 (some (limited 1 OutputStream.stdout)) (keep 7 before))))))

requests-run : run os table 0 requests 0 before (0, []) ≡ some (5, after, (0, []))
unfolding run serve serve_call host_write on_output answer write host_write_zeroes write_zeroes
    host_splice splice splice_checked splice_read check_write read read_socket host_drop_output
    host_check_write
requests-run = refl

run-budget_example :
    (5 ≤ 10)
    × ((after.1 0 ≡ none)
        ⊎ ((left : ℕ) × (inner : OutputStream) × (after.1 0 ≡ some (limited left inner))
            × (left + 5 ≡ 10)))
run-budget_example =
    run-budget os table keeps 0 10 requests 5 OutputStream.stdout before after (0, []) (0, []) refl
      requests-run
