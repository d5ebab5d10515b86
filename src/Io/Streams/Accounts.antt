-- ===== src/Io/Streams/Accounts.antt =====
-- The budget of one stream of a resource table, whatever a guest does with the table through streams.rs.
use mathlib.Core.Option
use mathlib.Core.Option.{some-injective}
use wasmx.Base.{
  ℕ, ◌+◌, ◌≤◌, ◌≡◌, ◌≢◌, refl, ◌⊎◌, inl, inr, ◌∙◌, sym, ap, subst, Option, none, some, Result, err,
  ⊤, arith, ◌==◌, Bool-cases, Option-cases, ==_iff,
}
use wasmx.Io.{Handle, Error, OutputStream, Pollable, Outcome, fail, trap, limited}
use wasmx.Io.Os.{Os}
use wasmx.Io.Budget as Budget
use wasmx.Io.Budget.{accepted, IsCharged, Charges}
use wasmx.Io.Streams.{Table, StreamError, HostTrap, answer, stored, on_output, on_output_waiting}
use wasmx.Io.Streams.Requests.{Served, counted, credit, taken}
use wasmx.Io.Streams.Requests as Requests

-- A table whose calls keep each output stream but the one that they write or delete.
pub record KeepsOutputs (table : Table) : Type 0 where
  pub set_same :
      (k : Handle) (s u : OutputStream) (t : table.State)
      → table.output t k ≡ some s
      → table.output (table.set_output k u t) k ≡ some u
  pub set_other :
      (k h : Handle) (u : OutputStream) (t : table.State)
      → h ≢ k
      → table.output (table.set_output k u t) h ≡ table.output t h
  pub pushed_error :
      (e : Error) (k h : Handle) (t u : table.State)
      → table.push_error e t ≡ some (k, u)
      → table.output u h ≡ table.output t h
  pub pushed_pollable :
      (p : Pollable) (k h : Handle) (t u : table.State)
      → table.push_pollable p t ≡ some (k, u)
      → table.output u h ≡ table.output t h
  pub deleted_input :
      (k h : Handle) (t u : table.State)
      → table.delete_input k t ≡ some u
      → table.output u h ≡ table.output t h
  pub deleted_error :
      (k h : Handle) (t u : table.State)
      → table.delete_error k t ≡ some u
      → table.output u h ≡ table.output t h
  pub deleted_same :
      (k : Handle) (t u : table.State) → table.delete_output k t ≡ some u → table.output u k ≡ none
  pub deleted_other :
      (k h : Handle) (t u : table.State)
      → h ≢ k
      → table.delete_output k t ≡ some u
      → table.output u h ≡ table.output t h

module _ (os : Os) (table : Table) (keeps : KeepsOutputs table) (h : Handle) (b : ℕ) where
  -- At most `b` bytes are reported of the stream `h`, and they and the budget left make `b`, unless it was dropped.
  abbrev pub IsAccounted : ℕ → table.State → Type 0
  IsAccounted n t =
      (n ≤ b)
      × ((table.output t h ≡ none)
          ⊎ ((left : ℕ) × (inner : OutputStream) × (table.output t h ≡ some (limited left inner))
              × (left + n ≡ b)))

  abbrev pub Accounts : ℕ → Option (Served os table) → Type 0
  Accounts a none = Unit {0}
  Accounts a (some (n, t, w)) = IsAccounted (a + n) t

  pub same-IsAccounted :
      (a : ℕ) (t u : table.State)
      → table.output u h ≡ table.output t h
      → IsAccounted a t
      → IsAccounted (a + 0) u
  same-IsAccounted a t u e k = let z : a + 0 ≡ a = omega arith in rw (z, e) k

  pub answer-output {ℓ} :
      {A : Type ℓ} (r : Outcome A) (t : table.State)
      → table.output (answer os table r t).1 h ≡ table.output t h
  unfolding answer
  answer-output (Outcome.ok a) t = refl
  answer-output (fail none) t = refl
  answer-output (fail (some e)) t = elim (Option-cases (table.push_error e t)) [
    | inl d ↦ rw (d, answer) refl
    | inr ((k, u), d) ↦ rw (d, answer) (keeps.pushed_error e k h t u d)
  ]
  answer-output (trap x) t = refl

  -- what is counted of an answer of a stream and of the host
  abbrev pub Agrees {ℓ} :
      {A : Type ℓ} → (Outcome A → ℕ) → (Result (Result A StreamError) HostTrap → ℕ) → Type ℓ
  Agrees {A = A} ca cr =
      ((r : Outcome A) (t : table.State) → cr (answer os table r t).0 ≡ ca r)
      × ((x : HostTrap) → cr (err x) ≡ 0)

  pub taken-Agrees : (n : ℕ) → Agrees (accepted n) (taken n)
  unfolding answer
  taken-Agrees n = (go, λ x. refl)
    where
      go : (r : Outcome ⊤) (t : table.State) → taken n (answer os table r t).0 ≡ accepted n r
      go (Outcome.ok u) t = refl
      go (fail none) t = refl
      go (fail (some e)) t = elim (Option-cases (table.push_error e t)) [
        | inl d ↦ rw (d, answer) refl
        | inr (k, d) ↦ rw (d, answer) refl
      ]
      go (trap x) t = refl

  pub moved-Agrees : Agrees Budget.moved Requests.moved
  unfolding answer
  moved-Agrees = (go, λ x. refl)
    where
      go :
          (r : Outcome ℕ) (t : table.State)
          → Requests.moved (answer os table r t).0 ≡ Budget.moved r
      go (Outcome.ok u) t = refl
      go (fail none) t = refl
      go (fail (some e)) t = elim (Option-cases (table.push_error e t)) [
        | inl d ↦ rw (d, answer) refl
        | inr (k, d) ↦ rw (d, answer) refl
      ]
      go (trap x) t = refl

  abbrev pub Charged {ℓ} :
      {A : Type ℓ} → ℕ → (Outcome A → ℕ) → Option (Outcome A × OutputStream × os.World) → Type 0
  Charged left ca none = Unit {0}
  Charged left ca (some (r, s, w)) = IsCharged os left (ca r) s

  -- A call has left `u` of the stream `h`.
  charged-IsAccounted {ℓ} :
      {A : Type ℓ} (ca : Outcome A → ℕ) (cr : Result (Result A StreamError) HostTrap → ℕ)
      (r : Outcome A) (s u : OutputStream) (a : ℕ) (t : table.State)
      → Agrees ca cr
      → table.output t h ≡ some s
      → ((left : ℕ) (inner : OutputStream) → s ≡ limited left inner → IsCharged os left (ca r) u)
      → IsAccounted a t
      → let (q, v) = answer os table r (table.set_output h u t) in IsAccounted (a + cr q) v
  charged-IsAccounted ca cr r s u a t agree e charge (m, inl d) = (let q = sym d ∙ e in cc)
  charged-IsAccounted ca cr r s u a t agree e charge (m, inr (left, inner, d, q)) =
      let v = table.set_output h u t in
      let (rest, under, f, g) =
        charge left inner (some-injective s (limited left inner) (sym e ∙ d)) in
      let n : cr (answer os table r v).0 ≡ ca r = agree.0 r v in
      (
        omega arith,
        inr (rest, under, answer-output r v ∙ keeps.set_same h s u t e ∙ ap some f, omega arith),
      )

  stored-Accounts {ℓ} :
      {A : Type ℓ} (ca : Outcome A → ℕ) (cr : Result (Result A StreamError) HostTrap → ℕ)
      (k : Handle) (s : OutputStream) (a : ℕ) (t : table.State)
      (o : Option (Outcome A × OutputStream × os.World))
      → Agrees ca cr
      → table.output t k ≡ some s
      → ((left : ℕ) (inner : OutputStream) → s ≡ limited left inner → Charged left ca o)
      → IsAccounted a t
      → Accounts a (
          Option.map
            (credit os table h k)
            (Option.map (counted os table cr) (Option.map (λ z. stored os table k z t) o)))
  stored-Accounts ca cr k s a t none agree e charge m = tt
  stored-Accounts ca cr k s a t (some (r, u, w)) agree e charge m = elim (Bool-cases (h == k)) [
    | inl d ↦
        let p = (==_iff h k).0 d in
        rw d (
          rw (sym p)
            (charged-IsAccounted ca cr r s u a t agree (ap (table.output t) p ∙ e) charge m))
    | inr d ↦
        let n : h ≢ k = λ q. (let z = (==_iff h k).1 q in cc) in
        rw d (
          same-IsAccounted a t (answer os table r (table.set_output k u t)).1
            (answer-output r (table.set_output k u t) ∙ keeps.set_other k h u t n) m)
  ]

  -- Nothing is reported by a call that traps before it comes to a stream.
  pub trapped-Accounts {ℓ} :
      {A : Type ℓ} (ca : Outcome A → ℕ) (cr : Result (Result A StreamError) HostTrap → ℕ)
      (k : Handle) (a : ℕ) (x : HostTrap) (t : table.State) (w : os.World)
      → Agrees ca cr
      → IsAccounted a t
      → Accounts a (some (credit os table h k (counted os table cr (err x, t, w))))
  trapped-Accounts ca cr k a x t w agree m = elim (Bool-cases (h == k)) [
    | inl d ↦ rw (d, agree.1 x) (same-IsAccounted a t t refl m)
    | inr d ↦ rw d (same-IsAccounted a t t refl m)
  ]

  pub on_output_waiting-Accounts {ℓ} :
      {A : Type ℓ} (ca : Outcome A → ℕ) (cr : Result (Result A StreamError) HostTrap → ℕ)
      (k : Handle) (f : OutputStream → Option (Outcome A × OutputStream × os.World)) (a : ℕ)
      (t : table.State) (w : os.World)
      → Agrees ca cr
      → ((left : ℕ) (inner : OutputStream) → Charged left ca (f (limited left inner)))
      → IsAccounted a t
      → Accounts a (
          Option.map
            (credit os table h k)
            (Option.map (counted os table cr) (on_output_waiting os table k f t w)))
  unfolding on_output_waiting
  on_output_waiting-Accounts ca cr k f a t w agree charge m =
      elim (Option-cases (table.output t k)) [
        | inl e ↦
            rw (e, on_output_waiting)
              (trapped-Accounts ca cr k a HostTrap.get_output_stream t w agree m)
        | inr (s, e) ↦
            rw (e, on_output_waiting)
              (stored-Accounts ca cr k s a t (f s) agree e
                (λ left inner p. subst (λ z. Charged left ca (f z)) (sym p) (charge left inner)) m)
      ]

  pub on_output-Accounts {ℓ} :
      {A : Type ℓ} (ca : Outcome A → ℕ) (cr : Result (Result A StreamError) HostTrap → ℕ)
      (k : Handle) (f : OutputStream → Outcome A × OutputStream × os.World) (a : ℕ)
      (t : table.State) (w : os.World)
      → Agrees ca cr
      → ((left : ℕ) (inner : OutputStream) → Charged left ca (some (f (limited left inner))))
      → IsAccounted a t
      → Accounts a (some (credit os table h k (counted os table cr (on_output os table k f t w))))
  unfolding on_output
  on_output-Accounts ca cr k f a t w agree charge m = elim (Option-cases (table.output t k)) [
    | inl e ↦ rw (e, on_output) (trapped-Accounts ca cr k a HostTrap.get_output_stream t w agree m)
    | inr (s, e) ↦
        rw (e, on_output)
          (stored-Accounts ca cr k s a t (some (f s)) agree e
            (λ left inner p. subst (λ z. Charged left ca (some (f z))) (sym p) (charge left inner))
            m)
  ]
