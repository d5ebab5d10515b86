-- ===== src/Io/Budget/Charges.antt =====
-- A budget of io/mod.rs is charged by every call with what the call reports as written.
use mathlib.Core.Option
use wasmx.Base.{
  ℕ, zero, suc, ◌+◌, ◌-◌, ◌≤◌, ◌≡◌, refl, inl, inr, List, [], ◌∷◌, Option, none, some, ⊤, arith,
  min, length, replicate, ltb, Bool-cases, u64_max, ltb-false→le, length-replicate,
}
use wasmx.Io.{InputStream, OutputStream, Outcome, fail, trap, limited}
use wasmx.Io.Os.{Os}
use wasmx.Io.Output.{check_write, write, write_zeroes, within, charge}
use wasmx.Io.Blocking.{blocking_write_and_flush, blocking_write_zeroes_and_flush, Waited}
use wasmx.Io.Input.{
  splice, splice_checked, splice_read, spliced, read, blocking_splice, blocking_splice_read,
  blocking_read,
}
use wasmx.Io.Budget.{
  Call, checks, flushes, writes, zeroes, splices, waits, waits_zeroes, waits_splices, accepted,
  moved, Served, served, serve, run, IsCharged, Charges,
}

module _ (os : Os) where
  charge-IsCharged :
      (b n : ℕ) (t : Outcome ⊤ × OutputStream × os.World)
      → n ≤ b
      → IsCharged os b (accepted n (charge b n t).0) (charge b n t).1
  charge-IsCharged b n (Outcome.ok u, s, w) h = (b - n, s, refl, omega arith)
  charge-IsCharged b n (fail e, s, w) h = (b, s, refl, omega arith)
  charge-IsCharged b n (trap e, s, w) h = (b, s, refl, omega arith)

  within-IsCharged :
      (b : ℕ) (t : Outcome ℕ × OutputStream × os.World) → IsCharged os b 0 (within b t).1
  within-IsCharged b (Outcome.ok n, s, w) = (b, s, refl, omega arith)
  within-IsCharged b (fail e, s, w) = (b, s, refl, omega arith)
  within-IsCharged b (trap e, s, w) = (b, s, refl, omega arith)

  check_write-IsCharged :
      (b : ℕ) (s : OutputStream) (w : os.World)
      → IsCharged os b 0 (check_write os (limited b s) w).1
  unfolding check_write
  check_write-IsCharged zero s w = (0, s, refl, omega arith)
  check_write-IsCharged (suc b) s w = within-IsCharged (suc b) (check_write os s w)

  write-IsCharged :
      (b : ℕ) (s : OutputStream) (cs : List ℕ) (w : os.World)
      → let (r, t, _) = write os (limited b s) cs w in IsCharged os b (accepted (length cs) r) t
  unfolding write
  write-IsCharged b s cs w = elim (Bool-cases (ltb u64_max (length cs))) [
    | inl d ↦ rw d (b, s, refl, omega arith)
    | inr d ↦ rw d (elim (Bool-cases (ltb b (length cs))) [
      | inl e ↦ rw e (b, s, refl, omega arith)
      | inr e ↦
          rw e (charge-IsCharged b (length cs) (write os s cs w) (ltb-false→le b (length cs) e))
    ])
  ]

  write_zeroes-IsCharged :
      (b n : ℕ) (s : OutputStream) (w : os.World)
      → let (r, t, _) = write_zeroes os (limited b s) n w in IsCharged os b (accepted n r) t
  unfolding write_zeroes
  write_zeroes-IsCharged b n s w =
      rw (length-replicate {A = ℕ} n 0) at (write-IsCharged b s (replicate n 0) w)

  blocking-Charges :
      (b fuel : ℕ) (s : OutputStream) (cs : List ℕ) (w : os.World)
      → Charges os b
          (Option.map (served os (length cs)) (blocking_write_and_flush os fuel (limited b s) cs w))
  unfolding blocking_write_and_flush
  blocking-Charges b fuel s cs w = elim (Bool-cases (ltb u64_max (length cs))) [
    | inl d ↦ rw d (b, s, refl, omega arith)
    | inr d ↦ rw d (elim (Bool-cases (ltb b (length cs))) [
      | inl e ↦ rw e (b, s, refl, omega arith)
      | inr e ↦ rw e (go (blocking_write_and_flush os fuel s cs w) (ltb-false→le b (length cs) e))
    ])
  ]
    where
      go :
          (o : Waited os)
          → length cs ≤ b
          → Charges os b (Option.map (served os (length cs)) (Option.map (charge b (length cs)) o))
      go none h = tt
      go (some t) h = charge-IsCharged b (length cs) t h

  blocking_zeroes-Charges :
      (b fuel n : ℕ) (s : OutputStream) (w : os.World)
      → Charges os b
          (Option.map (served os n) (blocking_write_zeroes_and_flush os fuel (limited b s) n w))
  unfolding blocking_write_zeroes_and_flush
  blocking_zeroes-Charges b fuel n s w =
      rw (length-replicate {A = ℕ} n 0) at (blocking-Charges b fuel s (replicate n 0) w)

  spliced-IsCharged :
      (b n : ℕ) (t : Outcome ⊤ × OutputStream × os.World)
      → IsCharged os b (accepted n t.0) t.1
      → IsCharged os b (moved (spliced os n t).0) (spliced os n t).1
  spliced-IsCharged b n (Outcome.ok u, s, w) h = h
  spliced-IsCharged b n (fail e, s, w) h = h
  spliced-IsCharged b n (trap e, s, w) h = h

  splice_read-IsCharged :
      (b : ℕ) (s : OutputStream) (t : Outcome (List ℕ) × os.World)
      → let (r, u, _) = splice_read os (limited b s) t in IsCharged os b (moved r) u
  unfolding splice_read
  splice_read-IsCharged b s (Outcome.ok buf, w) =
      spliced-IsCharged b (length buf) (write os (limited b s) buf w) (write-IsCharged b s buf w)
  splice_read-IsCharged b s (fail e, w) = (b, s, refl, omega arith)
  splice_read-IsCharged b s (trap e, w) = (b, s, refl, omega arith)

  splice_checked-IsCharged :
      (b : ℕ) (src : InputStream) (len : ℕ) (t : Outcome ℕ × OutputStream × os.World)
      → IsCharged os b 0 t.1
      → let (r, u, _) = splice_checked os src len t in IsCharged os b (moved r) u
  unfolding splice_checked
  splice_checked-IsCharged b src len (Outcome.ok m, s, w) (left, inner, e, h) =
      let d : left ≡ b = omega arith in
      rw (e, d) (splice_read-IsCharged b inner (read os src (min m len) w))
  splice_checked-IsCharged b src len (fail x, s, w) h = h
  splice_checked-IsCharged b src len (trap x, s, w) h = h

  splice-IsCharged :
      (b : ℕ) (s : OutputStream) (src : InputStream) (len : ℕ) (w : os.World)
      → let (r, u, _) = splice os (limited b s) src len w in IsCharged os b (moved r) u
  unfolding splice
  splice-IsCharged b s src len w =
      splice_checked-IsCharged b src len (check_write os (limited b s) w)
        (check_write-IsCharged b s w)

  blocking_spliced-Charges :
      (b n : ℕ) (o : Waited os)
      → Charges os b (Option.map (served os n) o)
      → Charges os b (Option.map (λ t. (moved t.0, t.1, t.2)) (Option.map (spliced os n) o))
  blocking_spliced-Charges b n none h = tt
  blocking_spliced-Charges b n (some t) h = spliced-IsCharged b n t h

  blocking_splice_read-Charges :
      (b fuel : ℕ) (s : OutputStream) (o : Option (Outcome (List ℕ) × os.World))
      → Charges os b (
          Option.map
            (λ t. (moved t.0, t.1, t.2))
            (Option.bind o (blocking_splice_read os fuel (limited b s))))
  unfolding blocking_splice_read Option.bind
  blocking_splice_read-Charges b fuel s none = tt
  blocking_splice_read-Charges b fuel s (some (Outcome.ok buf, w)) =
      blocking_spliced-Charges b (length buf) (blocking_write_and_flush os fuel (limited b s) buf w)
        (blocking-Charges b fuel s buf w)
  blocking_splice_read-Charges b fuel s (some (fail e, w)) = (b, s, refl, omega arith)
  blocking_splice_read-Charges b fuel s (some (trap e, w)) = (b, s, refl, omega arith)

  pub serve-Charges :
      (c : Call) (b : ℕ) (s : OutputStream) (w : os.World)
      → Charges os b (serve os c (limited b s) w)
  unfolding serve blocking_splice
  serve-Charges checks b s w = check_write-IsCharged b s w
  serve-Charges flushes b s w = (b, s, refl, omega arith)
  serve-Charges (writes cs) b s w = write-IsCharged b s cs w
  serve-Charges (zeroes n) b s w = write_zeroes-IsCharged b n s w
  serve-Charges (splices src len) b s w = splice-IsCharged b s src len w
  serve-Charges (waits fuel cs) b s w = blocking-Charges b fuel s cs w
  serve-Charges (waits_zeroes fuel n) b s w = blocking_zeroes-Charges b fuel n s w
  serve-Charges (waits_splices fuel src len) b s w =
      blocking_splice_read-Charges b fuel s (blocking_read os fuel src len w)

  resume-Charges :
      (calls : List Call) (a b left : ℕ)
      → left + a ≡ b
      → ((n : ℕ) (s : OutputStream) (w : os.World)
          → IsCharged os b n s
          → Charges os b (run os calls n s w))
      → (o : Option (Served os)) → Charges os left o
      → Charges os b (elim o [ none ↦ none | some (n, s, w) ↦ run os calls (a + n) s w ])
  resume-Charges calls a b left h rest none k = tt
  resume-Charges calls a b left h rest (some (n, s, w)) (left', inner, d, k) =
      rest (a + n) s w (left', inner, d, omega arith)

  run-Charges :
      (calls : List Call) (a b : ℕ) (s : OutputStream) (w : os.World)
      → IsCharged os b a s
      → Charges os b (run os calls a s w)
  unfolding run
  run-Charges [] a b s w h = h
  run-Charges (c ∷ calls) a b s w (left, inner, d, h) = rw d (
      resume-Charges calls a b left h (λ n t v. run-Charges calls n b t v)
        (serve os c (limited left inner) w) (serve-Charges c left inner w))

  -- Whatever calls the guest makes on a stream with a budget, in whatever order, waiting or not,
  -- failing or not: the bytes reported as written and the budget that is left add up to the
  -- budget at the start, so they are never more than it.
  pub run_limited :
      (calls : List Call) (b n : ℕ) (s t : OutputStream) (w v : os.World)
      → run os calls 0 (limited b s) w ≡ some (n, t, v)
      → (left : ℕ) × (inner : OutputStream) × (t ≡ limited left inner) × (left + n ≡ b)
  run_limited calls b n s t w v e =
      rw e at (run-Charges calls 0 b (limited b s) w (b, s, refl, omega arith))
