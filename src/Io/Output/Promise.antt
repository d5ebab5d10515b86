-- ===== src/Io/Output/Promise.antt =====
-- What `check_write` of io/mod.rs promises to a guest that writes at once.
use wasmx.Base.{
  ℕ, zero, suc, ◌≤◌, ◌<◌, ◌≡◌, refl, Bool, true, false, List, ⊤, some, inl, inr, arith, length,
  u64_max,
}
use wasmx.Io.{OutputStream, ContentSender, Outcome, Error, fail, trap, limited}
use wasmx.Io.Os.{Os, TryRecv, TryAcquire, TryRecv-cases}
use wasmx.Io.Output.{
  check_write, check_write_http, write, write_http, send_acquired, within, charge,
}

-- The outcomes by which the host blames the guest for a write that it was not allowed.
abbrev pub is_refusal : Outcome ⊤ → Bool
is_refusal (trap _) = true
is_refusal (fail (some Error.overflow)) = true
is_refusal (fail (some Error.would_block)) = true
is_refusal (fail (some Error.write_budget_exceeded)) = true
is_refusal _ = false

-- tokio: a `oneshot` that is empty is not changed by `try_recv`, and a semaphore refuses for want of
-- permits only if it has fewer than asked for.
pub record IsPrompt (os : Os) : Type 0 where
  pub conn_empty :
      (h : ℕ) (w : os.World)
      → (os.conn_try_recv h w).0 ≡ TryRecv.empty
      → (os.conn_try_recv h w).1 ≡ w
  pub permits :
      (h n : ℕ) (w : os.World)
      → (os.try_acquire_many h n w).0 ≡ TryAcquire.no_permits
      → os.available_permits h w < n

module _ (os : Os) (prompt : IsPrompt os) where
  write_http-promise :
      (c : ContentSender) (contents : List ℕ) (w : os.World) (n : ℕ)
      → (check_write_http os c w).0 ≡ Outcome.ok n
      → length contents ≤ n
      → is_refusal (write_http os c contents (check_write_http os c w).1).0 ≡ false
  unfolding check_write_http write_http send_acquired
  write_http-promise c contents w n e h =
      ground (arith, prompt.conn_empty c.conn w, prompt.permits c.permits (length contents) w)

  abbrev IsAtMost : ℕ → Outcome ℕ → Type 0
  IsAtMost m (Outcome.ok n) = n ≤ m
  IsAtMost m _ = Unit {0}

  check_write_http-le :
      (c : ContentSender) (w : os.World) → IsAtMost u64_max (check_write_http os c w).0
  unfolding check_write_http
  check_write_http-le c w = ground arith

  within-le :
      (b : ℕ) (t : Outcome ℕ × OutputStream × os.World)
      → IsAtMost u64_max t.0
      → IsAtMost u64_max (within b t).0
  within-le b (Outcome.ok n, s, w) h = omega arith
  within-le b (fail e, s, w) h = tt
  within-le b (trap e, s, w) h = tt

  check_write-le : (s : OutputStream) (w : os.World) → IsAtMost u64_max (check_write os s w).0
  unfolding check_write
  check_write-le OutputStream.discard w = omega arith
  check_write-le (limited zero s) w = tt
  check_write-le (limited (suc b) s) w = within-le (suc b) (check_write os s w) (check_write-le s w)
  check_write-le (OutputStream.http_pending rx) w =
      ground (arith, λ (c : ContentSender) (v : os.World). check_write_http-le c v)
  check_write-le (OutputStream.http_writing c) w = check_write_http-le c w
  check_write-le _ w = ground arith

  -- The promise at a triple that `check_write` may give back, which `write` goes on from.
  abbrev Keeps : List ℕ → Outcome ℕ × OutputStream × os.World → Type 0
  Keeps contents (Outcome.ok n, s, w) =
      length contents ≤ n → is_refusal (write os s contents w).0 ≡ false
  Keeps contents _ = Unit {0}

  charge-is_refusal :
      (b n : ℕ) (t : Outcome ⊤ × OutputStream × os.World)
      → is_refusal t.0 ≡ false
      → is_refusal (charge b n t).0 ≡ false
  charge-is_refusal b n (Outcome.ok u, s, w) h = h
  charge-is_refusal b n (fail e, s, w) h = h
  charge-is_refusal b n (trap e, s, w) h = h

  within-Keeps :
      (contents : List ℕ) (b : ℕ) (t : Outcome ℕ × OutputStream × os.World)
      → IsAtMost u64_max t.0
      → Keeps contents t
      → Keeps contents (within b t)
  unfolding write
  within-Keeps contents b (Outcome.ok n, s, w) m k =
      λ h. ground (arith, charge-is_refusal b (length contents) (write os s contents w), k)
  within-Keeps contents b (fail e, s, w) m k = tt
  within-Keeps contents b (trap e, s, w) m k = tt

  http-Keeps :
      (c : ContentSender) (contents : List ℕ) (t : Outcome ℕ × os.World)
      → ((n : ℕ)
          → t.0 ≡ Outcome.ok n
          → length contents ≤ n
          → is_refusal (write_http os c contents t.1).0 ≡ false)
      → Keeps contents (t.0, OutputStream.http_writing c, t.1)
  unfolding write
  http-Keeps c contents (Outcome.ok n, w) h = λ l. h n refl l
  http-Keeps c contents (fail e, w) h = tt
  http-Keeps c contents (trap e, w) h = tt

  check_write-Keeps :
      (s : OutputStream) (contents : List ℕ) (w : os.World) → Keeps contents (check_write os s w)
  unfolding check_write write
  check_write-Keeps OutputStream.discard contents w = λ h. refl
  check_write-Keeps (limited zero s) contents w = tt
  check_write-Keeps (limited (suc b) s) contents w =
      within-Keeps contents (suc b) (check_write os s w) (check_write-le s w)
        (check_write-Keeps s contents w)
  check_write-Keeps (OutputStream.http_pending rx) contents w =
      elim (TryRecv-cases (os.body_try_recv rx w).0) [
        | inl (c, e) ↦
            rw (e, check_write)
              (http-Keeps c contents (check_write_http os c (os.body_try_recv rx w).1)
                (write_http-promise c contents (os.body_try_recv rx w).1))
        | inr (inl e) ↦ rw (e, check_write) tt
        | inr (inr e) ↦ rw (e, check_write) tt
      ]
  check_write-Keeps (OutputStream.http_writing c) contents w =
      http-Keeps c contents (check_write_http os c w) (write_http-promise c contents w)
  check_write-Keeps _ contents w = ground arith

  Keeps-elim :
      (contents : List ℕ) (n : ℕ) (t : Outcome ℕ × OutputStream × os.World)
      → Keeps contents t
      → t.0 ≡ Outcome.ok n
      → length contents ≤ n
      → is_refusal (write os t.1 contents t.2).0 ≡ false
  Keeps-elim contents n (Outcome.ok m, s, w) k e h = k (ground arith)
  Keeps-elim contents n (fail e', s, w) k e h = cc
  Keeps-elim contents n (trap e', s, w) k e h = cc

  -- When `check_write` announces room for `n` bytes, a write of at most `n` bytes that follows at
  -- once is not refused: it does not trap, overflow, exceed a budget or find the body unsent. This
  -- holds for every stream, behind any number of budgets.
  pub write-check_write :
      (s : OutputStream) (contents : List ℕ) (w : os.World) (n : ℕ)
      → (check_write os s w).0 ≡ Outcome.ok n
      → length contents ≤ n
      → let (_, s', w') = check_write os s w in is_refusal (write os s' contents w').0 ≡ false
  write-check_write s contents w n e h =
      Keeps-elim contents n (check_write os s w) (check_write-Keeps s contents w) e h
