-- ===== src/Io/Streams/Sessions.antt =====
-- Any requests to streams.rs and error.rs, in any order: what they do to the budget of one stream of the table.
use wasmx.Base.{
  ℕ, ◌+◌, ◌≤◌, ◌≡◌, ◌≢◌, refl, ◌⊎◌, inl, inr, List, [], ◌∷◌, Option, none, some, arith, ◌==◌, ◌∙◌,
  ap, Bool-cases, Option-cases, Result-cases, ==_iff,
}
use wasmx.Io.{Handle, OutputStream, Pollable, limited}
use wasmx.Io.Os.{Os}
use wasmx.Io.Input as Input
use wasmx.Io.Output as Output
use wasmx.Io.Streams.{
  Table, HostTrap, deleted, host_push_pollable, host_read, host_blocking_read, host_skip,
  host_blocking_skip, host_subscribe_input, host_drop_input, host_subscribe_output,
  host_drop_output, host_drop_error,
}
use wasmx.Io.Streams.Requests.{
  Request, reads, skips, waits_reads, waits_skips, output, subscribes_input, subscribes_output,
  drops_input, drops_output, drops_error, Served, serve, run,
}
use wasmx.Io.Streams.Accounts.{KeepsOutputs}
use wasmx.Io.Streams.Budgets.{
  Kept, Goes, unchanged, on_input-Goes, on_input_waiting-Goes, serve_call-Goes,
}

module _ (os : Os) (table : Table) (keeps : KeepsOutputs table) (h : Handle) (b : ℕ) where
  push_pollable-output :
      (p : Pollable) (t : table.State)
      → table.output (host_push_pollable os table p t).1 h ≡ table.output t h
  unfolding host_push_pollable
  push_pollable-output p t = elim (Option-cases (table.push_pollable p t)) [
    | inl e ↦ rw (e, host_push_pollable) refl
    | inr ((k, u), e) ↦ rw (e, host_push_pollable) (keeps.pushed_pollable p k h t u e)
  ]

  subscribe_input-output :
      (k : Handle) (t : table.State)
      → table.output (host_subscribe_input os table k t).1 h ≡ table.output t h
  unfolding host_subscribe_input
  subscribe_input-output k t = elim (Option-cases (table.input t k)) [
    | inl e ↦ rw (e, host_subscribe_input) refl
    | inr (s, e) ↦ rw (e, host_subscribe_input) (push_pollable-output (Input.subscribe s) t)
  ]

  subscribe_output-output :
      (k : Handle) (t : table.State) (w : os.World)
      → table.output (host_subscribe_output os table k t w).1 h ≡ table.output t h
  unfolding host_subscribe_output
  subscribe_output-output k t w = elim (Option-cases (table.output t k)) [
    | inl e ↦ rw (e, host_subscribe_output) refl
    | inr (s, e) ↦ elim (Result-cases (Output.subscribe os s w)) [
      | inl (p, d) ↦ rw (e, host_subscribe_output, d) (push_pollable-output p t)
      | inr (x, d) ↦ rw (e, host_subscribe_output, d) refl
    ]
  ]

  deleted-output :
      (x : HostTrap) (t : table.State) (o : Option table.State)
      → ((u : table.State) → o ≡ some u → table.output u h ≡ table.output t h)
      → table.output (deleted os table x t o).1 h ≡ table.output t h
  deleted-output x t none e = refl
  deleted-output x t (some u) e = e u refl

  -- A stream that was dropped has no more to account for.
  drop-Kept :
      (k : Handle) (a : ℕ) (t : table.State)
      → Kept os table keeps h b a t
      → Kept os table keeps h b (a + 0) (host_drop_output os table k t).1
  unfolding host_drop_output
  drop-Kept k a t m = elim (Option-cases (table.delete_output k t)) [
    | inl e ↦ rw e (unchanged os table keeps h b a t t refl m)
    | inr (u, e) ↦ rw e (elim (Bool-cases (h == k)) [
      | inl d ↦
          let p = (==_iff h k).0 d in
          (omega (arith, m.0), inl (ap (table.output u) p ∙ keeps.deleted_same k t u e))
      | inr d ↦
          let n : h ≢ k = λ q. (let z = (==_iff h k).1 q in cc) in
          unchanged os table keeps h b a t u (keeps.deleted_other k h t u n e) m
    ])
  ]

  serve-Goes :
      (r : Request) (a : ℕ) (t : table.State) (w : os.World)
      → Kept os table keeps h b a t
      → Goes os table keeps h b a (serve os table h r t w)
  unfolding serve host_read host_skip host_blocking_read host_blocking_skip host_drop_input
      host_drop_error
  serve-Goes (reads k len) a t w m =
      on_input-Goes os table keeps h b k (λ s. Input.read os s len w) a t w m
  serve-Goes (skips k len) a t w m =
      on_input-Goes os table keeps h b k (λ s. Input.skip os s len w) a t w m
  serve-Goes (waits_reads fuel k len) a t w m =
      on_input_waiting-Goes os table keeps h b k (λ s. Input.blocking_read os fuel s len w) a t w m
  serve-Goes (waits_skips fuel k len) a t w m =
      on_input_waiting-Goes os table keeps h b k (λ s. Input.blocking_skip os fuel s len w) a t w m
  serve-Goes (output k c) a t w m = serve_call-Goes os table keeps h b k c a t w m
  serve-Goes (subscribes_input k) a t w m =
      unchanged os table keeps h b a t (host_subscribe_input os table k t).1
        (subscribe_input-output k t) m
  serve-Goes (subscribes_output k) a t w m =
      unchanged os table keeps h b a t (host_subscribe_output os table k t w).1
        (subscribe_output-output k t w) m
  serve-Goes (drops_input k) a t w m =
      unchanged os table keeps h b a t (host_drop_input os table k t).1
        (deleted-output HostTrap.delete_input_stream t (table.delete_input k t)
          (λ u. keeps.deleted_input k h t u))
        m
  serve-Goes (drops_output k) a t w m = drop-Kept k a t m
  serve-Goes (drops_error k) a t w m =
      unchanged os table keeps h b a t (host_drop_error os table k t).1
        (deleted-output HostTrap.delete_error t (table.delete_error k t)
          (λ u. keeps.deleted_error k h t u))
        m

  -- what holds at the end of a sequence
  abbrev Ends : Option (Served os table) → Type 0
  Ends none = Unit {0}
  Ends (some (n, t, w)) = Kept os table keeps h b n t

  resume-Ends :
      (rs : List Request) (a : ℕ)
      → ((n : ℕ) (t : table.State) (w : os.World)
          → Kept os table keeps h b n t
          → Ends (run os table h rs n t w))
      → (o : Option (Served os table)) → Goes os table keeps h b a o
      → Ends (elim o [ none ↦ none | some (n, t, w) ↦ run os table h rs (a + n) t w ])
  resume-Ends rs a rest none k = tt
  resume-Ends rs a rest (some (n, t, w)) k = rest (a + n) t w k

  run-Ends :
      (rs : List Request) (a : ℕ) (t : table.State) (w : os.World)
      → Kept os table keeps h b a t
      → Ends (run os table h rs a t w)
  unfolding run
  run-Ends [] a t w m = m
  run-Ends (r ∷ rs) a t w m =
      resume-Ends rs a (λ n u v. run-Ends rs n u v) (serve os table h r t w) (serve-Goes r a t w m)

  -- Whatever a guest asks of the streams and errors in its table, in whatever order: the bytes reported as written to
  -- a stream with a budget are at most the budget, and while the stream is not dropped, they and the budget that is left
  -- make the budget at the start, so no call on another stream spends any of it; if the table keeps each
  -- output stream but the one that a call on it writes or deletes.
  pub run-budget :
      (rs : List Request) (n : ℕ) (s : OutputStream) (t u : table.State) (w v : os.World)
      → table.output t h ≡ some (limited b s)
      → run os table h rs 0 t w ≡ some (n, u, v)
      → (n ≤ b)
        × ((table.output u h ≡ none)
            ⊎ ((left : ℕ) × (inner : OutputStream) × (table.output u h ≡ some (limited left inner))
                × (left + n ≡ b)))
  run-budget rs n s t u w v e d =
      rw d at (run-Ends rs 0 t w (omega arith, inr (b, s, e, omega arith)))
