-- ===== src/Engine/Instances/Bounds.antt =====
-- How many instances of `handle_workload` in engine/mod.rs run and wait in the pool, and that no two calls share one.
use wasmx.Base.{
  ℕ, suc, ◌+◌, ◌≤◌, ◌≡◌, refl, inl, inr, true, List, [], ◌∷◌, ◌++◌, arith, ◌==◌, ltb, if◌then◌else◌,
  length, length-append, Bool-cases, ltb→lt, ◌⊎◌, List-cases, ==_iff,
}
use wasmx.Engine.Instances.{
  Workload, Phase, awaiting, received, permitted, Ending, gives_back, start, try_send, spawn,
  advance, give_back, contains, remove, complete,
}

-- What may happen to a workload: the engine queues an invocation, the loop takes a step, a task ends, or other
-- workloads leave so many permits of the engine.
pub data Event : Type 0 where
  invokes advances : Event
  completes : ℕ → Ending → Event
  elsewhere : ℕ → Event

abbrev pub count : ℕ → List ℕ → ℕ
count k [] = 0
count k (i ∷ is) = (if k == i then 1 else 0) + count k is

-- the permit of the invocation that waits for the engine
abbrev pub taken : Phase → ℕ
taken permitted = 1
taken _ = 0

count-append : (k : ℕ) (is js : List ℕ) → count k (is ++ js) ≡ count k is + count k js
count-append k [] js = omega arith
count-append k (i ∷ is) js = omega (arith, count-append k is js)

-- removing an instance takes one of it, and of no other
count-remove :
    (k i : ℕ) (is : List ℕ)
    → contains i is ≡ true
    → count k (remove i is) + (if k == i then 1 else 0) ≡ count k is
count-remove k i [] h = (let q = h in cc)
count-remove k i (j ∷ js) h = elim (Bool-cases (i == j)) [
  | inl e ↦ (let p = (==_iff i j).0 e in rw (e, p) (omega arith))
  | inr e ↦ rw e (omega (arith, count-remove k i js (rw e at h)))
]

length-remove :
    (i : ℕ) (is : List ℕ) → contains i is ≡ true → suc (length (remove i is)) ≡ length is
length-remove i [] h = (let q = h in cc)
length-remove i (j ∷ js) h = elim (Bool-cases (i == j)) [
  | inl e ↦ rw e refl
  | inr e ↦ rw e (omega (arith, length-remove i js (rw e at h)))
]

Phase-cases : (p : Phase) → (p ≡ awaiting) ⊎ (p ≡ received) ⊎ (p ≡ permitted)
Phase-cases awaiting = inl refl
Phase-cases received = inr (inl refl)
Phase-cases permitted = inr (inr refl)

module _ (max_instances pool_size : ℕ) where
  pub record IsSound (w : Workload) : Type 0 where
    pub permits : w.permits + length w.tasks + taken w.phase ≡ max_instances
    pub pooled : length w.pool ≤ pool_size
    pub queued : w.queued ≤ max_instances
    pub once : (k : ℕ) → count k w.tasks + count k w.pool ≤ 1
    pub unused : (k : ℕ) → w.next ≤ k → count k w.tasks + count k w.pool ≡ 0

  start-IsSound : (e : ℕ) → IsSound (start max_instances pool_size e)
  unfolding start
  start-IsSound e = record {
    permits = omega arith;
    pooled = omega arith;
    queued = omega arith;
    once = λ k. omega arith;
    unused = λ k h. omega arith;
  }

  try_send-IsSound : (w : Workload) → IsSound w → IsSound (try_send max_instances pool_size w).1
  unfolding try_send
  try_send-IsSound w s = elim (Bool-cases (ltb w.queued max_instances)) [
    | inl e ↦ rw e (record {
      permits = s.permits;
      pooled = s.pooled;
      queued = ground arith;
      once = s.once;
      unused = s.unused;
    })
    | inr e ↦ rw e s
  ]

  spawn-IsSound :
      (w : Workload) → w.phase ≡ permitted → IsSound w → IsSound (spawn max_instances pool_size w)
  unfolding spawn
  spawn-IsSound w p s = elim (List-cases w.pool) [
    | inl e ↦
        rw (e, spawn)
          (record {
            permits = (let q = rw p at s.permits in omega arith);
            pooled = omega arith;
            queued = s.queued;
            once = λ k. elim (Bool-cases (k == w.next)) [
              | inl d ↦
                  let n = (==_iff k w.next).0 d in rw d (omega (arith, s.unused k (omega arith)))
              | inr d ↦ rw d (omega (arith, s.once k))
            ];
            unused = λ k h. elim (Bool-cases (k == w.next)) [
              | inl d ↦ (let n = (==_iff k w.next).0 d in omega arith)
              | inr d ↦ rw d (omega (arith, s.unused k (omega arith)))
            ];
          })
    | inr (i, is, e) ↦
        rw (e, spawn)
          (record {
            permits = (let q = rw p at s.permits in omega arith);
            pooled = (let q = rw e at s.pooled in omega arith);
            queued = s.queued;
            once = λ k. (let q = rw e at s.once k in omega arith);
            unused = λ k h. (let q = rw e at s.unused k h in omega arith);
          })
  ]

  advance-IsSound : (w : Workload) → IsSound w → IsSound (advance max_instances pool_size w)
  unfolding advance
  advance-IsSound w s = elim (Phase-cases w.phase) [
    | inl p ↦ elim (Bool-cases (w.queued == 0)) [
      | inl e ↦ rw (p, advance, e) s
      | inr e ↦
          rw (p, advance, e)
            (record {
              permits = (let q = rw p at s.permits in omega arith);
              pooled = s.pooled;
              queued = omega (arith, s.queued);
              once = s.once;
              unused = s.unused;
            })
    ]
    | inr (inl p) ↦ elim (Bool-cases (w.permits == 0)) [
      | inl e ↦ rw (p, advance, e) s
      | inr e ↦
          rw (p, advance, e)
            (record {
              permits = (let q = rw p at s.permits in ground arith);
              pooled = s.pooled;
              queued = s.queued;
              once = s.once;
              unused = s.unused;
            })
    ]
    | inr (inr p) ↦ elim (Bool-cases (w.engine_permits == 0)) [
      | inl e ↦ rw (p, advance, e) s
      | inr e ↦ rw (p, advance, e) (spawn-IsSound w p s)
    ]
  ]

  -- the pool after the end of the task of `i`
  abbrev pool_after : ℕ → Ending → List ℕ → List ℕ
  pool_after i e pool = if gives_back e then give_back max_instances pool_size i pool else pool

  pool_after-le :
      (i : ℕ) (e : Ending) (pool : List ℕ)
      → length pool ≤ pool_size
      → length (pool_after i e pool) ≤ pool_size
  unfolding give_back
  pool_after-le i e pool h = elim (Bool-cases (gives_back e)) [
    | inl g ↦ elim (Bool-cases (ltb (length pool) pool_size)) [
      | inl l ↦
          rw (g, l) (omega (arith, ltb→lt (length pool) pool_size l, length-append pool (i ∷ [])))
      | inr l ↦ rw (g, l) h
    ]
    | inr g ↦ rw g h
  ]

  count-pool_after :
      (k i : ℕ) (e : Ending) (pool : List ℕ)
      → count k (pool_after i e pool) ≤ count k pool + (if k == i then 1 else 0)
  unfolding give_back
  count-pool_after k i e pool = elim (Bool-cases (gives_back e)) [
    | inl g ↦ elim (Bool-cases (ltb (length pool) pool_size)) [
      | inl l ↦ rw (g, l) (omega (arith, count-append k pool (i ∷ [])))
      | inr l ↦ rw (g, l) (omega arith)
    ]
    | inr g ↦ rw g (omega arith)
  ]

  complete-IsSound :
      (i : ℕ) (e : Ending) (w : Workload)
      → IsSound w
      → IsSound (complete max_instances pool_size i e w)
  unfolding complete give_back
  complete-IsSound i e w s = elim (Bool-cases (contains i w.tasks)) [
    | inl h ↦ rw h (record {
      permits = omega (arith, s.permits, length-remove i w.tasks h);
      pooled = pool_after-le i e w.pool s.pooled;
      queued = s.queued;
      once =
          λ k. omega (arith, s.once k, count-remove k i w.tasks h, count-pool_after k i e w.pool);
      unused = λ k l.
          omega (arith, s.unused k l, count-remove k i w.tasks h, count-pool_after k i e w.pool);
    })
    | inr h ↦ rw h s
  ]

  unfoldable pub happen : Event → Workload → Workload
  happen invokes w = (try_send max_instances pool_size w).1
  happen advances w = advance max_instances pool_size w
  happen (completes i e) w = complete max_instances pool_size i e w
  happen (elsewhere n) w = record w { engine_permits = n }

  happen-IsSound : (e : Event) (w : Workload) → IsSound w → IsSound (happen e w)
  unfolding happen
  happen-IsSound invokes w s = try_send-IsSound w s
  happen-IsSound advances w s = advance-IsSound w s
  happen-IsSound (completes i e) w s = complete-IsSound i e w s
  happen-IsSound (elsewhere n) w s = record {
    permits = s.permits;
    pooled = s.pooled;
    queued = s.queued;
    once = s.once;
    unused = s.unused;
  }

  unfoldable pub run : List Event → Workload → Workload
  run [] w = w
  run (e ∷ es) w = run es (happen e w)

  run-kept : (es : List Event) (w : Workload) → IsSound w → IsSound (run es w)
  unfolding run
  run-kept [] w s = s
  run-kept (e ∷ es) w s = run-kept es (happen e w) (happen-IsSound e w s)

  -- Whatever happens to a workload from its start, in whatever order: its permits and its tasks, and an invocation
  -- that waits for the engine, are as many as its instances may be; the pool holds at most its size and the
  -- channel at most as many invocations as instances may be; and no instance is in two places, be they
  -- tasks or the pool.
  pub run-IsSound : (es : List Event) (n : ℕ) → IsSound (run es (start max_instances pool_size n))
  run-IsSound es n = run-kept es (start max_instances pool_size n) (start-IsSound n)
