-- ===== src/Engine/Instances.antt =====
-- crates/wasmlet/src/engine/mod.rs: `handle_workload`, the loop that serves the invocations of a workload with pooled
-- instances under two semaphores, and `invoke`, which queues them. An instance with its store is named by a number;
-- what a call does in it lies outside. The engine's semaphore is shared with the other workloads. The
-- channel and the semaphores are open: when one closes, the thread ends, and with it the model.
pub mod Bounds
use wasmx.Base.{
  ℕ, suc, ◌-◌, Bool, true, false, List, [], ◌∷◌, ◌++◌, Result, ok, err, ⊤, ◌==◌, ltb, if◌then◌else◌,
  length,
}

-- Where the loop stands: at `recv`, at the semaphore of the workload with an invocation, or at that of the engine with
-- a permit too.
pub data Phase : Type 0 where
  awaiting received permitted : Phase

-- How a task comes to its end.
pub data Ending : Type 0 where
  -- a dynamic call: the receiver of the store is gone, with an instance or without; the sender of the invocation is;
  -- no instance could be made; the call failed; the store of a result did not come back, or did
  store_refused : Bool → Ending
  invocation_dropped not_instantiated call_failed store_lost store_returned : Ending
  -- an HTTP request, and whether it was handled
  http_handled : Bool → Ending

-- Whether a task sends its instance to the pool.
unfoldable pub gives_back : Ending → Bool
gives_back (store_refused instantiated) = instantiated
gives_back invocation_dropped = false
gives_back not_instantiated = false
gives_back call_failed = true
gives_back store_lost = false
gives_back store_returned = true
gives_back (http_handled handled) = handled

pub record Workload : Type 0 where
  pub phase : Phase
  -- the invocations in the channel
  pub queued : ℕ
  -- the permits left of the workload, and of the engine
  pub permits : ℕ
  pub engine_permits : ℕ
  -- the instances in the pool, those of the tasks, and the next new one
  pub pool : List ℕ
  pub tasks : List ℕ
  pub next : ℕ

-- the failures of `invoke`
pub data InvokeError : Type 0 where
  not_found queue_full thread_exited : InvokeError

-- What the engine has of a workload by its name.
pub data Scheduled : Type 0 where
  missing exited : Scheduled
  running : Workload → Scheduled

-- the instances of tasks
abbrev pub contains : ℕ → List ℕ → Bool
contains i [] = false
contains i (j ∷ js) = if i == j then true else contains i js

abbrev pub remove : ℕ → List ℕ → List ℕ
remove i [] = []
remove i (j ∷ js) = if i == j then js else j ∷ remove i js

module _ (max_instances pool_size : ℕ) where
  -- the state in which `instantiate_workload` starts the thread
  unfoldable pub start : ℕ → Workload
  start engine_permits = record {
    phase = awaiting;
    queued = 0;
    permits = max_instances;
    engine_permits = engine_permits;
    pool = [];
    tasks = [];
    next = 0;
  }

  -- `try_send` of an invocation, while the thread runs
  unfoldable pub try_send : Workload → Result ⊤ InvokeError × Workload
  try_send w =
      if ltb w.queued max_instances
      then (ok tt, record w { queued = suc w.queued })
      else (err queue_full, w)

  unfoldable pub invoke : Scheduled → Result ⊤ InvokeError × Scheduled
  invoke missing = (err not_found, missing)
  invoke exited = (err thread_exited, exited)
  invoke (running w) = let (r, w1) = try_send w in (r, running w1)

  -- `instance_rx.try_recv()`, or a new instance; and the task that is spawned with it
  unfoldable pub spawn : Workload → Workload
  spawn w = elim w.pool [
    | [] ↦ record w {
      phase = awaiting;
      engine_permits = w.engine_permits - 1;
      tasks = w.next ∷ w.tasks;
      next = suc w.next;
    }
    | i ∷ is ↦ record w {
      phase = awaiting;
      engine_permits = w.engine_permits - 1;
      pool = is;
      tasks = i ∷ w.tasks;
    }
  ]

  -- One step of the loop of `handle_workload`, which stays where it is while there is nothing to take.
  unfoldable pub advance : Workload → Workload
  advance w = elim w.phase [
    | awaiting ↦ if w.queued == 0 then w else record w { phase = received; queued = w.queued - 1 }
    | received ↦
        if w.permits == 0 then w else record w { phase = permitted; permits = w.permits - 1 }
    | permitted ↦ if w.engine_permits == 0 then w else spawn w
  ]

  -- `try_send` of an instance to the pool; without a pool its size is 0
  unfoldable pub give_back : ℕ → List ℕ → List ℕ
  give_back i pool = if ltb (length pool) pool_size then pool ++ i ∷ [] else pool

  -- The end of the task of the instance `i`, with that of its two permits.
  unfoldable pub complete : ℕ → Ending → Workload → Workload
  complete i ending w =
      if contains i w.tasks
      then record w {
        permits = suc w.permits;
        engine_permits = suc w.engine_permits;
        pool = if gives_back ending then give_back i w.pool else w.pool;
        tasks = remove i w.tasks;
      }
      else w
