-- ===== src/Tests/Instances.antt =====
-- A workload of at most two instances and a pool of one: two calls, of which the second waits for a permit.
use wasmx.Base.{true, List, [], ◌∷◌}
use wasmx.Engine.Instances.{start, store_returned, http_handled}
use wasmx.Engine.Instances.Bounds.{
  Event, invokes, advances, completes, elsewhere, IsSound, run, run-IsSound,
}

abbrev events : List Event
events =
    invokes
    ∷ invokes
    ∷ advances
    ∷ advances
    ∷ advances
    ∷ elsewhere 0
    ∷ advances
    ∷ advances
    ∷ advances
    ∷ completes 0 store_returned
    ∷ advances
    ∷ completes 0 (http_handled true)
    ∷ []

run-IsSound_example : IsSound 2 1 (run 2 1 events (start 2 1 3))
run-IsSound_example = run-IsSound 2 1 events 3
