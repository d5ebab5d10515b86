-- ===== src/Tests/Engine.antt =====
-- The epoch callback of engine/mod.rs with a budget of 250 ticks.
use wasmx.Base.{◌≡◌, some, arith}
use wasmx.Engine.Epoch.{requested, exhausted, callback}
use wasmx.Engine.Epoch.Budgets.{
  IsGrant, callback-IsGrant, quiet_for, run_store, run_store-exhausted,
}

callback-IsGrant_example :
    IsGrant (some 250) (requested 1000 970) (callback (some 250) (requested 1000 970))
callback-IsGrant_example = callback-IsGrant (some 250) (requested 1000 970)

run_store-exhausted_example : run_store (some 250) (quiet_for 3) ≡ (250, some exhausted)
run_store-exhausted_example = run_store-exhausted 3 250 (omega arith) (omega arith)
