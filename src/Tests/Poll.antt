-- ===== src/Tests/Poll.antt =====
-- `poll` of io/poll.rs on two pollables, of which the second becomes ready, with a deadline at 500.
use wasmx.Base.{ℕ, zero, suc, ◌≡◌, ◌⊎◌, Bool, true, false, [], ◌∷◌, pending, arith}
use wasmx.Io.Poll.{Reading, wait_loop, turning, fails, deadline_reached, poll_host}
use wasmx.Io.Poll.Answers.{AllRequested, IsAnswer, wait_loop-requested, poll_host-IsAnswer}

-- A shutdown at 450 was requested.
abbrev requested : Reading
requested = record { shutdown = 450; now = 400; elapsed = false; changed = pending }

abbrev calm : Reading
calm = record { shutdown = 0; now = 100; elapsed = false; changed = pending }

abbrev not_yet : ℕ → ℕ → Bool × ℕ
not_yet p w = (false, w)

abbrev second : ℕ → ℕ → Bool × ℕ
second zero w = (false, w)
second (suc p) w = (true, w)

requested-AllRequested : AllRequested (requested ∷ requested ∷ [])
unfolding AllRequested
requested-AllRequested = (ground arith, (ground arith, tt))

wait_loop-requested_example :
    ((wait_loop 500 (requested ∷ requested ∷ [])).1 ≡ turning)
    ⊎ ((wait_loop 500 (requested ∷ requested ∷ [])).1 ≡ fails deadline_reached)
wait_loop-requested_example =
    wait_loop-requested 500 (requested ∷ requested ∷ []) requested-AllRequested

poll_host-IsAnswer_example :
    IsAnswer not_yet second 2 (poll_host not_yet second 500 (0 ∷ 1 ∷ []) ((calm ∷ []) ∷ []) 0).0
poll_host-IsAnswer_example = poll_host-IsAnswer not_yet second 500 (0 ∷ 1 ∷ []) ((calm ∷ []) ∷ []) 0
