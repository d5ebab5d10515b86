-- ===== src/Tests/Http.antt =====
-- Bodies of http/body.rs whose guest sends four bytes in two chunks.
use wasmx.Base.{◌≡◌, refl, List, [], ◌∷◌, Option, none, some, ℕ, ⊤, Poll, ready, arith}
use wasmx.Http.ResponseBody.{Channel, content_length, new}
use wasmx.Http.ResponseBody.Framing.{IsFramed, consume, consume-IsFramed}
use wasmx.Http.ResponseBody.Complete.{Drains, collect, collect-all, total}

unfoldable take_chunk : List (List ℕ) → Poll (Option (List ℕ)) × List (List ℕ)
take_chunk [] = (ready none, [])
take_chunk (chunk ∷ chunks) = (ready (some chunk), chunks)

-- The world is what the guest has sent.
abbrev script : Channel (List (List ℕ))
unfolding take_chunk
script = record { poll_recv = λ rx chunks. take_chunk chunks }

script-takes :
    (w : List (List ℕ)) (chunk : List ℕ) (chunks : List (List ℕ))
    → w ≡ chunk ∷ chunks
    → let (r, w') = take_chunk w in (r ≡ ready (some chunk)) × ⊤ × (w' ≡ chunks)
unfolding take_chunk
script-takes w chunk chunks e = rw e (refl, tt, refl)

script-ends : (w : List (List ℕ)) → w ≡ [] → (take_chunk w).0 ≡ ready none
unfolding take_chunk
script-ends w e = rw e refl

abbrev script-Drains : Drains script
unfolding take_chunk
script-Drains = record {
  IsClosed = λ rx w. ⊤;
  queued = λ rx w. w;
  takes = λ rx w chunk chunks c e. script-takes w chunk chunks e;
  ends = λ rx w c e. script-ends w e;
}

abbrev chunks : List (List ℕ)
chunks = (1 ∷ 2 ∷ 3 ∷ []) ∷ (4 ∷ []) ∷ []

consume-IsFramed_example :
    IsFramed 4 (consume script 5 0 (new 7 [] (some (content_length 4))) chunks)
consume-IsFramed_example = consume-IsFramed script 5 4 7 [] chunks

collect-all_example : collect script 3 (new 7 [] (some (content_length 4))) chunks ≡ some chunks
unfolding total script-Drains
collect-all_example = collect-all script script-Drains 7 4 chunks chunks tt refl refl (omega arith)
