-- ===== src/Tests/Bodies.antt =====
-- An outgoing body of http over a world that is one `oneshot`, with the sender that was sent on it.
use wasmx.Base.{ℕ, ◌≡◌, ◌≤◌, refl, true, List, [], ◌∷◌, Option, none, some, ok}
use wasmx.Io.{OutputStream, ContentSender}
use wasmx.Io.Os.{Os, Transport, TryRecv, TryAcquire}
use wasmx.Io.Output.{check_write}
use wasmx.Http.OutgoingBody.{
  BodySender, BodyOs, content_sender, created, holds, write, set, limit_stream,
}
use wasmx.Http.OutgoingBody.Streams.{Call, writes, sets, finishes, drops, run, run-le}
use wasmx.Http.OutgoingBody.Handshake.{Delivers, write-set}

abbrev Channel : Type 0
Channel = Option ContentSender

abbrev silent : Transport Channel
silent = record {
  try_write = λ h cs w. (ok 0, w);
  writable = λ h w. (ok tt, w);
  try_read = λ h n w. (ok [], w);
  readable = λ h w. (ok tt, w);
}

abbrev receive : Channel → TryRecv ContentSender
receive none = TryRecv.empty
receive (some c) = TryRecv.received c

abbrev os : Os
os = record {
  World = Channel;
  write_all = λ s cs w. (ok tt, w);
  flush_all = λ s w. (ok tt, w);
  send_buffer_size = λ h w. ok 512;
  tcp = silent;
  udp = silent;
  body_try_recv = λ h w. (receive w, w);
  conn_is_free = λ h w. true;
  conn_try_recv = λ h w. (TryRecv.empty, w);
  conn_is_empty = λ h w. true;
  available_permits = λ h w. 100;
  try_acquire_many = λ h n w. (TryAcquire.acquired, w);
  acquire_many = λ h n w. (ok tt, w);
  send_chunk = λ h cs n w. (ok tt, w);
}

abbrev channels : BodyOs os
channels = record {
  oneshot = λ w. (9, w);
  send_content = λ h c w. some c;
  send_trailers = λ h t w. (ok tt, w);
}

channels-Delivers : Delivers os channels
channels-Delivers = record { delivered = λ h c w. refl }

abbrev sender : BodySender
sender = record { conn = 1; permits = 2; chunks = 3; trailers = 4 }

abbrev calls : List Call
calls = writes ∷ sets sender ∷ writes ∷ finishes none ∷ drops ∷ []

run-le_example : run os channels calls (holds (created (some 10) none)) none ≤ 1
run-le_example = run-le os channels calls (holds (created (some 10) none)) none

write-set_example :
    let (_, early, w1) = set os channels sender (holds (created (some 10) none)) none in
    let (r1, l1, _) = write os channels early w1 in
    let (r2, late, w2) = write os channels (holds (created (some 10) none)) none in
    let (_, l2, w3) = set os channels sender late w2 in
    (l1 ≡ l2)
    × (r1 ≡ ok (ok (limit_stream (some 10) (OutputStream.http_writing (content_sender sender)))))
    × ((h : ℕ) × (r2 ≡ ok (ok (limit_stream (some 10) (OutputStream.http_pending h))))
        × ((check_write os (OutputStream.http_pending h) w3).1
            ≡ OutputStream.http_writing (content_sender sender)))
write-set_example = write-set os channels channels-Delivers (some 10) sender none
