-- ===== src/Sync/Tests.antt =====
-- Runs of the channel of src/sync/channel.rs.
use uringy.Common.{ℕ, ◌≡◌, refl, true, false, List, [], ◌∷◌, ◌++◌, ok, err, arith, map}
use uringy.Errors.{original, cancelled}
use uringy.Sync.Channel.{ChannelState, closed_error, returned, unbounded, sender_close, send}
use uringy.Sync.Channel.Runs.{
  Call, sending, receiving, closing_receiver, run, receive, run-fifo, sender_close-drains,
  recv-cancelled, send-lost, receiver_close-strands,
}

abbrev idle : ChannelState ℕ
idle = record { no_longer_empty = []; queue = []; is_closed = false }

abbrev busy : ChannelState ℕ
busy = record { no_longer_empty = 4 ∷ 5 ∷ []; queue = 7 ∷ 8 ∷ []; is_closed = false }

unbounded-idle : unbounded ≡ idle
unfolding unbounded
unbounded-idle = refl

abbrev calls : List (Call ℕ)
calls = sending 1 ∷ receiving 2 false ∷ sending 3 ∷ closing_receiver ∷ sending 4 ∷ []

run-fifo_example :
    7 ∷ 8 ∷ (run calls busy).0.accepted ≡ (run calls busy).0.received ++ (run calls busy).1.queue
run-fifo_example = run-fifo calls busy

sender_close-drains_example :
    ((sender_close busy).0 ≡ 4 ∷ 5 ∷ [])
    × (receive 3 2 false (sender_close busy).1
        ≡ map (λ m. returned (ok m)) (7 ∷ 8 ∷ []) ++ (returned (err (original closed_error)) ∷ []))
    × (send 1 (sender_close busy).1 ≡ (err (original closed_error), [], (sender_close busy).1))
sender_close-drains_example = sender_close-drains busy 2 false 1

recv-cancelled_test :
    receive 3 2 true busy
    ≡ map (λ m. returned (ok m)) (7 ∷ 8 ∷ []) ++ (returned (err cancelled) ∷ [])
recv-cancelled_test = recv-cancelled busy 2

send-lost_example :
    let (l, s') =
      run (receiving 1 false ∷ receiving 2 false ∷ receiving 1 true ∷ sending 9 ∷ []) idle in
    (l.scheduled ≡ 1 ∷ []) × (l.received ≡ []) × (s'.queue ≡ 9 ∷ []) × (s'.no_longer_empty ≡ 2 ∷ [])
send-lost_example = send-lost idle 1 2 9 refl refl refl

receiver_close-strands_example :
    let (l, s') =
      run (receiving 6 false ∷ closing_receiver ∷ sending 1 ∷ receiving 2 false ∷ []) idle in
    (l.scheduled ≡ []) × (l.accepted ≡ []) × (s'.no_longer_empty ≡ 6 ∷ [])
receiver_close-strands_example =
    receiver_close-strands idle 6 (sending 1 ∷ receiving 2 false ∷ []) refl refl
      (ground arith, (ground arith, tt))
