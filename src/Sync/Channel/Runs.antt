-- ===== src/Sync/Channel/Runs.antt =====
-- What sequences of operations on a channel of src/sync/channel.rs give.
use uringy.Common.{
  ℕ, zero, suc, ◌≡◌, refl, sym, ap, ◌∙◌, ◌≢◌, Bool, true, false, List, [], ◌∷◌, ◌++◌, Result, ok,
  err, arith, length, All, map, if◌then◌else◌, append_assoc, append-nil,
}
use uringy.Errors.{Error, original, cancelled}
use uringy.Sync.Channel.{
  ChannelState, ClosedError, closed_error, Received, returned, parked, send, sender_close, recv,
  receiver_close,
}

-- A call of one of the operations that change a channel.
pub data Call (T : Type 0) : Type 0 where
  sending : T → Call T
  receiving : (waker : ℕ) (is_cancelled : Bool) → Call T
  closing_sender closing_receiver : Call T

-- The messages that `send` has accepted and `recv` has returned, and the fibers scheduled.
pub record Log (T : Type 0) : Type 0 where
  pub accepted : List T
  pub received : List T
  pub scheduled : List ℕ

module _ {T : Type 0} where
  abbrev pub sent : T → Result (Unit {0}) (Error ClosedError) → List T
  sent x (ok _) = x ∷ []
  sent x (err e) = []

  abbrev pub message_of : Received T → List T
  message_of (returned (ok x)) = x ∷ []
  message_of (returned (err e)) = []
  message_of parked = []

  unfoldable pub call : Call T → ChannelState T → Log T × ChannelState T
  unfolding send recv sender_close receiver_close
  call (sending x) s =
      let (result, woken, s') = send x s in
      (record { accepted = sent x result; received = []; scheduled = woken }, s')
  call (receiving waker is_cancelled) s =
      let (result, s') = recv waker is_cancelled s in
      (record { accepted = []; received = message_of result; scheduled = [] }, s')
  call closing_sender s =
      let (woken, s') = sender_close s in
      (record { accepted = []; received = []; scheduled = woken }, s')
  call closing_receiver s =
      (record { accepted = []; received = []; scheduled = [] }, receiver_close s)

  abbrev pub run : List (Call T) → ChannelState T → Log T × ChannelState T
  run [] s = (record { accepted = []; received = []; scheduled = [] }, s)
  run (c ∷ cs) s =
      let (l, s') = call c s in
      let (m, s'') = run cs s' in
      (
        record {
          accepted = l.accepted ++ m.accepted;
          received = l.received ++ m.received;
          scheduled = l.scheduled ++ m.scheduled;
        },
        s'',
      )

  call_queue :
      (c : Call T) (s : ChannelState T)
      → s.queue ++ (call c s).0.accepted ≡ (call c s).0.received ++ (call c s).1.queue
  unfolding call send recv sender_close receiver_close
  call_queue (sending x) s = ground (arith, append-nil s.queue)
  call_queue (receiving w b) s = ground (arith, append-nil s.queue)
  call_queue closing_sender s = append-nil s.queue
  call_queue closing_receiver s = append-nil s.queue

  -- However calls follow each other, every message that was accepted, and no other, is received or
  -- still in the queue, in the order of sending.
  pub run-fifo :
      (cs : List (Call T)) (s : ChannelState T)
      → s.queue ++ (run cs s).0.accepted ≡ (run cs s).0.received ++ (run cs s).1.queue
  run-fifo [] s = append-nil s.queue
  run-fifo (c ∷ cs) s =
      let (l, s') = call c s in
      let (m, s'') = run cs s' in
      let first : s.queue ++ l.accepted ≡ l.received ++ s'.queue = call_queue c s in
      let later : s'.queue ++ m.accepted ≡ m.received ++ s''.queue = run-fifo cs s' in
      sym (append_assoc s.queue l.accepted m.accepted)
      ∙ ap (λ q. q ++ m.accepted) first
      ∙ append_assoc l.received s'.queue m.accepted
      ∙ ap (λ q. l.received ++ q) later
      ∙ sym (append_assoc l.received m.received s''.queue)

  -- The results of so many rounds of `recv`.
  abbrev pub receive : ℕ → ℕ → Bool → ChannelState T → List (Received T)
  receive zero waker is_cancelled s = []
  receive (suc n) waker is_cancelled s =
      let (result, s') = recv waker is_cancelled s in result ∷ receive n waker is_cancelled s'

  receive-drains :
      (queue : List T) (w : ℕ) (b : Bool) (s : ChannelState T) (last : Received T)
      → s.queue ≡ queue
      → recv w b (record s { queue = [] }) ≡ (last, record s { queue = [] })
      → receive (suc (length queue)) w b s ≡ map (λ x. returned (ok x)) queue ++ (last ∷ [])
  unfolding call recv
  receive-drains [] w b s last e h = ground (arith, e, h)
  receive-drains (x ∷ xs) w b s last e h =
      let s' : ChannelState T = record s { queue = xs } in
      let step : recv w b s ≡ (returned (ok x), s') = rw e refl in
      let rest : receive (suc (length xs)) w b s' ≡ map (λ y. returned (ok y)) xs ++ (last ∷ []) =
        receive-drains xs w b s' last refl h in
      ap (λ r. r.0 ∷ receive (suc (length xs)) w b r.1) step ∙ ap (λ rs. returned (ok x) ∷ rs) rest

  -- When the last sender closes a channel, every waiting fiber is scheduled, the next messages are
  -- refused, and a receiver gets all that was sent before, in order, and then the error, whether or
  -- not it is cancelled; it never parks.
  pub sender_close-drains :
      (s : ChannelState T) (w : ℕ) (b : Bool) (x : T)
      → ((sender_close s).0 ≡ s.no_longer_empty)
        × (receive (suc (length s.queue)) w b (sender_close s).1
            ≡ map (λ m. returned (ok m)) s.queue ++ (returned (err (original closed_error)) ∷ []))
        × (send x (sender_close s).1 ≡ (err (original closed_error), [], (sender_close s).1))
  unfolding call sender_close send recv
  sender_close-drains s w b x = (
    refl,
    receive-drains s.queue w b (sender_close s).1 (returned (err (original closed_error))) refl
        refl,
    refl,
  )

  -- A cancelled receiver never parks: it gets the messages that are in the queue, in order, and then
  -- an error, which is that the channel is closed if it is and else the cancellation.
  pub recv-cancelled :
      (s : ChannelState T) (w : ℕ)
      → receive (suc (length s.queue)) w true s
        ≡ map (λ m. returned (ok m)) s.queue
          ++ (returned (err (if s.is_closed then original closed_error else cancelled)) ∷ [])
  unfolding call recv
  recv-cancelled s w =
      receive-drains s.queue w true s
        (returned (err (if s.is_closed then original closed_error else cancelled))) refl
        (ground arith)

  -- A wake-up can be lost. Two fibers wait for a message and the first is cancelled, which returns
  -- from its `recv`. Its waker stays in the channel, and a message that is sent then schedules that
  -- fiber, while the second waits on with the message in the queue.
  pub send-lost :
      (s : ChannelState T) (w1 w2 : ℕ) (x : T)
      → s.queue ≡ []
      → s.no_longer_empty ≡ []
      → s.is_closed ≡ false
      → let (l, s') =
          run (receiving w1 false ∷ receiving w2 false ∷ receiving w1 true ∷ sending x ∷ []) s in
        (l.scheduled ≡ w1 ∷ [])
        × (l.received ≡ [])
        × (s'.queue ≡ x ∷ [])
        × (s'.no_longer_empty ≡ w2 ∷ [])
  unfolding call recv send
  send-lost s w1 w2 x empty alone open_ = rw empty (rw alone (rw open_ (refl, refl, refl, refl)))

  abbrev pub IsNotClosingSender : Call T → Type 0
  IsNotClosingSender c = c ≢ closing_sender

  receiving_closed :
      (w : ℕ) (b : Bool) (s : ChannelState T) (queue : List T)
      → s.is_closed ≡ true
      → s.queue ≡ queue
      → (r : Received T) × (q : List T) × (recv w b s ≡ (r, record s { queue = q }))
  unfolding call recv
  receiving_closed w b s [] shut e = (returned (err (original closed_error)), [], ground arith)
  receiving_closed w b s (x ∷ xs) shut e = (returned (ok x), xs, rw e refl)

  call-closed :
      (c : Call T) (s : ChannelState T)
      → IsNotClosingSender c
      → s.is_closed ≡ true
      → ((call c s).0.scheduled ≡ [])
        × ((call c s).0.accepted ≡ [])
        × ((call c s).1.no_longer_empty ≡ s.no_longer_empty)
        × ((call c s).1.is_closed ≡ true)
  unfolding call send recv receiver_close sender_close
  call-closed (sending x) s v shut = rw shut (refl, refl, refl, refl)
  call-closed (receiving w b) s v shut =
      let (r, q, e) = receiving_closed w b s s.queue shut refl in rw e (refl, refl, refl, shut)
  call-closed closing_sender s v shut = absurd (v refl)
  call-closed closing_receiver s v shut = (refl, refl, refl, refl)

  closed-schedules :
      (cs : List (Call T)) (s : ChannelState T)
      → All IsNotClosingSender cs
      → s.is_closed ≡ true
      → ((run cs s).0.scheduled ≡ [])
        × ((run cs s).0.accepted ≡ [])
        × ((run cs s).1.no_longer_empty ≡ s.no_longer_empty)
  unfolding call send recv receiver_close sender_close
  closed-schedules [] s v shut = (refl, refl, refl)
  closed-schedules (c ∷ cs) s v shut =
      let (quiet, refused, waiting, closed) = call-closed c s v.0 shut in
      let (quiet', refused', waiting') = closed-schedules cs (call c s).1 v.1 closed in
      (ground arith, ground arith, waiting' ∙ waiting)

  -- Closing the receiver wakes nobody. A fiber that waits for a message when another closes the
  -- receiver is in the channel's waiting list from then on, and is never scheduled, whatever is
  -- called, until a sender closes.
  pub receiver_close-strands :
      (s : ChannelState T) (w : ℕ) (cs : List (Call T))
      → s.queue ≡ []
      → s.is_closed ≡ false
      → All IsNotClosingSender cs
      → let (l, s') = run (receiving w false ∷ closing_receiver ∷ cs) s in
        (l.scheduled ≡ [])
        × (l.accepted ≡ [])
        × (s'.no_longer_empty ≡ s.no_longer_empty ++ (w ∷ []))
  unfolding call recv receiver_close
  receiver_close-strands s w cs empty open_ v =
      let s1 : ChannelState T = record s {
        no_longer_empty = s.no_longer_empty ++ (w ∷ []);
        queue = [];
        is_closed = true;
      } in
      let (quiet, refused, waiting) = closed-schedules cs s1 v refl in
      rw empty (rw open_ (quiet, refused, waiting))
