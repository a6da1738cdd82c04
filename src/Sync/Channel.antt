-- ===== src/Sync/Channel.antt =====
-- src/sync/channel.rs: the unbounded channel. The state that its two ends share is a record; the
-- handles are counted references to it, and the last of an end closes the channel when it is dropped.
-- The fibers that a call schedules are part of what it returns. `recv` is one round of its loop: a
-- fiber that parks runs the next round when it is woken.
pub mod Runs
use uringy.Common.{
  ℕ, suc, ◌-◌, ◌≡◌, Bool, true, false, Option, none, some, List, [], ◌∷◌, ◌++◌, Result, ok, err,
  length, ◌==◌, leb, if◌then◌else◌,
}
use uringy.Errors.{Error, original, cancelled}

pub data ClosedError : Type 0 where
  closed_error : ClosedError

pub record ChannelState (T : Type 0) : Type 0 where
  pub no_longer_empty : List ℕ
  pub queue : List T
  pub is_closed : Bool

-- What a round of `recv` comes to.
pub data Received (T : Type 0) : Type 0 where
  returned : Result T (Error ClosedError) → Received T
  parked : Received T

-- The waker that `pop_front` takes, and those that it leaves.
abbrev pub rest_of : List ℕ → List ℕ
rest_of [] = []
rest_of (w ∷ ws) = ws

abbrev pub first_of : List ℕ → List ℕ
first_of [] = []
first_of (w ∷ ws) = w ∷ []

module _ {T : Type 0} where
  unfoldable pub unbounded : ChannelState T
  unbounded = record { no_longer_empty = []; queue = []; is_closed = false }

  -- `Sender::send`, with the fibers it schedules
  unfoldable pub send :
      T → ChannelState T → Result (Unit {0}) (Error ClosedError) × List ℕ × ChannelState T
  send data_ s = if s.is_closed then (err (original closed_error), [], s) else (
    ok tt,
    first_of s.no_longer_empty,
    record s { queue = s.queue ++ (data_ ∷ []); no_longer_empty = rest_of s.no_longer_empty },
  )

  -- `len` and `is_empty`, of both ends
  unfoldable pub channel_len : ChannelState T → ℕ
  channel_len s = length s.queue

  unfoldable pub channel_is_empty : ChannelState T → Bool
  unfolding channel_len
  channel_is_empty s = channel_len s == 0

  -- `SenderState::close`, with the fibers it schedules
  unfoldable pub sender_close : ChannelState T → List ℕ × ChannelState T
  sender_close s = (s.no_longer_empty, record s { is_closed = true; no_longer_empty = [] })

  -- A sender is dropped: the last of the `Rc`s closes the channel.
  unfoldable pub drop_sender : ℕ → ChannelState T → ℕ × List ℕ × ChannelState T
  unfolding sender_close
  drop_sender references s =
      let (woken, s') = sender_close s in
      if leb references 1 then (0, woken, s') else (references - 1, [], s)

  -- A round of `Receiver::recv` in the fiber `waker`
  unfoldable pub recv : ℕ → Bool → ChannelState T → Received T × ChannelState T
  recv waker is_cancelled s = elim s.queue [
    | message ∷ messages ↦ (returned (ok message), record s { queue = messages })
    | [] ↦
        if s.is_closed
        then (returned (err (original closed_error)), s)
        else if is_cancelled
        then (returned (err cancelled), s)
        else (parked, record s { no_longer_empty = s.no_longer_empty ++ (waker ∷ []) })
  ]

  -- `Receiver::close`
  unfoldable pub receiver_close : ChannelState T → ChannelState T
  receiver_close s = record s { is_closed = true }

  -- A receiver is dropped.
  unfoldable pub drop_receiver : ℕ → ChannelState T → ℕ × ChannelState T
  unfolding receiver_close
  drop_receiver references s =
      if leb references 1 then (0, receiver_close s) else (references - 1, s)

  -- `Iterator::next`, when its `recv` has returned
  unfoldable pub next_item : Result T (Error ClosedError) → Option T
  next_item (ok message) = some message
  next_item (err e) = none
