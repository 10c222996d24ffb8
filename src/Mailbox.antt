-- ===== src/Mailbox.antt =====
-- core/crates/aa-client-core/src/latest_slot.rs: a mailbox of one cell that keeps only the latest value. Every
-- method holds the lock from its start to its return or its wait, so that it is one step. The lock is poisoned
-- when a holder of it panics; none does, and what a method returns then is written out.
pub mod Wakeup
pub mod Order
pub mod Examples
use armchair_analyst.Prelude.{Bool, true, false, Option, none, some, ◌⊎◌, inl, inr, if◌then◌else◌}

pub data LatestSendError : Type 0 where
  send_closed send_poisoned : LatestSendError

pub data LatestReceiveError : Type 0 where
  receive_closed receive_poisoned : LatestReceiveError

-- The receiving thread: outside `wait_take`, asleep on the condition variable, or notified and about to
-- take the lock again.
pub data Receiver : Type 0 where
  idle asleep notified : Receiver

pub record LatestSlot (T : Type 0) : Type 0 where
  pub latest : Option T
  pub closed : Bool
  pub poisoned : Bool
  pub receiver : Receiver

-- `notify_one` and `notify_all` with at most one waiter.
abbrev pub notify : Receiver → Receiver
notify idle = idle
notify asleep = notified
notify notified = notified

module _ {T : Type 0} where
  unfoldable pub latest_slot : LatestSlot T
  latest_slot = record { latest = none; closed = false; poisoned = false; receiver = idle }

  unfoldable pub send : LatestSlot T → T → LatestSlot T × (Unit {0} ⊎ LatestSendError)
  send s value =
      if s.poisoned
      then (s, inr send_poisoned)
      else if s.closed
      then (s, inr send_closed)
      else (record s { latest = some value; receiver = notify s.receiver }, inl tt)

  unfoldable pub try_take : LatestSlot T → LatestSlot T × (Option T ⊎ LatestReceiveError)
  try_take s = if s.poisoned then (s, inr receive_poisoned) else elim s.latest [
    | some value ↦ (record s { latest = none }, inl (some value))
    | none ↦ if s.closed then (s, inr receive_closed) else (s, inl none)
  ]

  -- One round of the loop of `wait_take`, with the lock held; `none` is the wait.
  unfoldable pub wait_round : LatestSlot T → LatestSlot T × Option (T ⊎ LatestReceiveError)
  wait_round s =
      if s.poisoned
      then (record s { receiver = idle }, some (inr receive_poisoned))
      else elim s.latest [
        | some value ↦ (record s { latest = none; receiver = idle }, some (inl value))
        | none ↦
            if s.closed
            then (record s { receiver = idle }, some (inr receive_closed))
            else (record s { receiver = asleep }, none)
      ]

  unfoldable pub close : LatestSlot T → LatestSlot T
  close s = if s.poisoned then s else record s { closed = true; receiver = notify s.receiver }

-- What the two threads may do next. A wait begins from outside, and a round follows a notification or a
-- spurious wakeup; `drop` of either end closes.
pub data Action (T : Type 0) : Type 0 where
  sends : T → Action T
  tries : Action T
  waits : Action T
  resumes : Action T
  drops : Action T

-- The value that a step hands to the receiver, if it does.
abbrev pub tried : {T : Type 0} → Option T ⊎ LatestReceiveError → Option T
tried (inl value) = value
tried (inr error) = none

abbrev pub waited : {T : Type 0} → Option (T ⊎ LatestReceiveError) → Option T
waited none = none
waited (some (inl value)) = some value
waited (some (inr error)) = none

abbrev pub is_idle : Receiver → Bool
is_idle idle = true
is_idle asleep = false
is_idle notified = false

unfoldable pub step : {T : Type 0} → Action T → LatestSlot T → LatestSlot T × Option T
unfolding send try_take wait_round close
step (sends value) s = ((send s value).0, none)
step tries s = if is_idle s.receiver then ((try_take s).0, tried (try_take s).1) else (s, none)
step waits s = if is_idle s.receiver then ((wait_round s).0, waited (wait_round s).1) else (s, none)
step resumes s =
    if is_idle s.receiver then (s, none) else ((wait_round s).0, waited (wait_round s).1)
step drops s = (close s, none)
