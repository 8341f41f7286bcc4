-- ===== src/Sender/Defs.antt =====
-- `Sender` of src/mpsc/sender.rs under `Deferred`. The
-- lane is the one that the receiver keeps: its ring has both endpoints, and its signal's state is
-- `pending`. `marked` counts the marks of the ready index, and `notified` the notifications of the
-- channel's data waiter.
use fanring_rs.Base.{
  ℕ, suc, ◌-◌, Bool, true, false, not, ◌||◌, if◌then◌else◌, Result, ok, err, Access, done, ◌>>=◌,
}
use fanring_rs.Yring.Types.{Spsc}
use fanring_rs.Yring.Ring
use fanring_rs.Yring.Producer
use fanring_rs.Error.{TrySendError, full}
use fanring_rs.Lane.Defs.{Lane}

pub record Sender {ℓ} (A : Type ℓ) : Type ℓ where
  pub lane : Lane A
  pub receiver_alive : Bool
  pub live_senders : ℕ
  pub marked : ℕ
  pub notified : ℕ

module _ {ℓ} {A : Type ℓ} where
  abbrev pub with_ring : Sender A → Spsc A → Sender A
  with_ring s ring = record s { lane = record s.lane { consumer = ring } }

  unfoldable pub is_disconnected : Sender A → Bool
  is_disconnected s = not s.receiver_alive || Producer.is_consumer_dropped s.lane.consumer

  -- `Shared::mark_ready`, which is `LaneSignal::mark`: the first mark after IDLE marks the page.
  unfoldable pub mark_ready : Sender A → Bool × Sender A
  mark_ready s =
      let marked = record s { lane = record s.lane { pending = true } } in
      if s.lane.pending then (false, marked) else (true, record marked { marked = suc s.marked })

  unfoldable pub notify : Sender A → Sender A
  notify s = record s { notified = suc s.notified }

  unfoldable pub push_error : Sender A → A → TrySendError A
  unfolding is_disconnected
  push_error s value = if is_disconnected s then TrySendError.disconnected value else full value

  unfoldable pub try_send_inner :
      Sender A → A → Access (Result (Unit {0}) (TrySendError A) × Bool × Sender A)
  try_send_inner s value =
      if Producer.is_consumer_dropped s.lane.consumer
      then done (err (TrySendError.disconnected value), false, s)
      else Producer.push_and_flush s.lane.consumer value >>= (λ (result, ring). elim result [
        | ok _ ↦ let (wake, s') = mark_ready (with_ring s ring) in done (ok tt, wake, s')
        | err value' ↦ done (err (push_error (with_ring s ring) value'), false, with_ring s ring)
      ])

  -- A wake is sent after the attempt.
  abbrev pub after_send :
      Result (Unit {0}) (TrySendError A) × Bool × Sender A
      → Access (Result (Unit {0}) (TrySendError A) × Sender A)
  after_send (result, wake, s) = done (result, if wake then notify s else s)

  unfoldable pub try_send : Sender A → A → Access (Result (Unit {0}) (TrySendError A) × Sender A)
  unfolding try_send_inner
  try_send s value = try_send_inner s value >>= after_send

  unfoldable pub try_send_unsignaled :
      Sender A → A → Access (Result (Unit {0}) (TrySendError A) × Sender A)
  try_send_unsignaled s value =
      if Producer.is_consumer_dropped s.lane.consumer
      then done (err (TrySendError.disconnected value), s)
      else Producer.push_and_flush s.lane.consumer value >>= (λ (result, ring). elim result [
        | ok _ ↦ done (ok tt, with_ring s ring)
        | err value' ↦ done (err (push_error (with_ring s ring) value'), with_ring s ring)
      ])

  -- Publishes earlier deferred sends.
  unfoldable pub flush : Sender A → Sender A
  flush s =
      let (wake, s') = mark_ready (with_ring s (Producer.flush s.lane.consumer)) in
      if wake then notify s' else s'

  unfoldable pub try_send_deferred :
      Sender A → A → Access (Result (Unit {0}) (TrySendError A) × Sender A)
  unfolding flush
  try_send_deferred s value =
      if Producer.is_consumer_dropped s.lane.consumer
      then done (err (TrySendError.disconnected value), s)
      else Producer.push s.lane.consumer value >>= (λ (result, ring). elim result [
        | ok _ ↦ done (ok tt, with_ring s ring)
        | err value' ↦
            let s' = flush (with_ring s ring) in
            done (
              err (if is_disconnected s' then TrySendError.disconnected value' else full value'),
              s',
            )
      ])

  -- `Drop`, outside the asynchronous build.
  unfoldable pub drop : Sender A → Sender A
  drop s =
      let (_, s') = mark_ready (with_ring s (Producer.close s.lane.consumer)) in
      notify (record s' { live_senders = s'.live_senders - 1 })

  -- The channel's queries.
  unfoldable pub is_full : Sender A → Bool × Sender A
  is_full s = let (answer, ring) = Producer.is_full s.lane.consumer in (answer, with_ring s ring)

  unfoldable pub capacity : Sender A → ℕ
  capacity s = Ring.capacity s.lane.consumer.ring
