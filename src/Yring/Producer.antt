-- ===== src/Yring/Producer.antt =====
-- `Producer<T>` of yring/src/producer.rs.
use fanring_rs.Base.{
  ℕ, Bool, true, false, Option, none, some, if◌then◌else◌, Result, ok, err, Access, done, ◌>>=◌,
}
use fanring_rs.Yring.Types.{Spsc, FlushResult}
use fanring_rs.Yring.Waiter
use fanring_rs.Yring.Ring

module _ {ℓ} {A : Type ℓ} where
  -- `spsc` of lib.rs; `none` where `Ring::new` panics.
  unfoldable pub spsc : ℕ → Option (Spsc A)
  unfolding Ring.new
  spsc capacity = elim (Ring.new {A = A} capacity) [
    | none ↦ none
    | some ring ↦ some (record {
      ring = ring;
      producer = record { cursor = 0; cached_head = 0 };
      consumer = record { head = 0; cached_tail = 0 };
    })
  ]

  -- A call of `ring.push` on the producer's own cursors.
  unfoldable pub ring_push : Spsc A → A → Access (Result (Unit {0}) A × Spsc A)
  unfolding Ring.push
  ring_push s val =
      Ring.push s.ring s.producer.cursor s.producer.cached_head val
      >>= λ (result, ring, cursor, cached_head). done (
        result,
        record s { ring = ring; producer = record { cursor = cursor; cached_head = cached_head } },
      )

  unfoldable pub push_after_full : Spsc A → A → Access (Result (Unit {0}) A × Spsc A)
  unfolding Waiter.register
  push_after_full s val =
      let (registered, waiter) = Waiter.register s.ring.producer_waiting in
      let retry = ring_push (record s { ring = record s.ring { producer_waiting = waiter } }) val in
      if registered then retry else done (err val, s)

  unfoldable pub push : Spsc A → A → Access (Result (Unit {0}) A × Spsc A)
  push s val = ring_push s val >>= λ (result, s'). elim result [
    | ok _ ↦ done (ok tt, s')
    | err val' ↦ push_after_full s' val'
  ]

  unfoldable pub flush : Spsc A → Spsc A
  flush s = record s { ring = record s.ring { tail = s.producer.cursor } }

  unfoldable pub flush_and_check : Spsc A → FlushResult × Spsc A
  unfolding Ring.flush_to
  flush_and_check s =
      let (result, ring, cached_head) =
        Ring.flush_to s.ring s.producer.cursor s.producer.cached_head in
      (result, record s { ring = ring; producer = record s.producer { cached_head = cached_head } })

  unfoldable pub push_and_flush : Spsc A → A → Access (Result (Unit {0}) A × Spsc A)
  push_and_flush s val = push s val >>= λ (result, s'). elim result [
    | ok _ ↦ done (ok tt, flush s')
    | err val' ↦ done (err val', s')
  ]

  -- A call of `ring.is_full` on the producer's own cursors.
  unfoldable pub ring_is_full : Spsc A → Bool × Spsc A
  unfolding Ring.is_full
  ring_is_full s =
      let (full, cached_head) = Ring.is_full s.ring s.producer.cursor s.producer.cached_head in
      (full, record s { producer = record s.producer { cached_head = cached_head } })

  unfoldable pub is_full : Spsc A → Bool × Spsc A
  unfolding Waiter.register
  is_full s =
      let (full, s') = ring_is_full s in
      let (registered, waiter) = Waiter.register s'.ring.producer_waiting in
      if full
      then if registered
        then ring_is_full (record s' { ring = record s'.ring { producer_waiting = waiter } })
        else (true, s')
      else (false, s')

  unfoldable pub len : Spsc A → ℕ
  len s = Ring.producer_len s.ring s.producer.cursor

  unfoldable pub is_empty : Spsc A → Bool
  is_empty s = Ring.producer_is_empty s.ring s.producer.cursor

  unfoldable pub is_consumer_dropped : Spsc A → Bool
  is_consumer_dropped s = s.ring.consumer_dropped

  -- `Producer::close`, which `Drop` calls.
  unfoldable pub close : Spsc A → Spsc A
  close s = let s' = flush s in record s' { ring = record s'.ring { producer_dropped = true } }
