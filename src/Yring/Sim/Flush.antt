-- ===== src/Yring/Sim/Flush.antt =====
-- The flushes, tests and close of a producer against the queue.
use fanring_rs.Base.{
  ℕ, ◌+◌, ◌≡◌, refl, ap, ◌∙◌, Bool, true, false, arith, length, wrapping_sub, leb, ◌==◌,
  if◌then◌else◌, Bool-cases, inl, inr, Access, done, ◌>>=◌, Result, ok, err, length-append,
  append-nil,
}
use fanring_rs.Yring.Types.{Spsc, Waiter, FlushResult, flushed, nothing_to_flush}
use fanring_rs.Yring.Queue
use fanring_rs.Yring.Queue.{Queue, contents, used}
use fanring_rs.Yring.Ring
use fanring_rs.Yring.Waiter
use fanring_rs.Yring.Producer
use fanring_rs.Yring.Sim.{
  Ghost, Sim, Refines, Does, Sim-refresh, Sim-waiters, distance-head, distance-cached,
}
use fanring_rs.Yring.Sim.Push.{push-Refines}

-- What `flush_to` answers when `n` values were pending.
abbrev pub flush_result : ℕ → Bool → FlushResult
flush_result n wake = if n == 0 then nothing_to_flush else flushed n wake

module _ {ℓ} {A : Type ℓ} where
  pub contents-flush : (q : Queue A) → contents (Queue.flush q) ≡ contents q
  contents-flush q = simp append-nil

  -- A flush publishes all pending values.
  pub flush-Refines :
      (s : Spsc A) (q : Queue A) → Refines s q → Refines (Producer.flush s) (Queue.flush q)
  unfolding Producer.flush
  flush-Refines s q (g, v) = (
    g,
    record {
      places = omega (arith, length-append q.hidden q.pending);
      held = rw contents-flush v.held;
      tx_dropped = v.tx_dropped;
      rx_dropped = v.rx_dropped;
    },
  )

  abbrev pub published : Queue A → ℕ
  published q = q.unreleased + (length q.window + length q.hidden)

  pending-length :
      (g : Ghost) (s : Spsc A) (q : Queue A)
      → Sim g s q
      → wrapping_sub s.producer.cursor s.ring.tail ≡ length q.pending
  pending-length g s q v = omega arith

  -- With nothing pending a flush changes nothing.
  unflushed :
      (g : Ghost) (s : Spsc A) (q : Queue A)
      → Sim g s q
      → length q.pending ≡ 0
      → (w : Waiter)
      → Sim g (record s { ring = record s.ring { consumer_waiting = w } }) (Queue.flush q)
  unflushed g s q v none_pending w = record {
    places = omega (arith, length-append q.hidden q.pending);
    held = rw contents-flush v.held;
    tx_dropped = v.tx_dropped;
    rx_dropped = v.rx_dropped;
  }

  flushed-Sim :
      (g : Ghost) (s : Spsc A) (q : Queue A)
      → Sim g s q
      → (w : Waiter)
      → Sim
          (record g { cached = g.base })
          (record s {
            ring = record s.ring { tail = s.producer.cursor; consumer_waiting = w };
            producer = record s.producer { cached_head = s.ring.head };
          })
          (Queue.flush q)
  flushed-Sim g s q v w = record {
    places = omega (arith, length-append q.hidden q.pending);
    held = rw contents-flush v.held;
    tx_dropped = v.tx_dropped;
    rx_dropped = v.rx_dropped;
  }

  -- A checked flush publishes like a plain one, reports how many values it published, and asks for
  -- a wake if it found no published slot in use.
  pub flush_and_check-Refines :
      (s : Spsc A) (q : Queue A)
      → Refines s q
      → (wake : Bool) × ((Producer.flush_and_check s).0 ≡ flush_result (length q.pending) wake)
        × (published q ≡ 0 → wake ≡ true)
        × Refines (Producer.flush_and_check s).1 (Queue.flush q)
  unfolding Producer.flush_and_check
  flush_and_check-Refines s q (g, v) = elim (Bool-cases (s.producer.cursor == s.ring.tail)) [
    | inl same ↦ rw same (
      true,
      ground (arith, pending-length g s q v),
      (λ _. refl),
      (
        g,
        unflushed g s q v (ground (arith, pending-length g s q v))
            (Waiter.enable s.ring.consumer_waiting),
      ),
    )
    | inr more ↦ rw more (
      (Waiter.take (Waiter.enable s.ring.consumer_waiting) (s.ring.tail == s.ring.head)).0,
      ground (arith, pending-length g s q v),
      (λ e. ground (arith, v.tail_at, v.head_at)),
      (_, flushed-Sim g s q v _),
    )
  ]

  abbrev refreshed : Spsc A → Spsc A
  refreshed s = record s { producer = record s.producer { cached_head = s.ring.head } }

  ring_is_full-true :
      (g : Ghost) (s : Spsc A) (q : Queue A)
      → Sim g s q
      → Queue.is_full q ≡ true
      → Producer.ring_is_full s ≡ (true, refreshed s)
  unfolding Producer.ring_is_full
  ring_is_full-true g s q v h = ground (arith, distance-head g s q v, distance-cached g s q v)

  ring_is_full-false :
      (g : Ghost) (s : Spsc A) (q : Queue A)
      → Sim g s q
      → Queue.is_full q ≡ false
      → (s' : Spsc A) × (Producer.ring_is_full s ≡ (false, s')) × Refines s' q
  unfolding Producer.ring_is_full
  ring_is_full-false g s q v h =
      elim (Bool-cases
        (leb (Ring.capacity s.ring) (wrapping_sub s.producer.cursor s.producer.cached_head))) [
          | inl old ↦ (refreshed s, ground (arith, distance-head g s q v), (_, Sim-refresh v))
          | inr current ↦ (s, ground arith, (g, v))
        ]

  -- The second look after a registration.
  is_full-again :
      (g : Ghost) (s : Spsc A) (q : Queue A)
      → Sim g s q
      → Queue.is_full q ≡ true
      → (registered : Bool) (w : Waiter)
      → let r =
          if registered
          then Producer.ring_is_full (record s { ring = record s.ring { producer_waiting = w } })
          else (true, s) in
        (r.0 ≡ true) × Refines r.1 q
  is_full-again g s q v full true w =
      let v' = Sim-waiters v s.ring.consumer_waiting w in
      rw (ring_is_full-true g _ q v' full) (refl, (_, Sim-refresh v'))
  is_full-again g s q v full false w = (refl, (g, v))

  -- `is_full` answers as the queue, and leaves it alone.
  pub is_full-Refines :
      (s : Spsc A) (q : Queue A)
      → Refines s q
      → ((Producer.is_full s).0 ≡ Queue.is_full q) × Refines (Producer.is_full s).1 q
  unfolding Producer.is_full
  is_full-Refines s q (g, v) = elim (Bool-cases (Queue.is_full q)) [
    | inl full ↦
        rw (ring_is_full-true g s q v full, full)
          (is_full-again _ (refreshed s) q (Sim-refresh v) full
            (Waiter.register s.ring.producer_waiting).0 (Waiter.register s.ring.producer_waiting).1)
    | inr room ↦ let (s', e, r) = ring_is_full-false g s q v room in rw (e, room) (refl, r)
  ]

  -- `len` and `is_empty` of the producer count the slots in use, released or not.
  pub len-used :
      (s : Spsc A) (q : Queue A)
      → Refines s q
      → (Producer.len s ≡ used q) × (Producer.is_empty s ≡ (used q == 0))
  unfolding Producer.len Producer.is_empty
  len-used s q (g, v) = (distance-head g s q v, ground (arith, distance-head g s q v))

  pub close-Refines :
      (s : Spsc A) (q : Queue A)
      → Refines s q
      → Refines (Producer.close s) (record (Queue.flush q) { producer_dropped = true })
  unfolding Producer.close
  close-Refines s q r =
      unfold Producer.flush in
      let (g, v) = flush-Refines s q r in
      (
        g,
        record {
          places = omega arith;
          held = v.held;
          tx_dropped = refl;
          rx_dropped = v.rx_dropped;
        },
      )

  -- `push_and_flush` is the push followed, when it succeeds, by the flush.
  abbrev pub push_flush : Queue A → A → Result (Unit {0}) A × Queue A
  push_flush q x = if Queue.is_full q then (err x, q) else (ok tt, Queue.flush (Queue.push q x).1)

  pub push_and_flush-Refines :
      (s : Spsc A) (q : Queue A) (x : A)
      → Refines s q
      → Does (Producer.push_and_flush s x) (push_flush q x)
  unfolding Producer.push_and_flush
  push_and_flush-Refines s q x r =
      let (s', e, r') = push-Refines s q x r in
      elim (Bool-cases (Queue.is_full q)) [
        | inl full ↦ rw full (s', ap (λ m. m >>= after) e ∙ rw full, rw full at r')
        | inr room ↦ rw room (
          Producer.flush s',
          ap (λ m. m >>= after) e ∙ rw room,
          flush-Refines s' _ (rw room at r'),
        )
      ]
    where
      after : Result (Unit {0}) A × Spsc A → Access (Result (Unit {0}) A × Spsc A)
      after (result, s') = elim result [
        | ok _ ↦ done (ok tt, Producer.flush s')
        | err val' ↦ done (err val', s')
      ]
