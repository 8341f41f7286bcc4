-- ===== src/Yring/Sim/Receive.antt =====
-- The tests, the hinted release, the combined receive and the close of a consumer.
use fanring_rs.Base.{
  ℕ, ◌+◌, ◌<◌, ◌≡◌, refl, sym, ap, Bool, true, false, ◌&&◌, not, Option, none, some, arith, length,
  wrapping_sub, leb, ◌==◌, if◌then◌else◌, Bool-cases, inl, inr, done,
}
use fanring_rs.Yring.Types.{Spsc, Waiter}
use fanring_rs.Yring.Queue
use fanring_rs.Yring.Queue.{Queue, contents, used}
use fanring_rs.Yring.Ring
use fanring_rs.Yring.Waiter
use fanring_rs.Yring.Consumer
use fanring_rs.Yring.Sim.{Ghost, Sim, Refines, Does, Sim-waiters}
use fanring_rs.Yring.Sim.Pop.{pop-Refines, prefetch-Refines, release-Refines}

module _ {ℓ} {A : Type ℓ} where
  -- The number of published values that the consumer has not popped.
  abbrev pub visible : Queue A → ℕ
  visible q = length q.window + length q.hidden

  -- `len` counts the published values, and `is_disconnected` holds when the producer is gone and
  -- none is left.
  pub len-visible :
      (s : Spsc A) (q : Queue A)
      → Refines s q
      → (Consumer.len s ≡ visible q)
        × (Consumer.is_disconnected s ≡ (q.producer_dropped && (visible q == 0)))
  unfolding Consumer.len Consumer.is_disconnected
  len-visible s q (g, v) =
      (omega arith, rw v.tx_dropped (ap (λ b. q.producer_dropped && b) (ground arith)))

  consumer_is_empty-visible :
      (g : Ghost) (s : Spsc A) (q : Queue A)
      → Sim g s q
      → Ring.consumer_is_empty s.ring s.consumer.head s.consumer.cached_tail ≡ (visible q == 0)
  consumer_is_empty-visible g s q v = ground arith

  is_empty-of :
      (g : Ghost) (s : Spsc A) (q : Queue A)
      → Sim g s q
      → (nothing : Bool) → nothing ≡ (visible q == 0)
      → (registered : Bool) (w : Waiter)
      → let r : Bool × Spsc A =
          if not nothing
          then (false, s)
          else if not registered
          then (true, s)
          else (nothing, record s { ring = record s.ring { consumer_waiting = w } }) in
        (r.0 ≡ (visible q == 0)) × Refines r.1 q
  is_empty-of g s q v false e registered w = (e, (g, v))
  is_empty-of g s q v true e false w = (e, (g, v))
  is_empty-of g s q v true e true w = (e, (g, Sim-waiters v w s.ring.producer_waiting))

  -- `is_empty` answers whether a published value is left, and leaves the queue alone.
  pub is_empty-Refines :
      (s : Spsc A) (q : Queue A)
      → Refines s q
      → ((Consumer.is_empty s).0 ≡ (visible q == 0)) × Refines (Consumer.is_empty s).1 q
  unfolding Consumer.is_empty
  is_empty-Refines s q (g, v) =
      is_empty-of g s q v (Ring.consumer_is_empty s.ring s.consumer.head s.consumer.cached_tail)
        (consumer_is_empty-visible g s q v) (Waiter.register s.ring.consumer_waiting).0
        (Waiter.register s.ring.consumer_waiting).1

  pub close-Refines :
      (s : Spsc A) (q : Queue A)
      → Refines s q
      → Refines (Consumer.close s) (record (Queue.release q) { consumer_dropped = true })
  unfolding Consumer.close
  close-Refines s q r =
      let (g, v) = release-Refines s q r in
      (
        g,
        record {
          places = omega arith;
          held = v.held;
          tx_dropped = v.tx_dropped;
          rx_dropped = refl;
        },
      )

  -- With nothing popped a release changes nothing.
  pub release-none : (q : Queue A) → q.unreleased ≡ 0 → Queue.release q ≡ q
  release-none q e = λ i. record q { unreleased = sym e i }

  -- A hinted release frees the same slots as a plain one. It asks for no wake if there was nothing
  -- to free, and for one if the values seen filled the ring.
  pub release_with_full-Refines :
      (s : Spsc A) (q : Queue A)
      → Refines s q
      → Refines (Consumer.release_with_full s).1 (Queue.release q)
        × (q.unreleased ≡ 0 → (Consumer.release_with_full s).0 ≡ false)
        × (0 < q.unreleased
            → q.unreleased + length q.window ≡ q.capacity
            → (Consumer.release_with_full s).0 ≡ true)
  unfolding Consumer.release_with_full
  release_with_full-Refines s q (g, v) = elim (Bool-cases (s.consumer.head == s.ring.head)) [
    | inl same ↦
        rw same ((g, idle (ground arith)), (λ _. refl), (λ some_popped full. absurd (ground arith)))
    | inr moved ↦ rw moved (
      freed,
      (λ no_popped. absurd (ground arith)),
      (λ some_popped full. seen_full some_popped full),
    )
  ]
    where
      hint : Waiter
      hint = Waiter.enable s.ring.producer_waiting

      was_full : Bool
      was_full = leb (Ring.capacity s.ring) (wrapping_sub s.consumer.cached_tail s.ring.head)

      freed :
          let s' =
            Consumer.release (record s { ring = record s.ring { producer_waiting = hint } }) in
          Refines
            (record s' {
              ring = record s'.ring { producer_waiting = (Waiter.take hint was_full).1 };
            })
            (Queue.release q)
      freed =
          let (g', v') = release-Refines _ q (g, Sim-waiters v s.ring.consumer_waiting hint) in
          (g', Sim-waiters v' _ (Waiter.take hint was_full).1)

      seen_full :
          0 < q.unreleased
          → q.unreleased + length q.window ≡ q.capacity
          → (Waiter.take hint was_full).0 ≡ true
      seen_full some_popped full = let e : was_full ≡ true = ground arith in rw e refl

      idle :
          q.unreleased ≡ 0
          → Sim g
              (record s {
                ring = record s.ring { producer_waiting = Waiter.enable s.ring.producer_waiting };
              })
              (Queue.release q)
      idle e =
          rw (release-none q e)
            (Sim-waiters v s.ring.consumer_waiting (Waiter.enable s.ring.producer_waiting))

  -- The queue after a prefetch that is made only on an empty window.
  abbrev pub refilled : Queue A → Queue A
  refilled q = if length q.window == 0 then (Queue.prefetch q).1 else q

  prefetch_if_empty_lem :
      (s : Spsc A) (q : Queue A)
      → Refines s q
      → Refines
          (if s.consumer.head == s.consumer.cached_tail then (Consumer.prefetch s).1 else s)
          (refilled q)
  prefetch_if_empty_lem s q (g, v) = elim (Bool-cases (length q.window == 0)) [
    | inl empty ↦
        let same : (s.consumer.head == s.consumer.cached_tail) ≡ true = ground arith in
        rw (empty, same) (prefetch-Refines s q (g, v)).1
    | inr more ↦
        let other : (s.consumer.head == s.consumer.cached_tail) ≡ false = ground arith in
        rw (more, other) (g, v)
  ]

  -- What `prefetch_and_pop` does on a queue: refill, pop, and release if a value came out.
  abbrev pub take_released : Option A × Queue A → Option A × Queue A
  take_released (none, q) = (none, q)
  take_released (some x, q) = (some x, Queue.release q)

  release-popped :
      (m : Option A × Queue A) (s : Spsc A)
      → Refines s m.1
      → Does
          (elim m.0 [ none ↦ done (none, s) | some v ↦ done (some v, Consumer.release s) ])
          (take_released m)
  release-popped (none, q) s r = (s, refl, r)
  release-popped (some x, q) s r = (Consumer.release s, refl, release-Refines s q r)

  pub prefetch_and_pop-Refines :
      (s : Spsc A) (q : Queue A)
      → Refines s q
      → Does (Consumer.prefetch_and_pop s) (take_released (Queue.pop (refilled q)))
  unfolding Consumer.prefetch_and_pop
  prefetch_and_pop-Refines s q r =
      let (s', e, r') = pop-Refines _ (refilled q) (prefetch_if_empty_lem s q r) in
      rw e (release-popped (Queue.pop (refilled q)) s' r')
