-- ===== src/Yring/Sim/Pop.antt =====
-- `pop`, `prefetch`, `release` and the tests of a consumer against the queue.
use fanring_rs.Base.{
  ℕ, suc, ◌+◌, ◌-◌, ◌%◌, ◌≤◌, ◌≡◌, refl, ap, ◌∙◌, Bool, true, false, not, none, some, List, [], ◌∷◌,
  ◌++◌, arith, length, set, get_elem?, word, ◌==◌, if◌then◌else◌, Bool-cases, inl, inr, done,
  length-append, append_assoc, length-set,
}
use mathlib.Core.Path.{subst}
use fanring_rs.Yring.Types.{Spsc, Waiter}
use fanring_rs.Yring.Queue
use fanring_rs.Yring.Queue.{Queue, contents, used}
use fanring_rs.Yring.Slots.{Holds, Holds-set, Holds-rotate, fill, fill-append-none, length-fill}
use fanring_rs.Yring.Ring
use fanring_rs.Yring.Waiter
use fanring_rs.Yring.Consumer
use fanring_rs.Yring.Sim.{
  Ghost, Sim, Refines, Does, slots, read_pos, window-length, index-mod, length-slots,
}

-- One value at the front of the window, taken out of its slot.
module _ {ℓ} {A : Type ℓ} (g : Ghost) (s : Spsc A) (q : Queue A) (v : Sim g s q) (x : A)
    (xs : List A) (e : q.window ≡ x ∷ xs) where
  abbrev place : ℕ
  place = Ring.index s.ring s.consumer.head

  abbrev rest : List A
  rest = xs ++ (q.hidden ++ q.pending)

  abbrev pub popped_queue : Queue A
  popped_queue = record q { window = xs; unreleased = suc q.unreleased }

  abbrev pub popped : Spsc A
  popped = record s {
    ring = record s.ring { buf = set s.ring.buf place none };
    consumer = record s.consumer { head = (s.consumer.head + 1) % word };
  }

  window-cons : length q.window ≡ suc (length xs)
  window-cons = ap length e

  place-mod : place ≡ (read_pos g q + 0) % q.capacity
  place-mod =
      index-mod g s q v (read_pos g q) s.consumer.head v.read_at
      ∙ ap (λ (t : ℕ). t % q.capacity) (omega arith)

  slots-cons : slots q ≡ some x ∷ fill rest (q.capacity - suc (length rest))
  slots-cons = rw e

  pub front : get_elem? s.ring.buf place ≡ some (some x)
  front =
      rw place-mod
        (v.held 0 (omega (arith, length-slots g s q v)) ∙ ap (λ l. get_elem? l 0) slots-cons)

  popped-held : Holds q.capacity popped.ring.buf (read_pos g popped_queue) (slots popped_queue)
  popped-held =
      rw (place-mod, ← fill-append-none rest free (q.capacity - length rest) (omega (arith, fits)))
        (subst
          (λ (t : ℕ). Holds q.capacity (set s.ring.buf here none) t (fill rest free ++ (none ∷ [])))
          (let next : read_pos g q + 1 ≡ g.base + suc q.unreleased = omega arith in next)
          (Holds-rotate q.capacity (set s.ring.buf here none) (read_pos g q) none (fill rest free)
            (omega (arith, fits, length-fill rest free)) taken))
    where
      free : ℕ
      free = q.capacity - suc (length rest)

      here : ℕ
      here = (read_pos g q + 0) % q.capacity

      fits : suc (length rest) ≤ q.capacity
      fits = omega (arith, ap length slots-cons, length-fill rest free, length-slots g s q v)

      taken : Holds q.capacity (set s.ring.buf here none) (read_pos g q) (none ∷ fill rest free)
      taken =
          subst (λ l. Holds q.capacity (set s.ring.buf here none) (read_pos g q) (set l 0 none))
            slots-cons
            (Holds-set q.capacity s.ring.buf (read_pos g q) 0 none (slots q) v.size
              (omega (arith, length-slots g s q v)) (omega (arith, length-slots g s q v)) v.held)

  pub popped-Sim : Sim g popped popped_queue
  popped-Sim = record {
    places = omega (arith, window-cons, length-set s.ring.buf place none);
    held = popped-held;
    tx_dropped = v.tx_dropped;
    rx_dropped = v.rx_dropped;
  }

  pub pop-cons : Consumer.pop s ≡ done (some x, popped)
  unfolding Consumer.pop
  pop-cons = ground (arith, window-length g s q v, window-cons, front)

module _ {ℓ} {A : Type ℓ} where
  pop-nil :
      (g : Ghost) (s : Spsc A) (q : Queue A)
      → Sim g s q
      → q.window ≡ []
      → Consumer.pop s ≡ done (none, s)
  unfolding Consumer.pop
  pop-nil g s q v e = ground (arith, window-length g s q v, ap length e)

  pop_window :
      (g : Ghost) (s : Spsc A) (q : Queue A)
      → Sim g s q
      → (w : List A) → q.window ≡ w
      → Does (Consumer.pop s) (Queue.pop_from w q)
  pop_window g s q v [] e = (s, pop-nil g s q v e, (g, v))
  pop_window g s q v (x ∷ xs) e =
      (popped g s q v x xs e, pop-cons g s q v x xs e, (g, popped-Sim g s q v x xs e))

  -- A pop takes the oldest value of the window, and never reads an empty slot.
  pub pop-Refines : (s : Spsc A) (q : Queue A) → Refines s q → Does (Consumer.pop s) (Queue.pop q)
  pop-Refines s q (g, v) = pop_window g s q v q.window refl

  -- What a prefetch leaves: the consumer sees every published value.
  prefetched : Spsc A → Spsc A
  prefetched s = record s { consumer = record s.consumer { cached_tail = s.ring.tail } }

  ring_prefetch_lem :
      (g : Ghost) (s : Spsc A) (q : Queue A)
      → Sim g s q
      → Consumer.ring_prefetch s ≡ (length q.hidden, prefetched s)
  unfolding Consumer.ring_prefetch prefetched
  ring_prefetch_lem g s q v = ground arith

  pub contents-prefetch : (q : Queue A) → contents (Queue.prefetch q).1 ≡ contents q
  contents-prefetch q = simp append_assoc

  prefetched-Sim :
      (g : Ghost) (s : Spsc A) (q : Queue A) → Sim g s q → Sim g (prefetched s) (Queue.prefetch q).1
  unfolding prefetched
  prefetched-Sim g s q v = record {
    places = omega (arith, length-append q.window q.hidden);
    held = rw contents-prefetch v.held;
    tx_dropped = v.tx_dropped;
    rx_dropped = v.rx_dropped;
  }

  -- A second look at a ring that the first found empty finds nothing new.
  prefetch_again :
      (g : Ghost) (s : Spsc A) (q : Queue A)
      → Sim g s q
      → s.ring.tail ≡ s.consumer.cached_tail
      → (registered : Bool) (w : Waiter)
      → let r =
          if not registered
          then (0, s)
          else Consumer.ring_prefetch
              (record s { ring = record s.ring { consumer_waiting = w } }) in
        (r.0 ≡ 0) × Refines r.1 q
  unfolding Consumer.ring_prefetch
  prefetch_again g s q v same false w = (refl, (g, v))
  prefetch_again g s q v same true w = (
    omega arith,
    (
      g,
      record {
        places = omega arith;
        held = v.held;
        tx_dropped = v.tx_dropped;
        rx_dropped = v.rx_dropped;
      },
    ),
  )

  prefetch_after_empty_lem :
      (g : Ghost) (s : Spsc A) (q : Queue A)
      → Sim g s q
      → s.ring.tail ≡ s.consumer.cached_tail
      → ((Consumer.prefetch_after_empty s).0 ≡ 0) × Refines (Consumer.prefetch_after_empty s).1 q
  unfolding Consumer.prefetch_after_empty
  prefetch_after_empty_lem g s q v same =
      prefetch_again g s q v same (Waiter.register s.ring.consumer_waiting).0
        (Waiter.register s.ring.consumer_waiting).1

  -- A prefetch shows the consumer every published value, and counts the new ones.
  pub prefetch-Refines :
      (s : Spsc A) (q : Queue A)
      → Refines s q
      → ((Consumer.prefetch s).0 ≡ length q.hidden)
        × Refines (Consumer.prefetch s).1 (Queue.prefetch q).1
  unfolding Consumer.prefetch
  prefetch-Refines s q (g, v) = elim (Bool-cases (s.consumer.head == s.ring.tail)) [
    | inl empty ↦
        let (none_left, r) =
          prefetch_after_empty_lem g (prefetched s) (Queue.prefetch q).1 (prefetched-Sim g s q v)
            seen in
        rw (ring_prefetch_lem g s q v, read-tail empty) ((none_left ∙ ground arith), r)
    | inr more ↦
        rw (ring_prefetch_lem g s q v, unread-tail more) (refl, (g, prefetched-Sim g s q v))
  ]
    where
      seen : (prefetched s).ring.tail ≡ (prefetched s).consumer.cached_tail
      seen = unfold prefetched in refl

      read-tail :
          (s.consumer.head == s.ring.tail) ≡ true
          → ((prefetched s).consumer.head == (prefetched s).consumer.cached_tail) ≡ true
      read-tail h = unfold prefetched in h

      unread-tail :
          (s.consumer.head == s.ring.tail) ≡ false
          → ((prefetched s).consumer.head == (prefetched s).consumer.cached_tail) ≡ false
      unread-tail h = unfold prefetched in h

  -- A release frees every popped slot.
  pub release-Refines :
      (s : Spsc A) (q : Queue A) → Refines s q → Refines (Consumer.release s) (Queue.release q)
  unfolding Consumer.release
  release-Refines s q (g, v) = (
    record g { base = read_pos g q },
    record {
      places = omega arith;
      held =
          subst (λ (t : ℕ). Holds q.capacity s.ring.buf t (slots q))
            (let e : read_pos g q ≡ read_pos g q + 0 = omega arith in e) v.held;
      tx_dropped = v.tx_dropped;
      rx_dropped = v.rx_dropped;
    },
  )
