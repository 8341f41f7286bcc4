-- ===== src/Yring/Sim/Push.antt =====
-- `push`, `is_full` and the flushes of a producer against the queue.
use fanring_rs.Base.{
  ℕ, ◌+◌, ◌-◌, ◌%◌, ◌≡◌, refl, ap, ◌∙◌, Bool, true, false, some, [], ◌∷◌, ◌++◌, arith, length, set,
  word, wrapping_sub, leb, Bool-cases, inl, inr, if◌then◌else◌, length-append, append_assoc, done,
  ok, err, length-set,
}
use fanring_rs.Yring.Types.{Spsc, Waiter}
use fanring_rs.Yring.Queue
use fanring_rs.Yring.Queue.{Queue, contents, used}
use fanring_rs.Yring.Slots.{Holds, Holds-set, set-fill}
use fanring_rs.Yring.Ring
use fanring_rs.Yring.Waiter
use fanring_rs.Yring.Producer
use fanring_rs.Yring.Sim.{
  Sim-refresh, Sim-waiters, Ghost, Sim, Places, Refines, Does, slots, read_pos, index-mod, index-lt,
  distance-head, distance-cached, length-slots, length-contents, cursor_pos,
}

module _ {ℓ} {A : Type ℓ} (g : Ghost) (s : Spsc A) (q : Queue A) (v : Sim g s q) (x : A) where
  -- What `ring.push` leaves when there is no room: the cached head is refreshed.
  abbrev refreshed : Spsc A
  refreshed = record s { producer = record s.producer { cached_head = s.ring.head } }

  ring_push-full : Queue.is_full q ≡ true → Producer.ring_push s x ≡ done (err x, refreshed)
  unfolding Producer.ring_push
  ring_push-full h = ground (arith, distance-head g s q v, distance-cached g s q v)

  -- The head that `ring.push` goes by, and its position.
  abbrev stale : Bool
  stale = leb (Ring.capacity s.ring) (wrapping_sub s.producer.cursor s.producer.cached_head)

  abbrev pushed : Spsc A
  pushed = record s {
    ring = record s.ring { buf = set s.ring.buf (Ring.index s.ring s.producer.cursor) (some x) };
    producer = record {
      cursor = (s.producer.cursor + 1) % word;
      cached_head = if stale then s.ring.head else s.producer.cached_head;
    };
  }

  ring_push-room : Queue.is_full q ≡ false → Producer.ring_push s x ≡ done (ok tt, pushed)
  unfolding Producer.ring_push
  ring_push-room h = ground (
    arith,
    distance-head g s q v,
    distance-cached g s q v,
    index-lt g s q v (cursor_pos g q) s.producer.cursor v.cursor_at,
  )

  abbrev pushed_ghost : Ghost
  pushed_ghost = record g { cached = if stale then g.base else g.cached }

  abbrev pushed_queue : Queue A
  pushed_queue = record q { pending = q.pending ++ (x ∷ []) }

  contents-pushed : contents pushed_queue ≡ contents q ++ (x ∷ [])
  contents-pushed = simp append_assoc

  pushed-slots :
      Queue.is_full q ≡ false → set (slots q) (length (contents q)) (some x) ≡ slots pushed_queue
  pushed-slots h =
      set-fill (contents q) x (length (contents q)) (q.capacity - length (contents q))
        (q.capacity - length (contents q ++ (x ∷ []))) refl
        (ground (arith, length-contents g s q v, length-append (contents q) (x ∷ [])))
      ∙ rw contents-pushed

  pushed-held :
      Queue.is_full q ≡ false → Holds q.capacity pushed.ring.buf (read_pos g q) (slots pushed_queue)
  pushed-held h =
      rw (← pushed-slots h, place)
        (Holds-set q.capacity s.ring.buf (read_pos g q) (length (contents q)) (some x) (slots q)
          v.size (omega (arith, length-slots g s q v))
          (ground (arith, length-contents g s q v, length-slots g s q v)) v.held)
    where
      place :
          Ring.index s.ring s.producer.cursor ≡ (read_pos g q + length (contents q)) % q.capacity
      place =
          index-mod g s q v (cursor_pos g q) s.producer.cursor v.cursor_at
          ∙ ap (λ (t : ℕ). t % q.capacity) (omega (arith, length-contents g s q v))

  pushed-Places : Queue.is_full q ≡ false → Places pushed_ghost pushed pushed_queue
  pushed-Places h = ground (
    arith,
    distance-cached g s q v,
    length-append q.pending (x ∷ []),
    length-set s.ring.buf (Ring.index s.ring s.producer.cursor) (some x),
  )

  pushed-Sim : Queue.is_full q ≡ false → Sim pushed_ghost pushed pushed_queue
  pushed-Sim h = record {
    places = pushed-Places h;
    held = pushed-held h;
    tx_dropped = v.tx_dropped;
    rx_dropped = v.rx_dropped;
  }

  -- `Ring::push` on the producer's cursors answers as a push on the queue.
  pub ring_push-Refines : Does (Producer.ring_push s x) (Queue.push q x)
  ring_push-Refines = elim (Bool-cases (Queue.is_full q)) [
    | inl full ↦
        rw full (refreshed, ring_push-full full, (record g { cached = g.base }, Sim-refresh v))
    | inr room ↦ rw room (pushed, ring_push-room room, (pushed_ghost, pushed-Sim room))
  ]

module _ {ℓ} {A : Type ℓ} where
  -- `push` with its registration and retry.
  push-room :
      (s : Spsc A) (q : Queue A) (x : A)
      → Refines s q
      → Queue.is_full q ≡ false
      → Does (Producer.push s x) (Queue.push q x)
  unfolding Producer.push
  push-room s q x (g, v) room =
      rw (room, ring_push-room g s q v x room)
        (pushed g s q v x, refl, (pushed_ghost g s q v x, pushed-Sim g s q v x room))

  -- Registering and trying again does not make room.
  retry-full :
      (s : Spsc A) (q : Queue A) (x : A)
      → Refines s q
      → Queue.is_full q ≡ true
      → (registered : Bool) (w : Waiter)
      → Does
          (if registered
            then Producer.ring_push (record s { ring = record s.ring { producer_waiting = w } }) x
            else done (err x, s))
          (err x, q)
  retry-full s q x (g, v) full true w =
      let v' = Sim-waiters v s.ring.consumer_waiting w in
      (_, ring_push-full g _ q v' x full, (_, Sim-refresh v'))
  retry-full s q x (g, v) full false w = (s, refl, (g, v))

  -- A push answers as the queue does: the value is appended when a slot is free, and given back
  -- when the slots in use fill the ring.
  pub push-Refines :
      (s : Spsc A) (q : Queue A) (x : A) → Refines s q → Does (Producer.push s x) (Queue.push q x)
  unfolding Producer.push Producer.push_after_full
  push-Refines s q x (g, v) = elim (Bool-cases (Queue.is_full q)) [
    | inl full ↦
        rw (ring_push-full g s q v x full, full)
          (retry-full (refreshed g s q v x) q x (_, Sim-refresh v) full
            (Waiter.register s.ring.producer_waiting).0 (Waiter.register s.ring.producer_waiting).1)
    | inr room ↦ push-room s q x (g, v) room
  ]
