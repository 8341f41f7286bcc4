-- ===== src/Yring/Consumer.antt =====
-- `Consumer<T>` of yring/src/consumer.rs.
use fanring_rs.Base.{
  ℕ, min, Bool, true, false, not, ◌&&◌, Option, none, some, List, ◌==◌, leb, if◌then◌else◌,
  wrapping_sub, Access, done, ◌>>=◌,
}
use fanring_rs.Yring.Types.{Spsc}
use fanring_rs.Yring.Waiter
use fanring_rs.Yring.Ring

module _ {ℓ} {A : Type ℓ} where
  unfoldable pub pop : Spsc A → Access (Option A × Spsc A)
  unfolding Ring.pop
  pop s = Ring.pop s.ring s.consumer.head s.consumer.cached_tail >>= λ (val, ring, head).
      done (val, record s { ring = ring; consumer = record s.consumer { head = head } })

  -- A call of `ring.pop_into` on the consumer's own cursor.
  unfoldable pub ring_pop_into : Spsc A → ℕ → List A → Access (Spsc A × List A)
  unfolding Ring.pop_into
  ring_pop_into s count output =
      Ring.pop_into s.ring s.consumer.head count output >>= λ (ring, head, output').
      done (record s { ring = ring; consumer = record s.consumer { head = head } }, output')

  unfoldable pub pop_into : Spsc A → List A → ℕ → Access (ℕ × Spsc A × List A)
  pop_into s output limit =
      let count = min (wrapping_sub s.consumer.cached_tail s.consumer.head) limit in
      if count == 0
      then done (0, s, output)
      else ring_pop_into s count output >>= λ (s', output'). done (count, s', output')

  unfoldable pub pop_into_while {κ} :
      {S : Type κ} → Spsc A → List A → ℕ → (S → A → S × Bool) → S → Access (ℕ × Spsc A × List A × S)
  pop_into_while s output limit admit st =
      let window = min (wrapping_sub s.consumer.cached_tail s.consumer.head) limit in
      if window == 0
      then done (0, s, output, st)
      else Ring.accepted_prefix s.ring s.consumer.head window admit st >>= λ (count, st').
          if count == 0
          then done (0, s, output, st')
          else ring_pop_into s count output >>= λ (s', output'). done (count, s', output', st')

  unfoldable pub release : Spsc A → Spsc A
  unfolding Ring.release
  release s = record s { ring = Ring.release s.ring s.consumer.head }

  unfoldable pub release_with_full : Spsc A → Bool × Spsc A
  unfolding release Waiter.enable Waiter.take
  release_with_full s =
      let enabled = Waiter.enable s.ring.producer_waiting in
      let s₁ = record s { ring = record s.ring { producer_waiting = enabled } } in
      let published_head = s.ring.head in
      let was_full =
        leb (Ring.capacity s.ring) (wrapping_sub s.consumer.cached_tail published_head) in
      let (wake, waiter) = Waiter.take enabled was_full in
      let s₂ = release s₁ in
      if s.consumer.head == published_head
      then (false, s₁)
      else (wake, record s₂ { ring = record s₂.ring { producer_waiting = waiter } })

  -- A call of `ring.prefetch` on the consumer's own cursor.
  unfoldable pub ring_prefetch : Spsc A → ℕ × Spsc A
  unfolding Ring.prefetch
  ring_prefetch s =
      let (count, cached_tail) = Ring.prefetch s.ring s.consumer.cached_tail in
      (count, record s { consumer = record s.consumer { cached_tail = cached_tail } })

  unfoldable pub prefetch_after_empty : Spsc A → ℕ × Spsc A
  unfolding Waiter.register
  prefetch_after_empty s =
      let (registered, waiter) = Waiter.register s.ring.consumer_waiting in
      if not registered
      then (0, s)
      else ring_prefetch (record s { ring = record s.ring { consumer_waiting = waiter } })

  unfoldable pub prefetch : Spsc A → ℕ × Spsc A
  prefetch s =
      let (count, s') = ring_prefetch s in
      if not (s'.consumer.head == s'.consumer.cached_tail)
      then (count, s')
      else prefetch_after_empty s'

  -- The prefetch of `prefetch_and_pop` and of `prefetch_and_pop_with_full`.
  abbrev prefetch_if_empty : Spsc A → Spsc A
  prefetch_if_empty s = if s.consumer.head == s.consumer.cached_tail then (prefetch s).1 else s

  unfoldable pub prefetch_and_pop : Spsc A → Access (Option A × Spsc A)
  prefetch_and_pop s = pop (prefetch_if_empty s) >>= λ (val, s'). elim val [
    | none ↦ done (none, s')
    | some v ↦ done (some v, release s')
  ]

  unfoldable pub prefetch_and_pop_with_full : Spsc A → Access (Option (A × Bool) × Spsc A)
  unfolding Waiter.enable Waiter.take
  prefetch_and_pop_with_full s =
      let enabled = Waiter.enable s.ring.producer_waiting in
      let s₁ =
        prefetch_if_empty (record s { ring = record s.ring { producer_waiting = enabled } }) in
      let was_full =
        leb (Ring.capacity s₁.ring) (wrapping_sub s₁.consumer.cached_tail s₁.consumer.head) in
      pop s₁ >>= λ (val, s₂). elim val [
        | none ↦ done (none, s₂)
        | some v ↦
            let s₃ = release s₂ in
            let (wake, waiter) = Waiter.take s₃.ring.producer_waiting was_full in
            done (some (v, wake), record s₃ { ring = record s₃.ring { producer_waiting = waiter } })
      ]

  unfoldable pub is_empty : Spsc A → Bool × Spsc A
  unfolding Waiter.register
  is_empty s =
      let (registered, waiter) = Waiter.register s.ring.consumer_waiting in
      let s' = record s { ring = record s.ring { consumer_waiting = waiter } } in
      if not (Ring.consumer_is_empty s.ring s.consumer.head s.consumer.cached_tail)
      then (false, s)
      else if not registered
      then (true, s)
      else (Ring.consumer_is_empty s'.ring s.consumer.head s.consumer.cached_tail, s')

  unfoldable pub is_disconnected : Spsc A → Bool
  is_disconnected s = s.ring.producer_dropped && (s.consumer.head == s.ring.tail)

  unfoldable pub len : Spsc A → ℕ
  len s = Ring.consumer_len s.ring s.consumer.head

  -- `Consumer::close`, which `Drop` calls.
  unfoldable pub close : Spsc A → Spsc A
  close s = let s' = release s in record s' { ring = record s'.ring { consumer_dropped = true } }
