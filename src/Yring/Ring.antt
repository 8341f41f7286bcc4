-- ===== src/Yring/Ring.antt =====
-- `Ring<T>` of yring/src/ring.rs. A function takes the endpoint's cursors that the source passes
-- by `&mut`, and returns their new values.
use fanring_rs.Base.{
  ℕ, zero, suc, ◌+◌, ◌-◌, ◌*◌, ◌/◌, min, bit_and, Bool, true, false, ◌&&◌, Option, none, some, List,
  [], ◌∷◌, ◌++◌, length, get_elem?, set, replicate, leb, ltb, ◌==◌, if◌then◌else◌, word,
  wrapping_add, wrapping_sub, Result, ok, err, Access, done, fault, ◌>>=◌,
}
use fanring_rs.Yring.Types.{Ring, FlushResult, flushed, nothing_to_flush}
use fanring_rs.Yring.Waiter

-- `usize::checked_next_power_of_two`: doubles until `n` is reached.
unfoldable pub next_power_of_two_from : ℕ → ℕ → ℕ → Option ℕ
next_power_of_two_from zero p n = none
next_power_of_two_from (suc rounds) p n =
    let next = next_power_of_two_from rounds (p * 2) n in if leb n p then some p else next

unfoldable pub checked_next_power_of_two : ℕ → Option ℕ
unfolding next_power_of_two_from
checked_next_power_of_two n = next_power_of_two_from 64 1 n

abbrev pub distance : ℕ → ℕ → ℕ
distance from to = wrapping_sub from to

module _ {ℓ} {A : Type ℓ} where
  -- `Ring::new`; `none` where an assertion fails.
  unfoldable pub new : ℕ → Option (Ring A)
  unfolding Waiter.new
  new capacity = if capacity == 0 then none else elim (checked_next_power_of_two capacity) [
    | none ↦ none
    | some size ↦
        if ltb ((word - 1) / 2) size
        then none
        else some (record {
          buf = replicate size none;
          mask = size - 1;
          head = 0;
          tail = 0;
          consumer_waiting = Waiter.new;
          producer_waiting = Waiter.new;
          producer_dropped = false;
          consumer_dropped = false;
        })
  ]

  abbrev pub capacity : Ring A → ℕ
  capacity r = r.mask + 1

  abbrev pub index : Ring A → ℕ → ℕ
  index r cursor = bit_and cursor r.mask

  -- A write into a slot, `(*ptr).write(val)` under the bounds check of `buf[i]`.
  abbrev pub write_slot : List (Option A) → ℕ → A → Access (List (Option A))
  write_slot buf i val = if ltb i (length buf) then done (set buf i (some val)) else fault

  -- `assume_init_read`: moves the value out of the slot.
  abbrev pub read_slot : List (Option A) → ℕ → Access (A × List (Option A))
  read_slot buf i = elim (get_elem? buf i) [
    | some (some val) ↦ done (val, set buf i none)
    | _ ↦ fault
  ]

  -- `assume_init_ref`: looks at the value in the slot.
  abbrev pub peek_slot : List (Option A) → ℕ → Access A
  peek_slot buf i = elim (get_elem? buf i) [ some (some val) ↦ done val | _ ↦ fault ]

  -- `Ring::push`: the result, the ring, `cursor` and `cached_head`.
  unfoldable pub push : Ring A → ℕ → ℕ → A → Access (Result (Unit {0}) A × Ring A × ℕ × ℕ)
  push r cursor cached_head val =
      let fresh = if leb (capacity r) (distance cursor cached_head) then r.head else cached_head in
      if leb (capacity r) (distance cursor fresh)
      then done (err val, r, cursor, fresh)
      else write_slot r.buf (index r cursor) val >>= λ buf.
          done (ok tt, record r { buf = buf }, wrapping_add cursor 1, fresh)

  -- `Ring::flush_to`: the result, the ring and `cached_head`.
  unfoldable pub flush_to : Ring A → ℕ → ℕ → FlushResult × Ring A × ℕ
  unfolding Waiter.enable Waiter.take
  flush_to r cursor cached_head =
      let enabled = Waiter.enable r.consumer_waiting in
      let prev_tail = r.tail in
      if cursor == prev_tail
      then (nothing_to_flush, record r { consumer_waiting = enabled }, cached_head)
      else let was_empty = prev_tail == r.head in
        let (wake, waiter) = Waiter.take enabled was_empty in
        (
          flushed (distance cursor prev_tail) wake,
          record r { tail = cursor; consumer_waiting = waiter },
          r.head,
        )

  -- `Ring::is_full`: the answer and `cached_head`.
  unfoldable pub is_full : Ring A → ℕ → ℕ → Bool × ℕ
  is_full r cursor cached_head =
      if leb (capacity r) (distance cursor cached_head)
      then (leb (capacity r) (distance cursor r.head), r.head)
      else (false, cached_head)

  abbrev pub producer_len : Ring A → ℕ → ℕ
  producer_len r cursor = wrapping_sub cursor r.head

  abbrev pub producer_is_empty : Ring A → ℕ → Bool
  producer_is_empty r cursor = cursor == r.head

  -- `Ring::pop`: the value, the ring and `head`.
  unfoldable pub pop : Ring A → ℕ → ℕ → Access (Option A × Ring A × ℕ)
  pop r head cached_tail =
      if head == cached_tail
      then done (none, r, head)
      else read_slot r.buf (index r head) >>= λ (val, buf).
          done (some val, record r { buf = buf }, wrapping_add head 1)

  -- `Ring::move_slots`: moves `len` values from index `start` on to the end of `dst`.
  unfoldable pub move_slots : List (Option A) → ℕ → ℕ → List A → Access (List (Option A) × List A)
  move_slots buf start zero dst = done (buf, dst)
  move_slots buf start (suc len) dst =
      read_slot buf start >>= λ (val, buf'). move_slots buf' (start + 1) len (dst ++ (val ∷ []))

  -- `Ring::pop_into`: the ring, `head` and `output`.
  unfoldable pub pop_into : Ring A → ℕ → ℕ → List A → Access (Ring A × ℕ × List A)
  unfolding move_slots
  pop_into r head count output =
      let start = index r head in
      let first = min count (capacity r - start) in
      move_slots r.buf start first output >>= λ (buf, moved).
      move_slots buf 0 (count - first) moved >>= λ (buf', moved').
      done (record r { buf = buf' }, wrapping_add head count, moved')

  -- `Ring::accepted_prefix`, after `accepted` values with `rounds = limit - accepted` to go. The
  -- closure `admit` carries a state.
  unfoldable pub accepted_from {κ} :
      {S : Type κ} → Ring A → ℕ → (S → A → S × Bool) → ℕ → ℕ → S → Access (ℕ × S)
  accepted_from r head admit zero accepted s = done (accepted, s)
  accepted_from r head admit (suc rounds) accepted s =
      peek_slot r.buf (index r (wrapping_add head accepted)) >>= λ val.
      let (s', accept) = admit s val in
      elim accept [
        | true ↦ accepted_from r head admit rounds (accepted + 1) s'
        | false ↦ done (accepted, s')
      ]

  abbrev pub accepted_prefix {κ} :
      {S : Type κ} → Ring A → ℕ → ℕ → (S → A → S × Bool) → S → Access (ℕ × S)
  accepted_prefix r head limit admit s = accepted_from r head admit limit 0 s

  unfoldable pub release : Ring A → ℕ → Ring A
  release r head = record r { head = head }

  -- `Ring::prefetch`: the count and `cached_tail`.
  unfoldable pub prefetch : Ring A → ℕ → ℕ × ℕ
  prefetch r cached_tail = (wrapping_sub r.tail cached_tail, r.tail)

  abbrev pub consumer_is_empty : Ring A → ℕ → ℕ → Bool
  consumer_is_empty r head cached_tail = (head == cached_tail) && (r.tail == head)

  abbrev pub consumer_len : Ring A → ℕ → ℕ
  consumer_len r head = wrapping_sub r.tail head

  -- The loop of `Ring::drop_remaining` from `i` to `tail`, and the values dropped.
  unfoldable pub drop_from : ℕ → Ring A → ℕ → ℕ → List A → Access (Ring A × List A)
  drop_from zero r i tail dropped = fault
  drop_from (suc rounds) r i tail dropped = elim (i == tail) [
    | true ↦ done (r, dropped)
    | false ↦ read_slot r.buf (index r i) >>= λ (val, buf).
        drop_from rounds (record r { buf = buf }) (wrapping_add i 1) tail (dropped ++ (val ∷ []))
  ]

  -- `Ring::drop_remaining`. One round more than the slots is enough.
  unfoldable pub drop_remaining : Ring A → Access (Ring A × List A)
  unfolding drop_from
  drop_remaining r = drop_from (capacity r + 1) (record r { head = r.tail }) r.head r.tail []
