-- ===== src/Yring/New.antt =====
-- Construction of a ring: rounding up to a power of two, and the capacities it accepts.
use fanring_rs.Base.{
  ℕ, zero, suc, ◌+◌, ◌-◌, ◌*◌, ◌/◌, ◌^◌, ◌≤◌, ◌<◌, ◌≡◌, ◌⊎◌, refl, ap, true, false, Option, none,
  some, arith, replicate, word, leb, ltb, ◌==◌, Bool-cases, Option-cases, le→leb, leb-false→lt,
  leb→le, dec_lt, inl, inr, length-replicate,
}
use mathlib.Core.Path.{subst}
use native.Mathlib.Nat.{pow-suc, pow-le-pow_right, one-le-pow}
use fanring_rs.Yring.Types.{Spsc, Ring}
use fanring_rs.Yring.Queue
use fanring_rs.Yring.Queue.{Queue}
use fanring_rs.Yring.Slots.{Holds, Holds-replicate}
use fanring_rs.Yring.Ring
use fanring_rs.Yring.Waiter
use fanring_rs.Yring.Producer
use fanring_rs.Yring.Sim.{Sim, Refines}

-- `2 ^ exp` is the least power of two from `2 ^ from` on that reaches `n`.
record Least (from n : ℕ) (found : Option ℕ) : Type 0 where
  exp : ℕ
  found_at : found ≡ some (2 ^ exp)
  above : from ≤ exp
  reaches : n ≤ 2 ^ exp
  least : (i : ℕ) → from ≤ i → n ≤ 2 ^ i → exp ≤ i

found_here :
    (rounds from n : ℕ)
    → leb n (2 ^ from) ≡ true
    → Least from n (Ring.next_power_of_two_from (suc rounds) (2 ^ from) n)
unfolding Ring.next_power_of_two_from
found_here rounds from n here = record {
  exp = from;
  found_at = rw here;
  above = omega arith;
  reaches = ground arith;
  least = λ i above reached. above;
}

-- Within the rounds left, the first power of two that reaches `n` is found.
doubling :
    (rounds from n : ℕ)
    → n ≤ 2 ^ (from + rounds)
    → Least from n (Ring.next_power_of_two_from (suc rounds) (2 ^ from) n)
unfolding Ring.next_power_of_two_from
doubling zero from n h =
    let here : n ≤ 2 ^ from = rw (let e : from ≡ from + 0 = omega arith in e) h in
    found_here zero from n (le→leb n (2 ^ from) here)
doubling (suc rounds) from n h = elim (Bool-cases (leb n (2 ^ from))) [
  | inl here ↦ found_here (suc rounds) from n here
  | inr further ↦
      let e : from + suc rounds ≡ suc from + rounds = omega arith in
      let l = doubling rounds (suc from) n (rw e at h) in
      record {
        exp = l.exp;
        found_at = rw (further, ← pow-suc) l.found_at;
        above = omega arith;
        reaches = l.reaches;
        least = λ i above reached. l.least i (beyond i further reached above) reached;
      }
]
  where
    beyond : (i : ℕ) → leb n (2 ^ from) ≡ false → n ≤ 2 ^ i → from ≤ i → suc from ≤ i
    beyond i further reached above = elim (dec_lt from i) [
      | yes p ↦ p
      | no p ↦
          let same : i ≡ from = omega arith in
          absurd (omega (arith, leb-false→lt n (2 ^ from) further, ap (λ (t : ℕ). 2 ^ t) same))
    ]

-- Whatever is found is a power of two that reaches `n`.
found_power :
    (rounds from n : ℕ) {p : ℕ}
    → Ring.next_power_of_two_from rounds (2 ^ from) n ≡ some p
    → (exp : ℕ) × (p ≡ 2 ^ exp) × (n ≤ p)
unfolding Ring.next_power_of_two_from
found_power zero from n e = absurd (cc)
found_power (suc rounds) from n {p} e = elim (Bool-cases (leb n (2 ^ from))) [
  | inl here ↦
      let found : some (2 ^ from) ≡ some p = rw here at e in
      let same : p ≡ 2 ^ from = cc in (from, same, omega (arith, leb→le n (2 ^ from) here))
  | inr further ↦ found_power rounds (suc from) n (rw (further, ← pow-suc) at e)
]

module _ {ℓ} {A : Type ℓ} where
  abbrev pub ring_of : ℕ → Ring A
  ring_of size = record {
    buf = replicate size none;
    mask = size - 1;
    head = 0;
    tail = 0;
    consumer_waiting = Waiter.new;
    producer_waiting = Waiter.new;
    producer_dropped = false;
    consumer_dropped = false;
  }

  abbrev pub fresh : ℕ → Spsc A
  fresh size = record {
    ring = ring_of size;
    producer = record { cursor = 0; cached_head = 0 };
    consumer = record { head = 0; cached_tail = 0 };
  }

  fresh-Sim :
      (exp : ℕ)
      → exp ≤ 62
      → Sim (record { exp = exp; cached = 0; base = 0 }) (fresh (2 ^ exp)) (Queue.new (2 ^ exp))
  fresh-Sim exp small = record {
    places = record {
      small = small;
      pow = refl;
      range = (pos, bound);
      mask = omega (arith, pos);
      size = length-replicate (2 ^ exp) empty;
      lag = omega arith;
      room = omega arith;
      cached_at = refl;
      head_at = refl;
      read_at = refl;
      seen_at = refl;
      tail_at = refl;
      cursor_at = refl;
    };
    held =
        subst (λ (t : ℕ). Holds (2 ^ exp) (replicate (2 ^ exp) empty) 0 (replicate t empty))
          (let e : 2 ^ exp ≡ 2 ^ exp - 0 = omega arith in e) (Holds-replicate (2 ^ exp) empty);
    tx_dropped = refl;
    rx_dropped = refl;
  }
    where
      empty : Option A
      empty = none

      pos : 0 < 2 ^ exp
      pos = one-le-pow exp 2 (omega arith)

      bound : 2 ^ exp ≤ 2 ^ 62
      bound = pow-le-pow_right {n = 2} (omega arith) small

  spsc-some :
      (capacity size : ℕ)
      → (capacity == 0) ≡ false
      → Ring.checked_next_power_of_two capacity ≡ some size
      → ltb ((word - 1) / 2) size ≡ false
      → Producer.spsc capacity ≡ some (fresh size)
  unfolding Producer.spsc
  spsc-some capacity size asked found accepted = ground arith

  -- A new ring stands for the empty queue.
  pub fresh-Refines : (exp : ℕ) → exp ≤ 62 → Refines (fresh (2 ^ exp)) (Queue.new (2 ^ exp))
  fresh-Refines exp small = (_, fresh-Sim exp small)

  -- A capacity from 1 to 2 ^ 62 gives an empty ring, of the least power of two that reaches it.
  pub spsc-Refines :
      (capacity : ℕ)
      → 0 < capacity
      → capacity ≤ 2 ^ 62
      → (size : ℕ) × (s : Spsc A) × (Producer.spsc capacity ≡ some s)
        × Refines s (Queue.new size)
        × (capacity ≤ size)
        × (size < 2 * capacity)
  unfolding Ring.checked_next_power_of_two
  spsc-Refines capacity pos small =
      let l = doubling 63 0 capacity (omega arith) in
      let fits : l.exp ≤ 62 = l.least 62 (omega arith) small in
      let bound : 2 ^ l.exp ≤ 2 ^ 62 = pow-le-pow_right {n = 2} (omega arith) fits in
      (
        2 ^ l.exp,
        fresh (2 ^ l.exp),
        spsc-some capacity (2 ^ l.exp) (ground arith) l.found_at (ground arith),
        (_, fresh-Sim l.exp fits),
        l.reaches,
        below_double l.exp l.least,
      )
    where
      below_double : (e : ℕ) → ((i : ℕ) → 0 ≤ i → capacity ≤ 2 ^ i → e ≤ i) → 2 ^ e < 2 * capacity
      below_double zero least = omega arith
      below_double (suc e) least = elim (dec_lt (2 ^ e) capacity) [
        | yes more ↦ omega (arith, pow-suc 2 e)
        | no enough ↦ absurd (omega (arith, least e (omega arith) (omega arith)))
      ]

  spsc-none :
      (capacity : ℕ)
      → Ring.checked_next_power_of_two capacity ≡ none
      → Producer.spsc {A = A} capacity ≡ none
  unfolding Producer.spsc
  spsc-none capacity e = ground arith

  spsc-zero : (capacity : ℕ) → capacity ≡ 0 → Producer.spsc {A = A} capacity ≡ none
  unfolding Producer.spsc
  spsc-zero capacity e = ground arith

  spsc-large :
      (capacity size : ℕ)
      → Ring.checked_next_power_of_two capacity ≡ some size
      → (word - 1) / 2 < size
      → Producer.spsc {A = A} capacity ≡ none
  unfolding Producer.spsc
  spsc-large capacity size found large = ground arith

  -- Any other capacity is refused.
  pub spsc_refuses :
      (capacity : ℕ) → (capacity ≡ 0) ⊎ (2 ^ 62 < capacity) → Producer.spsc {A = A} capacity ≡ none
  unfolding Ring.checked_next_power_of_two
  spsc_refuses capacity (inl e) = spsc-zero capacity e
  spsc_refuses capacity (inr large) =
      elim (Option-cases (Ring.checked_next_power_of_two capacity)) [
        | inl e ↦ spsc-none capacity e
        | inr (p, e) ↦ spsc-large capacity p e (too_large p e)
      ]
    where
      too_large : (p : ℕ) → Ring.checked_next_power_of_two capacity ≡ some p → (word - 1) / 2 < p
      too_large p e =
          let (exp, power, reached) = found_power 64 0 capacity e in
          elim (dec_lt exp 63) [
            | yes low ↦ absurd (
                omega (
                  arith,
                  pow-le-pow_right {n = 2} (let two : 0 < 2 = omega arith in two) {i = exp} {j = 62}
                      (omega arith),
                ))
            | no high ↦ omega (
              arith,
              pow-le-pow_right {n = 2} (let two : 0 < 2 = omega arith in two) {i = 63} {j = exp}
                  (omega arith),
            )
          ]
