-- ===== src/Yring/Sim.antt =====
-- The relation between a ring with its endpoints and the bounded FIFO that it stands for.
pub mod Push
pub mod Flush
pub mod Pop
pub mod Receive
pub mod PopInto
pub mod Bulk
use fanring_rs.Base.{
  ℕ, zero, suc, ◌+◌, ◌-◌, ◌%◌, ◌^◌, ◌≤◌, ◌<◌, ◌≡◌, sym, ap, ◌∙◌, Option, none, some, List, [], ◌∷◌,
  ◌++◌, map, arith, length, replicate, word, wrapping_sub, bit_and, bit_and-low_ones, mod-pow-mod,
  Access, done, length-append, length-map, length-replicate,
}
use native.Mathlib.Nat.{mod-lt}
use fanring_rs.Yring.Types.{Spsc, Waiter}
use fanring_rs.Yring.Queue.{Queue, contents, used}
use fanring_rs.Yring.Slots.{Holds, fill, length-fill}
use fanring_rs.Yring.Ring

-- Positions count values from the start and never wrap; the cursors are their residues.
pub record Ghost : Type 0 where
  pub exp : ℕ  -- the capacity is 2 ^ exp
  pub cached : ℕ  -- the position of the producer's `cached_head`
  pub base : ℕ  -- the position of the ring's `head`

-- What the slots hold from the consumer's position on.
abbrev pub slots {ℓ} : {A : Type ℓ} → Queue A → List (Option A)
slots q = fill (contents q) (q.capacity - length (contents q))

abbrev pub read_pos {ℓ} : {A : Type ℓ} → Ghost → Queue A → ℕ
read_pos g q = g.base + q.unreleased

abbrev pub seen_pos {ℓ} : {A : Type ℓ} → Ghost → Queue A → ℕ
seen_pos g q = g.base + (q.unreleased + length q.window)

abbrev pub tail_pos {ℓ} : {A : Type ℓ} → Ghost → Queue A → ℕ
tail_pos g q = g.base + (q.unreleased + (length q.window + length q.hidden))

abbrev pub cursor_pos {ℓ} : {A : Type ℓ} → Ghost → Queue A → ℕ
cursor_pos g q = g.base + used q

-- The numbers: sizes, the order of the positions, and the cursors.
pub record Places {ℓ} {A : Type ℓ} (g : Ghost) (s : Spsc A) (q : Queue A) : Type 0 where
  pub small : g.exp ≤ 62
  pub pow : q.capacity ≡ 2 ^ g.exp
  pub range : (0 < q.capacity) × (q.capacity ≤ 2 ^ 62)
  pub mask : s.ring.mask + 1 ≡ q.capacity
  pub size : length s.ring.buf ≡ q.capacity
  pub lag : g.cached ≤ g.base
  pub room : cursor_pos g q ≤ g.cached + q.capacity
  pub cached_at : s.producer.cached_head ≡ g.cached % word
  pub head_at : s.ring.head ≡ g.base % word
  pub read_at : s.consumer.head ≡ read_pos g q % word
  pub seen_at : s.consumer.cached_tail ≡ seen_pos g q % word
  pub tail_at : s.ring.tail ≡ tail_pos g q % word
  pub cursor_at : s.producer.cursor ≡ cursor_pos g q % word

pub record Sim {ℓ} {A : Type ℓ} (g : Ghost) (s : Spsc A) (q : Queue A) : Type ℓ where
  pub places : Places g s q
  pub open places use *
  pub held : Holds q.capacity s.ring.buf (read_pos g q) (slots q)
  pub tx_dropped : s.ring.producer_dropped ≡ q.producer_dropped
  pub rx_dropped : s.ring.consumer_dropped ≡ q.consumer_dropped

-- The ring stands for the queue.
abbrev pub Refines {ℓ} : {A : Type ℓ} → Spsc A → Queue A → Type ℓ
Refines s q = (g : Ghost) × Sim g s q

-- The code runs without touching memory it must not, answers as the specification, and leaves a
-- ring that stands for the queue that the specification leaves.
abbrev pub Does {ℓ κ} : {A : Type ℓ} {R : Type κ} → Access (R × Spsc A) → R × Queue A → Type (ℓ ⊔ κ)
Does {A = A} m n = (s : Spsc A) × (m ≡ done (n.0, s)) × Refines s n.1

module _ {ℓ} {A : Type ℓ} (g : Ghost) (s : Spsc A) (q : Queue A) (v : Sim g s q) where
  pub length-contents : length (contents q) ≡ length q.window + (length q.hidden + length q.pending)
  length-contents =
      omega
        (arith, length-append q.window (q.hidden ++ q.pending), length-append q.hidden q.pending)

  pub contents-fit : length (contents q) + q.unreleased ≤ q.capacity
  contents-fit = omega (arith, length-contents)

  pub length-slots : length (slots q) ≡ q.capacity
  length-slots =
      omega (arith, length-fill (contents q) (q.capacity - length (contents q)), contents-fit)

  -- `cursor & mask` is the place of the cursor's position.
  pub index-mod : (p c : ℕ) → c ≡ p % word → Ring.index s.ring c ≡ p % q.capacity
  index-mod p c e =
      rw (e, mask_ones, v.pow)
        (bit_and-low_ones g.exp (p % word) ∙ mod-pow-mod p {k = g.exp} {w = 64} (omega arith))
    where
      mask_ones : s.ring.mask ≡ 2 ^ g.exp - 1
      mask_ones = omega arith

  pub index-lt : (p c : ℕ) → c ≡ p % word → Ring.index s.ring c < length s.ring.buf
  index-lt p c e = omega (arith, index-mod p c e, mod-lt p {m = q.capacity} (omega arith))

  -- The producer's distance from the released position: the slots in use.
  pub distance-head : wrapping_sub s.producer.cursor s.ring.head ≡ used q
  distance-head = omega arith

  pub distance-cached :
      wrapping_sub s.producer.cursor s.producer.cached_head + g.cached ≡ cursor_pos g q
  distance-cached = omega arith

  pub window-length : wrapping_sub s.consumer.cached_tail s.consumer.head ≡ length q.window
  window-length = omega arith

module _ {ℓ} {A : Type ℓ} {g : Ghost} {s : Spsc A} {q : Queue A} (v : Sim g s q) where
  -- The wakeup flags are no part of the queue.
  pub Sim-waiters :
      (c p : Waiter)
      → Sim g (record s { ring = record s.ring { consumer_waiting = c; producer_waiting = p } }) q
  Sim-waiters c p = record {
    places = omega arith;
    held = v.held;
    tx_dropped = v.tx_dropped;
    rx_dropped = v.rx_dropped;
  }

  -- Nor is the freshness of the producer's cached head.
  pub Sim-refresh :
      Sim
        (record g { cached = g.base })
        (record s { producer = record s.producer { cached_head = s.ring.head } })
        q
  Sim-refresh = record {
    places = omega arith;
    held = v.held;
    tx_dropped = v.tx_dropped;
    rx_dropped = v.rx_dropped;
  }
