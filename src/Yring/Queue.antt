-- ===== src/Yring/Queue.antt =====
-- What a ring promises: a bounded FIFO in three parts. A push appends to `pending`; a flush makes
-- that `hidden`, published but not yet seen; a prefetch makes that the consumer's `window`. A
-- popped slot is free for the producer once it has been released.
use fanring_rs.Base.{
  ℕ, suc, ◌+◌, min, Bool, false, Option, none, some, List, [], ◌∷◌, ◌++◌, length, take, drop, leb,
  if◌then◌else◌, Result, ok, err,
}

pub record Queue {ℓ} (A : Type ℓ) : Type ℓ where
  pub capacity : ℕ
  pub unreleased : ℕ
  pub window : List A
  pub hidden : List A
  pub pending : List A
  pub producer_dropped : Bool
  pub consumer_dropped : Bool

module _ {ℓ} {A : Type ℓ} where
  -- All values in the ring, oldest first.
  abbrev pub contents : Queue A → List A
  contents q = q.window ++ (q.hidden ++ q.pending)

  abbrev pub used : Queue A → ℕ
  used q = q.unreleased + (length q.window + (length q.hidden + length q.pending))

  abbrev pub new : ℕ → Queue A
  new capacity = record {
    capacity = capacity;
    unreleased = 0;
    window = [];
    hidden = [];
    pending = [];
    producer_dropped = false;
    consumer_dropped = false;
  }

  abbrev pub is_full : Queue A → Bool
  is_full q = leb q.capacity (used q)

  abbrev pub push : Queue A → A → Result (Unit {0}) A × Queue A
  push q x = if is_full q then (err x, q) else (ok tt, record q { pending = q.pending ++ (x ∷ []) })

  abbrev pub flush : Queue A → Queue A
  flush q = record q { hidden = q.hidden ++ q.pending; pending = [] }

  abbrev pub pop_from : List A → Queue A → Option A × Queue A
  pop_from [] q = (none, q)
  pop_from (x ∷ xs) q = (some x, record q { window = xs; unreleased = suc q.unreleased })

  abbrev pub pop : Queue A → Option A × Queue A
  pop q = pop_from q.window q

  abbrev pub prefetch : Queue A → ℕ × Queue A
  prefetch q = (length q.hidden, record q { window = q.window ++ q.hidden; hidden = [] })

  abbrev pub release : Queue A → Queue A
  release q = record q { unreleased = 0 }

  -- Takes the first `n` values of the window.
  abbrev pub pop_many : Queue A → ℕ → List A × Queue A
  pop_many q n = (
    take n q.window,
    record q { window = drop n q.window; unreleased = q.unreleased + min n (length q.window) },
  )
