-- ===== src/WorkQueue/Defs.antt =====
-- `WorkQueue` of src/mpmc/work.rs. Each operation takes a queue's lock once per queue; a steal and a
-- drain hold one lock at a time, and their two halves are apart here too.
use fanring_rs.Base.{
  ℕ, zero, suc, ◌+◌, ◌-◌, ◌/◌, min, Bool, false, not, Option, none, some, List, [], ◌∷◌, ◌++◌,
  length, leb, ◌==◌, if◌then◌else◌, Access, done, fault, ◌>>=◌,
}

abbrev pub steal_batch_limit : ℕ
steal_batch_limit = 8

pub record WorkQueue {ℓ} (A : Type ℓ) : Type ℓ where
  pub values : List A
  pub capacity : Option ℕ

-- `capacity.is_some_and(|capacity| queue.len() >= capacity)`
abbrev pub at_capacity : Option ℕ → ℕ → Bool
at_capacity none len = false
at_capacity (some capacity) len = leb capacity len

module _ {ℓ} {A : Type ℓ} where
  abbrev pub bounded : ℕ → WorkQueue A
  bounded capacity = record { values = []; capacity = some capacity }

  abbrev pub unbounded : WorkQueue A
  unbounded = record { values = []; capacity = none }

  -- The `unreachable!` of a full queue is `fault`.
  unfoldable pub push_batch : WorkQueue A → List A → Access (WorkQueue A)
  push_batch w [] = done w
  push_batch w (v ∷ vs) =
      let rest = push_batch (record w { values = w.values ++ (v ∷ []) }) vs in
      if at_capacity w.capacity (length w.values) then fault else rest

  abbrev pub pop_front : List A → WorkQueue A → Option A × WorkQueue A
  pop_front [] w = (none, w)
  pop_front (v ∷ vs) w = (some v, record w { values = vs })

  unfoldable pub pop : WorkQueue A → Option A × WorkQueue A
  pop w = pop_front w.values w

  -- `for slot in &mut stolen[..transfer] { *slot = source.pop_front(); }`
  unfoldable pub pop_slots : ℕ → WorkQueue A → List (Option A) × WorkQueue A
  pop_slots zero w = ([], w)
  pop_slots (suc n) w =
      let (slot, w') = pop w in let (slots, w'') = pop_slots n w' in (slot ∷ slots, w'')

  -- `stolen.into_iter().flatten()`
  abbrev pub flatten : List (Option A) → List A
  flatten [] = []
  flatten (none ∷ slots) = flatten slots
  flatten (some v ∷ slots) = v ∷ flatten slots

  -- The first half of `steal_batch_into`, under the source's lock. The slots past `transfer` stay
  -- `None`.
  abbrev pub transfer_count : WorkQueue A → ℕ
  transfer_count w = min ((length w.values + 1) / 2) (steal_batch_limit - 1)

  unfoldable pub steal : WorkQueue A → Option (A × List A) × WorkQueue A
  steal source =
      let (value, source') = pop source in
      let (slots, source'') = pop_slots (transfer_count source') source' in
      elim value [ none ↦ (none, source') | some v ↦ (some (v, flatten slots), source'') ]

  -- The second half: the value for the caller, and the batch into the destination.
  unfoldable pub deliver : Option (A × List A) → WorkQueue A → Access (Option A × WorkQueue A)
  deliver none destination = done (none, destination)
  deliver (some (v, stolen)) destination =
      push_batch destination stolen >>= λ destination'. done (some v, destination')

  unfoldable pub steal_batch_into :
      WorkQueue A → WorkQueue A → Access (Option A × WorkQueue A × WorkQueue A)
  steal_batch_into source destination =
      let (loot, source') = steal source in
      deliver loot destination >>= λ (value, destination'). done (value, source', destination')

  unfoldable pub drain_into : WorkQueue A → WorkQueue A → Access (Bool × WorkQueue A × WorkQueue A)
  drain_into source destination = push_batch destination source.values >>= λ destination'.
      done (not (length source.values == 0), record source { values = [] }, destination')

  abbrev pub len : WorkQueue A → ℕ
  len w = length w.values
