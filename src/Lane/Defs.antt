-- ===== src/Lane/Defs.antt =====
-- `Lane` of src/mpsc/receiver/lane.rs and its methods. The lane's consumer is open, so the methods
-- of src/ring.rs are those of the yring consumer. A failed `expect` is `fault`.
use fanring_rs.Base.{
  ℕ, ◌+◌, ◌-◌, ◌/◌, min, max, Bool, true, false, ◌||◌, not, Option, none, some, List, ◌==◌,
  if◌then◌else◌, wrapping_add, wrapping_sub, Access, done, fault, ◌>>=◌,
}
use fanring_rs.Yring.Types.{Spsc}
use fanring_rs.Yring.Ring
use fanring_rs.Yring.Consumer

-- `PREFETCH_LIMIT` and `MIN_RELEASE_BATCH` of src/mpsc.rs, outside the loom build.
abbrev pub prefetch_limit : ℕ
prefetch_limit = 64

abbrev pub min_release_batch : ℕ
min_release_batch = 64

-- `pending` is the lane signal's state: PENDING, not IDLE. The key is kept by the receiver.
pub record Lane {ℓ} (A : Type ℓ) : Type ℓ where
  pub consumer : Spsc A
  pub pending : Bool
  pub cached_available : ℕ
  pub unreleased : ℕ
  pub release_batch : ℕ
  pub burst : ℕ
  pub fast_left : ℕ
  pub queued : Bool

pub data EmptyLane : Type 0 where
  keep : (released : Bool) → EmptyLane
  idle : (disconnected released : Bool) → EmptyLane

pub data LanePoll {ℓ} (A : Type ℓ) : Type ℓ where
  item : (value : A) (rotate released : Bool) → LanePoll A
  keep : (released : Bool) → LanePoll A
  idle : (disconnected released : Bool) → LanePoll A
  stale : LanePoll A

-- Half a ring, but no less than the old batch size, and no more than the ring.
abbrev pub batch_for : ℕ → ℕ
batch_for capacity = min (max ((capacity + 1) / 2) min_release_batch) capacity

module _ {ℓ} {A : Type ℓ} where
  unfoldable pub new : Spsc A → Bool → Lane A
  new consumer pending = record {
    consumer = consumer;
    pending = pending;
    cached_available = 0;
    unreleased = 0;
    release_batch = batch_for (Ring.capacity consumer.ring);
    burst = 0;
    fast_left = 0;
    queued = false;
  }

  unfoldable pub close_fast : Lane A → Lane A
  close_fast l = if l.fast_left == 0 then l else record l {
    cached_available = wrapping_add l.cached_available l.fast_left;
    unreleased = wrapping_sub l.unreleased l.fast_left;
    burst = wrapping_sub l.burst l.fast_left;
    fast_left = 0;
  }

  -- `if self.cached_available == 0 { self.cached_available = self.consumer.prefetch(); }`
  unfoldable pub reload : Lane A → Lane A
  reload l =
      let (count, consumer) = Consumer.prefetch l.consumer in
      if l.cached_available == 0
      then record l { consumer = consumer; cached_available = count }
      else l

  -- `saturating_sub` is the subtraction of ℕ.
  unfoldable pub grant_fast : Lane A → ℕ → Lane A
  grant_fast l poll_budget =
      let m = reload (close_fast l) in
      let granted =
        min
          (min (min m.cached_available (m.release_batch - (m.unreleased + 1)))
            (prefetch_limit - (m.burst + 1)))
          poll_budget in
      record m {
        cached_available = wrapping_sub m.cached_available granted;
        unreleased = wrapping_add m.unreleased granted;
        burst = wrapping_add m.burst granted;
        fast_left = granted;
      }

  -- The consumer's pop under an `expect`.
  abbrev pub expect_pop : Lane A → Access (A × Lane A)
  expect_pop l = Consumer.pop l.consumer >>= λ (val, consumer). elim val [
    | none ↦ fault
    | some v ↦ done (v, record l { consumer = consumer })
  ]

  unfoldable pub pop_fast : Lane A → Access (Option A × Lane A)
  pop_fast l =
      if l.fast_left == 0
      then done (none, l)
      else expect_pop (record l { fast_left = wrapping_sub l.fast_left 1 }) >>= λ (v, m).
          done (some v, m)

  unfoldable pub pop_fair : Lane A → ℕ → Access (Option A × Lane A)
  pop_fair l poll_budget =
      let opened =
        if l.fast_left == 0 then grant_fast (record l { burst = 0 }) poll_budget else l in
      pop_fast opened >>= λ (val, m). elim val [
        | none ↦ done (none, m)
        | some v ↦ done (some v, record m { burst = m.fast_left })
      ]

  unfoldable pub end_full_burst : Lane A → Bool × Lane A
  end_full_burst l =
      if l.burst == prefetch_limit then (true, record l { burst = 0 }) else (false, l)

  unfoldable pub reload_is_empty : Lane A → Bool × Lane A
  reload_is_empty l = let m = reload (close_fast l) in (m.cached_available == 0, m)

  unfoldable pub release_pending : Lane A → Bool × Lane A
  release_pending l =
      let m = close_fast l in
      if m.unreleased == 0
      then (false, m)
      else (true, record m { consumer = Consumer.release m.consumer; unreleased = 0 })

  -- `LaneSignal::finish_drain` and `claim_after_empty` swap the signal's state.
  unfoldable pub settle_empty : Lane A → EmptyLane × Lane A
  settle_empty l =
      let (released, m) = release_pending l in
      let (count, consumer) = Consumer.prefetch m.consumer in
      let settled = record m {
        consumer = consumer;
        pending = false;
        cached_available = count;
        burst = 0;
      } in
      if not (count == 0) then (EmptyLane.keep released, record settled { pending = true }) else (
        EmptyLane.idle (Consumer.is_disconnected consumer) released,
        record settled { queued = false },
      )

  unfoldable pub refill : Lane A → Option EmptyLane × Lane A
  refill l =
      let m = reload (close_fast l) in
      let (empty, n) = settle_empty m in
      if m.cached_available == 0 then (some empty, n) else (none, m)

  -- The end of `poll` and of `pop_targeted`: release once a batch is complete.
  unfoldable pub release_full_batch : Lane A → Bool × Lane A
  release_full_batch l = if l.unreleased == l.release_batch then release_pending l else (false, l)

  unfoldable pub pop_targeted : Lane A → Access (A × Bool × Lane A)
  pop_targeted l = expect_pop l >>= λ (v, m).
      let n = record m {
        cached_available = wrapping_sub m.cached_available 1;
        unreleased = wrapping_add m.unreleased 1;
      } in
      let (released, o) = release_full_batch n in done (v, released, o)

  -- `poll` once the window holds a value.
  unfoldable pub poll_item : Bool → Lane A → Access (LanePoll A × Lane A)
  poll_item fair l = expect_pop l >>= λ (v, m).
      let n = record m {
        cached_available = wrapping_sub m.cached_available 1;
        unreleased = wrapping_add m.unreleased 1;
        burst = wrapping_add m.burst 1;
      } in
      let (released, o) = release_full_batch n in
      let rotate = fair || (o.burst == prefetch_limit) in
      done (LanePoll.item v rotate released, if rotate then record o { burst = 0 } else o)

  abbrev pub poll_empty : EmptyLane → LanePoll A
  poll_empty (EmptyLane.keep released) = LanePoll.keep released
  poll_empty (EmptyLane.idle disconnected released) = LanePoll.idle disconnected released

  unfoldable pub poll : Bool → Lane A → Access (LanePoll A × Lane A)
  poll fair l =
      let (empty, m) = refill l in
      elim empty [ none ↦ poll_item fair m | some e ↦ done (poll_empty e, m) ]

  abbrev pub chunk_limit : Lane A → ℕ
  chunk_limit l =
      min (min l.cached_available (wrapping_sub prefetch_limit l.burst))
        (wrapping_sub l.release_batch l.unreleased)

  -- `move_chunk` after the move of `moved` values: the flag says whether the sender is notified.
  unfoldable pub charge_chunk : Lane A → ℕ → Bool × Lane A
  charge_chunk l moved = release_full_batch (record l {
    cached_available = wrapping_sub l.cached_available moved;
    unreleased = wrapping_add l.unreleased moved;
    burst = wrapping_add l.burst moved;
  })

  -- `move_chunk` with `AdmitAll`: the number moved, the notification, the lane and the output.
  unfoldable pub move_chunk : Lane A → List A → ℕ → Access (ℕ × Bool × Lane A × List A)
  move_chunk l output take =
      Consumer.pop_into l.consumer output take >>= λ (moved, consumer, output').
      let (notify, m) = charge_chunk (record l { consumer = consumer }) moved in
      done (moved, notify, m, output')

  -- `move_chunk` with a closure.
  unfoldable pub move_chunk_while {κ} :
      {S : Type κ}
      → Lane A
      → List A
      → ℕ
      → (S → A → S × Bool)
      → S
      → Access (ℕ × Bool × Lane A × List A × S)
  move_chunk_while l output take admit st =
      Consumer.pop_into_while l.consumer output take admit st >>= λ (moved, consumer, output', st').
      let (notify, m) = charge_chunk (record l { consumer = consumer }) moved in
      done (moved, notify, m, output', st')
