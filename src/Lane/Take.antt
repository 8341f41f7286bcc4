-- ===== src/Lane/Take.antt =====
-- The fast window, the targeted receive and the bulk moves of a lane, against the lane's queue.
use fanring_rs.Base.{
  ℕ, suc, ◌+◌, min, ◌≤◌, ◌<◌, ◌≡◌, refl, ap, ◌∙◌, Bool, true, false, Option, none, some, List, [],
  ◌∷◌, ◌++◌, arith, length, length-drop, take, ◌==◌, wrapping_add, wrapping_sub, Access, done,
  ◌>>=◌,
}
use fanring_rs.Yring.Types.{Spsc}
use fanring_rs.Yring.Queue
use fanring_rs.Yring.Queue.{Queue, used}
use fanring_rs.Yring.Consumer
use fanring_rs.Yring.Sim.{Refines}
use fanring_rs.Yring.Sim.Bulk.{pop_into-Refines}
use fanring_rs.Lane.Defs.{Lane, LanePoll, EmptyLane, batch_for, prefetch_limit}
use fanring_rs.Lane.Defs
use fanring_rs.Lane.Window.{LaneOk, batch-range}
use fanring_rs.Lane.Settle.{
  settled, popped, expect_pop_lem, release_full_batch-LaneOk, take_one-LaneOk,
}
use fanring_rs.Lane.Poll.{cached-cons}

window-cons {ℓ} : {A : Type ℓ} (w : List A) → 0 < length w → (x : A) × (xs : List A) × (w ≡ x ∷ xs)
window-cons [] h = absurd (omega arith)
window-cons (x ∷ xs) h = (x, xs, refl)

module _ {ℓ} {A : Type ℓ} where
  pub pop_fast-shut : (l : Lane A) → l.fast_left ≡ 0 → Defs.pop_fast l ≡ done (none, l)
  unfolding Defs.pop_fast
  pop_fast-shut l e = let z : (l.fast_left == 0) ≡ true = ground arith in rw z refl

  -- A pop from an open fast window takes the oldest value: the `expect` does not fail.
  pub pop_fast-LaneOk :
      (l : Lane A) (q : Queue A)
      → LaneOk l q
      → 0 < l.fast_left
      → (x : A) × (xs : List A) × (m : Lane A) × (q.window ≡ x ∷ xs)
        × (Defs.pop_fast l ≡ done (some x, m))
        × LaneOk m (popped q xs)
        × (suc m.fast_left ≡ l.fast_left)
        × (m.burst ≡ l.burst)
  unfolding Defs.pop_fast
  pop_fast-LaneOk l q (r, c) open_window =
      let (x, xs, e) = window-cons q.window (omega (arith, c.available)) in
      let n = record l { fast_left = wrapping_sub l.fast_left 1 } in
      let (s, f, r') = expect_pop_lem n q x xs r e in
      let z : (l.fast_left == 0) ≡ false = ground arith in
      let len : length q.window ≡ suc (length xs) = ap length e in
      let one : suc (wrapping_sub l.fast_left 1) ≡ l.fast_left = omega (arith, c) in
      (
        x,
        xs,
        record n { consumer = s },
        e,
        rw z (ap (λ p. p >>= after) f),
        (r', omega (arith, c, len, one)),
        one,
        refl,
      )
    where
      after : A × Lane A → Access (Option A × Lane A)
      after (v, m) = done (some v, m)

  -- A targeted receive, after a refill that found a value.
  pub pop_targeted-LaneOk :
      (l : Lane A) (q : Queue A) (x : A) (xs : List A)
      → LaneOk l q
      → l.fast_left ≡ 0
      → q.window ≡ x ∷ xs
      → (m : Lane A) × (Defs.pop_targeted l
          ≡ done (x, (suc q.unreleased == batch_for q.capacity), m))
        × LaneOk m (settled (popped q xs))
        × (m.burst ≡ l.burst)
  unfolding Defs.pop_targeted
  pop_targeted-LaneOk l q x xs (r, c) shut e =
      let (s, f, r') = expect_pop_lem l q x xs r e in
      let (len, _) = cached-cons l q x xs c shut e in
      let (rel, ok, b', shut') = take_one-LaneOk l q xs s l.burst c shut c.burst_fits len r' in
      (
        _,
        ap (λ m. m >>= after) f
            ∙ ap (λ b. done (x, b, (Defs.release_full_batch (charged s)).1)) rel,
        ok,
        b',
      )
    where
      charged : Spsc A → Lane A
      charged s = record l {
        consumer = s;
        cached_available = wrapping_sub l.cached_available 1;
        unreleased = wrapping_add l.unreleased 1;
      }

      after : A × Lane A → Access (A × Bool × Lane A)
      after (v, m) =
          let n = record m {
            cached_available = wrapping_sub m.cached_available 1;
            unreleased = wrapping_add m.unreleased 1;
          } in
          let (released, o) = Defs.release_full_batch n in done (v, released, o)

  -- A bulk move within the chunk limit moves exactly what was asked for, releases the slots of a
  -- complete batch, and keeps the burst within its limit.
  pub move_chunk-LaneOk :
      (l : Lane A) (q : Queue A) (output : List A) (take_count : ℕ)
      → LaneOk l q
      → l.fast_left ≡ 0
      → take_count ≤ Defs.chunk_limit l
      → (m : Lane A) × (Defs.move_chunk l output take_count
          ≡ done (
            take_count,
            (q.unreleased + take_count == batch_for q.capacity),
            m,
            output ++ take take_count q.window,
          ))
        × LaneOk m (settled (Queue.pop_many q take_count).1)
        × (m.burst ≡ l.burst + take_count)
  unfolding Defs.move_chunk Defs.charge_chunk
  move_chunk-LaneOk l q output take_count (r, c) shut le =
      let whole : min (length q.window) take_count ≡ take_count = omega (arith, c) in
      let (s, f, r') = pop_into-Refines l.consumer q output take_count r in
      let f' : Consumer.pop_into l.consumer output take_count
          ≡ done (take_count, s, output ++ take take_count q.window) =
        rw whole at f in
      let q' = (Queue.pop_many q take_count).1 in
      let r'' : Refines s q' = rw whole at r' in
      let same : min take_count (length q.window) ≡ take_count = omega arith in
      let n = record l {
        consumer = s;
        cached_available = wrapping_sub l.cached_available take_count;
        unreleased = wrapping_add l.unreleased take_count;
        burst = wrapping_add l.burst take_count;
      } in
      let dropped = length-drop take_count q.window in
      let (rel, ok, b', shut') =
        release_full_batch-LaneOk n q' r'' (omega (arith, c, dropped, same, batch-range q.capacity))
          (omega (arith, c, dropped, same)) shut (omega (arith, c, same))
          (omega (arith, c, same)) in
      (
        (Defs.release_full_batch n).1,
        ap (λ m. m >>= after) f'
            ∙ ap
                (λ b. done (
                  take_count,
                  b,
                  (Defs.release_full_batch n).1,
                  output ++ take take_count q.window,
                ))
                (rel ∙ ap (λ k. q.unreleased + k == batch_for q.capacity) same),
        ok,
        b'
            ∙ (let w : wrapping_add l.burst take_count ≡ l.burst + take_count = omega (arith, c) in
                w),
      )
    where
      after : ℕ × Spsc A × List A → Access (ℕ × Bool × Lane A × List A)
      after (moved, consumer, output') =
          let (notify, m) = Defs.charge_chunk (record l { consumer = consumer }) moved in
          done (moved, notify, m, output')
