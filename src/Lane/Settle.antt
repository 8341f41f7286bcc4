-- ===== src/Lane/Settle.antt =====
-- The settling of a lane: an empty window, and the end of a release batch.
use fanring_rs.Base.{
  ℕ, suc, ◌≤◌, ◌≡◌, refl, ap, ap₂, ◌∙◌, Bool, true, false, not, ◌&&◌, Option, none, some, List, [],
  ◌∷◌, arith, length, length-append, ◌==◌, ==-false→ne, if◌then◌else◌, Bool-cases, inl, inr,
  wrapping_add, wrapping_sub, Access, done, fault, ◌>>=◌,
}
use fanring_rs.Yring.Types.{Spsc}
use fanring_rs.Yring.Queue
use fanring_rs.Yring.Queue.{Queue, used}
use fanring_rs.Yring.Consumer
use fanring_rs.Yring.Sim.{Refines}
use fanring_rs.Yring.Sim.Pop.{pop-Refines, prefetch-Refines, release-Refines}
use fanring_rs.Yring.Sim.Receive.{len-visible}
use fanring_rs.Lane.Defs.{Lane, LanePoll, EmptyLane, batch_for, prefetch_limit}
use fanring_rs.Lane.Defs
use fanring_rs.Lane.Window.{Counts, LaneOk, batch-range, release_pending-LaneOk}

and-true : (b c : Bool) → c ≡ true → (b && c) ≡ b
and-true true c e = e
and-true false c e = refl

-- The queue once a complete release batch is released.
abbrev pub settled {ℓ} : {A : Type ℓ} → Queue A → Queue A
settled q = if q.unreleased == batch_for q.capacity then Queue.release q else q

-- The queue without its oldest value.
abbrev pub popped {ℓ} : {A : Type ℓ} → Queue A → List A → Queue A
popped q xs = record q { window = xs; unreleased = suc q.unreleased }

module _ {ℓ} {A : Type ℓ} where
  release_pending-queued : (l : Lane A) → (Defs.release_pending l).1.queued ≡ l.queued
  unfolding Defs.release_pending Defs.close_fast
  release_pending-queued l = ground arith

  -- How a lane with nothing prefetched settles, when a publication may have come since.
  pub settle_empty-LaneOk :
      (l : Lane A) (q : Queue A)
      → LaneOk l q
      → q.window ≡ []
      → let (empty, m) = Defs.settle_empty l in
        let released = not (q.unreleased == 0) in
        LaneOk m (Queue.prefetch (Queue.release q)).1
        × (m.burst ≡ 0)
        × (empty ≡ (
            if length q.hidden == 0
            then EmptyLane.idle q.producer_dropped released
            else EmptyLane.keep released))
        × (m.pending ≡ not (length q.hidden == 0))
        × (m.queued ≡ (if length q.hidden == 0 then false else l.queued))
  unfolding Defs.settle_empty
  settle_empty-LaneOk l q ok e =
      let (rel, (r, c), shut, b) = release_pending-LaneOk l q ok in
      let (n, r') = prefetch-Refines _ (Queue.release q) r in
      let (_, gone) = len-visible _ (Queue.prefetch (Queue.release q)).1 r' in
      let w : length q.window ≡ 0 = ap length e in
      let sum = length-append q.window q.hidden in
      elim (Bool-cases (length q.hidden == 0)) [
        | inl empty ↦
            rw (n, empty)
              (
                (r', omega (arith, w, sum)),
                refl,
                ap₂ EmptyLane.idle (gone ∙ and-true q.producer_dropped _ (ground (arith, w, sum)))
                    rel,
                refl,
                refl,
              )
        | inr more ↦
            rw (n, more)
              (
                (r', omega (arith, w, sum)),
                refl,
                ap EmptyLane.keep rel,
                refl,
                release_pending-queued l,
              )
      ]

  -- The pop under an `expect` finds a value.
  pub expect_pop_lem :
      (l : Lane A) (q : Queue A) (x : A) (xs : List A)
      → Refines l.consumer q
      → q.window ≡ x ∷ xs
      → (s : Spsc A) × (Defs.expect_pop l ≡ done (x, record l { consumer = s }))
        × Refines s (popped q xs)
  expect_pop_lem l q x xs r e =
      let (s, f, r') = pop-Refines l.consumer q r in
      let p : Queue.pop q ≡ (some x, popped q xs) = ap (λ w. Queue.pop_from w q) e in
      let f' : Consumer.pop l.consumer ≡ done (some x, s) = f ∙ ap (λ m. done (m.0, s)) p in
      (s, ap (λ m. m >>= after) f', rw p at r')
    where
      after : Option A × Spsc A → Access (A × Lane A)
      after (val, consumer) = elim val [
        | none ↦ fault
        | some v ↦ done (v, record l { consumer = consumer })
      ]

  pub release_full_batch-LaneOk :
      (l : Lane A) (q : Queue A)
      → Refines l.consumer q
      → Counts (record l { unreleased = 0 }) (Queue.release q)
      → used q ≤ q.capacity
      → l.fast_left ≡ 0
      → l.unreleased ≡ q.unreleased
      → l.unreleased ≤ l.release_batch
      → ((Defs.release_full_batch l).0 ≡ (q.unreleased == batch_for q.capacity))
        × LaneOk (Defs.release_full_batch l).1 (settled q)
        × ((Defs.release_full_batch l).1.burst ≡ l.burst)
        × ((Defs.release_full_batch l).1.fast_left ≡ 0)
  unfolding Defs.release_full_batch Defs.release_pending Defs.close_fast
  release_full_batch-LaneOk l q r c fits shut same le =
      elim (Bool-cases (q.unreleased == batch_for q.capacity)) [
        | inl full ↦
            let e : (l.unreleased == l.release_batch) ≡ true = ground (arith, c.batch) in
            let e' : (l.unreleased == 0) ≡ false = ground (arith, c.batch, c.short) in
            let e'' : (l.fast_left == 0) ≡ true = ground arith in
            rw (full, e, e'', e') (refl, (release-Refines _ q r, omega arith), refl, shut)
        | inr more ↦
            let e : (l.unreleased == l.release_batch) ≡ false = ground (arith, c.batch) in
            rw (more, e) (refl, (r, omega (arith, ==-false→ne _ _ more)), refl, shut)
      ]

  -- A lane without an open window takes the oldest value and settles its batch.
  pub take_one-LaneOk :
      (l : Lane A) (q : Queue A) (xs : List A) (s : Spsc A) (burst : ℕ)
      → Counts l q
      → l.fast_left ≡ 0
      → burst ≤ 64
      → length q.window ≡ suc (length xs)
      → Refines s (popped q xs)
      → let n = record l {
        consumer = s;
        cached_available = wrapping_sub l.cached_available 1;
        unreleased = wrapping_add l.unreleased 1;
        burst = burst;
      } in
        ((Defs.release_full_batch n).0 ≡ (suc q.unreleased == batch_for q.capacity))
        × LaneOk (Defs.release_full_batch n).1 (settled (popped q xs))
        × ((Defs.release_full_batch n).1.burst ≡ burst)
        × ((Defs.release_full_batch n).1.fast_left ≡ 0)
  take_one-LaneOk l q xs s burst c shut b len r =
      release_full_batch-LaneOk _ (popped q xs) r (omega (arith, batch-range q.capacity))
        (omega arith) shut (omega arith) (omega arith)
