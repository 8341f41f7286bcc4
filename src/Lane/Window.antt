-- ===== src/Lane/Window.antt =====
-- What a lane's counters mean for its queue, and that the methods which move no value keep it.
use fanring_rs.Base.{
  ℕ, ◌+◌, ◌-◌, max, ◌≤◌, ◌<◌, ◌^◌, ◌≡◌, refl, Bool, true, false, not, arith, length, length-append,
  ==→eq, ◌==◌, Bool-cases, inl, inr,
}
use fanring_rs.Yring.Types.{Spsc}
use fanring_rs.Yring.Queue
use fanring_rs.Yring.Queue.{Queue, used}
use fanring_rs.Yring.Ring
use fanring_rs.Yring.Sim.{Refines}
use fanring_rs.Yring.Sim.Pop.{prefetch-Refines, release-Refines}
use fanring_rs.Yring.Sim.Receive.{refilled, release-none}
use fanring_rs.Lane.Defs.{Lane, batch_for, min_release_batch, prefetch_limit}
use fanring_rs.Lane.Defs

-- The counters include the values of an open fast window: those are already charged.
pub record Counts {ℓ} {A : Type ℓ} (l : Lane A) (q : Queue A) : Type 0 where
  pub some_room : (0 < q.capacity) × (q.capacity ≤ 2 ^ 62)
  pub fits : used q ≤ q.capacity
  pub available : l.cached_available + l.fast_left ≡ length q.window
  pub taken : l.unreleased ≡ q.unreleased + l.fast_left
  pub batch : l.release_batch ≡ batch_for q.capacity
  pub short : l.unreleased < l.release_batch
  pub charged : l.fast_left ≤ l.burst
  pub burst_fits : l.burst ≤ 64

abbrev pub LaneOk {ℓ} : {A : Type ℓ} → Lane A → Queue A → Type ℓ
LaneOk l q = Refines l.consumer q × Counts l q

pub batch-range : (c : ℕ) → 0 < c → (0 < batch_for c) × (batch_for c ≤ c)
batch-range c h = omega arith

module _ {ℓ} {A : Type ℓ} where
  pub Refines-sizes :
      (s : Spsc A) (q : Queue A)
      → Refines s q
      → (0 < q.capacity) × (q.capacity ≤ 2 ^ 62) × (used q ≤ q.capacity)
  Refines-sizes s q (g, v) = omega arith

  pub close_fast-LaneOk :
      (l : Lane A) (q : Queue A)
      → LaneOk l q
      → LaneOk (Defs.close_fast l) q
        × ((Defs.close_fast l).fast_left ≡ 0)
        × ((Defs.close_fast l).burst + l.fast_left ≡ l.burst)
  unfolding Defs.close_fast
  close_fast-LaneOk l q (r, c) = elim (Bool-cases (l.fast_left == 0)) [
    | inl shut ↦ rw shut ((r, c), ground arith, ground arith)
    | inr some_left ↦ rw some_left ((r, omega arith), refl, omega arith)
  ]

  pub refilled-sizes :
      (q : Queue A)
      → (used (refilled q) ≡ used q)
        × ((refilled q).capacity ≡ q.capacity)
        × ((refilled q).unreleased ≡ q.unreleased)
  refilled-sizes q = elim (Bool-cases (length q.window == 0)) [
    | inl empty ↦ rw empty (ground (arith, length-append q.window q.hidden), refl, refl)
    | inr more ↦ rw more (refl, refl, refl)
  ]

  -- The lane prefetches exactly when its part of the window is used up.
  reload-LaneOk :
      (l : Lane A) (q : Queue A)
      → LaneOk l q
      → l.fast_left ≡ 0
      → LaneOk (Defs.reload l) (refilled q)
        × ((Defs.reload l).fast_left ≡ 0)
        × ((Defs.reload l).burst ≡ l.burst)
  unfolding Defs.reload
  reload-LaneOk l q (r, c) shut =
      let (n, r') = prefetch-Refines l.consumer q r in
      elim (Bool-cases (length q.window == 0)) [
        | inl empty ↦
            let e : (l.cached_available == 0) ≡ true = ground arith in
            rw (empty, e)
              ((r', omega (arith, n, length-append q.window q.hidden, ==→eq _ _ empty)), shut, refl)
        | inr more ↦
            let e : (l.cached_available == 0) ≡ false = ground arith in
            rw (more, e) ((r, c), shut, refl)
      ]

  pub reopen-LaneOk :
      (l : Lane A) (q : Queue A)
      → LaneOk l q
      → let m = Defs.reload (Defs.close_fast l) in
        LaneOk m (refilled q) × (m.fast_left ≡ 0) × (m.burst + l.fast_left ≡ l.burst)
  reopen-LaneOk l q ok =
      let (ok', shut, b) = close_fast-LaneOk l q ok in
      let (ok'', shut', b') = reload-LaneOk _ q ok' shut in (ok'', shut', omega arith)

  -- A granted window is part of the prefetched values, stays one short of the release batch and of
  -- the burst limit, and keeps to the poll budget.
  pub grant_fast-LaneOk :
      (l : Lane A) (q : Queue A) (poll_budget : ℕ)
      → LaneOk l q
      → let m = Defs.grant_fast l poll_budget in
        LaneOk m (refilled q)
        × (m.fast_left ≤ poll_budget)
        × (m.unreleased + 1 ≤ batch_for q.capacity)
        × (m.burst ≤ max 63 (l.burst - l.fast_left))
  unfolding Defs.grant_fast
  grant_fast-LaneOk l q poll_budget ok =
      let ((r, c), shut, b) = reopen-LaneOk l q ok in
      ((r, omega arith), omega arith, omega (arith, refilled-sizes q), omega arith)

  -- Releasing the pending slots is reported when there are any.
  pub release_pending-LaneOk :
      (l : Lane A) (q : Queue A)
      → LaneOk l q
      → ((Defs.release_pending l).0 ≡ not (q.unreleased == 0))
        × LaneOk (Defs.release_pending l).1 (Queue.release q)
        × ((Defs.release_pending l).1.fast_left ≡ 0)
        × ((Defs.release_pending l).1.burst + l.fast_left ≡ l.burst)
  unfolding Defs.release_pending
  release_pending-LaneOk l q ok =
      let ((r, c), shut, b) = close_fast-LaneOk l q ok in
      elim (Bool-cases (q.unreleased == 0)) [
        | inl none_taken ↦
            let e : ((Defs.close_fast l).unreleased == 0) ≡ true = ground arith in
            rw (none_taken, e) (refl, (rw (release-none q (==→eq _ _ none_taken)) (r, c)), shut, b)
        | inr some_taken ↦
            let e : ((Defs.close_fast l).unreleased == 0) ≡ false = ground arith in
            rw (some_taken, e)
              (
                refl,
                (release-Refines _ q r, omega (arith, batch-range q.capacity c.some_room.0)),
                shut,
                b,
              )
      ]

  -- A new lane stands for the queue of its ring.
  pub new-LaneOk :
      (s : Spsc A) (q : Queue A) (pending : Bool)
      → Refines s q
      → length q.window ≡ 0
      → q.unreleased ≡ 0
      → LaneOk (Defs.new s pending) q
  unfolding Defs.new
  new-LaneOk s q pending (g, v) w u =
      let cap : Ring.capacity s.ring ≡ q.capacity = omega arith in
      let range = batch-range q.capacity in ((g, v), rw cap (omega arith))
