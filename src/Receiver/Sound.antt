-- ===== src/Receiver/Sound.antt =====
-- The operations of a lane keep it sound, and what they do to its place in the rotation.
use fanring_rs.Base.{
  ℕ, ◌≡◌, refl, sym, ap, ◌∙◌, arith, Bool, true, false, Option, none, some, List, [], ◌∷◌, ◌++◌,
  length, ◌==◌, if◌then◌else◌, Bool-cases, ◌⊎◌, inl, inr, >>=-eq-done, done-inj, wrapping_add,
  wrapping_sub, Access, done, fault, Ensures,
}
use mathlib.Core.Path.{subst}
use mathlib.Core.Logic.{Lift}
use fanring_rs.Yring.Types.{Spsc}
use fanring_rs.Yring.Consumer
use fanring_rs.Yring.Queue
use fanring_rs.Yring.Queue.{Queue}
use fanring_rs.Yring.Sim.Receive.{refilled}
use fanring_rs.Lane.Defs.{Lane, LanePoll, EmptyLane}
use fanring_rs.Lane.Defs
use fanring_rs.Lane.Window.{release_pending-LaneOk, reopen-LaneOk}
use fanring_rs.Lane.Poll.{poll-LaneOk, poll-Idle, poll_end, refill-none, refill-some}
use fanring_rs.Receiver.Rotation.{Sound}

module _ {ℓ} {A : Type ℓ} where
  -- The signal and the place in the rotation are no part of a lane's counters.
  pub Sound-flags :
      (l : Lane A) (pending queued : Bool)
      → Sound l
      → Sound (record l { pending = pending; queued = queued })
  Sound-flags l pending queued (q, (r, c), b) = (
    q,
    (
      r,
      record {
        some_room = c.some_room;
        fits = c.fits;
        available = c.available;
        taken = c.taken;
        batch = c.batch;
        short = c.short;
        charged = c.charged;
        burst_fits = c.burst_fits;
      },
    ),
    b,
  )

  pub release_pending-queued : (l : Lane A) → (Defs.release_pending l).1.queued ≡ l.queued
  unfolding Defs.release_pending Defs.close_fast
  release_pending-queued l = ground arith

  pub release_pending-Sound : (l : Lane A) → Sound l → Sound (Defs.release_pending l).1
  release_pending-Sound l (q, ok, b) =
      let (rel, ok', shut, small) = release_pending-LaneOk l q ok in
      (Queue.release q, ok', omega arith)

  -- What a poll may leave: a value keeps the place in the rotation, and an idle lane has none. With no
  -- publication between its two looks at the ring, a lane is not kept without a value.
  abbrev pub PollOk : Lane A → LanePoll A × Lane A → Type ℓ
  PollOk l (LanePoll.item value rotate released, m) = Sound m × (m.queued ≡ l.queued)
  PollOk l (LanePoll.keep released, m) = Lift ⊥
  PollOk l (LanePoll.idle disconnected released, m) =
      Sound m × (m.queued ≡ false) × (m.pending ≡ false)
  PollOk l (LanePoll.stale, m) = Lift ⊥

  pub list-cases : (xs : List A) → (xs ≡ []) ⊎ ((x : A) × (ys : List A) × (xs ≡ x ∷ ys))
  list-cases [] = inl refl
  list-cases (x ∷ xs) = inr (x, xs, refl)

  pub reload-queued : (l : Lane A) → (Defs.reload (Defs.close_fast l)).queued ≡ l.queued
  unfolding Defs.reload Defs.close_fast
  reload-queued l = ground arith

  pub release_full_batch-queued : (l : Lane A) → (Defs.release_full_batch l).1.queued ≡ l.queued
  unfolding Defs.release_full_batch Defs.release_pending Defs.close_fast
  release_full_batch-queued l = ground arith

  pub expect_pop-frame :
      (l : Lane A) (v : A) (m : Lane A)
      → Defs.expect_pop l ≡ done (v, m)
      → m ≡ record l { consumer = m.consumer }
  expect_pop-frame l v m e =
      let ((val, s), f, g) = >>=-eq-done (Consumer.pop l.consumer) after e in by_value val s g
    where
      after : Option A × Spsc A → Access (A × Lane A)
      after (val, consumer) = elim val [
        | none ↦ fault
        | some v ↦ done (v, record l { consumer = consumer })
      ]

      by_value :
          (val : Option A) (s : Spsc A)
          → after (val, s) ≡ done (v, m)
          → m ≡ record l { consumer = m.consumer }
      by_value none s g = cc
      by_value (some x) s g =
          let h : record l { consumer = s } ≡ m = ap (λ p. p.1) (done-inj g) in
          subst (λ n. n ≡ record l { consumer = n.consumer }) h refl

  pub expect_pop-queued :
      (l : Lane A) (v : A) (m : Lane A) → Defs.expect_pop l ≡ done (v, m) → m.queued ≡ l.queued
  expect_pop-queued l v m e = ap (λ n. n.queued) (expect_pop-frame l v m e)

  burst_end-queued :
      (rotate : Bool) (o : Lane A)
      → (if rotate then record o { burst = 0 } else o).queued ≡ o.queued
  burst_end-queued true o = refl
  burst_end-queued false o = refl

  poll_item-queued :
      (fair : Bool) (l : Lane A) (p : LanePoll A) (m : Lane A)
      → Defs.poll_item fair l ≡ done (p, m)
      → m.queued ≡ l.queued
  unfolding Defs.poll_item
  poll_item-queued fair l p m e =
      let ((v, m0), f, g) = >>=-eq-done (Defs.expect_pop l) _ e in
      let n : Lane A = record m0 {
        cached_available = wrapping_sub m0.cached_available 1;
        unreleased = wrapping_add m0.unreleased 1;
        burst = wrapping_add m0.burst 1;
      } in
      ap (λ r. r.1.queued) (sym (done-inj g))
      ∙ burst_end-queued _ (Defs.release_full_batch n).1
      ∙ release_full_batch-queued n
      ∙ expect_pop-queued l v m0 f

  empty_no_item :
      (e : EmptyLane) (n m : Lane A) (v : A) (rotate released : Bool)
      (w : Access (LanePoll A × Lane A))
      → w ≡ done (Defs.poll_empty e, n)
      → w ≡ done (LanePoll.item v rotate released, m)
      → ⊥
  empty_no_item (EmptyLane.keep b) n m v rotate released w f g =
      let h = ap (λ r. r.0) (done-inj (sym f ∙ g)) in cc
  empty_no_item (EmptyLane.idle d b) n m v rotate released w f g =
      let h = ap (λ r. r.0) (done-inj (sym f ∙ g)) in cc

  poll-queued :
      (fair : Bool) (l m : Lane A) (v : A) (rotate released : Bool)
      → Defs.poll fair l ≡ done (LanePoll.item v rotate released, m)
      → m.queued ≡ l.queued
  unfolding Defs.poll
  poll-queued fair l m v rotate released e =
      let opened = Defs.reload (Defs.close_fast l) in
      elim (Bool-cases (opened.cached_available == 0)) [
        | inl none_left ↦ absurd (
            empty_no_item (Defs.settle_empty opened).0 (Defs.settle_empty opened).1 m v rotate
              released (Defs.poll fair l) (ap (poll_end fair) (refill-some l none_left)) e)
        | inr more ↦
            poll_item-queued fair opened _ m (ap (poll_end fair) (sym (refill-none l more)) ∙ e)
            ∙ reload-queued l
      ]

  append-eq-nil : (xs ys : List A) → xs ++ ys ≡ [] → (xs ≡ []) × (ys ≡ [])
  append-eq-nil [] ys e = (refl, e)
  append-eq-nil (x ∷ xs) ys e = cc

  -- A queue with nothing visible after a prefetch has nothing published.
  pub nothing_published :
      (q : Queue A) → (refilled q).window ≡ [] → (q.window ≡ []) × (q.hidden ≡ [])
  nothing_published q e = elim (Bool-cases (length q.window == 0)) [
    | inl empty ↦ append-eq-nil q.window q.hidden (rw empty at e)
    | inr more ↦
        let f : q.window ≡ [] = rw more at e in
        let g : length q.window ≡ 0 = ap length f in absurd (ground arith)
  ]

  -- A poll never faults and keeps the lane sound.
  pub poll-Sound : (fair : Bool) (l : Lane A) → Sound l → Ensures (Defs.poll fair l) (PollOk l)
  poll-Sound fair l (q, ok, b) = elim (list-cases (refilled q).window) [
    | inl none_left ↦
        let (w, h) = nothing_published q none_left in
        let (m, f, ok', pending, out, burst) = poll-Idle fair l q ok w h in
        subst (λ a. Ensures a (PollOk l)) (sym f)
          ((Queue.release q, ok', omega arith), out, pending)
    | inr (x, xs, e) ↦
        let (m, f, ok', small) = poll-LaneOk fair l q x xs ok b e in
        subst (λ a. Ensures a (PollOk l)) (sym f) ((_, ok', small), poll-queued fair l m x _ _ f)
  ]

  -- A look at the window keeps the lane sound and where it is.
  pub reload_is_empty-Sound :
      (l : Lane A)
      → Sound l
      → Sound (Defs.reload_is_empty l).1 × ((Defs.reload_is_empty l).1.queued ≡ l.queued)
  unfolding Defs.reload_is_empty
  reload_is_empty-Sound l (q, ok, b) =
      let (ok', shut, b') = reopen-LaneOk l q ok in
      ((refilled q, ok', omega arith), reload-queued l)

  reload-pending : (l : Lane A) → (Defs.reload (Defs.close_fast l)).pending ≡ l.pending
  unfolding Defs.reload Defs.close_fast
  reload-pending l = ground arith

  pub grant_fast-flags :
      (l : Lane A) (budget : ℕ)
      → ((Defs.grant_fast l budget).queued ≡ l.queued)
        × ((Defs.grant_fast l budget).pending ≡ l.pending)
  unfolding Defs.grant_fast
  grant_fast-flags l budget = (reload-queued l, reload-pending l)
