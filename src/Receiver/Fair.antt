-- ===== src/Receiver/Fair.antt =====
-- The fair receive keeps the rotation and returns.
use fanring_rs.Base.{
  ℕ, ◌≤◌, ◌<◌, ◌≡◌, refl, ◌∙◌, arith, true, not, ◌||◌, Option, none, some, List, [], ◌∷◌, ◌==◌,
  if◌then◌else◌, Bool-cases, inl, inr, done, Ensures, Ensures-bind, ==→eq,
}
use mathlib.Core.Path.{subst}
use fanring_rs.Lane.Defs.{Lane}
use fanring_rs.Lane.Defs
use fanring_rs.Registry.Defs.{LaneKey}
use fanring_rs.Receiver.Defs.{Receiver, Keyed, current}
use fanring_rs.Receiver.Collect.{collect_ready}
use fanring_rs.Receiver.Receive.{
  release, any_ready, try_single, single_from, serve_fair, try_recv_fair,
}
use fanring_rs.Receiver.Rotation.{AllSound, Sound}
use fanring_rs.Receiver.Adopt.{ReceiverOk}
use fanring_rs.Receiver.Sound.{grant_fast-flags}
use fanring_rs.Receiver.Weight.{weight}
use fanring_rs.Receiver.Kept.{current_lem, put_lane-ReceiverOk}
use fanring_rs.Receiver.Gather.{Gathered, collect_ready-Gathered}
use fanring_rs.Receiver.Popped.{PoppedOk, pop_fast-Sound, grant_fast-Sound, same_flags-weight}
use fanring_rs.Receiver.Serve.{ServedOk, loop_within, fast_or-ServedOk}

module _ {ℓ} {A : Type ℓ} where
  -- A burst may start afresh at the values that are charged already.
  Sound-burst :
      (l : Lane A) (n : ℕ) → l.fast_left ≤ n → n < 64 → Sound l → Sound (record l { burst = n })
  Sound-burst l n charged small (q, (r, c), b) = (
    q,
    (
      r,
      record {
        some_room = c.some_room;
        fits = c.fits;
        available = c.available;
        taken = c.taken;
        batch = c.batch;
        short = c.short;
        charged = charged;
        burst_fits = omega arith;
      },
    ),
    small,
  )

  abbrev opened_lane : Lane A → ℕ → Lane A
  opened_lane l budget =
      if l.fast_left == 0 then Defs.grant_fast (record l { burst = 0 }) budget else l

  opened-Sound :
      (l : Lane A) (budget : ℕ)
      → Sound l
      → Sound (opened_lane l budget)
        × ((opened_lane l budget).queued ≡ l.queued)
        × ((opened_lane l budget).pending ≡ l.pending)
  opened-Sound l budget good = elim (Bool-cases (l.fast_left == 0)) [
    | inl shut ↦
        let (queued, pending) = grant_fast-flags (record l { burst = 0 }) budget in
        rw shut (
          grant_fast-Sound (record l { burst = 0 }) budget
              (Sound-burst l 0 (omega (arith, ==→eq l.fast_left 0 shut)) (omega arith) good),
          queued,
          pending,
        )
    | inr some_left ↦ rw some_left (good, refl, refl)
  ]

  pop_fair-Sound :
      (l : Lane A) (budget : ℕ) → Sound l → Ensures (Defs.pop_fair l budget) (PoppedOk l)
  unfolding Defs.pop_fair
  pop_fair-Sound l budget good =
      let (good', queued, pending) = opened-Sound l budget good in
      Ensures-bind (Defs.pop_fast (opened_lane l budget)) _ (PoppedOk (opened_lane l budget))
        (PoppedOk l) (pop_fast-Sound (opened_lane l budget) good')
        (λ (val, m) (good'', queued', pending').
          settle val m good'' (queued' ∙ queued) (pending' ∙ pending))
    where
      settle :
          (val : Option A) (m : Lane A)
          → Sound m
          → m.queued ≡ l.queued
          → m.pending ≡ l.pending
          → Ensures
              (elim val [
                | none ↦ done (none, m)
                | some v ↦ done (some v, record m { burst = m.fast_left })
              ])
              (PoppedOk l)
      settle none m good queued pending = (good, queued, pending)
      settle (some v) m (q, (r, c), b) queued pending = (
        Sound-burst m m.fast_left (omega arith) (omega (arith, c.charged)) (q, (r, c), b),
        queued,
        pending,
      )

  module _ {κ} {O : Type κ} (item : Receiver A → LaneKey → A → O) where
    try_single-ServedOk :
        (fuel m : ℕ) (key : LaneKey) (r : Receiver A) (o : Option (Keyed A))
        → current r key ≡ o
        → ReceiverOk r
        → weight r ≤ m
        → Ensures (try_single (release item) fuel key r o) (ServedOk item fuel m)
    try_single-ServedOk fuel m key r none e v w = loop_within item fuel m true r v w
    try_single-ServedOk fuel m key r (some k) e v w =
        let (here, same) = current_lem r key k e in
        Ensures-bind (Defs.pop_fair k.lane r.items_until_ready_poll) _ (PoppedOk k.lane)
          (ServedOk item fuel m)
          (pop_fair-Sound k.lane r.items_until_ready_poll
            (subst AllSound here (v.0.sound key.slot)))
          (λ o p.
            fast_or-ServedOk item fuel m key.slot r k _ k.lane v here refl
              (loop_within item fuel m true _
                (put_lane-ReceiverOk r key.slot k (record k { lane = o.1 }) v here refl p.1 p.0)
                (omega (arith, w, same_flags-weight r key.slot k o.1 here p.1 p.2)))
              o p)

    single_from-ServedOk :
        (fuel m : ℕ) (active : List LaneKey) (r : Receiver A)
        → ReceiverOk r
        → weight r ≤ m
        → Ensures (single_from (release item) fuel active r) (ServedOk item fuel m)
    single_from-ServedOk fuel m [] r v w = loop_within item fuel m true r v w
    single_from-ServedOk fuel m (key ∷ []) r v w =
        try_single-ServedOk fuel m key r (current r key) refl v w
    single_from-ServedOk fuel m (key ∷ other ∷ rest) r v w = loop_within item fuel m true r v w

    -- A fair receive never faults and keeps the rotation, and is through once the fuel exceeds the
    -- weight.
    pub try_recv_fair-ServedOk :
        (fuel : ℕ) (r : Receiver A)
        → ReceiverOk r
        → Ensures (try_recv_fair (release item) fuel r) (ServedOk item fuel (weight r))
    unfolding try_recv_fair
    try_recv_fair-ServedOk fuel r v =
        elim (Bool-cases (
          not (r.shared.registry_generation == r.seen_registry_generation)
          || any_ready r.groups r.shared.index)) [
            | inl due ↦ rw due (
                Ensures-bind (collect_ready true r) (serve_fair (release item) fuel)
                  (Gathered 0 (weight r)) (ServedOk item fuel (weight r))
                  (collect_ready-Gathered 0 (weight r) true r (v, omega arith, omega arith))
                  (λ r' h. single_from-ServedOk fuel (weight r) r'.active _ h.0 h.2))
            | inr not_due ↦
                rw not_due (single_from-ServedOk fuel (weight r) r.active _ v (omega arith))
          ]
