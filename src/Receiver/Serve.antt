-- ===== src/Receiver/Serve.antt =====
-- The whole nonblocking receive, with its fast window, keeps the rotation.
use fanring_rs.Base.{
  ◌≤◌, true, false, ◌<◌, ℕ, zero, suc, ◌≡◌, refl, ◌∙◌, arith, Bool, not, ◌&&◌, Option, none, some,
  List, [], ◌∷◌, ◌==◌, if◌then◌else◌, Bool-cases, inl, inr, Result, Access, done, Ensures,
  Ensures-bind, Ensures-weaken,
}
use mathlib.Core.Path.{subst}
use fanring_rs.Error.{TryRecvError}
use fanring_rs.Lane.Defs.{Lane}
use fanring_rs.Lane.Defs
use fanring_rs.Registry.Defs.{LaneKey}
use fanring_rs.Receiver.Defs.{Receiver, Keyed, lane_at, current, notify_released}
use fanring_rs.Receiver.Collect.{collect_ready}
use fanring_rs.Receiver.Receive.{
  release, spend_item, Answer, try_recv_inner, recv_loop, retries, is_empty, fast_or, try_front,
  refill_from, try_recv_refill, try_fast, try_recv,
}
use fanring_rs.Receiver.Rotation.{AllSound}
use fanring_rs.Receiver.Adopt.{ReceiverOk}
use fanring_rs.Receiver.Sound.{grant_fast-flags}
use fanring_rs.Receiver.Kept.{current_lem, put_lane-ReceiverOk}
use fanring_rs.Receiver.Gather.{Gathered, collect_ready-Gathered}
use fanring_rs.Receiver.Weight.{weight, notify_released-weight}
use fanring_rs.Receiver.Progress.{InnerOk, Light, try_recv_inner-InnerOk}
use fanring_rs.Receiver.Popped.{
  PoppedOk, pop_fast-Sound, grant_fast-Sound, same_flags-weight, notify_released-ReceiverOk,
}

module _ {ℓ} {A : Type ℓ} where
  module _ {κ} {O : Type κ} (item : Receiver A → LaneKey → A → O) where
    -- The result of the receive, if it is through.
    abbrev pub ServedOk : ℕ → ℕ → Option (Result O TryRecvError) × Receiver A → Type ℓ
    ServedOk fuel m (none, r) = ReceiverOk r × (fuel ≤ m)
    ServedOk fuel m (some a, r) = ReceiverOk r

    ServedOk-weaken :
        (fuel fuel' m m' : ℕ) (o : Option (Result O TryRecvError) × Receiver A)
        → (fuel ≤ m → fuel' ≤ m')
        → ServedOk fuel m o
        → ServedOk fuel' m' o
    ServedOk-weaken fuel fuel' m m' (none, r) le (v, h) = (v, le h)
    ServedOk-weaken fuel fuel' m m' (some a, r) le v = v

    retry_less :
        (m : ℕ) (a : Answer O) (r : Receiver A)
        → retries (release item) a ≡ true
        → Light item m (some a, r)
        → weight r < m
    retry_less m (Result.ok x, released) r e h = cc
    retry_less m (Result.err TryRecvError.disconnected, released) r e h = cc
    retry_less m (Result.err TryRecvError.empty, none) r e h = cc
    retry_less m (Result.err TryRecvError.empty, some key) r e h = h

    after_inner-ServedOk :
        (fuel m : ℕ) (fair : Bool)
        → ((r : Receiver A)
            → ReceiverOk r
            → Ensures (recv_loop (release item) fuel fair r) (ServedOk fuel (weight r)))
        → (o : Option (Answer O) × Receiver A) → InnerOk item (suc fuel) m o
        → Ensures
            (elim o.0 [
              | none ↦ done (none, o.1)
              | some a ↦
                  let told = notify_released a.1 o.1 in
                  let rest = recv_loop (release item) fuel fair told in
                  if retries (release item) a then rest else done (some a.0, told)
            ])
            (ServedOk (suc fuel) m)
    after_inner-ServedOk fuel m fair again (none, r) h = h
    after_inner-ServedOk fuel m fair again (some a, r) (v, light) =
        let told = notify_released-ReceiverOk a.1 r v in
        elim (Bool-cases (retries (release item) a)) [
          | inl retry ↦
              let less = retry_less m a r retry light in
              let same = notify_released-weight a.1 r in
              rw retry (
                Ensures-weaken (recv_loop (release item) fuel fair (notify_released a.1 r))
                  (ServedOk fuel (weight (notify_released a.1 r))) (ServedOk (suc fuel) m)
                  (again (notify_released a.1 r) told)
                  (λ o.
                    ServedOk-weaken fuel (suc fuel) (weight (notify_released a.1 r)) m o
                      (λ le. omega (arith, less, same, le))))
          | inr stop ↦ rw stop told
        ]

    -- The full path never faults, and is through once the fuel exceeds the weight.
    pub recv_loop-ServedOk :
        (fuel : ℕ) (fair : Bool) (r : Receiver A)
        → ReceiverOk r
        → Ensures (recv_loop (release item) fuel fair r) (ServedOk fuel (weight r))
    unfolding recv_loop
    recv_loop-ServedOk zero fair r v = (v, omega arith)
    recv_loop-ServedOk (suc fuel) fair r v =
        Ensures-bind (try_recv_inner (release item) (suc fuel) fair r) _
          (InnerOk item (suc fuel) (weight r)) (ServedOk (suc fuel) (weight r))
          (try_recv_inner-InnerOk item (suc fuel) fair r v)
          (after_inner-ServedOk fuel (weight r) fair (recv_loop-ServedOk fuel fair))

    pub loop_within :
        (fuel m : ℕ) (fair : Bool) (r : Receiver A)
        → ReceiverOk r
        → weight r ≤ m
        → Ensures (recv_loop (release item) fuel fair r) (ServedOk fuel m)
    loop_within fuel m fair r v w =
        Ensures-weaken (recv_loop (release item) fuel fair r) (ServedOk fuel (weight r))
          (ServedOk fuel m) (recv_loop-ServedOk fuel fair r v)
          (λ o. ServedOk-weaken fuel fuel (weight r) m o (λ le. omega (arith, w, le)))

    -- A value of the window is taken, or the full path starts from a receiver in order.
    pub fast_or-ServedOk :
        (fuel m slot : ℕ) (r : Receiver A) (k : Keyed A)
        (full : Access (Option (Result O TryRecvError) × Receiver A)) (l : Lane A)
        → ReceiverOk r
        → lane_at r.lanes slot ≡ some k
        → l.queued ≡ k.lane.queued
        → Ensures full (ServedOk fuel m)
        → (o : Option A × Lane A) → PoppedOk l o
        → Ensures (fast_or (release item) slot r k full o) (ServedOk fuel m)
    unfolding spend_item
    fast_or-ServedOk fuel m slot r k full l v e same h (none, n) p = h
    fast_or-ServedOk fuel m slot r k full l v e same h (some x, n) (good, queued, pending) =
        put_lane-ReceiverOk r slot k (record k { lane = n }) v e refl (queued ∙ same) good

    try_front-ServedOk :
        (fuel m : ℕ) (key : LaneKey) (r : Receiver A) (o : Option (Keyed A))
        → current r key ≡ o
        → ReceiverOk r
        → weight r ≤ m
        → Ensures (try_front (release item) fuel key r o) (ServedOk fuel m)
    try_front-ServedOk fuel m key r none e v w = loop_within fuel m false r v w
    try_front-ServedOk fuel m key r (some k) e v w =
        let (here, same) = current_lem r key k e in
        let granted = Defs.grant_fast k.lane r.items_until_ready_poll in
        let good =
          grant_fast-Sound k.lane r.items_until_ready_poll
            (subst AllSound here (v.0.sound key.slot)) in
        let (queued, pending) = grant_fast-flags k.lane r.items_until_ready_poll in
        Ensures-bind (Defs.pop_fast granted) _ (PoppedOk granted) (ServedOk fuel m)
          (pop_fast-Sound granted good)
          (λ o p.
            fast_or-ServedOk fuel m key.slot r k _ granted v here queued
              (loop_within fuel m false _
                (put_lane-ReceiverOk r key.slot k (record k { lane = o.1 }) v here refl
                  (p.1 ∙ queued) p.0)
                (omega (
                  arith,
                  w,
                  same_flags-weight r key.slot k o.1 here (p.1 ∙ queued) (p.2 ∙ pending),
                )))
              o p)

    refill_from-ServedOk :
        (fuel m : ℕ) (active : List LaneKey) (r : Receiver A)
        → ReceiverOk r
        → weight r ≤ m
        → Ensures (refill_from (release item) fuel active r) (ServedOk fuel m)
    refill_from-ServedOk fuel m [] r v w = loop_within fuel m false r v w
    refill_from-ServedOk fuel m (key ∷ rest) r v w =
        try_front-ServedOk fuel m key r (current r key) refl v w

    try_recv_refill-ServedOk :
        (fuel : ℕ) (r : Receiver A)
        → ReceiverOk r
        → Ensures (try_recv_refill (release item) fuel r) (ServedOk fuel (weight r))
    unfolding try_recv_refill
    try_recv_refill-ServedOk fuel r v =
        elim (Bool-cases ((r.items_until_ready_poll == 0) && not (is_empty r.active))) [
          | inl due ↦ rw due (
              Ensures-bind (collect_ready false r) _ (Gathered 0 (weight r))
                (ServedOk fuel (weight r))
                (collect_ready-Gathered 0 (weight r) false r (v, omega arith, omega arith))
                (λ r' h. refill_from-ServedOk fuel (weight r) r'.active _ h.0 h.2))
          | inr not_due ↦
              rw not_due (refill_from-ServedOk fuel (weight r) r.active r v (omega arith))
        ]

    -- A nonblocking receive never faults and keeps the rotation. It is through once the fuel exceeds
    -- the number of lanes that are queued, marked or not yet adopted.
    pub try_recv-ServedOk :
        (fuel : ℕ) (r : Receiver A)
        → ReceiverOk r
        → Ensures (try_recv (release item) fuel r) (ServedOk fuel (weight r))
    unfolding try_recv
    try_recv-ServedOk fuel r v = by_lane (lane_at r.lanes r.fast_slot) refl
      where
        by_lane :
            (o : Option (Keyed A))
            → lane_at r.lanes r.fast_slot ≡ o
            → Ensures (try_fast (release item) fuel r o) (ServedOk fuel (weight r))
        by_lane none e = try_recv_refill-ServedOk fuel r v
        by_lane (some k) e =
            Ensures-bind (Defs.pop_fast k.lane) _ (PoppedOk k.lane) (ServedOk fuel (weight r))
              (pop_fast-Sound k.lane (subst AllSound e (v.0.sound r.fast_slot)))
              (fast_or-ServedOk fuel (weight r) r.fast_slot r k _ k.lane v e refl
                (try_recv_refill-ServedOk fuel r v))
