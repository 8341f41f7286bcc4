-- ===== src/Receiver/Progress.antt =====
-- The receive loop: each round that gives nothing to the caller leaves fewer lanes to poll.
use fanring_rs.Base.{
  ℕ, zero, suc, ◌≤◌, ◌<◌, ◌≡◌, refl, sym, ap, ◌∙◌, arith, Bool, true, false, Option, none, some,
  List, [], ◌∷◌, ◌++◌, length, ◌==◌, if◌then◌else◌, Bool-cases, inl, inr, Access, done, ◌>>=◌,
  Ensures, Ensures-bind, Ensures-weaken, Result, eq→==,
}
use mathlib.Core.Path.{subst}
use fanring_rs.Error.{TryRecvError}
use fanring_rs.Lane.Defs.{Lane, LanePoll, poll}
use fanring_rs.Registry.Defs.{LaneKey}
use fanring_rs.Receiver.Defs.{Receiver, Keyed, lane_at, put_lane}
use fanring_rs.Receiver.Collect.{collect_ready, is_drained}
use fanring_rs.Receiver.Receive.{
  release, spend_item, Answer, after_poll, turn_from, take_turn, poll_lane, nothing_active, round,
  try_recv_inner, is_empty,
}
use fanring_rs.Receiver.Rotation.{
  count, count-append, queued_in, AllCurrent-append, AllSound, Sound, RotationOk, lane_at-some,
}
use fanring_rs.Receiver.Adopt.{ReceiverOk}
use fanring_rs.Receiver.Sound.{PollOk, poll-Sound}
use fanring_rs.Receiver.Weight.{busy, busy_in, weight, put_lane-weight, retire_lane-weight}
use fanring_rs.Receiver.Round.{
  back-ReceiverOk, out-ReceiverOk, front_lane, is_drained-ReceiverOk, lane_at_put, DrainOk,
}
use fanring_rs.Receiver.Kept.{retire_lane-ReceiverOk}
use fanring_rs.Receiver.Gather.{Gathered, collect_ready-Gathered}

module _ {ℓ} {A : Type ℓ} where
  -- A lane that was in the rotation and is idle now weighs no more.
  polled_less :
      (m : ℕ) (r : Receiver A) (key : LaneKey) (rest : List LaneKey) (k : Keyed A) (l : Lane A)
      → ReceiverOk (record r { active = key ∷ rest })
      → weight r ≤ m
      → lane_at r.lanes key.slot ≡ some k
      → l.queued ≡ false
      → l.pending ≡ false
      → weight (put_lane key.slot (some (record k { lane = l })) r) < m
  polled_less m r key rest k l v w e out seen =
      let here : (key.slot == key.slot) ≡ true = eq→== key.slot key.slot refl in
      let all_here : count key.slot (key ∷ rest) ≡ suc (count key.slot rest) =
        rw here (omega arith) in
      let queued : queued_in (some k) ≡ suc (count key.slot rest) =
        ap queued_in (sym e) ∙ sym (v.0.counted key.slot) ∙ all_here in
      let was_busy : busy k.lane ≡ 1 = ground arith in
      let not_busy : busy_in (some (record k { lane = l })) ≡ 0 = rw (out, seen) refl in
      omega (
        arith,
        put_lane-weight r key.slot k (some (record k { lane = l })) e
            (lane_at-some r.lanes key.slot k e),
        was_busy,
        not_busy,
      )

  module _ {κ} {O : Type κ} (item : Receiver A → LaneKey → A → O) where
    -- An answer for the caller, or a lane less to poll.
    abbrev pub Light : ℕ → Option (Answer O) × Receiver A → Type 0
    Light m (none, r) = weight r < m
    Light m (some (Result.ok x, released), r) = Unit {0}
    Light m (some (Result.err TryRecvError.disconnected, released), r) = Unit {0}
    Light m (some (Result.err TryRecvError.empty, none), r) = Unit {0}
    Light m (some (Result.err TryRecvError.empty, some key), r) = weight r < m

    abbrev pub RoundOk : ℕ → Option (Answer O) × Receiver A → Type ℓ
    RoundOk m o = ReceiverOk o.1 × Light m o

    after_poll-RoundOk :
        (m : ℕ) (r : Receiver A) (key : LaneKey) (rest : List LaneKey) (k : Keyed A)
        → ReceiverOk (record r { active = key ∷ rest })
        → weight r ≤ m
        → lane_at r.lanes key.slot ≡ some k
        → (p : LanePoll A × Lane A) → PollOk k.lane p
        → Ensures
            (after_poll (release item) key (
              p.0,
              put_lane key.slot (some (record k { lane = p.1 })) (record r { active = rest }),
            ))
            (RoundOk m)
    unfolding spend_item
    after_poll-RoundOk m r key rest k v w e (LanePoll.item value true released, l) (good, queued) =
        (
          back-ReceiverOk r key rest (rest ++ (key ∷ [])) k (record k { lane = l }) v e refl queued
              good (λ slot. omega (arith, count-append slot rest (key ∷ [])))
              (AllCurrent-append r.lanes rest (key ∷ []) v.0.all_current.1 (v.0.all_current.0, tt)),
          tt,
        )
    after_poll-RoundOk m r key rest k v w e (LanePoll.item value false released, l) (good, queued) =
        (
          back-ReceiverOk r key rest (key ∷ rest) k (record k { lane = l }) v e refl queued good
              (λ slot. refl) v.0.all_current,
          tt,
        )
    after_poll-RoundOk m r key rest k v w e (LanePoll.keep released, l) h = absurd h.lower
    after_poll-RoundOk m r key rest k v w e (LanePoll.idle false released, l) (good, out, seen) =
        let less = polled_less m r key rest k l v w e out seen in
        (
          out-ReceiverOk r key rest k (record k { lane = l }) v e refl out good,
          by_release released
              (record (put_lane key.slot (some (record k { lane = l })) r) { active = rest }) less,
        )
      where
        by_release :
            (released : Bool) (r' : Receiver A)
            → weight r' < m
            → Light m
                ((if released then some (Result.err TryRecvError.empty, some key) else none), r')
        by_release true r' h = h
        by_release false r' h = h
    after_poll-RoundOk m r key rest k v w e (LanePoll.idle true released, l) (good, out, seen) =
        let k' : Keyed A = record k { lane = l } in
        let r' : Receiver A = record (put_lane key.slot (some k') r) { active = rest } in
        let here = lane_at_put r key.slot k k' e in
        (
          retire_lane-ReceiverOk r' key k' (out-ReceiverOk r key rest k k' v e refl out good) here
              (rw out refl),
          omega (
            arith,
            retire_lane-weight r' key k' here,
            polled_less m r key rest k l v w e out seen,
          ),
        )
    after_poll-RoundOk m r key rest k v w e (LanePoll.stale, l) h = absurd h.lower

    turn_from-RoundOk :
        (m : ℕ) (fair : Bool) (r : Receiver A) (active : List LaneKey)
        → r.active ≡ active
        → is_empty active ≡ false
        → ReceiverOk r
        → weight r ≤ m
        → Ensures (turn_from (release item) fair active r) (RoundOk m)
    unfolding poll_lane
    turn_from-RoundOk m fair r [] e f v w = cc
    turn_from-RoundOk m fair r (key ∷ rest) e f v w =
        let v' : ReceiverOk (record r { active = key ∷ rest }) =
          (subst (λ a. RotationOk r.lanes a r.paused) e v.0, v.1) in
        let (k, here, same, cur) = front_lane r key rest v' in
        let good : Sound k.lane = subst AllSound here (v.0.sound key.slot) in
        let next : LanePoll A × Lane A → Access (LanePoll A × Receiver A) = λ (p, lane).
          done
            (p, put_lane key.slot (some (record k { lane = lane })) (record r { active = rest })) in
        let polled : Ensures (poll fair k.lane >>= next >>= after_poll (release item) key)
            (RoundOk m) =
          Ensures-bind (poll fair k.lane >>= next) (after_poll (release item) key)
            (λ x. Ensures (after_poll (release item) key x) (RoundOk m)) (RoundOk m)
            (Ensures-bind (poll fair k.lane) next (PollOk k.lane)
              (λ x. Ensures (after_poll (release item) key x) (RoundOk m))
              (poll-Sound fair k.lane good)
              (λ p h. after_poll-RoundOk m r key rest k v' w here p h))
            (λ x h. h) in
        rw cur polled

    nothing_active-RoundOk :
        (m : ℕ) (r : Receiver A)
        → ReceiverOk r
        → Ensures (nothing_active {O = O} (release item) r) (RoundOk m)
    nothing_active-RoundOk m r v =
        Ensures-bind (is_drained r) _ DrainOk (RoundOk m) (is_drained-ReceiverOk r v)
          (λ (drained, r') v'. (v', by_end drained r'))
      where
        by_end :
            (drained : Bool) (r' : Receiver A)
            → Light m (
              some (
                (Result.err (if drained then TryRecvError.disconnected else TryRecvError.empty)),
                none,
              ),
              r',
            )
        by_end true r' = tt
        by_end false r' = tt

    take_turn-RoundOk :
        (m : ℕ) (fair : Bool) (r : Receiver A)
        → is_empty r.active ≡ false
        → ReceiverOk r
        → weight r ≤ m
        → Ensures (take_turn (release item) fair r) (RoundOk m)
    unfolding take_turn
    take_turn-RoundOk m fair r e v w = turn_from-RoundOk m fair r r.active refl e v w

    some_active : (active : List LaneKey) → 1 ≤ length active → is_empty active ≡ false
    some_active [] h = absurd (omega arith)
    some_active (k ∷ ks) h = refl

    none_active : (active : List LaneKey) → is_empty active ≡ false → 1 ≤ length active
    none_active [] h = cc
    none_active (k ∷ ks) h = omega arith

    after_found-RoundOk :
        (m : ℕ) (fair : Bool) (r : Receiver A)
        → Gathered 0 m r
        → Ensures
            (if is_empty r.active
              then nothing_active (release item) r
              else take_turn (release item) fair r)
            (RoundOk m)
    after_found-RoundOk m fair r (v, le, w) = elim (Bool-cases (is_empty r.active)) [
      | inl still_none ↦ rw still_none (nothing_active-RoundOk m r v)
      | inr found ↦ rw found (take_turn-RoundOk m fair r found v w)
    ]

    -- One round never faults: there is a lane to poll where one is popped, and it is live.
    round-RoundOk :
        (m : ℕ) (fair : Bool) (r : Receiver A)
        → ReceiverOk r
        → weight r ≤ m
        → Ensures (round (release item) fair r) (RoundOk m)
    unfolding round
    round-RoundOk m fair r v w = elim (Bool-cases (is_empty r.active)) [
      | inl none_yet ↦ rw none_yet (
          Ensures-bind (collect_ready true r) _ (Gathered 0 m) (RoundOk m)
            (collect_ready-Gathered 0 m true r (v, omega arith, w)) (after_found-RoundOk m fair))
      | inr waiting ↦ rw waiting (elim (Bool-cases (r.items_until_ready_poll == 0)) [
        | inl due ↦ rw due (
            Ensures-bind (collect_ready false r) _ (Gathered 1 m) (RoundOk m)
              (collect_ready-Gathered 1 m false r (v, none_active r.active waiting, w))
              (λ r' h. take_turn-RoundOk m fair _ (some_active r'.active h.1) h.0 h.2))
        | inr not_due ↦ rw not_due (take_turn-RoundOk m fair r waiting v w)
      ])
    ]

    Light-weaken : (m n : ℕ) (o : Option (Answer O) × Receiver A) → m ≤ n → Light m o → Light n o
    Light-weaken m n (none, r) le h = omega arith
    Light-weaken m n (some (Result.ok x, released), r) le h = tt
    Light-weaken m n (some (Result.err TryRecvError.disconnected, released), r) le h = tt
    Light-weaken m n (some (Result.err TryRecvError.empty, none), r) le h = tt
    Light-weaken m n (some (Result.err TryRecvError.empty, some key), r) le h = omega arith

    -- The result of the loop, if it is through.
    abbrev pub InnerOk : ℕ → ℕ → Option (Answer O) × Receiver A → Type ℓ
    InnerOk fuel m (none, r) = ReceiverOk r × (fuel ≤ m)
    InnerOk fuel m (some a, r) = ReceiverOk r × Light m (some a, r)

    InnerOk-weaken :
        (fuel m n : ℕ) (o : Option (Answer O) × Receiver A)
        → suc m ≤ n
        → InnerOk fuel m o
        → InnerOk (suc fuel) n o
    InnerOk-weaken fuel m n (none, r) le (v, h) = (v, omega arith)
    InnerOk-weaken fuel m n (some a, r) le (v, h) =
        (v, Light-weaken m n (some a, r) (omega arith) h)

    after_round-InnerOk :
        (fuel m : ℕ) (fair : Bool)
        → ((r : Receiver A)
            → ReceiverOk r
            → Ensures (try_recv_inner (release item) fuel fair r) (InnerOk fuel (weight r)))
        → (o : Option (Answer O) × Receiver A) → RoundOk m o
        → Ensures
            (elim o.0 [
              | none ↦ try_recv_inner (release item) fuel fair o.1
              | some a ↦ done (some a, o.1)
            ])
            (InnerOk (suc fuel) m)
    after_round-InnerOk fuel m fair again (none, r') (v, less) =
        Ensures-weaken (try_recv_inner (release item) fuel fair r') (InnerOk fuel (weight r'))
          (InnerOk (suc fuel) m) (again r' v) (λ o h. InnerOk-weaken fuel (weight r') m o less h)
    after_round-InnerOk fuel m fair again (some a, r') h = h

    -- The loop never faults, and is through once the fuel exceeds the weight.
    pub try_recv_inner-InnerOk :
        (fuel : ℕ) (fair : Bool) (r : Receiver A)
        → ReceiverOk r
        → Ensures (try_recv_inner (release item) fuel fair r) (InnerOk fuel (weight r))
    unfolding try_recv_inner
    try_recv_inner-InnerOk zero fair r v = (v, omega arith)
    try_recv_inner-InnerOk (suc fuel) fair r v =
        Ensures-bind (round (release item) fair r) _ (RoundOk (weight r))
          (InnerOk (suc fuel) (weight r)) (round-RoundOk (weight r) fair r v (omega arith))
          (after_round-InnerOk fuel (weight r) fair (try_recv_inner-InnerOk fuel fair))
