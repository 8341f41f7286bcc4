-- ===== src/Receiver/Targeted.antt =====
-- Targeted receives and the closing of a lane keep the rotation.
use fanring_rs.Base.{
  ℕ, zero, suc, ◌<◌, ◌≡◌, refl, sym, ap, ◌∙◌, arith, Bool, true, false, not, ◌&&◌, Option, none,
  some, List, [], ◌∷◌, length, set, get_elem?, ◌==◌, if◌then◌else◌, inl, inr, Result, done, ◌>>=◌,
  >>=-eq-done, done-inj, Ensures, eq→==, wrapping_add, wrapping_sub,
}
use mathlib.Core.Path.{subst}
use mathlib.Core.Logic.{Lift}
use fanring_rs.Error.{TryRecvError}
use fanring_rs.Yring.Queue.{Queue}
use fanring_rs.Yring.Sim.Receive.{refilled}
use fanring_rs.Lane.Defs.{Lane, EmptyLane}
use fanring_rs.Lane.Defs
use fanring_rs.Lane.Window.{LaneOk, reopen-LaneOk}
use fanring_rs.Lane.Settle.{settle_empty-LaneOk}
use fanring_rs.Lane.Poll.{if-true, cached-cons, refill-none, refill-some, refilled-none}
use fanring_rs.Lane.Take.{pop_targeted-LaneOk}
use fanring_rs.Receiver.Defs.{
  Receiver, Keyed, LaneId, lane_at, put_lane, is_paused, notify_if, retire_lane,
}
use fanring_rs.Receiver.Control.{
  lane_mut, with_lane, requeue, take_from, after_refill, try_recv_found, try_recv_from, close_lane,
  close_found, shut,
}
use fanring_rs.Receiver.Rotation.{AllSound, Sound, lane_at-some, lane_at-set}
use fanring_rs.Receiver.Retain.{remove-RotationOk}
use fanring_rs.Receiver.Adopt.{ReceiverOk}
use fanring_rs.Receiver.Sound.{
  Sound-flags, list-cases, nothing_published, reload-queued, release_full_batch-queued,
  expect_pop-queued,
}
use fanring_rs.Receiver.Kept.{
  SharedOk-retire, is_paused_lem, notify_if_lem, put_lane-ReceiverOk, retire_lane-ReceiverOk,
}
use fanring_rs.Receiver.Controlled.{
  FoundOk, ControlOk, lane_mut-FoundOk, leave-ReceiverOk, requeue-ReceiverOk,
}

set-set {ℓ} : {A : Type ℓ} (xs : List A) (i : ℕ) (a b : A) → set (set xs i a) i b ≡ set xs i b
set-set [] i a b = refl
set-set (x ∷ xs) zero a b = refl
set-set (x ∷ xs) (suc i) a b = ap (λ ys. x ∷ ys) (set-set xs i a b)

module _ {ℓ} {A : Type ℓ} where
  -- A refill finds a value at the head of the window, or an idle lane.
  abbrev RefillOk : Lane A → Option EmptyLane × Lane A → Type ℓ
  RefillOk l (none, m) =
      (q : Queue A) × (x : A) × (xs : List A) × LaneOk m q
      × (m.fast_left ≡ 0)
      × (q.window ≡ x ∷ xs)
      × (m.burst < 64)
      × (m.queued ≡ l.queued)
  RefillOk l (some (EmptyLane.keep released), m) = Lift ⊥
  RefillOk l (some (EmptyLane.idle disconnected released), m) = Sound m × (m.queued ≡ false)

  refill-RefillOk : (l : Lane A) → Sound l → RefillOk l (Defs.refill l)
  refill-RefillOk l (q, v, b) =
      let (v', shut_, b') = reopen-LaneOk l q v in
      elim (list-cases (refilled q).window) [
        | inr (x, xs, e) ↦
            let (_, some_left) = cached-cons _ (refilled q) x xs v'.1 shut_ e in
            subst (RefillOk l) (sym (refill-none l some_left))
              (refilled q, x, xs, v', shut_, e, omega arith, reload-queued l)
        | inl e ↦
            let (w, h) = nothing_published q e in
            let v'' : LaneOk (Defs.reload (Defs.close_fast l)) q =
              subst (LaneOk _) (refilled-none q q.window q.hidden w h) v' in
            let len : length q.window ≡ 0 = ap length w in
            let none_left : ((Defs.reload (Defs.close_fast l)).cached_available == 0) ≡ true =
              ground (arith, v''.1) in
            let (kept, burst, res, pending, out) = settle_empty-LaneOk _ q v'' w in
            let hid : (length q.hidden == 0) ≡ true = eq→== (length q.hidden) 0 (ap length h) in
            subst (RefillOk l)
              (sym (
                refill-some l none_left
                ∙ ap (λ r. (some r, (Defs.settle_empty (Defs.reload (Defs.close_fast l))).1))
                    (res ∙ if-true _ (length q.hidden == 0) hid)))
              ((_, kept, omega (arith, burst)), out ∙ if-true _ (length q.hidden == 0) hid)
      ]

  pop_targeted-queued :
      (l : Lane A) (v : A) (released : Bool) (m : Lane A)
      → Defs.pop_targeted l ≡ done (v, released, m)
      → m.queued ≡ l.queued
  unfolding Defs.pop_targeted
  pop_targeted-queued l v released m e =
      let ((x, m0), f, g) = >>=-eq-done (Defs.expect_pop l) _ e in
      let n : Lane A = record m0 {
        cached_available = wrapping_sub m0.cached_available 1;
        unreleased = wrapping_add m0.unreleased 1;
      } in
      ap (λ r. r.2.queued) (sym (done-inj g))
      ∙ release_full_batch-queued n
      ∙ expect_pop-queued l x m0 f

  abbrev TargetOk : Result A TryRecvError × Receiver A → Type ℓ
  TargetOk o = ReceiverOk o.1

  requeue_if-ReceiverOk :
      (r : Receiver A) (slot : ℕ) (k : Keyed A) (paused queued : Bool)
      → ReceiverOk r
      → lane_at r.lanes slot ≡ some k
      → get_elem? r.paused slot ≡ some paused
      → k.lane.queued ≡ queued
      → ReceiverOk (if not paused && not queued then requeue k r else r)
  requeue_if-ReceiverOk r slot k true queued v here p f = v
  requeue_if-ReceiverOk r slot k false true v here p f = v
  requeue_if-ReceiverOk r slot k false false v here p f = requeue-ReceiverOk r slot k v here f p

  take_from-TargetOk :
      (id : LaneId) (r : Receiver A) (k k0 : Keyed A) (q : Queue A) (x : A) (xs : List A)
      → ReceiverOk r
      → lane_at r.lanes id.key.slot ≡ some k0
      → k.key ≡ k0.key
      → k.lane.queued ≡ k0.lane.queued
      → LaneOk k.lane q
      → k.lane.fast_left ≡ 0
      → q.window ≡ x ∷ xs
      → k.lane.burst < 64
      → Ensures (take_from id k r) TargetOk
  take_from-TargetOk id r k k0 q x xs v here same queued lane_ok shut_ w b =
      let (m, f, good, burst) = pop_targeted-LaneOk k.lane q x xs lane_ok shut_ w in
      let still_queued = pop_targeted-queued k.lane x _ m f in
      rw f (
        put_back (suc q.unreleased == Defs.batch_for q.capacity) m (_, good, omega arith)
          (still_queued ∙ queued))
    where
      put_back :
          (released : Bool) (m : Lane A)
          → Sound m
          → m.queued ≡ k0.lane.queued
          → let k' = notify_if released (with_lane k m) in
            let r' = put_lane id.key.slot (some k') r in
            Ensures
              (is_paused r' id.key.slot >>= (λ paused.
                done (Result.ok x, if not paused && not k'.lane.queued then requeue k' r' else r')))
              TargetOk
      put_back released m good same_queued =
          let k' = notify_if released (with_lane k m) in
          let (lane, key) = notify_if_lem released (with_lane k m) in
          let r' = put_lane id.key.slot (some k') r in
          let v' : ReceiverOk r' =
            put_lane-ReceiverOk r id.key.slot k0 k' v here (key ∙ same)
              (ap (λ l. l.queued) lane ∙ same_queued) (subst Sound (sym lane) good) in
          let here' : lane_at r'.lanes id.key.slot ≡ some k' =
            lane_at-set r.lanes id.key.slot (some k') (lane_at-some r.lanes id.key.slot k0 here) in
          let (p, f, g) = is_paused_lem r' id.key.slot k' v'.0 here' in
          rw f (requeue_if-ReceiverOk r' id.key.slot k' p k'.lane.queued v' here' g refl)

  refilled-TargetOk :
      (id : LaneId) (r : Receiver A) (k : Keyed A) (o : Option EmptyLane × Lane A)
      → ReceiverOk r
      → lane_at r.lanes id.key.slot ≡ some k
      → k.key ≡ id.key
      → RefillOk k.lane o
      → Ensures (after_refill id k r o) TargetOk
  refilled-TargetOk id r k (none, m) v here named (q, x, xs, lane_ok, shut_, w, b, queued) =
      take_from-TargetOk id r (with_lane k m) k q x xs v here refl queued lane_ok shut_ w b
  refilled-TargetOk id r k (some (EmptyLane.keep released), m) v here named h = absurd h.lower
  refilled-TargetOk id r k (some (EmptyLane.idle disconnected released), m) v here named
        (good, out) =
      let k' = notify_if released (with_lane k m) in
      let (lane, key) = notify_if_lem released (with_lane k m) in
      let out' = ap (λ l. l.queued) lane ∙ out in
      let left =
        leave-ReceiverOk r id.key k k' r.paused v here named key out' (subst Sound (sym lane) good)
          refl (λ other d. refl) in
      by_end disconnected _ left (
        retire_lane-ReceiverOk _ id.key k' left
          (lane_at-set r.lanes id.key.slot (some k') (lane_at-some r.lanes id.key.slot k here))
          (rw out' refl))
    where
      by_end :
          (b : Bool) (r : Receiver A)
          → ReceiverOk r
          → ReceiverOk (retire_lane id.key r)
          → TargetOk (
              if b
              then (Result.err TryRecvError.disconnected, retire_lane id.key r)
              else (Result.err TryRecvError.empty, r))
      by_end true r v v' = v'
      by_end false r v v' = v

  try_recv_found-TargetOk :
      (id : LaneId) (o : Option (Keyed A) × Receiver A)
      → FoundOk id o
      → Ensures (try_recv_found id o) TargetOk
  try_recv_found-TargetOk id (none, r) f = f
  try_recv_found-TargetOk id (some k, r) (v, here, named) =
      refilled-TargetOk id r k (Defs.refill k.lane) v here named
        (refill-RefillOk k.lane (subst AllSound here (v.0.sound id.key.slot)))

  -- A targeted receive never faults and keeps the rotation.
  pub try_recv_from-TargetOk :
      (id : LaneId) (r : Receiver A) → ReceiverOk r → Ensures (try_recv_from id r) TargetOk
  unfolding try_recv_from
  try_recv_from-TargetOk id r v =
      try_recv_found-TargetOk id (lane_mut id r) (lane_mut-FoundOk id r v)

  close_found-ControlOk :
      (id : LaneId) (o : Option (Keyed A) × Receiver A)
      → FoundOk id o
      → ControlOk (close_found id o)
  unfolding retire_lane
  close_found-ControlOk id (none, r) f = f
  close_found-ControlOk id (some k, r) (v, here, named) =
      let slot = id.key.slot in
      let room = lane_at-some r.lanes slot k here in
      let k' : Keyed A = record k { lane = record k.lane { queued = false } } in
      let left =
        leave-ReceiverOk r id.key k k' r.paused v here named refl refl
          (Sound-flags k.lane k.lane.pending false (subst AllSound here (v.0.sound slot))) refl
          (λ other d. refl) in
      let gone =
        remove-RotationOk _ _ _ slot k' left.0 (lane_at-set r.lanes slot (some k') room) refl in
      rw (lane_at-set r.lanes slot (some (shut k)) room) (
        rw (set-set r.lanes slot (some (shut k)) none)
            (rw (set-set r.lanes slot (some k') none) at gone),
        rw (set-set r.lanes slot (some (shut k)) none)
            (SharedOk-retire r.lanes id.key k r.shared.pending r.shared.registry here v.1),
      )

  -- Closing a lane takes it out of the rotation and frees its slot.
  pub close_lane-ControlOk :
      (id : LaneId) (r : Receiver A) → ReceiverOk r → ControlOk (close_lane id r)
  unfolding close_lane
  close_lane-ControlOk id r v = close_found-ControlOk id (lane_mut id r) (lane_mut-FoundOk id r v)
