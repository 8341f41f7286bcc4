-- ===== src/Receiver/Controlled.antt =====
-- Pausing, resuming, targeted receives and closing keep the rotation.
use fanring_rs.Base.{
  ℕ, zero, suc, ◌≡◌, ◌≢◌, refl, sym, ap, ◌∙◌, arith, Bool, true, false, Option, none, some, List,
  [], ◌∷◌, ◌++◌, length, length-set, set, get_elem?, get_elem?-set_self, get_elem?-set_ne, ◌==◌,
  if◌then◌else◌, Bool-cases, inl, inr, Result, Ensures,
}
use mathlib.Core.Path.{subst}
use fanring_rs.Error.{RecvError}
use fanring_rs.Lane.Defs.{Lane}
use fanring_rs.Lane.Defs
use fanring_rs.Registry.Defs.{LaneKey}
use fanring_rs.Receiver.Index.{mark_slot}
use fanring_rs.Receiver.Defs.{
  Receiver, Keyed, LaneId, lane_at, put_lane, current, mark, retain_other, is_paused,
}
use fanring_rs.Receiver.Collect.{refresh_registry}
use fanring_rs.Receiver.Control.{
  lane_mut, with_lane, pause, pause_lane, pause_found, resume, resume_found, requeue,
}
use fanring_rs.Receiver.Rotation.{
  queued_in, key_in, AllSound, Sound, update-RotationOk, lane_at-some,
}
use fanring_rs.Receiver.Retain.{count-retain}
use fanring_rs.Receiver.Adopt.{ReceiverOk, refresh_registry-ReceiverOk}
use fanring_rs.Receiver.Sound.{Sound-flags, release_pending-Sound, release_pending-queued}
use fanring_rs.Receiver.Kept.{
  SharedOk-put, current_lem, is_paused_lem, notify_if_lem, put_lane-ReceiverOk,
}
use fanring_rs.Receiver.Gather.{join-ReceiverOk}

-- A cleared flag was not set after.
cleared :
    (flags : List Bool) (slot i : ℕ)
    → get_elem? (set flags slot false) i ≡ some true
    → get_elem? flags i ≡ some true
cleared [] slot i p = p
cleared (b ∷ bs) zero zero p = cc
cleared (b ∷ bs) zero (suc i) p = p
cleared (b ∷ bs) (suc slot) zero p = p
cleared (b ∷ bs) (suc slot) (suc i) p = cleared bs slot i p

module _ {ℓ} {A : Type ℓ} where
  -- The lane of an ID, in a receiver in order.
  abbrev pub FoundOk : LaneId → Option (Keyed A) × Receiver A → Type ℓ
  FoundOk id (none, r) = ReceiverOk r
  FoundOk id (some k, r) = ReceiverOk r × (lane_at r.lanes id.key.slot ≡ some k) × (k.key ≡ id.key)

  pub lane_mut-FoundOk : (id : LaneId) (r : Receiver A) → ReceiverOk r → FoundOk id (lane_mut id r)
  lane_mut-FoundOk id r v = elim (Bool-cases (r.shared.channel_id == id.channel_id)) [
    | inl same ↦ rw same (by_lane (current (refresh_registry r) id.key) refl)
    | inr other ↦ rw other v
  ]
    where
      by_lane :
          (o : Option (Keyed A))
          → current (refresh_registry r) id.key ≡ o
          → FoundOk id (o, refresh_registry r)
      by_lane none e = refresh_registry-ReceiverOk r v
      by_lane (some k) e =
          let (here, same) = current_lem (refresh_registry r) id.key k e in
          (refresh_registry-ReceiverOk r v, here, same)

  -- A lane taken out of the rotation, and paused if wanted.
  pub leave-ReceiverOk :
      (r : Receiver A) (key : LaneKey) (k k' : Keyed A) (paused : List Bool)
      → ReceiverOk r
      → lane_at r.lanes key.slot ≡ some k
      → k.key ≡ key
      → k'.key ≡ k.key
      → k'.lane.queued ≡ false
      → Sound k'.lane
      → length paused ≡ length r.paused
      → ((other : ℕ) → key.slot ≢ other → get_elem? paused other ≡ get_elem? r.paused other)
      → ReceiverOk (record (put_lane key.slot (some k') r) {
        active = retain_other key r.active;
        paused = paused;
      })
  leave-ReceiverOk r key k k' paused (v, h) e named same out good size others =
      let (gone, kept, counts) =
        count-retain r.lanes key r.active (ap key_in e ∙ ap some named) v.all_current in
      let none_queued : queued_in (some k') ≡ 0 = rw out refl in
      (
        update-RotationOk r.lanes r.active (retain_other key r.active) r.paused paused key.slot k k'
            v e same good size (λ other d. (counts other d, others other d))
            (gone ∙ sym none_queued) (λ p. none_queued) kept,
        SharedOk-put r.lanes key.slot k k' r.shared.pending r.shared.registry e h,
      )

  pause_lane-out :
      (k : Keyed A)
      → Sound k.lane
      → Sound (pause_lane k).lane
        × ((pause_lane k).lane.queued ≡ false)
        × ((pause_lane k).key ≡ k.key)
  pause_lane-out k good =
      let out : Lane A = record k.lane { queued = false } in
      let r = Defs.release_pending out in
      let (lane, key) = notify_if_lem r.0 (with_lane k r.1) in
      let good' = release_pending-Sound out (Sound-flags k.lane k.lane.pending false good) in
      (subst Sound (sym lane) good', ap (λ l. l.queued) lane ∙ release_pending-queued out, key)

  abbrev pub ControlOk : Result (Unit {0}) RecvError × Receiver A → Type ℓ
  ControlOk o = ReceiverOk o.1

  not_queued : (k : Keyed A) → queued_in (some k) ≡ 0 → k.lane.queued ≡ false
  not_queued k h = by_flag k.lane.queued h
    where
      by_flag :
          (b : Bool)
          → queued_in (some (record k { lane = record k.lane { queued = b } })) ≡ 0
          → b ≡ false
      by_flag true h = absurd (omega arith)
      by_flag false h = refl

  pub is_paused-put :
      (r : Receiver A) (slot other : ℕ) (k : Option (Keyed A))
      → is_paused (put_lane slot k r) other ≡ is_paused r other
  unfolding is_paused
  is_paused-put r slot other k = refl

  pause_found-ControlOk :
      (id : LaneId) (o : Option (Keyed A) × Receiver A)
      → FoundOk id o
      → Ensures (pause_found id o) ControlOk
  pause_found-ControlOk id (none, r) f = f
  pause_found-ControlOk id (some k, r) (v, here, named) =
      let (b, f, p) = is_paused_lem r id.key.slot k v.0 here in
      let (good, out, same) = pause_lane-out k (subst AllSound here (v.0.sound id.key.slot)) in
      rw (is_paused-put r id.key.slot id.key.slot (some (pause_lane k)) ∙ f)
        (by_flag b p good out same)
    where
      by_flag :
          (b : Bool)
          → get_elem? r.paused id.key.slot ≡ some b
          → Sound (pause_lane k).lane
          → (pause_lane k).lane.queued ≡ false
          → (pause_lane k).key ≡ k.key
          → let r' = put_lane id.key.slot (some (pause_lane k)) r in
            ReceiverOk (
              if b then r' else record r' {
                paused = set r'.paused id.key.slot true;
                active = retain_other id.key r'.active;
              })
      by_flag true p good out same =
          put_lane-ReceiverOk r id.key.slot k (pause_lane k) v here same
            (out ∙ sym (not_queued k (ap queued_in (sym here) ∙ v.0.still id.key.slot p))) good
      by_flag false p good out same =
          leave-ReceiverOk r id.key k (pause_lane k) (set r.paused id.key.slot true) v here named
            same out good (length-set r.paused id.key.slot true)
            (λ other d. get_elem?-set_ne r.paused id.key.slot other true d)

  -- Pausing a lane never faults and takes it out of the rotation.
  pub pause-ReceiverOk :
      (id : LaneId) (r : Receiver A) → ReceiverOk r → Ensures (pause id r) ControlOk
  unfolding pause
  pause-ReceiverOk id r v = pause_found-ControlOk id (lane_mut id r) (lane_mut-FoundOk id r v)

  -- A lane out of the rotation joins it and is marked; the mark is no part of the rotation.
  pub requeue-ReceiverOk :
      (r : Receiver A) (slot : ℕ) (k : Keyed A)
      → ReceiverOk r
      → lane_at r.lanes slot ≡ some k
      → k.lane.queued ≡ false
      → get_elem? r.paused slot ≡ some false
      → ReceiverOk (requeue k r)
  unfolding mark
  requeue-ReceiverOk r slot k v here out open_ =
      let s : k.key.slot ≡ slot = v.0.keyed slot k here in
      by_pending k.lane.pending (subst (λ i. lane_at r.lanes i ≡ some k) (sym s) here)
        (subst (λ i. get_elem? r.paused i ≡ some false) (sym s) open_)
    where
      by_pending :
          (b : Bool)
          → lane_at r.lanes k.key.slot ≡ some k
          → get_elem? r.paused k.key.slot ≡ some false
          → let k' : Keyed A = record k {
            lane = record k.lane { queued = true; pending = true };
          } in
            let marked = put_lane k.key.slot (some k') r in
            let r' : Receiver A = if b then marked else record marked {
              shared = record r.shared { index = mark_slot k.key.slot r.shared.index };
            } in
            ReceiverOk (record r' { active = r'.active ++ (k.key ∷ []) })
      by_pending b here open_ =
          let joined =
            join-ReceiverOk r k.key.slot k
              (record k { lane = record k.lane { queued = true; pending = true } }) v here refl out
              refl open_
              (Sound-flags k.lane true true (subst AllSound here (v.0.sound k.key.slot))) in
          elim (Bool-cases b) [ inl set_ ↦ rw set_ joined | inr unset ↦ rw unset joined ]

  -- A lane that is no longer paused may be in the rotation or not.
  unpaused :
      (r : Receiver A) (slot : ℕ)
      → ReceiverOk r
      → ReceiverOk (record r { paused = set r.paused slot false })
  unpaused r slot (v, h) = (
    record {
      sized = length-set r.paused slot false ∙ v.sized;
      counted = v.counted;
      keyed = v.keyed;
      all_current = v.all_current;
      still = λ i p. v.still i (cleared r.paused slot i p);
      sound = v.sound;
    },
    h,
  )

  resume_found-ControlOk :
      (id : LaneId) (o : Option (Keyed A) × Receiver A)
      → FoundOk id o
      → Ensures (resume_found id o) ControlOk
  resume_found-ControlOk id (none, r) f = f
  resume_found-ControlOk id (some k, r) (v, here, named) =
      let (b, f, p) = is_paused_lem r id.key.slot k v.0 here in rw f (by_flag b p)
    where
      by_flag :
          (b : Bool)
          → get_elem? r.paused id.key.slot ≡ some b
          → let r' = requeue k (record r { paused = set r.paused id.key.slot false }) in
            ReceiverOk (
              if b
              then record r' { shared = record r'.shared { notified = suc r'.shared.notified } }
              else r)
      by_flag false p = v
      by_flag true p =
          requeue-ReceiverOk (record r { paused = set r.paused id.key.slot false }) id.key.slot k
            (unpaused r id.key.slot v) here
            (not_queued k (ap queued_in (sym here) ∙ v.0.still id.key.slot p))
            (get_elem?-set_self r.paused id.key.slot false
              (omega (arith, v.0.sized, lane_at-some r.lanes id.key.slot k here)))

  -- Resuming a lane never faults and puts a paused one back into the rotation.
  pub resume-ReceiverOk :
      (id : LaneId) (r : Receiver A) → ReceiverOk r → Ensures (resume id r) ControlOk
  unfolding resume
  resume-ReceiverOk id r v = resume_found-ControlOk id (lane_mut id r) (lane_mut-FoundOk id r v)
