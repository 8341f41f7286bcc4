-- ===== src/Receiver/Round.antt =====
-- The rounds of the nonblocking receive keep the rotation.
use fanring_rs.Base.{
  ℕ, zero, suc, ◌≤◌, ◌≡◌, ◌≢◌, refl, sym, ap, ◌∙◌, arith, Bool, true, false, Option, none, some,
  List, ◌∷◌, length, get_elem?, ◌==◌, if◌then◌else◌, Bool-cases, inl, inr, done, ◌>>=◌, Ensures,
  Ensures-bind, eq→==,
}
use mathlib.Core.Path.{subst}
use fanring_rs.Lane.Defs.{Lane, LanePoll, poll}
use fanring_rs.Lane.Defs
use fanring_rs.Registry.Defs.{LaneKey}
use fanring_rs.Receiver.Defs.{
  Receiver, Keyed, lane_at, put_lane, current, with_key, key_eq, retire_lane, is_disconnected,
}
use fanring_rs.Receiver.Collect.{retire_if, retire_found_empty, retire_empty_from, is_drained}
use fanring_rs.Receiver.Rotation.{
  count, queued_in, key_in, AllCurrent, AllSound, Sound, update-RotationOk, lane_at-some,
  lane_at-set,
}
use fanring_rs.Receiver.Retain.{key_eq_self}
use fanring_rs.Receiver.Adopt.{ReceiverOk}
use fanring_rs.Receiver.Sound.{reload_is_empty-Sound}
use fanring_rs.Receiver.Kept.{
  SharedOk-put, is_paused_lem, put_lane-ReceiverOk, retire_lane-ReceiverOk,
}

module _ {ℓ} {A : Type ℓ} where
  -- The front key taken off, its lane polled: the lane goes back to an end, or stays out.
  pub back-ReceiverOk :
      (r : Receiver A) (key : LaneKey) (rest active' : List LaneKey) (k k' : Keyed A)
      → ReceiverOk (record r { active = key ∷ rest })
      → lane_at r.lanes key.slot ≡ some k
      → k'.key ≡ k.key
      → k'.lane.queued ≡ k.lane.queued
      → Sound k'.lane
      → ((slot : ℕ) → count slot active' ≡ count slot (key ∷ rest))
      → AllCurrent r.lanes active'
      → ReceiverOk (record (put_lane key.slot (some k') r) { active = active' })
  back-ReceiverOk r key rest active' k k' (ok, h) e same queued good counts all =
      let own =
        counts key.slot
        ∙ ok.counted key.slot
        ∙ ap queued_in e
        ∙ ap (λ b. if b then 1 else 0) (sym queued) in
      (
        update-RotationOk r.lanes (key ∷ rest) active' r.paused r.paused key.slot k k' ok e same
            good refl (λ other d. (counts other, refl)) own
            (λ p. sym own ∙ counts key.slot ∙ ok.counted key.slot ∙ ok.still key.slot p) all,
        SharedOk-put r.lanes key.slot k k' r.shared.pending r.shared.registry e h,
      )

  pub out-ReceiverOk :
      (r : Receiver A) (key : LaneKey) (rest : List LaneKey) (k k' : Keyed A)
      → ReceiverOk (record r { active = key ∷ rest })
      → lane_at r.lanes key.slot ≡ some k
      → k'.key ≡ k.key
      → k'.lane.queued ≡ false
      → Sound k'.lane
      → ReceiverOk (record (put_lane key.slot (some k') r) { active = rest })
  out-ReceiverOk r key rest k k' (ok, h) e same out good =
      let here : (key.slot == key.slot) ≡ true = eq→== key.slot key.slot refl in
      let most : queued_in (some k) ≤ 1 = ground arith in
      let all_here : count key.slot (key ∷ rest) ≡ suc (count key.slot rest) =
        rw here (omega arith) in
      let z : count key.slot rest ≡ 0 =
        omega (arith, ok.counted key.slot ∙ ap queued_in e, most, all_here) in
      let none_queued : queued_in (some k') ≡ 0 = rw out refl in
      (
        update-RotationOk r.lanes (key ∷ rest) rest r.paused r.paused key.slot k k' ok e same good
            refl (λ other d. (other_lem other d, refl)) (z ∙ sym none_queued) (λ p. none_queued)
            ok.all_current.1,
        SharedOk-put r.lanes key.slot k k' r.shared.pending r.shared.registry e h,
      )
    where
      other_lem : (other : ℕ) → key.slot ≢ other → count other rest ≡ count other (key ∷ rest)
      other_lem other d =
          let no_hit : (key.slot == other) ≡ false = ground arith in rw no_hit (omega arith)

  pub lane_at_put :
      (r : Receiver A) (slot : ℕ) (k k' : Keyed A)
      → lane_at r.lanes slot ≡ some k
      → lane_at (put_lane slot (some k') r).lanes slot ≡ some k'
  lane_at_put r slot k k' e = lane_at-set r.lanes slot (some k') (lane_at-some r.lanes slot k e)

  put_lane-active :
      (r : Receiver A) (slot : ℕ) (k : Option (Keyed A)) (active : List LaneKey)
      → put_lane slot k (record r { active = active })
        ≡ record (put_lane slot k r) { active = active }
  put_lane-active r slot k active = refl

  -- The front key is that of a lane.
  pub front_lane :
      (r : Receiver A) (key : LaneKey) (rest : List LaneKey)
      → ReceiverOk (record r { active = key ∷ rest })
      → (k : Keyed A) × (lane_at r.lanes key.slot ≡ some k)
        × (k.key ≡ key)
        × (current r key ≡ some k)
  front_lane r key rest (ok, h) = by_lane (lane_at r.lanes key.slot) refl ok.all_current.0
    where
      if_hit : (k : Keyed A) → key_eq k.key key ≡ true → with_key key (some k) ≡ some k
      if_hit k t = rw t refl

      by_lane :
          (o : Option (Keyed A))
          → lane_at r.lanes key.slot ≡ o
          → key_in (lane_at r.lanes key.slot) ≡ some key
          → (k : Keyed A) × (lane_at r.lanes key.slot ≡ some k)
            × (k.key ≡ key)
            × (current r key ≡ some k)
      by_lane none e c = absurd (let f = sym (ap key_in e) ∙ c in cc)
      by_lane (some k) e c =
          let f : some k.key ≡ some key = sym (ap key_in e) ∙ c in
          let g : k.key ≡ key = cc in
          let t : key_eq k.key key ≡ true =
            subst (λ n. key_eq k.key n ≡ true) g (key_eq_self k.key) in
          (k, e, g, ap (with_key key) e ∙ if_hit k t)

  retire_if-ReceiverOk :
      (k : Keyed A) (slot : ℕ) (r : Receiver A) (paused : Bool)
      → ReceiverOk r
      → lane_at r.lanes slot ≡ some k
      → get_elem? r.paused slot ≡ some paused
      → Ensures (retire_if k slot r paused) ReceiverOk
  retire_if-ReceiverOk k slot r false v e p = v
  retire_if-ReceiverOk k slot r true v e p =
      let (good, queued) = reload_is_empty-Sound k.lane (subst AllSound e (v.0.sound slot)) in
      let k' : Keyed A = record k { lane = (Defs.reload_is_empty k.lane).1 } in
      let v' = put_lane-ReceiverOk r slot k k' v e refl queued good in
      let s : k.key.slot ≡ slot = v.0.keyed slot k e in
      let e' = lane_at_put r slot k k' e in
      let out : queued_in (some k') ≡ 0 =
        ap (λ b. if b then 1 else 0) queued ∙ ap queued_in (sym e) ∙ v.0.still slot p in
      by_empty (Defs.reload_is_empty k.lane).0 (put_lane slot (some k') r)
        (retire_lane k.key (put_lane slot (some k') r)) v'
        (retire_lane-ReceiverOk (put_lane slot (some k') r) k.key k' v'
          (subst (λ i. lane_at (put_lane slot (some k') r).lanes i ≡ some k') (sym s) e') out)
    where
      by_empty :
          (b : Bool) (r' r'' : Receiver A)
          → ReceiverOk r'
          → ReceiverOk r''
          → ReceiverOk (if b then r'' else r')
      by_empty true r' r'' v v' = v'
      by_empty false r' r'' v v' = v

  retire_empty_from-ReceiverOk :
      (left slot : ℕ) (r : Receiver A)
      → ReceiverOk r
      → Ensures (retire_empty_from left slot r) ReceiverOk
  unfolding retire_empty_from
  retire_empty_from-ReceiverOk zero slot r v = v
  retire_empty_from-ReceiverOk (suc left) slot r v =
      Ensures-bind (retire_found_empty (lane_at r.lanes slot) slot r)
        (retire_empty_from left (suc slot)) ReceiverOk ReceiverOk
        (by_lane (lane_at r.lanes slot) refl) (retire_empty_from-ReceiverOk left (suc slot))
    where
      by_lane :
          (o : Option (Keyed A))
          → lane_at r.lanes slot ≡ o
          → Ensures (retire_found_empty o slot r) ReceiverOk
      by_lane none e = v
      by_lane (some k) e =
          let (b, f, p) = is_paused_lem r slot k v.0 e in
          subst (λ m. Ensures (m >>= retire_if k slot r) ReceiverOk) (sym f)
            (retire_if-ReceiverOk k slot r b v e p)

  abbrev pub DrainOk : Bool × Receiver A → Type ℓ
  DrainOk o = ReceiverOk o.1

  pub is_drained-ReceiverOk : (r : Receiver A) → ReceiverOk r → Ensures (is_drained r) DrainOk
  unfolding is_drained
  is_drained-ReceiverOk r v =
      let retired =
        Ensures-bind (retire_empty_from (length r.lanes) 0 r)
          (λ r'. done ((r'.shared.registered_lanes == 0), r')) ReceiverOk DrainOk
          (retire_empty_from-ReceiverOk (length r.lanes) 0 r v) (λ r' v'. v') in
      elim (Bool-cases (is_disconnected r)) [
        | inr on ↦ rw on v
        | inl off ↦ rw off (elim (Bool-cases (r.shared.registered_lanes == 0)) [
          | inl none_left ↦ rw none_left v
          | inr some_left ↦ rw some_left retired
        ])
      ]
