-- ===== src/Receiver/Kept.antt =====
-- Changes of one lane that keep the receiver's rotation.
use fanring_rs.Base.{
  ℕ, zero, suc, ◌<◌, ◌≡◌, refl, sym, ap, ◌∙◌, arith, Bool, true, false, Option, none, some, List,
  [], ◌∷◌, length, set, get_elem?, if◌then◌else◌, Bool-cases, inl, inr, done,
}
use mathlib.Core.Path.{subst}
use fanring_rs.Registry.Defs.{LaneKey, Registry, or_fault, retire_lane as free_key}
use fanring_rs.Receiver.Defs.{
  Receiver, Keyed, PendingLane, lane_at, current, with_key, key_eq, is_paused, put_lane,
  retire_lane, notify_space, notify_if,
}
use fanring_rs.Receiver.Rotation.{
  queued_in, Sound, RotationOk, lane_at-some, lane_at_other, update-RotationOk,
}
use fanring_rs.Receiver.Retain.{key_eq_eq, remove-RotationOk}
use fanring_rs.Receiver.Adopt.{PendingOk, PendingOk-map, SharedOk, ReceiverOk}
use fanring_rs.Receiver.Slots.{put-SlotsOk, retire-SlotsOk}

get_elem?-some {ℓ} :
    {B : Type ℓ} (xs : List B) (i : ℕ) → i < length xs → (x : B) × (get_elem? xs i ≡ some x)
get_elem?-some [] i h = absurd (omega arith)
get_elem?-some (x ∷ xs) zero h = (x, refl)
get_elem?-some (x ∷ xs) (suc i) h = get_elem?-some xs i (omega arith)

module _ {ℓ} {A : Type ℓ} where
  none-some : {k : Keyed A} {o : Option (Keyed A)} → o ≡ none → o ≡ some k → ⊥
  none-some f g = let h = sym f ∙ g in cc

  PendingOk-put :
      (lanes : List (Option (Keyed A))) (slot : ℕ) (k : Keyed A) (o : Option (Keyed A))
      (ps : List (PendingLane A))
      → lane_at lanes slot ≡ some k
      → PendingOk lanes ps
      → PendingOk (set lanes slot o) ps
  PendingOk-put lanes slot k o ps e h =
      PendingOk-map lanes (set lanes slot o) ps
        (λ p free.
          lane_at_other lanes slot p.key.slot o
            (λ s. none-some free (subst (λ i. lane_at lanes i ≡ some k) s e))
          ∙ free)
        h

  -- A lane that stays in its slot, and one that leaves it.
  pub SharedOk-put :
      (lanes : List (Option (Keyed A))) (slot : ℕ) (k k' : Keyed A) (ps : List (PendingLane A))
      (registry : Registry)
      → lane_at lanes slot ≡ some k
      → SharedOk lanes ps registry
      → SharedOk (set lanes slot (some k')) ps registry
  SharedOk-put lanes slot k k' ps registry e (h, slots) =
      (PendingOk-put lanes slot k (some k') ps e h, put-SlotsOk lanes slot k k' ps registry e slots)

  pub SharedOk-retire :
      (lanes : List (Option (Keyed A))) (key : LaneKey) (k : Keyed A) (ps : List (PendingLane A))
      (registry : Registry)
      → lane_at lanes key.slot ≡ some k
      → SharedOk lanes ps registry
      → SharedOk (set lanes key.slot none) ps (free_key registry key)
  SharedOk-retire lanes key k ps registry e (h, slots) =
      (PendingOk-put lanes key.slot k none ps e h, retire-SlotsOk lanes key k ps registry e slots)

  found :
      (key : LaneKey) (o : Option (Keyed A)) (k : Keyed A)
      → with_key key o ≡ some k
      → (o ≡ some k) × (k.key ≡ key)
  found key none k e = cc
  found key (some m) k e = elim (Bool-cases (key_eq m.key key)) [
    | inl hit ↦
        let f : some m ≡ some k = rw hit at e in
        (f, ap (λ n. n.key) (sym (some-inj f)) ∙ key_eq_eq m.key key hit)
    | inr miss ↦ absurd (let f : none ≡ some k = rw miss at e in cc)
  ]
    where
      some-inj : {a b : Keyed A} → some a ≡ some b → a ≡ b
      some-inj f = cc

  -- The lane of a key stands in the key's slot.
  pub current_lem :
      (r : Receiver A) (key : LaneKey) (k : Keyed A)
      → current r key ≡ some k
      → (lane_at r.lanes key.slot ≡ some k) × (k.key ≡ key)
  current_lem r key k e = found key (lane_at r.lanes key.slot) k e

  -- The slot of a lane has its flag.
  pub is_paused_lem :
      (r : Receiver A) (slot : ℕ) (k : Keyed A)
      → RotationOk r.lanes r.active r.paused
      → lane_at r.lanes slot ≡ some k
      → (b : Bool) × (is_paused r slot ≡ done b) × (get_elem? r.paused slot ≡ some b)
  unfolding is_paused
  is_paused_lem r slot k ok e =
      let (b, f) =
        get_elem?-some r.paused slot (omega (arith, ok.sized, lane_at-some r.lanes slot k e)) in
      (b, ap or_fault f, f)

  pub notify_if_lem :
      (b : Bool) (k : Keyed A) → ((notify_if b k).lane ≡ k.lane) × ((notify_if b k).key ≡ k.key)
  unfolding notify_space
  notify_if_lem true k = (refl, refl)
  notify_if_lem false k = (refl, refl)

  -- A lane that stays in the rotation, or out of it, as it is.
  pub put_lane-ReceiverOk :
      (r : Receiver A) (slot : ℕ) (k k' : Keyed A)
      → ReceiverOk r
      → lane_at r.lanes slot ≡ some k
      → k'.key ≡ k.key
      → k'.lane.queued ≡ k.lane.queued
      → Sound k'.lane
      → ReceiverOk (put_lane slot (some k') r)
  put_lane-ReceiverOk r slot k k' (ok, h) e same queued good =
      let own = ok.counted slot ∙ ap queued_in e ∙ ap (λ b. if b then 1 else 0) (sym queued) in
      (
        update-RotationOk r.lanes r.active r.active r.paused r.paused slot k k' ok e same good refl
            (λ other d. (refl, refl)) own (λ p. sym own ∙ ok.counted slot ∙ ok.still slot p)
            ok.all_current,
        SharedOk-put r.lanes slot k k' r.shared.pending r.shared.registry e h,
      )

  -- A lane that is out of the rotation is dropped.
  pub retire_lane-ReceiverOk :
      (r : Receiver A) (key : LaneKey) (k : Keyed A)
      → ReceiverOk r
      → lane_at r.lanes key.slot ≡ some k
      → queued_in (some k) ≡ 0
      → ReceiverOk (retire_lane key r)
  unfolding retire_lane
  retire_lane-ReceiverOk r key k (ok, h) e out = rw e (
    remove-RotationOk r.lanes r.active r.paused key.slot k ok e out,
    SharedOk-retire r.lanes key k r.shared.pending r.shared.registry e h,
  )
