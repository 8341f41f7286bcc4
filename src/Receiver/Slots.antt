-- ===== src/Receiver/Slots.antt =====
-- Who has a slot: a lane, a lane that the registry holds for the receiver, or the list of free keys.
use fanring_rs.Base.{
  ℕ, ◌+◌, ◌≤◌, ◌≡◌, refl, sym, ap, arith, false, Option, none, some, List, [], ◌∷◌, ◌==◌,
  if◌then◌else◌, set, word, ltb, Bool-cases, inl, inr,
}
use mathlib.Core.Path.{subst}
use fanring_rs.Registry.Defs.{Registry, LaneKey, retire_lane}
use fanring_rs.Registry.Pages.{PagesOk}
use fanring_rs.Receiver.Defs.{Keyed, PendingLane, lane_at}
use fanring_rs.Receiver.Rotation.{count, set-cases, lane_at-some}

module _ {ℓ} {A : Type ℓ} where
  abbrev pub occupied : Option (Keyed A) → ℕ
  occupied none = 0
  occupied (some k) = 1

  -- How many pending lanes have the slot.
  abbrev pub waiting : ℕ → List (PendingLane A) → ℕ
  waiting slot [] = 0
  waiting slot (p ∷ ps) = (if p.key.slot == slot then 1 else 0) + waiting slot ps

  abbrev pub owners : List (Option (Keyed A)) → List (PendingLane A) → Registry → ℕ → ℕ
  owners lanes pending registry slot =
      occupied (lane_at lanes slot) + waiting slot pending + count slot registry.free

  -- A slot has one owner at most, and a slot that was never given out has none.
  pub record SlotsOk (lanes : List (Option (Keyed A))) (pending : List (PendingLane A))
      (registry : Registry) : Type 0 where
    pub once : (slot : ℕ) → owners lanes pending registry slot ≤ 1
    pub fresh : (slot : ℕ) → registry.next_slot ≤ slot → owners lanes pending registry slot ≡ 0
    pub pages : PagesOk registry

  pub fewer-SlotsOk :
      (lanes lanes' : List (Option (Keyed A))) (pending pending' : List (PendingLane A))
      (registry registry' : Registry)
      → ((slot : ℕ) → owners lanes' pending' registry' slot ≤ owners lanes pending registry slot)
      → registry'.next_slot ≡ registry.next_slot
      → PagesOk registry'
      → SlotsOk lanes pending registry
      → SlotsOk lanes' pending' registry'
  fewer-SlotsOk lanes lanes' pending pending' registry registry' less same p v = record {
    once = λ i. omega (arith, less i, v.once i);
    fresh = λ i h. omega (arith, less i, v.fresh i (omega arith));
    pages = p;
  }

  occupied-put :
      (lanes : List (Option (Keyed A))) (slot : ℕ) (k k' : Keyed A)
      → lane_at lanes slot ≡ some k
      → (i : ℕ) → occupied (lane_at (set lanes slot (some k')) i) ≡ occupied (lane_at lanes i)
  occupied-put lanes slot k k' e i =
      set-cases lanes slot (some k') i (λ o. occupied o ≡ occupied (lane_at lanes i))
        (lane_at-some lanes slot k e)
        (λ s. sym (ap occupied (subst (λ j. lane_at lanes j ≡ some k) s e))) (λ d. refl)

  -- A lane that stays in its slot.
  pub put-SlotsOk :
      (lanes : List (Option (Keyed A))) (slot : ℕ) (k k' : Keyed A) (pending : List (PendingLane A))
      (registry : Registry)
      → lane_at lanes slot ≡ some k
      → SlotsOk lanes pending registry
      → SlotsOk (set lanes slot (some k')) pending registry
  put-SlotsOk lanes slot k k' pending registry e v =
      fewer-SlotsOk lanes (set lanes slot (some k')) pending pending registry registry
        (λ i. omega (arith, occupied-put lanes slot k k' e i)) refl v.pages v

  retire-fewer :
      (lanes : List (Option (Keyed A))) (key : LaneKey) (k : Keyed A) (i : ℕ)
      → lane_at lanes key.slot ≡ some k
      → occupied (lane_at (set lanes key.slot none) i) + (if key.slot == i then 1 else 0)
        ≤ occupied (lane_at lanes i)
  retire-fewer lanes key k i e =
      set-cases lanes key.slot none i
        (λ o. occupied o + (if key.slot == i then 1 else 0) ≤ occupied (lane_at lanes i))
        (lane_at-some lanes key.slot k e)
        (λ s. let f = ap occupied (subst (λ j. lane_at lanes j ≡ some k) s e) in ground arith)
        (λ d. let no_hit : (key.slot == i) ≡ false = ground arith in rw no_hit (omega arith))

  -- A slot that its lane leaves goes to the free keys, or to nobody.
  pub retire-SlotsOk :
      (lanes : List (Option (Keyed A))) (key : LaneKey) (k : Keyed A)
      (pending : List (PendingLane A)) (registry : Registry)
      → lane_at lanes key.slot ≡ some k
      → SlotsOk lanes pending registry
      → SlotsOk (set lanes key.slot none) pending (retire_lane registry key)
  unfolding retire_lane
  retire-SlotsOk lanes key k pending registry e v =
      elim (Bool-cases (ltb (key.generation + 1) word)) [
        | inl room ↦ rw room (
            fewer-SlotsOk lanes (set lanes key.slot none) pending pending registry _
              (λ i. omega (arith, retire-fewer lanes key k i e)) refl
              (record {
                counted = v.pages.counted;
                groups_at = v.pages.groups_at;
                pages_at = v.pages.pages_at;
                covered = v.pages.covered;
              })
              v)
        | inr last ↦ rw last (
            fewer-SlotsOk lanes (set lanes key.slot none) pending pending registry registry
              (λ i. omega (arith, retire-fewer lanes key k i e)) refl v.pages v)
      ]
