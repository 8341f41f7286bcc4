-- ===== src/Receiver/Weight.antt =====
-- How many lanes may still have to be polled before a receive is through.
use fanring_rs.Base.{
  ℕ, zero, suc, ◌+◌, ◌-◌, ◌≤◌, ◌<◌, ◌≡◌, refl, ap, arith, ◌||◌, Option, none, some, List, [], ◌∷◌,
  ◌++◌, length, replicate, set, ◌==◌, if◌then◌else◌, Bool-cases, inl, inr,
}
use fanring_rs.Lane.Defs.{Lane}
use fanring_rs.Receiver.Defs.{
  Receiver, Keyed, PendingLane, lane_at, current, put_lane, notify_released, notify_space,
  retire_lane,
}
use fanring_rs.Receiver.Collect.{resize, lane_of, adopt, adopt_all, refresh_registry}
use fanring_rs.Registry.Defs.{LaneKey}
use fanring_rs.Receiver.Rotation.{lane_at-some}
use fanring_rs.Receiver.Kept.{current_lem}

module _ {ℓ} {A : Type ℓ} where
  -- A lane that is in the rotation, or will be once it is found.
  abbrev pub busy : Lane A → ℕ
  busy l = if l.queued || l.pending then 1 else 0

  abbrev pub busy_in : Option (Keyed A) → ℕ
  busy_in none = 0
  busy_in (some k) = busy k.lane

  abbrev pub weigh : List (Option (Keyed A)) → ℕ
  weigh [] = 0
  weigh (o ∷ os) = busy_in o + weigh os

  -- With the lanes that the registry still holds.
  abbrev pub weight : Receiver A → ℕ
  weight r = weigh r.lanes + length r.shared.pending

  pub weigh-set :
      (lanes : List (Option (Keyed A))) (slot : ℕ) (o : Option (Keyed A))
      → slot < length lanes
      → weigh (set lanes slot o) + busy_in (lane_at lanes slot) ≡ weigh lanes + busy_in o
  unfolding lane_at
  weigh-set [] slot o h = absurd (omega arith)
  weigh-set (x ∷ xs) zero o h = omega arith
  weigh-set (x ∷ xs) (suc slot) o h = omega (arith, weigh-set xs slot o (omega arith))

  pub busy-bound : (l : Lane A) → busy l ≤ 1
  busy-bound l = ground arith

  weigh-pad :
      (lanes : List (Option (Keyed A))) (n : ℕ) → weigh (lanes ++ replicate n none) ≡ weigh lanes
  weigh-pad [] zero = refl
  weigh-pad [] (suc n) = omega (arith, weigh-pad [] n)
  weigh-pad (o ∷ os) n = omega (arith, weigh-pad os n)

  weigh-put :
      (lanes : List (Option (Keyed A))) (slot : ℕ) (k : Keyed A)
      → weigh (set lanes slot (some k)) ≤ weigh lanes + 1
  weigh-put [] slot k = omega arith
  weigh-put (o ∷ os) zero k = omega (arith, busy-bound k.lane)
  weigh-put (o ∷ os) (suc slot) k = omega (arith, weigh-put os slot k)

  adopt-weigh : (r : Receiver A) (p : PendingLane A) → weigh (adopt p r).lanes ≤ weigh r.lanes + 1
  unfolding adopt
  adopt-weigh r p = omega (
    arith,
    weigh-put (resize r.lanes (suc p.key.slot) none) p.key.slot (lane_of p),
    weigh-pad r.lanes (suc p.key.slot - length r.lanes),
  )

  adopt_all-weigh :
      (ps : List (PendingLane A)) (r : Receiver A)
      → weigh (adopt_all ps r).lanes ≤ weigh r.lanes + length ps
  unfolding adopt_all
  adopt_all-weigh [] r = omega arith
  adopt_all-weigh (p ∷ ps) r = omega (arith, adopt_all-weigh ps (adopt p r), adopt-weigh r p)

  adopt_all-shared :
      (ps : List (PendingLane A)) (r : Receiver A) → (adopt_all ps r).shared ≡ r.shared
  unfolding adopt_all adopt
  adopt_all-shared [] r = refl
  adopt_all-shared (p ∷ ps) r = adopt_all-shared ps (adopt p r)

  -- Adoption moves lanes from the registry, no more.
  pub refresh_registry-weight : (r : Receiver A) → weight (refresh_registry r) ≤ weight r
  unfolding refresh_registry
  refresh_registry-weight r =
      elim (Bool-cases (r.shared.registry_generation == r.seen_registry_generation)) [
        | inl same ↦ rw same (omega arith)
        | inr newer ↦
            let none_held : length (adopt_all r.shared.pending taken).shared.pending ≡ 0 =
              ap (λ s. length s.pending) (adopt_all-shared r.shared.pending taken) in
            rw newer (omega (arith, adopt_all-weigh r.shared.pending taken, none_held))
      ]
    where
      taken : Receiver A
      taken = record r {
        shared = record r.shared { pending = [] };
        groups = r.shared.registry.groups;
        pages = r.shared.registry.pages;
        seen_registry_generation = r.shared.registry_generation;
      }

  -- A lane that changes without becoming busy.
  pub put_lane-weight :
      (r : Receiver A) (slot : ℕ) (k : Keyed A) (o : Option (Keyed A))
      → lane_at r.lanes slot ≡ some k
      → slot < length r.lanes
      → weight (put_lane slot o r) + busy k.lane ≡ weight r + busy_in o
  put_lane-weight r slot k o e h =
      let b : busy_in (lane_at r.lanes slot) ≡ busy k.lane = ap busy_in e in
      omega (arith, weigh-set r.lanes slot o h, b)

  -- A retired lane is weighed no more.
  pub retire_lane-weight :
      (r : Receiver A) (key : LaneKey) (k : Keyed A)
      → lane_at r.lanes key.slot ≡ some k
      → weight (retire_lane key r) + busy k.lane ≡ weight r
  unfolding retire_lane
  retire_lane-weight r key k e =
      rw e (omega (arith, put_lane-weight r key.slot k none e (lane_at-some r.lanes key.slot k e)))

  -- A notified lane weighs what it did.
  pub notify_released-weight :
      (key : Option LaneKey) (r : Receiver A) → weight (notify_released key r) ≡ weight r
  unfolding notify_released notify_space
  notify_released-weight none r = refl
  notify_released-weight (some key) r = by_lane (current r key) refl
    where
      by_lane :
          (o : Option (Keyed A))
          → current r key ≡ o
          → weight (elim o [
            | none ↦ r
            | some k ↦ put_lane key.slot (some (record k { spaces = suc k.spaces })) r
          ])
            ≡ weight r
      by_lane none e = refl
      by_lane (some k) e =
          let (here, same) = current_lem r key k e in
          omega (
            arith,
            put_lane-weight r key.slot k (some (record k { spaces = suc k.spaces })) here
                (lane_at-some r.lanes key.slot k here),
          )
