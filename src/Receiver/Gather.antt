-- ===== src/Receiver/Gather.antt =====
-- Finding ready lanes keeps the rotation.
use fanring_rs.Base.{
  ℕ, zero, suc, ◌+◌, ◌*◌, ◌≤◌, ◌≡◌, refl, sym, ap, ◌∙◌, arith, Bool, true, false, not, ◌&&◌, Option,
  none, some, List, [], ◌∷◌, ◌++◌, length, length-append, get_elem?, ◌==◌, ltb, if◌then◌else◌,
  Bool-cases, inl, inr, Access, done, ◌>>=◌, Ensures, Ensures-bind, eq→==,
}
use mathlib.Core.Path.{subst}
use fanring_rs.Registry.Defs.{LaneKey, ReadyPage, lanes_per_page, pages_per_group}
use fanring_rs.Receiver.Index.{
  Word, is_zero, while_bits, take_group, take_page, trailing_zeros, clear_lowest,
}
use fanring_rs.Receiver.Defs.{Receiver, Keyed, lane_at, put_lane}
use fanring_rs.Receiver.Collect.{
  refresh_registry, enqueue, enqueue_if, enqueue_found, visit_lanes, visit_page, visit_group,
  collect_groups, collect_ready,
}
use fanring_rs.Receiver.Rotation.{
  count, count-append, queued_in, key_in, AllCurrent-append, AllSound, Sound, lane_at-some,
  update-RotationOk,
}
use fanring_rs.Receiver.Adopt.{ReceiverOk, refresh_registry-ReceiverOk, refresh_registry-active}
use fanring_rs.Receiver.Sound.{Sound-flags}
use fanring_rs.Receiver.Weight.{busy, busy_in, weight, put_lane-weight, refresh_registry-weight}
use fanring_rs.Receiver.Kept.{SharedOk-put, is_paused_lem}

-- What each round of a loop over the bits keeps, the loop keeps.
pub while_bits-Ensures {ℓ κ} :
    {S : Type ℓ} (P : S → Type κ) (fuel : ℕ) (bits : Word) (body : ℕ → S → Access S) (s : S)
    → ((i : ℕ) (t : S) → P t → Ensures (body i t) P)
    → P s
    → Ensures (while_bits fuel bits body s) P
unfolding while_bits
while_bits-Ensures P zero bits body s keeps h = h
while_bits-Ensures P (suc fuel) bits body s keeps h = elim (Bool-cases (is_zero bits)) [
  | inl over ↦ rw over h
  | inr more ↦ rw more (
      Ensures-bind (body (trailing_zeros bits) s) (while_bits fuel (clear_lowest bits) body) P P
        (keeps (trailing_zeros bits) s h)
        (λ t k. while_bits-Ensures P fuel (clear_lowest bits) body t keeps k))
]

module _ {ℓ} {A : Type ℓ} where
  -- A lane out of the rotation joins it at the back.
  pub join-ReceiverOk :
      (r : Receiver A) (slot : ℕ) (k k' : Keyed A)
      → ReceiverOk r
      → lane_at r.lanes slot ≡ some k
      → k'.key ≡ k.key
      → k.lane.queued ≡ false
      → k'.lane.queued ≡ true
      → get_elem? r.paused slot ≡ some false
      → Sound k'.lane
      → ReceiverOk (record (put_lane slot (some k') r) { active = r.active ++ (k.key ∷ []) })
  join-ReceiverOk r slot k k' (ok, h) e same out on open_ good =
      let s : k.key.slot ≡ slot = ok.keyed slot k e in
      let z : count slot r.active ≡ 0 =
        ok.counted slot ∙ ap queued_in e ∙ ap (λ b. if b then 1 else 0) out in
      let one : (k.key.slot == slot) ≡ true = eq→== k.key.slot slot s in
      (
        update-RotationOk r.lanes r.active (r.active ++ (k.key ∷ [])) r.paused r.paused slot k k' ok
            e same good refl
            (λ other d.
              let no_hit : (k.key.slot == other) ≡ false = ground arith in
              (count-append other r.active (k.key ∷ []) ∙ rw no_hit (omega arith), refl))
            (count-append slot r.active (k.key ∷ []) ∙ rw (one, z, on) refl)
            (λ p. absurd (let f = sym open_ ∙ p in cc))
            (AllCurrent-append r.lanes r.active (k.key ∷ []) ok.all_current
              (ap (λ i. key_in (lane_at r.lanes i)) s ∙ ap key_in e, tt)),
        SharedOk-put r.lanes slot k k' r.shared.pending r.shared.registry e h,
      )

-- A receiver in order, with no fewer lanes in its rotation than `n`, and a weight of at most `m`.
abbrev pub Gathered {ℓ} : {A : Type ℓ} → ℕ → ℕ → Receiver A → Type ℓ
Gathered n m r = ReceiverOk r × (n ≤ length r.active) × (weight r ≤ m)

module _ {ℓ} {A : Type ℓ} (n m : ℕ) where
  refresh-Gathered : (r : Receiver A) → Gathered n m r → Gathered n m (refresh_registry r)
  refresh-Gathered r (v, le, light) = (
    refresh_registry-ReceiverOk r v,
    subst (λ (a : List LaneKey). n ≤ length a) (sym (refresh_registry-active r)) le,
    omega (arith, refresh_registry-weight r),
  )

  enqueue_if-Gathered :
      (k : Keyed A) (slot : ℕ) (r : Receiver A) (paused queued : Bool)
      → get_elem? r.paused slot ≡ some paused
      → k.lane.queued ≡ queued
      → lane_at r.lanes slot ≡ some k
      → (Gathered n m) r
      → Ensures (enqueue_if k slot r paused) (Gathered n m)
  enqueue_if-Gathered k slot r true queued p f e ok = ok
  enqueue_if-Gathered k slot r false queued p f e ok =
      elim (Bool-cases (k.lane.pending && not k.lane.queued)) [
        | inl join ↦
            let out : k.lane.queued ≡ false = ground (arith, join) in
            let good =
              Sound-flags k.lane k.lane.pending true
                (subst (λ o. AllSound o) e (ok.0.0.sound slot)) in
            let k' : Keyed A = record k { lane = record k.lane { queued = true } } in
            let was_busy : busy k.lane ≡ 1 = ground (arith, join) in
            let now_busy : busy_in (some k') ≡ 1 = refl in
            let same = put_lane-weight r slot k (some k') e (lane_at-some r.lanes slot k e) in
            rw join (
              join-ReceiverOk r slot k _ ok.0 e refl out refl p good,
              omega (arith, ok.1, length-append r.active (k.key ∷ [])),
              omega (arith, ok.2, same, was_busy, now_busy),
            )
        | inr stay ↦ rw stay ok
      ]

  enqueue-Gathered :
      (slot : ℕ) (r : Receiver A) → (Gathered n m) r → Ensures (enqueue slot r) (Gathered n m)
  unfolding enqueue
  enqueue-Gathered slot r ok = by_lane (lane_at r.lanes slot) refl
    where
      by_lane :
          (o : Option (Keyed A))
          → lane_at r.lanes slot ≡ o
          → Ensures (enqueue_found o slot r) (Gathered n m)
      by_lane none e = ok
      by_lane (some k) e =
          let (b, f, p) = is_paused_lem r slot k ok.0.0 e in
          subst (λ a. Ensures (a >>= enqueue_if k slot r) (Gathered n m)) (sym f)
            (enqueue_if-Gathered k slot r b k.lane.queued p refl e ok)

  visit_page-Gathered :
      (page_id : ℕ) (r : Receiver A)
      → (Gathered n m) r
      → Ensures (visit_page page_id r) (Gathered n m)
  unfolding visit_page
  visit_page-Gathered page_id r0 ok0 =
      let r = refresh_registry r0 in
      let ok = refresh-Gathered r0 ok0 in
      let (lane_bits, index) = take_page page_id r.shared.index in
      let taken : Receiver A = record r { shared = record r.shared { index = index } } in
      let kept =
        while_bits-Ensures (Gathered n m) (length lane_bits) lane_bits
          (λ lane_bit. enqueue (page_id * lanes_per_page + lane_bit)) (refresh_registry taken)
          (λ i. enqueue-Gathered (page_id * lanes_per_page + i)) (refresh-Gathered taken ok) in
      by_page (get_elem? r.pages page_id) (visit_lanes page_id lane_bits (refresh_registry taken)) r
        ok kept
    where
      by_page :
          (o : Option ReadyPage) (found : Access (Receiver A)) (r : Receiver A)
          → (Gathered n m) r
          → Ensures found (Gathered n m)
          → Ensures (elim o [ none ↦ done r | some page ↦ found ]) (Gathered n m)
      by_page none found r ok kept = ok
      by_page (some page) found r ok kept = kept

  visit_group-Gathered :
      (group_index : ℕ) (r : Receiver A)
      → (Gathered n m) r
      → Ensures (visit_group group_index r) (Gathered n m)
  visit_group-Gathered group_index r ok =
      let (page_bits, index) = take_group group_index r.shared.index in
      Ensures-bind
        (while_bits (length page_bits) page_bits
          (λ page_bit. visit_page (group_index * pages_per_group + page_bit))
          (record r { shared = record r.shared { index = index } }))
        _ (Gathered n m) (Gathered n m)
        (while_bits-Ensures (Gathered n m) (length page_bits) page_bits _ _
          (λ i. visit_page-Gathered (group_index * pages_per_group + i)) ok)
        (λ r' ok'. ok')

  collect_groups-Gathered :
      (rounds next_group group_count : ℕ) (all : Bool) (r : Receiver A)
      → (Gathered n m) r
      → Ensures (collect_groups rounds next_group group_count all r) (Gathered n m)
  unfolding collect_groups
  collect_groups-Gathered zero next_group group_count all r ok = ok
  collect_groups-Gathered (suc rounds) next_group group_count all r ok =
      let group_index = if ltb next_group group_count then next_group else 0 in
      let rest = collect_groups-Gathered rounds (suc group_index) group_count all in
      elim (Bool-cases (is_zero (r.shared.index.group_bits group_index))) [
        | inl none_ready ↦ rw none_ready (rest r ok)
        | inr ready ↦ rw ready (
            Ensures-bind (visit_group group_index r) _ (Gathered n m) (Gathered n m)
              (visit_group-Gathered group_index r ok)
              (λ r' ok'.
                go_on all (collect_groups rounds (suc group_index) group_count all r') r' ok'
                  (rest r' ok')))
      ]
    where
      go_on :
          (all : Bool) (more : Access (Receiver A)) (r' : Receiver A)
          → (Gathered n m) r'
          → Ensures more (Gathered n m)
          → Ensures (if all then more else done r') (Gathered n m)
      go_on true more r' ok' h = h
      go_on false more r' ok' h = ok'

  -- Collecting ready lanes never faults and keeps the rotation.
  pub collect_ready-Gathered :
      (all : Bool) (r : Receiver A)
      → (Gathered n m) r
      → Ensures (collect_ready all r) (Gathered n m)
  unfolding collect_ready
  collect_ready-Gathered all r ok =
      collect_groups-Gathered _ _ _ all (refresh_registry r) (refresh-Gathered r ok)
