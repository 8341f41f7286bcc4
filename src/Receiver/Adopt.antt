-- ===== src/Receiver/Adopt.antt =====
-- Adoption of the lanes that the registry holds for the receiver.
use fanring_rs.Base.{
  ℕ, zero, suc, ◌+◌, ◌-◌, ◌≤◌, ◌<◌, ◌≡◌, ◌≢◌, refl, sym, ap, ◌∙◌, arith, Bool, true, false, Option,
  none, some, List, [], ◌∷◌, ◌++◌, length, length-append, length-replicate, replicate, set,
  get_elem?, length-set, get_elem?-set_ne, ◌==◌, if◌then◌else◌, Bool-cases, ◌⊎◌, inl, inr, ==→eq,
  ==-false→ne,
}
use mathlib.Core.Path.{subst}
use fanring_rs.Registry.Defs.{LaneKey, Registry}
use fanring_rs.Lane.Defs.{new}
use fanring_rs.Receiver.Defs.{Receiver, Keyed, PendingLane, lane_at, flat}
use fanring_rs.Receiver.Collect.{resize, lane_of, adopt, adopt_all, refresh_registry}
use fanring_rs.Receiver.Slots.{SlotsOk, occupied, fewer-SlotsOk}
use fanring_rs.Receiver.Rotation.{
  count, queued_in, key_in, AllCurrent, AllSound, Sound, RotationOk, set-cases, lane_at_other,
}

-- Padding a table adds the padding and nothing else.
get_elem?-pad {ℓ} :
    {A : Type ℓ} (xs : List A) (n i : ℕ) (x : A)
    → (get_elem? (xs ++ replicate n x) i ≡ get_elem? xs i)
      ⊎ ((get_elem? xs i ≡ none) × (get_elem? (xs ++ replicate n x) i ≡ some x))
get_elem?-pad [] zero i x = inl refl
get_elem?-pad [] (suc n) zero x = inr (refl, refl)
get_elem?-pad [] (suc n) (suc i) x = get_elem?-pad [] n i x
get_elem?-pad (y ∷ ys) n zero x = inl refl
get_elem?-pad (y ∷ ys) n (suc i) x = get_elem?-pad ys n i x

length-resize {ℓ} :
    {A : Type ℓ} (xs : List A) (n : ℕ) (x : A)
    → (n ≤ length (resize xs n x)) × (length (resize xs n x) ≡ length xs + (n - length xs))
length-resize xs n x =
    omega
      (arith, length-append xs (replicate (n - length xs) x), length-replicate (n - length xs) x)

-- No pending lane of the list has the slot.
abbrev pub Apart {ℓ} : {A : Type ℓ} → ℕ → List (PendingLane A) → Type 0
Apart slot [] = Unit {0}
Apart slot (p ∷ ps) = (slot ≢ p.key.slot) × Apart slot ps

module _ {ℓ} {A : Type ℓ} where
  -- Pending lanes are sound and have free slots of their own.
  abbrev pub PendingOk : List (Option (Keyed A)) → List (PendingLane A) → Type ℓ
  PendingOk lanes [] = Unit {ℓ}
  PendingOk lanes (p ∷ ps) =
      (lane_at lanes p.key.slot ≡ none)
      × Sound (lane_of p).lane
      × Apart p.key.slot ps
      × PendingOk lanes ps

  -- What the receiver shares is in order: the pending lanes, and who has which slot.
  abbrev pub SharedOk : List (Option (Keyed A)) → List (PendingLane A) → Registry → Type ℓ
  SharedOk lanes pending registry = PendingOk lanes pending × SlotsOk lanes pending registry

  abbrev pub ReceiverOk : Receiver A → Type ℓ
  ReceiverOk r =
      RotationOk r.lanes r.active r.paused × SharedOk r.lanes r.shared.pending r.shared.registry

  -- A slot that stays free keeps the pending lanes apart from the others.
  pub PendingOk-map :
      (lanes lanes' : List (Option (Keyed A))) (ps : List (PendingLane A))
      → ((p : PendingLane A) → lane_at lanes p.key.slot ≡ none → lane_at lanes' p.key.slot ≡ none)
      → PendingOk lanes ps
      → PendingOk lanes' ps
  PendingOk-map lanes lanes' [] f h = tt
  PendingOk-map lanes lanes' (p ∷ ps) f (free, sound, apart, h) =
      (f p free, sound, apart, PendingOk-map lanes lanes' ps f h)

  lane_at-resize :
      (lanes : List (Option (Keyed A))) (n i : ℕ)
      → lane_at (resize lanes n none) i ≡ lane_at lanes i
  unfolding lane_at
  lane_at-resize lanes n i = elim (get_elem?-pad lanes (n - length lanes) i none) [
    | inl same ↦ ap flat same
    | inr (out, padded) ↦ ap flat padded ∙ sym (ap flat out)
  ]

  AllCurrent-adopt :
      (lanes : List (Option (Keyed A))) (slot n : ℕ) (k : Keyed A) (keys : List LaneKey)
      → lane_at lanes slot ≡ none
      → AllCurrent lanes keys
      → AllCurrent (set (resize lanes n none) slot (some k)) keys
  AllCurrent-adopt lanes slot n k [] e all = tt
  AllCurrent-adopt lanes slot n k (key ∷ keys) e (c, all) = elim (Bool-cases (slot == key.slot)) [
    | inl hit ↦
        let f =
          sym (ap key_in e) ∙ ap (λ i. key_in (lane_at lanes i)) (==→eq slot key.slot hit) ∙ c in
        absurd (none-some f)
    | inr miss ↦ (
      ap key_in (
            lane_at_other (resize lanes n none) slot key.slot (some k)
              (==-false→ne slot key.slot miss)
            ∙ lane_at-resize lanes n key.slot)
          ∙ c,
      AllCurrent-adopt lanes slot n k keys e all,
    )
  ]
    where
      none-some : {a : LaneKey} → none ≡ some a → ⊥
      none-some h = cc

  pub adopt-RotationOk :
      (r : Receiver A) (p : PendingLane A)
      → RotationOk r.lanes r.active r.paused
      → lane_at r.lanes p.key.slot ≡ none
      → Sound (lane_of p).lane
      → RotationOk (adopt p r).lanes r.active (adopt p r).paused
  unfolding adopt new
  adopt-RotationOk r p ok free good = record {
    sized =
        length-set wide_paused slot false
        ∙ omega (
          arith,
          ok.sized,
          length-resize r.lanes (suc slot) none,
          length-resize r.paused (suc slot) false,
        )
        ∙ sym (length-set wide slot (some (lane_of p)));
    counted = λ i.
        set-cases wide slot (some (lane_of p)) i (λ o. count i r.active ≡ queued_in o) room
          (λ s. subst (λ j. count j r.active ≡ 0) s (ok.counted slot ∙ ap queued_in free))
          (λ d. ok.counted i ∙ ap queued_in (sym (lane_at-resize r.lanes (suc slot) i)));
    keyed = λ i.
        set-cases wide slot (some (lane_of p)) i (λ o. (m : Keyed A) → o ≡ some m → m.key.slot ≡ i)
          room (λ s m f. ap (λ n. n.key.slot) (sym (some-inj f)) ∙ s)
          (λ d m f. ok.keyed i m (sym (lane_at-resize r.lanes (suc slot) i) ∙ f));
    all_current = AllCurrent-adopt r.lanes slot (suc slot) (lane_of p) r.active free ok.all_current;
    still = λ i.
        set-cases wide slot (some (lane_of p)) i
          (λ o. get_elem? (set wide_paused slot false) i ≡ some true → queued_in o ≡ 0) room
          (λ s e. refl)
          (λ d e.
            ap queued_in (lane_at-resize r.lanes (suc slot) i)
            ∙ ok.still i (unpadded i (sym (get_elem?-set_ne wide_paused slot i false d) ∙ e)));
    sound = λ i.
        set-cases wide slot (some (lane_of p)) i AllSound room (λ s. good)
          (λ d. subst AllSound (sym (lane_at-resize r.lanes (suc slot) i)) (ok.sound i));
  }
    where
      slot : ℕ
      slot = p.key.slot

      wide : List (Option (Keyed A))
      wide = resize r.lanes (suc slot) none

      wide_paused : List Bool
      wide_paused = resize r.paused (suc slot) false

      room : slot < length wide
      room = omega (arith, length-resize r.lanes (suc slot) none)

      some-inj : {a b : Keyed A} → some a ≡ some b → a ≡ b
      some-inj f = cc

      unpadded : (i : ℕ) → get_elem? wide_paused i ≡ some true → get_elem? r.paused i ≡ some true
      unpadded i e = elim (get_elem?-pad r.paused (suc slot - length r.paused) i false) [
        | inl same ↦ sym same ∙ e
        | inr (out, padded) ↦ absurd (let f = sym padded ∙ e in cc)
      ]

  -- A pending lane that is adopted leaves the slots of the others free.
  adopt-PendingOk :
      (r : Receiver A) (p : PendingLane A) (ps : List (PendingLane A))
      → Apart p.key.slot ps
      → PendingOk r.lanes ps
      → PendingOk (adopt p r).lanes ps
  unfolding adopt
  adopt-PendingOk r p [] apart h = tt
  adopt-PendingOk r p (x ∷ ps) (d, apart) (free, good, apart', h) = (
    lane_at_other (resize r.lanes (suc p.key.slot) none) p.key.slot x.key.slot (some (lane_of p)) d
        ∙ lane_at-resize r.lanes (suc p.key.slot) x.key.slot
        ∙ free,
    good,
    apart',
    adopt-PendingOk r p ps apart h,
  )

  adopt-fewer :
      (lanes : List (Option (Keyed A))) (p : PendingLane A) (i : ℕ)
      → lane_at lanes p.key.slot ≡ none
      → occupied
          (lane_at (set (resize lanes (suc p.key.slot) none) p.key.slot (some (lane_of p))) i)
        ≤ occupied (lane_at lanes i) + (if p.key.slot == i then 1 else 0)
  adopt-fewer lanes p i free =
      set-cases (resize lanes (suc p.key.slot) none) p.key.slot (some (lane_of p)) i
        (λ o. occupied o ≤ occupied (lane_at lanes i) + (if p.key.slot == i then 1 else 0))
        (omega (arith, length-resize lanes (suc p.key.slot) none))
        (λ s. let hit : (p.key.slot == i) ≡ true = ground arith in rw hit (omega arith))
        (λ d. let same = ap occupied (lane_at-resize lanes (suc p.key.slot) i) in omega arith)

  -- A slot passes from the pending lane to the lane.
  adopt-SlotsOk :
      (r : Receiver A) (p : PendingLane A) (ps : List (PendingLane A)) (registry : Registry)
      → lane_at r.lanes p.key.slot ≡ none
      → SlotsOk r.lanes (p ∷ ps) registry
      → SlotsOk (adopt p r).lanes ps registry
  unfolding adopt
  adopt-SlotsOk r p ps registry free v =
      fewer-SlotsOk r.lanes _ (p ∷ ps) ps registry registry
        (λ i. omega (arith, adopt-fewer r.lanes p i free)) refl v.pages v

  adopt-same :
      (r : Receiver A) (p : PendingLane A)
      → ((adopt p r).active ≡ r.active) × ((adopt p r).shared ≡ r.shared)
  unfolding adopt
  adopt-same r p = (refl, refl)

  adopt_all-RotationOk :
      (ps : List (PendingLane A)) (r : Receiver A) (registry : Registry)
      → RotationOk r.lanes r.active r.paused
      → SharedOk r.lanes ps registry
      → RotationOk (adopt_all ps r).lanes (adopt_all ps r).active (adopt_all ps r).paused
        × SlotsOk (adopt_all ps r).lanes [] registry
        × ((adopt_all ps r).shared ≡ r.shared)
  unfolding adopt_all
  adopt_all-RotationOk [] r registry ok (h, slots) = (ok, slots, refl)
  adopt_all-RotationOk (p ∷ ps) r registry ok ((free, good, apart, h), slots) =
      let (same, shared) = adopt-same r p in
      let (ok', slots', shared') =
        adopt_all-RotationOk ps (adopt p r) registry
          (subst (λ a. RotationOk (adopt p r).lanes a (adopt p r).paused) (sym same)
            (adopt-RotationOk r p ok free good))
          (adopt-PendingOk r p ps apart h, adopt-SlotsOk r p ps registry free slots) in
      (ok', slots', shared' ∙ shared)

  -- Reading the registry keeps the rotation; new lanes come in outside it.
  pub refresh_registry-ReceiverOk :
      (r : Receiver A) → ReceiverOk r → ReceiverOk (refresh_registry r)
  unfolding refresh_registry
  refresh_registry-ReceiverOk r (ok, h) =
      elim (Bool-cases (r.shared.registry_generation == r.seen_registry_generation)) [
        | inl same ↦ rw same (ok, h)
        | inr newer ↦
            let (ok', slots, shared) =
              adopt_all-RotationOk r.shared.pending taken r.shared.registry ok h in
            rw newer (
              ok',
              subst (λ s. SharedOk (adopt_all r.shared.pending taken).lanes s.pending s.registry)
                  (sym shared) (tt, slots),
            )
      ]
    where
      taken : Receiver A
      taken = record r {
        shared = record r.shared { pending = [] };
        groups = r.shared.registry.groups;
        pages = r.shared.registry.pages;
        seen_registry_generation = r.shared.registry_generation;
      }

  adopt_all-active :
      (ps : List (PendingLane A)) (r : Receiver A) → (adopt_all ps r).active ≡ r.active
  unfolding adopt_all
  adopt_all-active [] r = refl
  adopt_all-active (p ∷ ps) r = adopt_all-active ps (adopt p r) ∙ (adopt-same r p).0

  pub refresh_registry-active : (r : Receiver A) → (refresh_registry r).active ≡ r.active
  unfolding refresh_registry
  refresh_registry-active r =
      elim (Bool-cases (r.shared.registry_generation == r.seen_registry_generation)) [
        | inl same ↦ rw same refl
        | inr newer ↦ rw newer (adopt_all-active r.shared.pending _)
      ]
