-- ===== src/Receiver/Rotation.antt =====
-- The receive rotation: which lanes are in it, and that the changes of one lane keep it.
use fanring_rs.Base.{
  ℕ, zero, suc, ◌+◌, ◌<◌, ◌≡◌, ◌≢◌, sym, ap, ◌∙◌, arith, Bool, true, false, Option, none, some,
  List, [], ◌∷◌, ◌++◌, length, set, get_elem?, length-set, get_elem?-set_self, get_elem?-set_ne,
  ◌==◌, if◌then◌else◌, Bool-cases, ◌⊎◌, inl, inr, ==→eq, ==-false→ne,
}
use mathlib.Core.Path.{subst}
use fanring_rs.Yring.Queue.{Queue}
use fanring_rs.Lane.Defs.{Lane}
use fanring_rs.Lane.Window.{LaneOk}
use fanring_rs.Registry.Defs.{LaneKey}
use fanring_rs.Receiver.Defs.{Receiver, Keyed, lane_at, put_lane, key_eq, retain_other}
use fanring_rs.Receiver.Defs

-- How often the lane of a slot is in the rotation.
abbrev pub count : ℕ → List LaneKey → ℕ
count slot [] = 0
count slot (k ∷ ks) = (if k.slot == slot then 1 else 0) + count slot ks

pub count-append :
    (slot : ℕ) (xs ys : List LaneKey) → count slot (xs ++ ys) ≡ count slot xs + count slot ys
count-append slot [] ys = omega arith
count-append slot (x ∷ xs) ys = omega (arith, count-append slot xs ys)

module _ {ℓ} {A : Type ℓ} where
  abbrev pub queued_in : Option (Keyed A) → ℕ
  queued_in none = 0
  queued_in (some k) = if k.lane.queued then 1 else 0

  abbrev pub key_in : Option (Keyed A) → Option LaneKey
  key_in none = none
  key_in (some k) = some k.key

  -- Every key of the list is that of the lane in its slot.
  abbrev pub AllCurrent : List (Option (Keyed A)) → List LaneKey → Type 0
  AllCurrent lanes [] = Unit {0}
  AllCurrent lanes (key ∷ keys) =
      (key_in (lane_at lanes key.slot) ≡ some key) × AllCurrent lanes keys

  -- The lane stands for a queue, and its burst has not ended.
  abbrev pub Sound : Lane A → Type ℓ
  Sound l = (q : Queue A) × LaneOk l q × (l.burst < 64)

  abbrev pub AllSound : Option (Keyed A) → Type ℓ
  AllSound none = Unit {ℓ}
  AllSound (some k) = Sound k.lane

  -- A lane is in the rotation once where it is queued, and not at all otherwise, and each key in the
  -- rotation is that of a live lane. A paused lane is not queued. Every lane is sound.
  pub record RotationOk (lanes : List (Option (Keyed A))) (active : List LaneKey)
      (paused : List Bool) : Type ℓ where
    pub sized : length paused ≡ length lanes
    pub counted : (slot : ℕ) → count slot active ≡ queued_in (lane_at lanes slot)
    pub keyed : (slot : ℕ) (k : Keyed A) → lane_at lanes slot ≡ some k → k.key.slot ≡ slot
    pub all_current : AllCurrent lanes active
    pub still : (slot : ℕ) → get_elem? paused slot ≡ some true → queued_in (lane_at lanes slot) ≡ 0
    pub sound : (slot : ℕ) → AllSound (lane_at lanes slot)

  pub lane_at-set :
      (lanes : List (Option (Keyed A))) (slot : ℕ) (k : Option (Keyed A))
      → slot < length lanes
      → lane_at (set lanes slot k) slot ≡ k
  unfolding lane_at
  lane_at-set lanes slot k h = ap Defs.flat (get_elem?-set_self lanes slot k h)

  pub lane_at_other :
      (lanes : List (Option (Keyed A))) (slot other : ℕ) (k : Option (Keyed A))
      → slot ≢ other
      → lane_at (set lanes slot k) other ≡ lane_at lanes other
  unfolding lane_at
  lane_at_other lanes slot other k h = ap Defs.flat (get_elem?-set_ne lanes slot other k h)

  pub lane_at-some :
      (lanes : List (Option (Keyed A))) (slot : ℕ) (k : Keyed A)
      → lane_at lanes slot ≡ some k
      → slot < length lanes
  unfolding lane_at
  lane_at-some [] slot k e = cc
  lane_at-some (x ∷ xs) zero k e = omega arith
  lane_at-some (x ∷ xs) (suc slot) k e = omega (arith, lane_at-some xs slot k e)

  pub set-cases {κ} :
      (lanes : List (Option (Keyed A))) (slot : ℕ) (k : Option (Keyed A)) (i : ℕ)
      (P : Option (Keyed A) → Type κ)
      → slot < length lanes
      → (slot ≡ i → P k)
      → (slot ≢ i → P (lane_at lanes i))
      → P (lane_at (set lanes slot k) i)
  set-cases lanes slot k i P h hit miss = elim (Bool-cases (slot == i)) [
    | inl s ↦
        let f = ==→eq slot i s in
        subst P (sym (subst (λ j. lane_at (set lanes slot k) j ≡ k) f (lane_at-set lanes slot k h)))
          (hit f)
    | inr d ↦
        let f = ==-false→ne slot i d in subst P (sym (lane_at_other lanes slot i k f)) (miss f)
  ]

  -- A change that keeps the keys of the lanes keeps the keys of the rotation.
  pub AllCurrent-set :
      (lanes : List (Option (Keyed A))) (slot : ℕ) (k k' : Keyed A) (keys : List LaneKey)
      → lane_at lanes slot ≡ some k
      → k'.key ≡ k.key
      → AllCurrent lanes keys
      → AllCurrent (set lanes slot (some k')) keys
  AllCurrent-set lanes slot k k' [] e same all = tt
  AllCurrent-set lanes slot k k' (key ∷ keys) e same (c, all) =
      (here (Bool-cases (slot == key.slot)), AllCurrent-set lanes slot k k' keys e same all)
    where
      here :
          ((slot == key.slot) ≡ true) ⊎ ((slot == key.slot) ≡ false)
          → key_in (lane_at (set lanes slot (some k')) key.slot) ≡ some key
      here (inl hit) =
          let s : slot ≡ key.slot = ==→eq _ _ hit in
          ap key_in (
            subst (λ i. lane_at (set lanes slot (some k')) i ≡ some k') s
              (lane_at-set lanes slot (some k') (lane_at-some lanes slot k e)))
          ∙ ap some same
          ∙ ap key_in (sym e)
          ∙ ap (λ i. key_in (lane_at lanes i)) s
          ∙ c
      here (inr miss) =
          ap key_in (lane_at_other lanes slot key.slot (some k') (==-false→ne _ _ miss)) ∙ c

  pub AllCurrent-append :
      (lanes : List (Option (Keyed A))) (xs ys : List LaneKey)
      → AllCurrent lanes xs
      → AllCurrent lanes ys
      → AllCurrent lanes (xs ++ ys)
  AllCurrent-append lanes [] ys all all' = all'
  AllCurrent-append lanes (x ∷ xs) ys (c, all) all' = (c, AllCurrent-append lanes xs ys all all')

  -- The rotation after a change of one lane: its own count is right, the others' have not changed.
  pub update-RotationOk :
      (lanes : List (Option (Keyed A))) (active active' : List LaneKey) (paused paused' : List Bool)
      (slot : ℕ) (k k' : Keyed A)
      → RotationOk lanes active paused
      → lane_at lanes slot ≡ some k
      → k'.key ≡ k.key
      → Sound k'.lane
      → length paused' ≡ length paused
      → ((other : ℕ)
          → slot ≢ other
          → (count other active' ≡ count other active)
            × (get_elem? paused' other ≡ get_elem? paused other))
      → count slot active' ≡ queued_in (some k')
      → (get_elem? paused' slot ≡ some true → queued_in (some k') ≡ 0)
      → AllCurrent lanes active'
      → RotationOk (set lanes slot (some k')) active' paused'
  update-RotationOk lanes active active' paused paused' slot k k' r e same good size others own
        quiet all =
      record {
        sized = size ∙ r.sized ∙ sym (length-set lanes slot (some k'));
        counted = λ i.
            set-cases lanes slot (some k') i (λ o. count i active' ≡ queued_in o)
              (lane_at-some lanes slot k e)
              (λ s. subst (λ j. count j active' ≡ queued_in (some k')) s own)
              (λ d. (others i d).0 ∙ r.counted i);
        keyed = λ i.
            set-cases lanes slot (some k') i (λ o. (m : Keyed A) → o ≡ some m → m.key.slot ≡ i)
              (lane_at-some lanes slot k e)
              (λ s m f.
                ap (λ n. n.key.slot) (sym (some-inj f))
                ∙ ap (λ n. n.slot) same
                ∙ r.keyed slot k e
                ∙ s)
              (λ d. r.keyed i);
        all_current = AllCurrent-set lanes slot k k' active' e same all;
        still = λ i.
            set-cases lanes slot (some k') i
              (λ o. get_elem? paused' i ≡ some true → queued_in o ≡ 0) (lane_at-some lanes slot k e)
              (λ s p. quiet (subst (λ j. get_elem? paused' j ≡ some true) (sym s) p))
              (λ d p. r.still i (sym (others i d).1 ∙ p));
        sound = λ i.
            set-cases lanes slot (some k') i AllSound (lane_at-some lanes slot k e) (λ s. good)
              (λ d. r.sound i);
      }
    where
      some-inj : {a b : Keyed A} → some a ≡ some b → a ≡ b
      some-inj f = cc
