-- ===== src/Receiver/Retain.antt =====
-- A lane that leaves the rotation, and one that leaves the receiver.
use fanring_rs.Base.{
  ℕ, ◌+◌, ◌<◌, ◌≡◌, ◌≢◌, refl, sym, ap, ap₂, ◌∙◌, arith, Bool, true, false, Option, none, some,
  List, [], ◌∷◌, length, set, get_elem?, length-set, get_elem?-set_ne, ◌==◌, if◌then◌else◌,
  Bool-cases, inl, inr, ==→eq, ==-false→ne,
}
use mathlib.Core.Path.{subst}
use fanring_rs.Registry.Defs.{LaneKey}
use fanring_rs.Receiver.Defs.{Keyed, lane_at, key_eq, retain_other}
use fanring_rs.Receiver.Rotation.{
  count, queued_in, key_in, AllCurrent, AllSound, RotationOk, set-cases, lane_at-some,
  lane_at_other,
}

pub key_eq_eq : (a b : LaneKey) → key_eq a b ≡ true → a ≡ b
unfolding key_eq
key_eq_eq a b e =
    let s : a.slot ≡ b.slot = ground arith in
    let g : a.generation ≡ b.generation = ground arith in
    ap₂ (λ slot generation. record { slot = slot; generation = generation }) s g

pub key_eq_self : (a : LaneKey) → key_eq a a ≡ true
unfolding key_eq
key_eq_self a = ground arith

module _ {ℓ} {A : Type ℓ} where
  -- A removed key is that of its lane, so none with its slot is left.
  pub count-retain :
      (lanes : List (Option (Keyed A))) (key : LaneKey) (keys : List LaneKey)
      → key_in (lane_at lanes key.slot) ≡ some key
      → AllCurrent lanes keys
      → (count key.slot (retain_other key keys) ≡ 0)
        × AllCurrent lanes (retain_other key keys)
        × ((other : ℕ) → key.slot ≢ other → count other (retain_other key keys) ≡ count other keys)
  count-retain lanes key [] e all = (refl, tt, λ other d. refl)
  count-retain lanes key (k ∷ keys) e (c, all) =
      let (gone, kept, same) = count-retain lanes key keys e all in
      elim (Bool-cases (key_eq k key)) [
        | inl hit ↦
            let f = key_eq_eq k key hit in
            rw hit (
              gone,
              kept,
              λ other d.
                  let z : (k.slot == other) ≡ false =
                    ne_false k.slot other (λ g. d (ap (λ n. n.slot) (sym f) ∙ g)) in
                  rw z (omega (arith, same other d)),
            )
        | inr miss ↦
            let z : (k.slot == key.slot) ≡ false =
              ne_false k.slot key.slot (λ g. away miss (same_key g)) in
            rw miss (
              rw z (omega (arith, gone)),
              (c, kept),
              λ other d. ap (λ n. (if k.slot == other then 1 else 0) + n) (same other d),
            )
      ]
    where
      ne_false : (a b : ℕ) → a ≢ b → (a == b) ≡ false
      ne_false a b d = elim (Bool-cases (a == b)) [ inl h ↦ absurd (d (==→eq a b h)) | inr h ↦ h ]

      same_key : k.slot ≡ key.slot → k ≡ key
      same_key g = let f = sym c ∙ ap (λ i. key_in (lane_at lanes i)) g ∙ e in cc

      away : key_eq k key ≡ false → k ≡ key → ⊥
      away miss f =
          let h : key_eq k key ≡ true =
            subst (λ n. key_eq n key ≡ true) (sym f) (key_eq_self key) in
          cc

  AllCurrent-remove :
      (lanes : List (Option (Keyed A))) (slot : ℕ) (keys : List LaneKey)
      → count slot keys ≡ 0
      → AllCurrent lanes keys
      → AllCurrent (set lanes slot none) keys
  AllCurrent-remove lanes slot [] z all = tt
  AllCurrent-remove lanes slot (k ∷ keys) z (c, all) = elim (Bool-cases (k.slot == slot)) [
    | inl hit ↦ absurd (ground arith)
    | inr miss ↦ (
      ap key_in (lane_at_other lanes slot k.slot none (λ f. ==-false→ne k.slot slot miss (sym f)))
          ∙ c,
      AllCurrent-remove lanes slot keys (ground arith) all,
    )
  ]

  -- The rotation after a lane that is not in it has been dropped.
  pub remove-RotationOk :
      (lanes : List (Option (Keyed A))) (active : List LaneKey) (paused : List Bool) (slot : ℕ)
      (k : Keyed A)
      → RotationOk lanes active paused
      → lane_at lanes slot ≡ some k
      → queued_in (some k) ≡ 0
      → RotationOk (set lanes slot none) active (set paused slot false)
  remove-RotationOk lanes active paused slot k r e out = record {
    sized = length-set paused slot false ∙ r.sized ∙ sym (length-set lanes slot none);
    counted = λ i.
        set-cases lanes slot none i (λ o. count i active ≡ queued_in o) h
          (λ s. subst (λ j. count j active ≡ 0) s left) (λ d. r.counted i);
    keyed = λ i.
        set-cases lanes slot none i (λ o. (m : Keyed A) → o ≡ some m → m.key.slot ≡ i) h
          (λ s m f. cc) (λ d. r.keyed i);
    all_current = AllCurrent-remove lanes slot active left r.all_current;
    still = λ i.
        set-cases lanes slot none i
          (λ o. get_elem? (set paused slot false) i ≡ some true → queued_in o ≡ 0) h (λ s p. refl)
          (λ d p. r.still i (sym (get_elem?-set_ne paused slot i false d) ∙ p));
    sound = λ i. set-cases lanes slot none i AllSound h (λ s. tt) (λ d. r.sound i);
  }
    where
      h : slot < length lanes
      h = lane_at-some lanes slot k e

      left : count slot active ≡ 0
      left = r.counted slot ∙ ap queued_in e ∙ out
