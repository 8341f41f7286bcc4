-- ===== src/Yring/Slots.antt =====
-- The slots of a ring read from a position on, going round at the capacity.
use fanring_rs.Base.{
  ℕ, suc, ◌+◌, ◌-◌, ◌%◌, ◌≤◌, ◌<◌, ◌≡◌, sym, ap, ◌∙◌, ◌≢◌, List, [], ◌∷◌, ◌++◌, arith, dec_lt,
  ℕ_discrete, length, get_elem?, set, replicate, length-set, length-append, get_elem?-set_self,
  get_elem?-set_ne, get_elem?-append_left, get_elem?-append_length, Option, some, none, zero, refl,
  map, replicate-snoc, length-replicate, mod-ne-mod,
}
use mathlib.Core.Path.{subst}
use mathlib.Core.Option
use native.Mathlib.Nat.{mod-lt, mod-eq_of_lt, add-mod_right}

-- Offsets below the capacity name different places.
same_place :
    {cap : ℕ} (at : ℕ) {a b : ℕ} → a < cap → b < cap → a ≢ b → (at + a) % cap ≢ (at + b) % cap
same_place {cap} at {a} {b} ha hb ne e = elim (dec_lt a b) [
  | yes less ↦
      mod-ne-mod {m = cap} {d = b - a} (at + a) (omega arith) (omega arith)
        (e ∙ ap (λ (t : ℕ). t % cap) (omega arith))
  | no more ↦
      mod-ne-mod {m = cap} {d = a - b} (at + b) (omega arith) (omega arith)
        (sym e ∙ ap (λ (t : ℕ). t % cap) (omega arith))
]

module _ {ℓ} {A : Type ℓ} (cap : ℕ) where
  -- From position `at` on, the slots of `buf` are `slots`.
  abbrev pub Holds : List A → ℕ → List A → Type ℓ
  Holds buf at slots =
      (d : ℕ) → d < length slots → get_elem? buf ((at + d) % cap) ≡ get_elem? slots d

  -- A write at one offset.
  pub Holds-set :
      (buf : List A) (at d : ℕ) (v : A) (slots : List A)
      → length buf ≡ cap
      → length slots ≤ cap
      → d < length slots
      → Holds buf at slots
      → Holds (set buf ((at + d) % cap) v) at (set slots d v)
  Holds-set buf at d v slots full fits hd h e he = elim (ℕ_discrete d e) [
    | yes same ↦
        subst
          (λ t.
            get_elem? (set buf ((at + d) % cap) v) ((at + t) % cap) ≡ get_elem? (set slots d v) t)
          same
          (get_elem?-set_self buf ((at + d) % cap) v
              (omega (arith, mod-lt (at + d) {m = cap} (omega arith)))
            ∙ sym (get_elem?-set_self slots d v hd))
    | no other ↦
        let he' : e < length slots = omega (arith, length-set slots d v) in
        get_elem?-set_ne buf ((at + d) % cap) ((at + e) % cap) v
          (same_place at (omega arith) (omega arith) other)
        ∙ h e he'
        ∙ sym (get_elem?-set_ne slots d e v other)
  ]

  -- Going one position on, the first slot becomes the last.
  pub Holds-rotate :
      (buf : List A) (at : ℕ) (x : A) (xs : List A)
      → suc (length xs) ≡ cap
      → Holds buf at (x ∷ xs)
      → Holds buf (at + 1) (xs ++ (x ∷ []))
  Holds-rotate buf at x xs full h d hd = elim (dec_lt d (length xs)) [
    | yes inside ↦
        ap (λ (t : ℕ). get_elem? buf (t % cap)) (let e : at + 1 + d ≡ at + suc d = omega arith in e)
        ∙ h (suc d) (omega arith)
        ∙ sym (get_elem?-append_left xs (x ∷ []) d inside)
    | no last ↦
        let e : d ≡ length xs = omega (arith, length-append xs (x ∷ [])) in
        ap (λ (t : ℕ). get_elem? buf t) (around (omega arith))
        ∙ h 0 (omega arith)
        ∙ sym (get_elem?-append_length xs x [] d e)
  ]
    where
      around : at + 1 + d ≡ at + 0 + cap → (at + 1 + d) % cap ≡ (at + 0) % cap
      around e = ap (λ (t : ℕ). t % cap) e ∙ add-mod_right (at + 0) cap

  pub Holds-replicate : (a : A) → Holds (replicate cap a) 0 (replicate cap a)
  Holds-replicate a d hd =
      let h : d < cap = omega (arith, length-replicate cap a) in
      ap (get_elem? (replicate cap a)) (mod-eq_of_lt (omega arith) ∙ omega arith)

module _ {ℓ} {A : Type ℓ} (cap : ℕ) where
  -- Taking the value out of the first slot leaves an empty slot at the end.
  pub Holds-take :
      (buf : List (Option A)) (at : ℕ) (x : Option A) (xs : List (Option A))
      → length buf ≡ cap
      → suc (length xs) ≡ cap
      → Holds cap buf at (x ∷ xs)
      → Holds cap (set buf (at % cap) none) (at + 1) (xs ++ (none ∷ []))
  Holds-take buf at x xs size full h = Holds-rotate cap (set buf (at % cap) none) at none xs full (
      subst (λ (t : ℕ). Holds cap (set buf (t % cap) none) at (none ∷ xs))
        (let e : at + 0 ≡ at = omega arith in e)
        (Holds-set cap buf at 0 none (x ∷ xs) size (omega arith) (omega arith) h))

-- Slots that hold `xs`, then `free` empty ones.
abbrev pub fill {ℓ} : {A : Type ℓ} → List A → ℕ → List (Option A)
fill xs free = map some xs ++ replicate free none

module _ {ℓ} {A : Type ℓ} where
  pub length-fill : (xs : List A) (free : ℕ) → length (fill xs free) ≡ length xs + free
  length-fill [] free = length-replicate free none ∙ omega arith
  length-fill (x ∷ xs) free = omega (arith, length-fill xs free)

  -- Writing the first empty slot.
  pub set-fill :
      (xs : List A) (x : A) (i n free : ℕ)
      → i ≡ length xs
      → n ≡ suc free
      → set (fill xs n) i (some x) ≡ fill (xs ++ (x ∷ [])) free
  set-fill [] x i n free e h = rw (e, h)
  set-fill (y ∷ xs) x i n free e h =
      rw e (ap (λ l. some y ∷ l) (set-fill xs x (length xs) n free refl h))

  -- One more empty slot at the end.
  pub fill-append-none :
      (xs : List A) (n free : ℕ) → free ≡ suc n → fill xs n ++ (none ∷ []) ≡ fill xs free
  fill-append-none [] n free h = replicate-snoc n none ∙ rw h
  fill-append-none (y ∷ xs) n free h = ap (λ l. some y ∷ l) (fill-append-none xs n free h)

  -- The first values of a fill, and the rest.
  pub fill-append : (xs ys : List A) (free : ℕ) → fill (xs ++ ys) free ≡ map some xs ++ fill ys free
  fill-append [] ys free = refl
  fill-append (x ∷ xs) ys free = ap (λ l. some x ∷ l) (fill-append xs ys free)

  pub fill-append-replicate :
      (xs : List A) (free n : ℕ) → fill xs free ++ replicate n none ≡ fill xs (free + n)
  fill-append-replicate (x ∷ xs) free n = ap (λ l. some x ∷ l) (fill-append-replicate xs free n)
  fill-append-replicate [] zero n = ap (λ (t : ℕ). replicate t none) (omega arith)
  fill-append-replicate [] (suc free) n =
      ap (λ l. none ∷ l) (fill-append-replicate [] free n)
      ∙ ap (λ (t : ℕ). replicate t none) (let e : suc (free + n) ≡ suc free + n = omega arith in e)

  -- A value of the fill, at its offset.
  pub get_elem?-fill :
      (xs ys : List A) (free i : ℕ) (x : A)
      → get_elem? xs i ≡ some x
      → get_elem? (fill (xs ++ ys) free) i ≡ some (some x)
  get_elem?-fill [] ys free i x e = absurd (cc)
  get_elem?-fill (y ∷ xs) ys free zero x e = ap (λ o. Option.map some o) e
  get_elem?-fill (y ∷ xs) ys free (suc i) x e = get_elem?-fill xs ys free i x e
