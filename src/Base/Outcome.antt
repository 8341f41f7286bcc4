-- ===== src/Base/Outcome.antt =====
-- `Result` of the source, and the outcome of code that may touch memory it must not touch.
use mathlib.Core.Path.{◌≡◌, refl}
use mathlib.Core.Logic.{Lift}

pub data Result {ℓ κ} (A : Type ℓ) (E : Type κ) : Type (ℓ ⊔ κ) where
  ok : A → Result A E
  err : E → Result A E

-- `fault` stands for an index out of range, a read of a slot that holds no value, or a panic.
pub data Access {ℓ} (A : Type ℓ) : Type ℓ where
  done : A → Access A
  fault : Access A

infixl 5 ◌>>=◌
abbrev pub ◌>>=◌ {ℓ κ} : {A : Type ℓ} {B : Type κ} → Access A → (A → Access B) → Access B
done a >>= f = f a
fault >>= f = fault

-- The parts of a chain that ran through.
pub >>=-eq-done {ℓ κ} :
    {A : Type ℓ} {B : Type κ} (m : Access A) (f : A → Access B) {b : B}
    → (m >>= f) ≡ done b
    → (a : A) × (m ≡ done a) × (f a ≡ done b)
>>=-eq-done (done a) f h = (a, refl, h)
>>=-eq-done fault f h = cc

pub done-inj {ℓ} : {A : Type ℓ} {a b : A} → done a ≡ done b → a ≡ b
done-inj h = cc

-- The code runs through, and its result has the property.
abbrev pub Ensures {ℓ κ} : {A : Type ℓ} → Access A → (A → Type κ) → Type κ
Ensures (done a) P = P a
Ensures fault P = Lift ⊥

pub Ensures-bind {ℓ κ μ ν} :
    {A : Type ℓ} {B : Type κ} (m : Access A) (f : A → Access B) (P : A → Type μ) (Q : B → Type ν)
    → Ensures m P
    → ((a : A) → P a → Ensures (f a) Q)
    → Ensures (m >>= f) Q
Ensures-bind (done a) f P Q h k = k a h
Ensures-bind fault f P Q h k = absurd h.lower

pub Ensures-weaken {ℓ κ μ} :
    {A : Type ℓ} (m : Access A) (P : A → Type κ) (Q : A → Type μ)
    → Ensures m P
    → ((a : A) → P a → Q a)
    → Ensures m Q
Ensures-weaken (done a) P Q h k = k a h
Ensures-weaken fault P Q h k = absurd h.lower

pub Ensures-both {ℓ κ μ} :
    {A : Type ℓ} (m : Access A) (P : A → Type κ) (Q : A → Type μ)
    → Ensures m P
    → Ensures m Q
    → Ensures m (λ a. P a × Q a)
Ensures-both (done a) P Q h k = (h, k)
Ensures-both fault P Q h k = absurd h.lower
