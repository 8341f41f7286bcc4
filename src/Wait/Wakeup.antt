-- ===== src/Wait/Wakeup.antt =====
-- No wakeup is lost: a sleeper whose condition holds has a notifier on its way.
use fanring_rs.Base.{
  ℕ, suc, ◌≤◌, ◌<◌, ◌≡◌, ◌≢◌, refl, sym, ap, ◌∙◌, true, false, ◌==◌, if◌then◌else◌, ◌⊎◌, inl, inr,
  arith, Bool-cases, ==→eq,
}
use mathlib.Core.Path.{subst}
use fanring_rs.Wait.Cell.{
  WaitCell, Waiter, Notifier, Step, Steps, new, update, after_advance, wake, running, registered,
  rechecked, asleep, leaving, resting, published, signalling,
}

-- The notifier will still signal a sleeper.
abbrev Coming : Notifier → Type 0
Coming resting = ⊥
Coming _ = Unit {0}

-- A notifier that has published and not advanced.
abbrev Owed : (ℕ → Notifier) → Type 0
Owed notifiers = (i : ℕ) × (notifiers i ≡ published)

abbrev Ok : Waiter → WaitCell → Type 0
Ok running c = Unit {0}
Ok leaving c = Unit {0}
Ok (registered snapshot) c = (c.waiting ≡ true) × (snapshot ≤ c.generation)
Ok (rechecked snapshot) c =
    (c.waiting ≡ true)
    × (snapshot ≤ c.generation)
    × ((c.ready ≡ false) ⊎ (snapshot < c.generation) ⊎ Owed c.notifiers)
Ok asleep c = (c.waiting ≡ true) × ((c.ready ≡ false) ⊎ ((i : ℕ) × Coming (c.notifiers i)))

update-at : (i : ℕ) (n : Notifier) (notifiers : ℕ → Notifier) → update i n notifiers i ≡ n
update-at i n notifiers = let e : (i == i) ≡ true = ground arith in rw e refl

-- A notifier that has still to advance is not the one that signals.
update-Owed :
    (i : ℕ) (notifiers : ℕ → Notifier)
    → notifiers i ≡ signalling
    → Owed notifiers
    → Owed (update i resting notifiers)
update-Owed i notifiers s (j, p) = elim (Bool-cases (j == i)) [
  | inl same ↦ absurd (published-ne-signalling (sym p ∙ ap notifiers (==→eq _ _ same) ∙ s))
  | inr other ↦ (j, rw other p)
]
  where
    published-ne-signalling : published ≢ signalling
    published-ne-signalling e = cc

publish-Ok :
    (w : Waiter) (c : WaitCell) (i : ℕ)
    → Ok w c
    → Ok w (record c { notifiers = update i published c.notifiers; ready = true })
publish-Ok running c i v = tt
publish-Ok leaving c i v = tt
publish-Ok (registered snapshot) c i v = v
publish-Ok (rechecked snapshot) c i (w, le, _) =
    (w, le, inr (inr (i, update-at i published c.notifiers)))
publish-Ok asleep c i (w, _) = (w, inr (i, rw (update-at i published c.notifiers) tt))

advance-Ok :
    (w : Waiter) (c : WaitCell) (i : ℕ)
    → Ok w c
    → Ok w (record c {
      notifiers = update i (after_advance c.waiting) c.notifiers;
      generation = suc c.generation;
    })
advance-Ok running c i v = tt
advance-Ok leaving c i v = tt
advance-Ok (registered snapshot) c i (w, le) = (w, omega arith)
advance-Ok (rechecked snapshot) c i (w, le, _) = (w, omega arith, inr (inl (omega arith)))
advance-Ok asleep c i (w, _) =
    let e : update i (after_advance c.waiting) c.notifiers i ≡ signalling =
      update-at i (after_advance c.waiting) c.notifiers ∙ ap after_advance w in
    (w, inr (i, subst Coming (sym e) tt))

signal-Ok :
    (w : Waiter) (c : WaitCell) (i : ℕ)
    → c.notifiers i ≡ signalling
    → Ok w c
    → Ok
        (wake c.waiting w)
        (record c { waiter = wake c.waiting c.waiter; notifiers = update i resting c.notifiers })
signal-Ok running c i s v = tt
signal-Ok leaving c i s v = tt
signal-Ok (registered snapshot) c i s v = v
signal-Ok (rechecked snapshot) c i s (w, le, inl off) = (w, le, inl off)
signal-Ok (rechecked snapshot) c i s (w, le, inr (inl lt)) = (w, le, inr (inl lt))
signal-Ok (rechecked snapshot) c i s (w, le, inr (inr owed)) =
    (w, le, inr (inr (update-Owed i c.notifiers s owed)))
signal-Ok asleep c i s (w, _) = rw w tt

sleep-Ok :
    (c : WaitCell) (snapshot : ℕ)
    → Ok (rechecked snapshot) c
    → snapshot ≡ c.generation
    → Ok asleep (record c { waiter = asleep })
sleep-Ok c snapshot (w, le, inl off) e = (w, inl off)
sleep-Ok c snapshot (w, le, inr (inl lt)) e = absurd (omega arith)
sleep-Ok c snapshot (w, le, inr (inr (i, p))) e = (w, inr (i, subst Coming (sym p) tt))

at : (c : WaitCell) (w : Waiter) → c.waiter ≡ w → Ok c.waiter c → Ok w c
at c w e v = subst (λ x. Ok x c) e v

step-Ok : (c d : WaitCell) → Step c d → Ok c.waiter c → Ok d.waiter d
step-Ok _ _ (Step.prepare c e) v = (refl, omega arith)
step-Ok _ _ (Step.find c snapshot e r) v = tt
step-Ok _ _ (Step.miss c snapshot e r) v = let (w, le) = at c _ e v in (w, le, inl r)
step-Ok _ _ (Step.sleep c snapshot e same) v = sleep-Ok c snapshot (at c _ e v) same
step-Ok _ _ (Step.stay c snapshot e moved) v = tt
step-Ok _ _ (Step.stir c e) v = tt
step-Ok _ _ (Step.unregister c e) v = tt
step-Ok _ _ (Step.publish c i e) v = publish-Ok c.waiter c i v
step-Ok _ _ (Step.advance c i e) v = advance-Ok c.waiter c i v
step-Ok _ _ (Step.signal c i e) v = signal-Ok c.waiter c i e v

steps-Ok : (c d : WaitCell) → Steps c d → Ok c.waiter c → Ok d.waiter d
steps-Ok _ _ (Steps.stop c) v = v
steps-Ok _ _ (Steps.more {c} {d} {e} past now) v = step-Ok d e now (steps-Ok c d past v)

-- What `Coming` leaves open.
coming_lem : (n : Notifier) → Coming n → (n ≡ published) ⊎ (n ≡ signalling)
coming_lem resting v = absurd v
coming_lem published v = inl refl
coming_lem signalling v = inr refl

-- A waiter is never asleep for good: in every state that the cell can reach, if the waiter sleeps and
-- its condition holds, then some notifier is inside `notify`, about to advance the generation or to
-- signal; the WAITING bit sends the first on to the signal, and the signal wakes the waiter.
pub no_lost_wakeup :
    (c : WaitCell)
    → Steps new c
    → c.waiter ≡ asleep
    → c.ready ≡ true
    → (i : ℕ) × ((c.notifiers i ≡ published) ⊎ (c.notifiers i ≡ signalling))
      × (after_advance c.waiting ≡ signalling)
      × (wake c.waiting c.waiter ≡ leaving)
no_lost_wakeup c past sleeps ready =
    let (w, cause) = at c asleep sleeps (steps-Ok new c past tt) in
    elim cause [
      | inl off ↦ absurd (true-ne-false (sym ready ∙ off))
      | inr (i, coming) ↦ (
        i,
        coming_lem (c.notifiers i) coming,
        ap after_advance w,
        ap (wake c.waiting) sleeps ∙ ap (λ b. if b then leaving else asleep) w,
      )
    ]
  where
    true-ne-false : true ≢ false
    true-ne-false e = cc
