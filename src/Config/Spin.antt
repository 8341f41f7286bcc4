-- ===== src/Config/Spin.antt =====
-- How long the spin phase lasts.
use fanring_rs.Base.{
  ℕ, zero, suc, ◌+◌, ◌-◌, ◌≤◌, ◌<◌, ◌≡◌, refl, sym, not, ap, ◌∙◌, Bool, true, false, Option, none,
  some, arith, leb, ◌==◌, if◌then◌else◌, Bool-cases, inl, inr,
}
use fanring_rs.Config.Defs.{
  Timed, SpinMode, timed, step_blocking, step_deadline, clock_check_interval, rounds, step,
}

step-none :
    (t : Timed) (now : ℕ) → t.operation_deadline ≡ none → step (timed t) now ≡ step_blocking t now
unfolding step
step-none t now none_set =
    ap (λ d. elim d [ none ↦ step_blocking t now | some at ↦ step_deadline t at now ]) none_set

-- A step with clock checks to leave out, and one that finds the time over.
step-skip :
    (t : Timed) (now : ℕ)
    → t.operation_deadline ≡ none
    → (t.until_clock_check == 0) ≡ false
    → step (timed t) now ≡ (true, timed (record t { until_clock_check = t.until_clock_check - 1 }))
step-skip t now none_set skip = step-none t now none_set ∙ rw skip refl

step-over :
    (t : Timed) (now : ℕ)
    → t.operation_deadline ≡ none
    → t.until_clock_check ≡ 0
    → t.started + t.duration ≤ now
    → step (timed t) now ≡ (false, timed t)
step-over t now none_set check late =
    let z : (t.until_clock_check == 0) ≡ true = ground arith in
    let over : leb t.duration (now - t.started) ≡ true = ground arith in
    step-none t now none_set
    ∙ by_tests (t.until_clock_check == 0) (leb t.duration (now - t.started)) z over
  where
    by_tests :
        (a b : Bool)
        → a ≡ true
        → b ≡ true
        → let r : Bool × SpinMode =
            if not a
            then (true, timed (record t { until_clock_check = t.until_clock_check - 1 }))
            else if b
            then (false, timed t)
            else (true, timed (record t { until_clock_check = clock_check_interval - 1 })) in
          r ≡ (false, timed t)
    by_tests a b e f = rw (e, f) refl

-- Once the time of a spin phase with no deadline is over, the loop ends: it spins only the rounds
-- that were left before the next clock check, on every clock that is past the end.
pub rounds-ends :
    (fuel : ℕ) (t : Timed) (clock : ℕ → ℕ)
    → t.operation_deadline ≡ none
    → ((i : ℕ) → t.started + t.duration ≤ clock i)
    → t.until_clock_check < fuel
    → rounds fuel (timed t) clock ≡ some t.until_clock_check
unfolding rounds
rounds-ends zero t clock none_set late h = absurd (omega arith)
rounds-ends (suc fuel) t clock none_set late h = elim (Bool-cases (t.until_clock_check == 0)) [
  | inl check ↦
      let e : t.until_clock_check ≡ 0 = ground arith in
      ap (after fuel) (step-over t (clock fuel) none_set e (late fuel))
      ∙ ap (λ (n : ℕ). some n) (sym e)
  | inr skip ↦
      let less : suc (t.until_clock_check - 1) ≡ t.until_clock_check = ground arith in
      let t' = record t { until_clock_check = t.until_clock_check - 1 } in
      ap (after fuel) (step-skip t (clock fuel) none_set skip)
      ∙ ap one_more (rounds-ends fuel t' clock none_set late (omega arith))
      ∙ ap (λ (n : ℕ). some n) less
]
  where
    one_more : Option ℕ → Option ℕ
    one_more o = elim o [ none ↦ none | some n ↦ some (suc n) ]

    after : ℕ → Bool × SpinMode → Option ℕ
    after fuel r = if r.0 then one_more (rounds fuel r.1 clock) else some 0
