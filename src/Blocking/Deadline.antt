-- ===== src/Blocking/Deadline.antt =====
-- The blocking loop under a deadline ends.
use fanring_rs.Base.{
  ℕ, zero, suc, ◌+◌, ◌-◌, ◌≤◌, ◌<◌, ◌≡◌, ◌≢◌, arith, Bool, true, false, Option, none, some, ◌==◌,
  Bool-cases, inl, inr, Result, Ensures, Ensures-bind, Ensures-both,
}
use fanring_rs.Config.Defs.{SpinMode, WaitStrategy, step, deadline, new}
use fanring_rs.Blocking.Defs.{
  Attempt, Recheck, Endpoint, run, park_loop, Outcome, after_attempt, after_recheck, after_spin,
  after_timeout, after_last, park,
}
use fanring_rs.Blocking.Contract.{Contract, AttemptOk, RecheckOk, OutcomeOk, run-Ok}

-- What a second try may leave: less where it made progress.
abbrev pub Spends {ℓ κ μ ν} :
    {S : Type ℓ} {V : Type κ} {R : Type μ} {D : Type ν} (left : S → ℕ)
    → ℕ
    → Recheck V R D × S
    → Type 0
Spends left n (Recheck.finished r d, s) = left s ≤ n
Spends left n (Recheck.progressed v d, s) = left s < n
Spends left n (Recheck.pending v, s) = left s ≤ n

-- `left` bounds the work that the second tries still move. The clock never goes back, and its unit is
-- no longer than a try takes.
pub record Spending {ℓ κ μ ν} {S : Type ℓ} {V : Type κ} {R : Type μ} {D : Type ν}
    (Free Held : S → Type 0) (In : V → Type 0) (left : S → ℕ) (e : Endpoint S V R D)
    : Type (ℓ ⊔ κ ⊔ μ ⊔ ν) where
  pub attempt_spends :
      (v : V) (s : S)
      → In v
      → Free s
      → Ensures (e.attempt v s) (λ a. (left a.1 ≤ left s) × (e.now s < e.now a.1))
  pub recheck_spends :
      (v : V) (s : S)
      → In v
      → Held s
      → Ensures (e.recheck v s) (λ a. Spends left (left s) a × (e.now s ≤ e.now a.1))
  pub register_spends :
      (s : S) → Free s → (left (e.register s) ≤ left s) × (e.now s ≤ e.now (e.register s))
  pub unregister_spends :
      (s : S) → Held s → (left (e.unregister s) ≤ left s) × (e.now s ≤ e.now (e.unregister s))
  pub notify_spends :
      (d : D) (s : S) → Free s → (left (e.notify d s) ≤ left s) × (e.now s ≤ e.now (e.notify d s))
  pub wait_timeout_spends :
      (n : ℕ) (s : S)
      → Held s
      → (left (e.wait_timeout n s).1 ≤ left s) × (e.now s ≤ e.now (e.wait_timeout n s).1)

module _ {ℓ κ μ ν} {S : Type ℓ} {V : Type κ} {R : Type μ} {D : Type ν} (Free Held : S → Type 0)
    (In : V → Type 0) (Post : R → Type 0) (left : S → ℕ) (e : Endpoint S V R D)
    (c : Contract Free Held In Post e) (b : Spending Free Held In left e) where
  abbrev Returned : Option (Result R V × S) → Type (ℓ ⊔ κ ⊔ μ)
  Returned o = o ≢ none

  -- What is left: of the time, and of the work.
  abbrev budget : ℕ → S → ℕ
  budget at s = (at - e.now s) + left s

  -- What a try leaves: less, as long as there is time.
  abbrev Tried : S → Attempt V R × S → Type 0
  Tried s a = AttemptOk Free In Post a × ((left a.1 ≤ left s) × (e.now s < e.now a.1))

  abbrev Rechecked : S → Recheck V R D × S → Type 0
  Rechecked s a = RecheckOk Held In Post a × (Spends left (left s) a × (e.now s ≤ e.now a.1))

  attempt-Tried : (v : V) (s : S) → In v → Free s → Ensures (e.attempt v s) (Tried s)
  attempt-Tried v s i f =
      Ensures-both (e.attempt v s) _ _ (c.attempt_keeps v s i f) (b.attempt_spends v s i f)

  last-Returned : (a : Attempt V R × S) → Ensures (after_last e a) Returned
  last-Returned (Attempt.finished r, s) = λ z. cc
  last-Returned (Attempt.pending v, s) = λ z. cc

  module _ (fuel : ℕ) (loop_ : V → S → Outcome e) (at : ℕ)
      (next : (v : V) (s : S)
        → In v
        → Free s
        → budget at s < fuel
        → Ensures (loop_ v s) Returned) where
    timeout-Returned :
        (v : V) (r : Bool × S)
        → In v
        → Free r.1
        → budget at r.1 < fuel
        → Ensures (after_timeout e (loop_ v r.1) v r) Returned
    timeout-Returned v (true, t) i f h =
        Ensures-bind (e.attempt v t) (after_last e) (AttemptOk Free In Post) Returned
          (c.attempt_keeps v t i f) (λ a kept. last-Returned a)
    timeout-Returned v (false, t) i f h = next v t i f h

    -- `m` is the time at which the round began.
    park-Returned :
        (m : ℕ) (v : V) (s : S)
        → In v
        → Held s
        → m < e.now s
        → (at - m) + left s < suc fuel
        → Ensures (park e loop_ (some at) v s) Returned
    park-Returned m v s i held later h = elim (Bool-cases (at - e.now s == 0)) [
      | inl over ↦ rw over (λ z. cc)
      | inr some_time ↦
          let (spent, ticks) = b.wait_timeout_spends (at - e.now s) s held in
          let time : 0 < at - e.now s = ground arith in
          rw some_time (
            timeout-Returned v (e.wait_timeout (at - e.now s) s) i
              (c.wait_timeout_frees (at - e.now s) s held) (omega arith))
    ]

    recheck-Returned :
        (m n : ℕ)
        → (at - m) + n < suc fuel
        → (a : Recheck V R D × S) → RecheckOk Held In Post a
        → Spends left n a
        → m < e.now a.1
        → Ensures (after_recheck e loop_ (some at) a) Returned
    recheck-Returned m n h (Recheck.finished r d, s) kept spent later = λ z. cc
    recheck-Returned m n h (Recheck.progressed v d, s) (i, held) spent later =
        let free = c.unregister_frees s held in
        let (u, t) = b.unregister_spends s held in
        let (w, z) = b.notify_spends d (e.unregister s) free in
        next v _ i (c.notify_keeps d _ free) (omega arith)
    recheck-Returned m n h (Recheck.pending v, s) (i, held) spent later =
        park-Returned m v s i held later (omega arith)

    attempt-Returned :
        (s : S)
        → budget at s < suc fuel
        → (a : Attempt V R × S) → Tried s a
        → Ensures (after_attempt e loop_ (some at) a) Returned
    attempt-Returned s h (Attempt.finished r, t) tried = λ z. cc
    attempt-Returned s h (Attempt.pending v, t) ((i, free), (spent, later)) =
        let (u, z) = b.register_spends t free in
        let held = c.register_holds t free in
        Ensures-bind (e.recheck v (e.register t)) (after_recheck e loop_ (some at))
          (Rechecked (e.register t)) Returned
          (Ensures-both (e.recheck v (e.register t)) _ _ (c.recheck_keeps v _ i held)
            (b.recheck_spends v _ i held))
          (λ a p.
            recheck-Returned (e.now s) (left (e.register t)) (omega arith) a p.0 p.1.0
              (let q = p.1.1 in omega arith))

    -- A step of the spin phase that goes on.
    spin-Returned :
        (s : S)
        → e.now s < at
        → budget at s < suc fuel
        → (a : Attempt V R × S) → Tried s a
        → Ensures (after_spin e loop_ a) Returned
    spin-Returned s before h (Attempt.finished r, t) tried = λ z. cc
    spin-Returned s before h (Attempt.pending v, t) ((i, free), (spent, later)) =
        next v t i free (omega arith)

  park_loop-Returned :
      (fuel at : ℕ) (v : V) (s : S)
      → In v
      → Free s
      → budget at s < fuel
      → Ensures (park_loop e fuel (some at) v s) Returned
  unfolding park_loop
  park_loop-Returned zero at v s i f h = absurd (omega arith)
  park_loop-Returned (suc fuel) at v s i f h =
      Ensures-bind (e.attempt v s) (after_attempt e (park_loop e fuel (some at)) (some at))
        (Tried s) Returned (attempt-Tried v s i f)
        (attempt-Returned fuel (park_loop e fuel (some at)) at (park_loop-Returned fuel at) s h)

  -- A spin phase that is over, or under the operation's deadline.
  abbrev Timely : ℕ → SpinMode → Type 0
  Timely at SpinMode.finished = Unit {0}
  Timely at (SpinMode.timed t) = t.operation_deadline ≡ some at

  -- A spin phase that goes on has time left, and stays under the deadline.
  step-Timely :
      (at now : ℕ) (spin : SpinMode)
      → Timely at spin
      → (step spin now).0 ≡ true
      → (now < at) × Timely at (step spin now).1
  unfolding step
  step-Timely at now SpinMode.finished timely again = cc
  step-Timely at now (SpinMode.timed t) timely again = ground arith

  spin-Returns :
      (fuel at : ℕ) (spin : SpinMode) (v : V) (s : S)
      → Timely at spin
      → In v
      → Free s
      → budget at s + 1 < fuel
      → Ensures (run e fuel spin (some at) v s) Returned
  unfolding run
  spin-Returns zero at spin v s timely i f h = absurd (omega arith)
  spin-Returns (suc fuel) at spin v s timely i f h = elim (Bool-cases (step spin (e.now s)).0) [
    | inl again ↦
        let (before, timely') = step-Timely at (e.now s) spin timely again in
        rw again (
          Ensures-bind (e.attempt v s) (after_spin e (run e fuel (step spin (e.now s)).1 (some at)))
            (Tried s) Returned (attempt-Tried v s i f)
            (spin-Returned (fuel - 1) (run e fuel (step spin (e.now s)).1 (some at)) at
              (λ w t j g l. spin-Returns fuel at _ w t timely' j g (omega arith)) s before
              (omega arith)))
    | inr over ↦ rw over (park_loop-Returned fuel at v s i f (omega arith))
  ]

  deadline-Timely :
      (strategy : WaitStrategy) (at started : ℕ) → Timely at (deadline strategy at started)
  unfolding deadline new
  deadline-Timely strategy at started = ground arith

  -- An operation with a deadline, under any strategy of spinning, returns: with the result of a
  -- finished attempt or with its input, and with no registration left. Every endpoint that keeps its
  -- part has this whose clock never goes back, whose tries each take a unit of time at least, and
  -- whose second tries move a bounded amount of work. The rounds are at most the time to the deadline
  -- and the work to be moved, and two more.
  pub run-returns :
      (fuel at started : ℕ) (strategy : WaitStrategy) (v : V) (s : S)
      → In v
      → Free s
      → (at - e.now s) + left s + 1 < fuel
      → Ensures
          (run e fuel (deadline strategy at started) (some at) v s)
          (λ o. OutcomeOk Free In Post (some at) o × (o ≢ none))
  run-returns fuel at started strategy v s i f h =
      Ensures-both (run e fuel (deadline strategy at started) (some at) v s) _ _
        (run-Ok Free Held In Post e c fuel (deadline strategy at started) (some at) v s i f)
        (spin-Returns fuel at (deadline strategy at started) v s
          (deadline-Timely strategy at started) i f (omega arith))
