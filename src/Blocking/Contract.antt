-- ===== src/Blocking/Contract.antt =====
-- What a blocking operation keeps to, for every endpoint that keeps to its part.
use fanring_rs.Base.{
  ℕ, zero, suc, ◌-◌, ◌≡◌, ◌≢◌, refl, Bool, true, false, Option, none, some, ◌==◌, Bool-cases, inl,
  inr, Result, ok, err, Ensures, Ensures-bind,
}
use fanring_rs.Config.Defs.{SpinMode, step}
use fanring_rs.Blocking.Defs.{
  Attempt, Recheck, Endpoint, run, park_loop, Outcome, after_attempt, after_recheck, after_timeout,
  after_last, after_spin, park,
}

abbrev pub AttemptOk {ℓ κ μ} :
    {S : Type ℓ} {V : Type κ} {R : Type μ} (Free : S → Type 0) (In : V → Type 0) (Post : R → Type 0)
    → Attempt V R × S
    → Type 0
AttemptOk Free In Post (Attempt.finished r, s) = Post r × Free s
AttemptOk Free In Post (Attempt.pending v, s) = In v × Free s

abbrev pub RecheckOk {ℓ κ μ ν} :
    {S : Type ℓ} {V : Type κ} {R : Type μ} {D : Type ν} (Held : S → Type 0) (In : V → Type 0)
    (Post : R → Type 0)
    → Recheck V R D × S
    → Type 0
RecheckOk Held In Post (Recheck.finished r d, s) = Post r × Held s
RecheckOk Held In Post (Recheck.progressed v d, s) = In v × Held s
RecheckOk Held In Post (Recheck.pending v, s) = In v × Held s

-- Whatever ends the operation, no registration is left; the input comes back only from a timed
-- operation.
abbrev pub OutcomeOk {ℓ κ μ} :
    {S : Type ℓ} {V : Type κ} {R : Type μ} (Free : S → Type 0) (In : V → Type 0) (Post : R → Type 0)
    → Option ℕ
    → Option (Result R V × S)
    → Type 0
OutcomeOk Free In Post deadline none = Unit {0}
OutcomeOk Free In Post deadline (some (ok r, s)) = Post r × Free s
OutcomeOk Free In Post deadline (some (err v, s)) = In v × Free s × (deadline ≢ none)

module _ {ℓ κ μ ν} {S : Type ℓ} {V : Type κ} {R : Type μ} {D : Type ν} (Free Held : S → Type 0)
    (In : V → Type 0) (Post : R → Type 0) where
  -- An endpoint's part: which states are free of a registration and which hold one, which inputs and
  -- results are right, and what each operation needs and leaves. Notifications are sent with no
  -- registration held, and only a registered waiter parks.
  pub record Contract (e : Endpoint S V R D) : Type (ℓ ⊔ κ ⊔ μ ⊔ ν) where
    pub attempt_keeps :
        (v : V) (s : S) → In v → Free s → Ensures (e.attempt v s) (AttemptOk Free In Post)
    pub register_holds : (s : S) → Free s → Held (e.register s)
    pub recheck_keeps :
        (v : V) (s : S) → In v → Held s → Ensures (e.recheck v s) (RecheckOk Held In Post)
    pub unregister_frees : (s : S) → Held s → Free (e.unregister s)
    pub notify_keeps : (d : D) (s : S) → Free s → Free (e.notify d s)
    pub wait_frees : (s : S) → Held s → Free (e.wait s)
    pub wait_timeout_frees : (n : ℕ) (s : S) → Held s → Free (e.wait_timeout n s).1

  module _ (e : Endpoint S V R D) (c : Contract e) where
    last-Ok :
        (deadline : Option ℕ) (a : Attempt V R × S)
        → deadline ≢ none
        → (AttemptOk Free In Post) a
        → Ensures (after_last e a) (OutcomeOk Free In Post deadline)
    last-Ok deadline (Attempt.finished r, s) timed h = h
    last-Ok deadline (Attempt.pending v, s) timed (i, f) = (i, f, timed)

    timeout-Ok :
        (deadline : Option ℕ) (again : Outcome e) (v : V) (r : Bool × S)
        → deadline ≢ none
        → In v
        → Free r.1
        → Ensures again (OutcomeOk Free In Post deadline)
        → Ensures (after_timeout e again v r) (OutcomeOk Free In Post deadline)
    timeout-Ok deadline again v (true, s) timed i f h =
        Ensures-bind (e.attempt v s) (after_last e) (AttemptOk Free In Post)
          (OutcomeOk Free In Post deadline) (c.attempt_keeps v s i f)
          (λ a ok_a. last-Ok deadline a timed ok_a)
    timeout-Ok deadline again v (false, s) timed i f h = h

    module _ (loop_ : V → S → Outcome e) (deadline : Option ℕ)
        (next : (v : V) (s : S)
          → In v
          → Free s
          → Ensures (loop_ v s) (OutcomeOk Free In Post deadline)) where
      park-Ok :
          (v : V) (s : S)
          → In v
          → Held s
          → (d : Option ℕ) → deadline ≡ d
          → Ensures (park e loop_ d v s) (OutcomeOk Free In Post deadline)
      park-Ok v s i h none set = next v (e.wait s) i (c.wait_frees s h)
      park-Ok v s i h (some d) set = elim (Bool-cases (d - e.now s == 0)) [
        | inl over ↦ rw over (i, c.unregister_frees s h, λ z. cc)
        | inr left ↦
            let f = c.wait_timeout_frees (d - e.now s) s h in
            rw left (
              timeout-Ok deadline (loop_ v (e.wait_timeout (d - e.now s) s).1) v
                (e.wait_timeout (d - e.now s) s) (λ z. cc) i f
                (next v (e.wait_timeout (d - e.now s) s).1 i f))
      ]

      recheck-Ok :
          (a : Recheck V R D × S)
          → (RecheckOk Held In Post) a
          → Ensures (after_recheck e loop_ deadline a) (OutcomeOk Free In Post deadline)
      recheck-Ok (Recheck.finished r d, s) (p, h) = (p, c.notify_keeps d _ (c.unregister_frees s h))
      recheck-Ok (Recheck.progressed v d, s) (i, h) =
          next v _ i (c.notify_keeps d _ (c.unregister_frees s h))
      recheck-Ok (Recheck.pending v, s) (i, h) = park-Ok v s i h deadline refl

      attempt-Ok :
          (a : Attempt V R × S)
          → (AttemptOk Free In Post) a
          → Ensures (after_attempt e loop_ deadline a) (OutcomeOk Free In Post deadline)
      attempt-Ok (Attempt.finished r, s) h = h
      attempt-Ok (Attempt.pending v, s) (i, f) =
          Ensures-bind (e.recheck v (e.register s)) (after_recheck e loop_ deadline)
            (RecheckOk Held In Post) (OutcomeOk Free In Post deadline)
            (c.recheck_keeps v _ i (c.register_holds s f)) recheck-Ok

      spin-Ok :
          (a : Attempt V R × S)
          → (AttemptOk Free In Post) a
          → Ensures (after_spin e loop_ a) (OutcomeOk Free In Post deadline)
      spin-Ok (Attempt.finished r, s) h = h
      spin-Ok (Attempt.pending v, s) (i, f) = next v s i f

    pub park_loop-Ok :
        (fuel : ℕ) (deadline : Option ℕ) (v : V) (s : S)
        → In v
        → Free s
        → Ensures (park_loop e fuel deadline v s) (OutcomeOk Free In Post deadline)
    unfolding park_loop
    park_loop-Ok zero deadline v s i f = tt
    park_loop-Ok (suc fuel) deadline v s i f =
        Ensures-bind (e.attempt v s) (after_attempt e (park_loop e fuel deadline) deadline)
          (AttemptOk Free In Post) (OutcomeOk Free In Post deadline) (c.attempt_keeps v s i f)
          (attempt-Ok (park_loop e fuel deadline) deadline (park_loop-Ok fuel deadline))

    -- An endpoint that keeps its part never faults in the loop. However long it spins and parks, each
    -- notification and each retry happens with no registration held, it parks only on one, its result
    -- is that of a finished attempt, and an operation without a deadline never hands its input back.
    pub run-Ok :
        (fuel : ℕ) (spin : SpinMode) (deadline : Option ℕ) (v : V) (s : S)
        → In v
        → Free s
        → Ensures (run e fuel spin deadline v s) (OutcomeOk Free In Post deadline)
    unfolding run
    run-Ok zero spin deadline v s i f = tt
    run-Ok (suc fuel) spin deadline v s i f = elim (Bool-cases (step spin (e.now s)).0) [
      | inl again ↦ rw again (
          Ensures-bind (e.attempt v s) (after_spin e (run e fuel (step spin (e.now s)).1 deadline))
            (AttemptOk Free In Post) (OutcomeOk Free In Post deadline) (c.attempt_keeps v s i f)
            (spin-Ok (run e fuel (step spin (e.now s)).1 deadline) deadline
              (run-Ok fuel (step spin (e.now s)).1 deadline)))
      | inr over ↦ rw over (park_loop-Ok fuel deadline v s i f)
    ]
