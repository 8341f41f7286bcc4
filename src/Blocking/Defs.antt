-- ===== src/Blocking/Defs.antt =====
-- `Attempt`, `Recheck`, `Blocking` and `run` of src/blocking.rs. An endpoint is a record of the trait's
-- operations and of the wait cell's, over a state that also holds what other threads do between them.
use fanring_rs.Base.{
  ℕ, zero, suc, ◌-◌, Bool, true, false, Option, none, some, ◌==◌, if◌then◌else◌, Result, ok, err,
  Access, done, ◌>>=◌,
}
use fanring_rs.Config.Defs.{SpinMode, step}

pub data Attempt {ℓ κ} (V : Type ℓ) (R : Type κ) : Type (ℓ ⊔ κ) where
  finished : (result : R) → Attempt V R
  pending : (input : V) → Attempt V R

pub data Recheck {ℓ κ μ} (V : Type ℓ) (R : Type κ) (D : Type μ) : Type (ℓ ⊔ κ ⊔ μ) where
  finished : (result : R) (deferred : D) → Recheck V R D
  progressed : (input : V) (deferred : D) → Recheck V R D
  pending : (input : V) → Recheck V R D

-- `now` is the clock; `wait` and `wait_timeout` return with the registration gone, as `Park` does.
pub record Endpoint {ℓ κ μ ν} (S : Type ℓ) (V : Type κ) (R : Type μ) (D : Type ν)
    : Type (ℓ ⊔ κ ⊔ μ ⊔ ν) where
  pub attempt : V → S → Access (Attempt V R × S)
  pub recheck : V → S → Access (Recheck V R D × S)
  pub notify : D → S → S
  pub register : S → S
  pub unregister : S → S
  pub wait : S → S
  pub wait_timeout : ℕ → S → Bool × S
  pub now : S → ℕ

module _ {ℓ κ μ ν} {S : Type ℓ} {V : Type κ} {R : Type μ} {D : Type ν} (e : Endpoint S V R D) where
  -- The result, `err` with the input where the deadline passed, or `none` where the fuel ran out:
  -- the operation still waits.
  abbrev pub Outcome : Type (ℓ ⊔ κ ⊔ μ)
  Outcome = Access (Option (Result R V × S))

  -- `remaining.is_zero()`, then the timed wait and the last attempt.
  abbrev pub after_last : Attempt V R × S → Outcome
  after_last (Attempt.finished output, s) = done (some (ok output, s))
  after_last (Attempt.pending input, s) = done (some (err input, s))

  abbrev pub after_timeout : Outcome → V → Bool × S → Outcome
  after_timeout again input (true, s) = e.attempt input s >>= after_last
  after_timeout again input (false, s) = again

  -- `loop_` is the next round.
  abbrev pub park : (V → S → Outcome) → Option ℕ → V → S → Outcome
  park loop_ none input s = loop_ input (e.wait s)
  park loop_ (some deadline) input s =
      if deadline - e.now s == 0
      then done (some (err input, e.unregister s))
      else after_timeout (loop_ input (e.wait_timeout (deadline - e.now s) s).1) input
          (e.wait_timeout (deadline - e.now s) s)

  abbrev pub after_recheck : (V → S → Outcome) → Option ℕ → Recheck V R D × S → Outcome
  after_recheck loop_ deadline (Recheck.finished output deferred, s) =
      done (some (ok output, e.notify deferred (e.unregister s)))
  after_recheck loop_ deadline (Recheck.progressed next deferred, s) =
      loop_ next (e.notify deferred (e.unregister s))
  after_recheck loop_ deadline (Recheck.pending next, s) = park loop_ deadline next s

  -- A try outside a registration, and one inside.
  abbrev pub after_attempt : (V → S → Outcome) → Option ℕ → Attempt V R × S → Outcome
  after_attempt loop_ deadline (Attempt.finished output, s) = done (some (ok output, s))
  after_attempt loop_ deadline (Attempt.pending input, s) =
      e.recheck input (e.register s) >>= after_recheck loop_ deadline

  unfoldable pub park_loop : ℕ → Option ℕ → V → S → Outcome
  park_loop zero deadline input s = done none
  park_loop (suc fuel) deadline input s =
      e.attempt input s >>= after_attempt (park_loop fuel deadline) deadline

  -- `while spin.step()`: an attempt for each step.
  abbrev pub after_spin : (V → S → Outcome) → Attempt V R × S → Outcome
  after_spin loop_ (Attempt.finished output, s) = done (some (ok output, s))
  after_spin loop_ (Attempt.pending input, s) = loop_ input s

  unfoldable pub run : ℕ → SpinMode → Option ℕ → V → S → Outcome
  run zero spin deadline input s = done none
  run (suc fuel) spin deadline input s =
      let (again, spin') = step spin (e.now s) in
      let spun = e.attempt input s >>= after_spin (run fuel spin' deadline) in
      let parked = park_loop fuel deadline input s in if again then spun else parked
