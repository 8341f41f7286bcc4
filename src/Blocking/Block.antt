-- ===== src/Blocking/Block.antt =====
-- `block` and `block_until` of src/blocking.rs.
use fanring_rs.Base.{
  ℕ, refl, Option, none, some, Result, ok, err, Access, done, fault, ◌>>=◌, Ensures, Ensures-bind,
}
use fanring_rs.Config.Defs.{SpinMode}
use fanring_rs.Blocking.Defs.{Endpoint, Outcome, run}
use fanring_rs.Blocking.Contract.{Contract, OutcomeOk, run-Ok}

module _ {ℓ κ μ ν} {S : Type ℓ} {V : Type κ} {R : Type μ} {D : Type ν} (e : Endpoint S V R D) where
  -- `unreachable!` is a fault.
  abbrev pub expect_output : Option (Result R V × S) → Access (Option (R × S))
  expect_output none = done none
  expect_output (some (ok output, s)) = done (some (output, s))
  expect_output (some (err _, s)) = fault

  unfoldable pub block : ℕ → V → SpinMode → S → Access (Option (R × S))
  block fuel input spin s = run e fuel spin none input s >>= expect_output

  unfoldable pub block_until : ℕ → V → SpinMode → ℕ → S → Outcome e
  block_until fuel input spin deadline s = run e fuel spin (some deadline) input s

abbrev pub BlockOk {ℓ μ} :
    {S : Type ℓ} {R : Type μ} (Free : S → Type 0) (Post : R → Type 0) → Option (R × S) → Type 0
BlockOk Free Post none = Unit {0}
BlockOk Free Post (some (r, s)) = Post r × Free s

module _ {ℓ κ μ ν} {S : Type ℓ} {V : Type κ} {R : Type μ} {D : Type ν} (Free Held : S → Type 0)
    (In : V → Type 0) (Post : R → Type 0) (e : Endpoint S V R D)
    (c : Contract Free Held In Post e) where
  output-Ok :
      (o : Option (Result R V × S))
      → OutcomeOk Free In Post none o
      → Ensures (expect_output e o) (BlockOk Free Post)
  output-Ok none h = tt
  output-Ok (some (ok r, s)) h = h
  output-Ok (some (err v, s)) (i, f, timed) = absurd (timed refl)

  -- An operation that blocks without a deadline never reaches `unreachable!` and never faults, for
  -- every endpoint that keeps its part of the contract. Its result is that of a finished attempt, and
  -- it leaves no registration.
  pub block-Ok :
      (fuel : ℕ) (spin : SpinMode) (v : V) (s : S)
      → In v
      → Free s
      → Ensures (block e fuel v spin s) (BlockOk Free Post)
  unfolding block
  block-Ok fuel spin v s i f =
      Ensures-bind (run e fuel spin none v s) (expect_output e) (OutcomeOk Free In Post none)
        (BlockOk Free Post) (run-Ok Free Held In Post e c fuel spin none v s i f) output-Ok
