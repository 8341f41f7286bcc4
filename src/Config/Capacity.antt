-- ===== src/Config/Capacity.antt =====
-- Validation against what the rings take.
use fanring_rs.Base.{
  ℕ, ◌≤◌, ◌≡◌, none, some, arith, ltb, ◌==◌, Bool-cases, inl, inr, Result, ok, err, ==→eq, ltb→lt,
  ltb-false→le,
}
use fanring_rs.Yring.Types.{Spsc}
use fanring_rs.Yring.Queue
use fanring_rs.Yring.Producer
use fanring_rs.Yring.Sim.{Refines}
use fanring_rs.Yring.New.{spsc-Refines, spsc_refuses}
use fanring_rs.Config.Defs.{validate_capacity, max_capacity_per_sender, ChannelError}

-- What validation answers, and that the rings agree with it.
pub Answers {ℓ} : (A : Type ℓ) → ℕ → Result (Unit {0}) ChannelError → Type ℓ
Answers A capacity (ok _) =
    (size : ℕ) × (s : Spsc A) × (Producer.spsc capacity ≡ some s)
    × Refines s (Queue.new size)
    × (capacity ≤ size)
Answers A capacity (err _) = Producer.spsc {A = A} capacity ≡ none

-- A capacity that passes gives a ring of at least that size; one that fails is one that the ring
-- would refuse.
pub validate_capacity-Answers {ℓ} :
    (A : Type ℓ) (capacity : ℕ)
    → Answers A capacity (validate_capacity capacity max_capacity_per_sender)
unfolding validate_capacity Answers
validate_capacity-Answers A capacity = elim (Bool-cases (capacity == 0)) [
  | inl zero ↦ rw zero (spsc_refuses capacity (inl (==→eq _ _ zero)))
  | inr some_capacity ↦ elim (Bool-cases (ltb max_capacity_per_sender capacity)) [
    | inl large ↦ rw (some_capacity, large) (spsc_refuses capacity (inr (ltb→lt _ _ large)))
    | inr fits ↦
        let (size, s, e, r, le, lt) =
          spsc-Refines capacity (ground arith) (ltb-false→le _ _ fits) in
        rw (some_capacity, fits) (size, s, e, r, le)
  ]
]
