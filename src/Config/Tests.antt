-- ===== src/Config/Tests.antt =====
-- Validation and a spin phase at concrete inputs.
use fanring_rs.Base.{ℕ, ◌≡◌, refl, none, some, arith}
use fanring_rs.Config.Defs.{Timed, timed, rounds, validate_capacity, max_capacity_per_sender}
use fanring_rs.Config.Capacity.{Answers, validate_capacity-Answers}
use fanring_rs.Config.Spin.{rounds-ends}

validate_capacity-Answers_example : Answers ℕ 3 (validate_capacity 3 max_capacity_per_sender)
validate_capacity-Answers_example = validate_capacity-Answers ℕ 3

abbrev over_phase : Timed
over_phase = record { started = 5; duration = 10; operation_deadline = none; until_clock_check = 2 }

rounds-ends_example : rounds 4 (timed over_phase) (λ i. 20) ≡ some 2
rounds-ends_example = rounds-ends 4 over_phase (λ i. 20) refl (λ i. omega arith) (omega arith)
