-- ===== src/Config/Defs.antt =====
-- `validate_capacity`, `WaitStrategy` and `SpinWait` of src/config.rs. Instants and durations are
-- numbers of nanoseconds, `duration_since` stops at zero, and the clock's reading is an argument.
use fanring_rs.Base.{
  ℕ, zero, suc, ◌-◌, ◌^◌, Bool, true, false, not, ◌&&◌, Option, none, some, ltb, leb, ◌==◌,
  if◌then◌else◌, Result, ok, err,
}

abbrev pub max_capacity_per_sender : ℕ
max_capacity_per_sender = 2 ^ (64 - 2)

abbrev pub clock_check_interval : ℕ
clock_check_interval = 16

-- `PARK_SPIN`: ten microseconds.
abbrev pub park_spin_budget : ℕ
park_spin_budget = 10000

pub data ChannelError : Type 0 where
  zero_capacity : ChannelError
  capacity_too_large : (requested max : ℕ) → ChannelError

unfoldable pub validate_capacity : ℕ → ℕ → Result (Unit {0}) ChannelError
validate_capacity capacity max =
    if capacity == 0
    then err zero_capacity
    else if ltb max capacity
    then err (capacity_too_large capacity max)
    else ok tt

pub data WaitStrategy : Type 0 where
  park : WaitStrategy
  spin_for : (duration : ℕ) → WaitStrategy

-- `Timed`, with the clock checks that are left out before the next.
pub record Timed : Type 0 where
  pub started : ℕ
  pub duration : ℕ
  pub operation_deadline : Option ℕ
  pub until_clock_check : ℕ

pub data SpinMode : Type 0 where
  finished : SpinMode
  timed : (phase : Timed) → SpinMode

abbrev pub duration_of : WaitStrategy → ℕ → ℕ
duration_of park park_spin = park_spin
duration_of (spin_for duration) park_spin = duration

unfoldable pub new : WaitStrategy → ℕ → Option ℕ → ℕ → SpinMode
new strategy park_spin operation_deadline now =
    if duration_of strategy park_spin == 0
    then finished
    else timed (record {
      started = now;
      duration = duration_of strategy park_spin;
      operation_deadline = operation_deadline;
      until_clock_check = 0;
    })

unfoldable pub blocking : WaitStrategy → ℕ → SpinMode
blocking strategy now = new strategy park_spin_budget none now

unfoldable pub deadline : WaitStrategy → ℕ → ℕ → SpinMode
deadline strategy at now = new strategy 0 (some at) now

-- The part of `step` after the test for a deadline.
abbrev pub step_blocking : Timed → ℕ → Bool × SpinMode
step_blocking t now =
    if not (t.until_clock_check == 0)
    then (true, timed (record t { until_clock_check = t.until_clock_check - 1 }))
    else if leb t.duration (now - t.started)
    then (false, timed t)
    else (true, timed (record t { until_clock_check = clock_check_interval - 1 }))

abbrev pub step_deadline : Timed → ℕ → ℕ → Bool × SpinMode
step_deadline t at now = (ltb (now - t.started) t.duration && ltb now at, timed t)

unfoldable pub step : SpinMode → ℕ → Bool × SpinMode
step finished now = (false, finished)
step (timed t) now = elim t.operation_deadline [
  | none ↦ step_blocking t now
  | some at ↦ step_deadline t at now
]

-- `while wait.step()` with one clock reading for each round: the rounds taken, if the loop ends.
unfoldable pub rounds : ℕ → SpinMode → (ℕ → ℕ) → Option ℕ
rounds zero m clock = none
rounds (suc fuel) m clock =
    let (again, m') = step m (clock fuel) in
    let rest = rounds fuel m' clock in
    if again then elim rest [ none ↦ none | some n ↦ some (suc n) ] else some 0
