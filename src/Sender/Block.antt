-- ===== src/Sender/Block.antt =====
-- The blocking sends of src/mpsc/sender.rs: `Blocking for Sender`, `send` and `send_deadline`.
use fanring_rs.Base.{
  ℕ, ◌+◌, Bool, true, false, if◌then◌else◌, Result, ok, err, Access, done, ◌>>=◌, Option, none,
  some,
}
use fanring_rs.Error.{TrySendError, SendTimeoutError, full}
use fanring_rs.Config.Defs.{WaitStrategy}
use fanring_rs.Config.Defs
use fanring_rs.Blocking.Defs.{Attempt, Recheck, Endpoint}
use fanring_rs.Blocking.Map.{send_attempt, send_recheck, send_timeout_result}
use fanring_rs.Blocking.Block.{block, block_until}
use fanring_rs.Sender.Defs.{Sender, try_send, try_send_inner, notify}

-- What the receiver and the other senders do after the sender's n-th step, and while it is parked in
-- that step, with the time at which the step begins.
pub record Others {ℓ} (A : Type ℓ) : Type ℓ where
  pub meanwhile : ℕ → Sender A → Sender A
  pub parked : ℕ → Sender A → Sender A
  pub parked_for : ℕ → ℕ → Sender A → Bool × Sender A
  pub clock : ℕ → ℕ

-- A sender, whether it is registered on its lane's wait cell, and its steps so far.
pub record Waiting {ℓ} (A : Type ℓ) : Type ℓ where
  pub sender : Sender A
  pub registered : Bool
  pub steps : ℕ

module _ {ℓ} {A : Type ℓ} where
  -- A step ends with the others' turn.
  abbrev pub stepped : Others A → Sender A → Waiting A → Waiting A
  stepped others s w = record w { sender = others.meanwhile w.steps s; steps = w.steps + 1 }

  abbrev pub attempt :
      Others A → A → Waiting A → Access (Attempt A (Result (Unit {0}) A) × Waiting A)
  attempt others value w =
      try_send w.sender value >>= (λ (result, s). done (send_attempt result, stepped others s w))

  abbrev pub recheck :
      Others A → A → Waiting A → Access (Recheck A (Result (Unit {0}) A) Bool × Waiting A)
  recheck others value w =
      try_send_inner w.sender value
      >>= (λ (result, wake, s). done (send_recheck result wake, stepped others s w))

  -- `impl Blocking<T> for Sender`, on the wait cell of the lane's signal.
  abbrev pub endpoint : Others A → Endpoint (Waiting A) A (Result (Unit {0}) A) Bool
  endpoint others = record {
    attempt = attempt others;
    recheck = recheck others;
    notify = λ wake w. if wake then record w { sender = notify w.sender } else w;
    register = λ w. record w { registered = true };
    unregister = λ w. record w { registered = false };
    wait = λ w. record {
      sender = others.parked w.steps w.sender;
      registered = false;
      steps = w.steps + 1;
    };
    wait_timeout = λ n w.
        let (over, s) = others.parked_for w.steps n w.sender in
        (over, record { sender = s; registered = false; steps = w.steps + 1 });
    now = λ w. others.clock w.steps;
  }

  -- `send_slow`.
  abbrev pub send_slow :
      Others A
      → ℕ
      → WaitStrategy
      → A
      → Waiting A
      → Access (Option (Result (Unit {0}) A × Waiting A))
  send_slow others fuel strategy value w =
      block (endpoint others) fuel value (Defs.blocking strategy (others.clock w.steps)) w

  abbrev pub after_try :
      Others A
      → ℕ
      → WaitStrategy
      → Result (Unit {0}) (TrySendError A) × Sender A
      → Access (Option (Result (Unit {0}) A × Waiting A))
  after_try others fuel strategy (ok _, s) =
      done (some (ok tt, record { sender = s; registered = false; steps = 0 }))
  after_try others fuel strategy (err (TrySendError.disconnected value), s) =
      done (some (err value, record { sender = s; registered = false; steps = 0 }))
  after_try others fuel strategy (err (full value), s) =
      send_slow others fuel strategy value (record { sender = s; registered = false; steps = 0 })

  unfoldable pub send :
      Others A → ℕ → WaitStrategy → Sender A → A → Access (Option (Result (Unit {0}) A × Waiting A))
  send others fuel strategy s value = try_send s value >>= after_try others fuel strategy

  abbrev pub timed_answer :
      Option (Result (Result (Unit {0}) A) A × Waiting A)
      → Access (Option (Result (Unit {0}) (SendTimeoutError A) × Waiting A))
  timed_answer none = done none
  timed_answer (some (result, w)) = done (some (send_timeout_result result, w))

  unfoldable pub send_deadline :
      Others A
      → ℕ
      → WaitStrategy
      → Sender A
      → A
      → ℕ
      → Access (Option (Result (Unit {0}) (SendTimeoutError A) × Waiting A))
  send_deadline others fuel strategy s value deadline =
      let w : Waiting A = record { sender = s; registered = false; steps = 0 } in
      block_until (endpoint others) fuel value (Defs.deadline strategy deadline (others.clock 0))
        deadline w
      >>= timed_answer
