-- ===== src/Blocking/Map.antt =====
-- The functions of src/blocking.rs that map the results of sends and receives.
use fanring_rs.Base.{Bool, false, Result, ok, err}
use fanring_rs.Error.{TrySendError, SendTimeoutError, RecvError, TryRecvError, RecvTimeoutError}
use fanring_rs.Blocking.Defs.{Attempt, Recheck}

module _ {ℓ} {A : Type ℓ} where
  unfoldable pub send_attempt : Result (Unit {0}) (TrySendError A) → Attempt A (Result (Unit {0}) A)
  send_attempt (ok _) = Attempt.finished (ok tt)
  send_attempt (err (TrySendError.disconnected value)) = Attempt.finished (err value)
  send_attempt (err (TrySendError.full value)) = Attempt.pending value

  unfoldable pub send_recheck :
      Result (Unit {0}) (TrySendError A) → Bool → Recheck A (Result (Unit {0}) A) Bool
  send_recheck (ok _) wake_receiver = Recheck.finished (ok tt) wake_receiver
  send_recheck (err (TrySendError.disconnected value)) wake_receiver =
      Recheck.finished (err value) false
  send_recheck (err (TrySendError.full value)) wake_receiver = Recheck.pending value

  unfoldable pub send_timeout_result :
      Result (Result (Unit {0}) A) A → Result (Unit {0}) (SendTimeoutError A)
  send_timeout_result (ok (ok _)) = ok tt
  send_timeout_result (ok (err value)) = err (SendTimeoutError.disconnected value)
  send_timeout_result (err value) = err (SendTimeoutError.timeout value)

  unfoldable pub recv_attempt {κ} :
      {I : Type κ} → Result A TryRecvError → I → Attempt I (Result A RecvError)
  recv_attempt (ok value) input = Attempt.finished (ok value)
  recv_attempt (err TryRecvError.disconnected) input = Attempt.finished (err RecvError.disconnected)
  recv_attempt (err TryRecvError.empty) input = Attempt.pending input

  unfoldable pub recv_timeout_result {κ} :
      {I : Type κ} → Result (Result A RecvError) I → Result A RecvTimeoutError
  recv_timeout_result (ok (ok value)) = ok value
  recv_timeout_result (ok (err _)) = err RecvTimeoutError.disconnected
  recv_timeout_result (err _) = err RecvTimeoutError.timeout
