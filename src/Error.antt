-- ===== src/Error.antt =====
-- The errors of sends and receives of src/error.rs.

pub data TrySendError {ℓ} (A : Type ℓ) : Type ℓ where
  full : (value : A) → TrySendError A
  disconnected : (value : A) → TrySendError A

pub data SendTimeoutError {ℓ} (A : Type ℓ) : Type ℓ where
  timeout : (value : A) → SendTimeoutError A
  disconnected : (value : A) → SendTimeoutError A

pub data RecvError : Type 0 where
  disconnected : RecvError

pub data TryRecvError : Type 0 where
  empty : TryRecvError
  disconnected : TryRecvError

pub data RecvTimeoutError : Type 0 where
  timeout : RecvTimeoutError
  disconnected : RecvTimeoutError

pub data TryRegisterError : Type 0 where
  disconnected : TryRegisterError

pub data TryRegisterBoundedError : Type 0 where
  disconnected : TryRegisterBoundedError
  at_capacity : TryRegisterBoundedError
