-- ===== src/Yring/Types.antt =====
-- The data of yring/src/ring.rs, producer.rs, consumer.rs and lib.rs.
use fanring_rs.Base.{ℕ, Bool, Option, List}

-- `Waiter`: the wakeup-hint flags of one endpoint.
pub record Waiter : Type 0 where
  pub enabled : Bool
  pub armed : Bool
  pub waiting : Bool

-- `Ring<T>`, what both endpoints share. A slot that holds no value is `none`.
pub record Ring {ℓ} (A : Type ℓ) : Type ℓ where
  pub buf : List (Option A)
  pub mask : ℕ
  pub head : ℕ
  pub tail : ℕ
  pub consumer_waiting : Waiter
  pub producer_waiting : Waiter
  pub producer_dropped : Bool
  pub consumer_dropped : Bool

-- The private fields of `Producer<T>`.
pub record Producer : Type 0 where
  pub cursor : ℕ
  pub cached_head : ℕ

-- The private fields of `Consumer<T>`.
pub record Consumer : Type 0 where
  pub head : ℕ
  pub cached_tail : ℕ

-- A ring with its two endpoints, which hold it in an `Arc`.
pub record Spsc {ℓ} (A : Type ℓ) : Type ℓ where
  pub ring : Ring A
  pub producer : Producer
  pub consumer : Consumer

-- `FlushResult`
pub data FlushResult : Type 0 where
  flushed : (count : ℕ) (was_empty : Bool) → FlushResult
  nothing_to_flush : FlushResult
