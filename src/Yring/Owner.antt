-- ===== src/Yring/Owner.antt =====
-- `ProducerOwner` and the thread tokens of yring/src/producer.rs. A thread is a number; `tokens` holds
-- each thread's local token, 0 before its first use. The owner's ring stands with both endpoints.
pub mod Single
use fanring_rs.Base.{
  ℕ, suc, ◌+◌, ◌≤◌, ◌<◌, ◌≡◌, ◌≢◌, refl, sym, ap, ◌∙◌, Bool, true, false, Option, none, some, List,
  [], ◌∷◌, ◌⊎◌, arith, length, ltb, ◌==◌, if◌then◌else◌, Bool-cases, inl, inr, ==→eq, ==-false→ne,
  word, Result, ok, err, Access, done, fault, ◌>>=◌, >>=-eq-done, done-inj,
}
use mathlib.Core.Path.{subst}
use fanring_rs.Yring.Types.{Spsc}
use fanring_rs.Yring.Producer

pub record Threads : Type 0 where
  pub next_token : ℕ
  pub tokens : ℕ → ℕ

pub record ProducerOwner {ℓ} (A : Type ℓ) : Type ℓ where
  pub producer : Spsc A
  pub owner : Option ℕ

-- `NEXT_THREAD_TOKEN` starts at 1.
abbrev pub no_tokens : Threads
no_tokens = record { next_token = 1; tokens = λ t. 0 }

-- The loop of `allocate_thread_token` under no contention, and its error: the token and the counter.
unfoldable pub allocate_thread_token : ℕ → Access (ℕ × ℕ)
allocate_thread_token next = if ltb (next + 1) word then done (next, next + 1) else fault

abbrev pub set_token : ℕ → ℕ → (ℕ → ℕ) → ℕ → ℕ
set_token t token tokens = λ u. if u == t then token else tokens u

unfoldable pub current_thread_token : ℕ → Threads → Access (ℕ × Threads)
unfolding allocate_thread_token
current_thread_token t th =
    if th.tokens t == 0
    then allocate_thread_token th.next_token >>= (λ (token, next).
      done (token, record { next_token = next; tokens = set_token t token th.tokens }))
    else done (th.tokens t, th)

-- `OnceLock::get_or_init`
abbrev pub get_or_init : Option ℕ → ℕ → ℕ
get_or_init none current = current
get_or_init (some owner) current = owner

module _ {ℓ} {A : Type ℓ} where
  abbrev pub new : Spsc A → ProducerOwner A
  new producer = record { producer = producer; owner = none }

  -- A failed `assert_eq!` is `fault`.
  unfoldable pub with_producer {κ} :
      {R : Type κ}
      → ℕ
      → (Spsc A → Access (R × Spsc A))
      → Threads
      → ProducerOwner A
      → Access (R × Threads × ProducerOwner A)
  unfolding current_thread_token
  with_producer t f th o = current_thread_token t th >>= λ (current, th').
      if get_or_init o.owner current == current
      then f o.producer >>= (λ (result, producer).
        done (result, th', record { producer = producer; owner = some current }))
      else fault

  unfoldable pub push :
      ℕ → A → Threads → ProducerOwner A → Access (Result (Unit {0}) A × Threads × ProducerOwner A)
  unfolding with_producer
  push t val = with_producer t (λ s. Producer.push s val)

  unfoldable pub push_flush :
      ℕ → A → Threads → ProducerOwner A → Access (Result (Unit {0}) A × Threads × ProducerOwner A)
  unfolding with_producer
  push_flush t val = with_producer t (λ s. Producer.push s val >>= λ (result, s'). elim result [
    | ok _ ↦ done (ok tt, Producer.flush s')
    | err val' ↦ done (err val', s')
  ])

  unfoldable pub flush :
      ℕ → Threads → ProducerOwner A → Access (Unit {0} × Threads × ProducerOwner A)
  unfolding with_producer
  flush t = with_producer t (λ s. done (tt, Producer.flush s))

  unfoldable pub is_full : ℕ → Threads → ProducerOwner A → Access (Bool × Threads × ProducerOwner A)
  unfolding with_producer
  is_full t = with_producer t (λ s. done (Producer.is_full s))

  unfoldable pub is_consumer_dropped :
      ℕ → Threads → ProducerOwner A → Access (Bool × Threads × ProducerOwner A)
  unfolding with_producer
  is_consumer_dropped t = with_producer t (λ s. done (Producer.is_consumer_dropped s, s))
