-- ===== src/Yring/OwnerTests.antt =====
-- Calls of threads on a shared producer, and the properties of its owner at them.
use fanring_rs.Base.{ℕ, ◌^◌, ◌≡◌, refl, List, [], ◌∷◌, arith, Result, ok, done, fault}
use fanring_rs.Yring.Types.{Spsc}
use fanring_rs.Yring.Producer
use fanring_rs.Yring.New.{fresh}
use fanring_rs.Yring.Owner.{Threads, ProducerOwner, no_tokens, new, allocate_thread_token}
use fanring_rs.Yring.Owner
use fanring_rs.Yring.Owner.Single.{
  Call, AllBy, run, run_bare, no_tokens-TokensOk, run-Single, run-Same,
}

abbrev push_call : ℕ → ℕ → Call ℕ (Result (Unit {0}) ℕ)
push_call t x = (t, λ s. Producer.push s x)

abbrev two_pushes : List (Call ℕ (Result (Unit {0}) ℕ))
two_pushes = push_call 5 7 ∷ push_call 5 8 ∷ []

bare_run : (s : Spsc ℕ) × (run_bare two_pushes (fresh (2 ^ 2)) ≡ done (ok tt ∷ ok tt ∷ [], s))
unfolding run_bare Producer.push Producer.ring_push Producer.push_after_full
bare_run = (_, refl)

run-Same_example :
    (th : Threads) × (o : ProducerOwner ℕ) × (run two_pushes no_tokens (new (fresh (2 ^ 2)))
      ≡ done (ok tt ∷ ok tt ∷ [], th, o))
    × (o.producer ≡ bare_run.0)
run-Same_example =
    run-Same 5 two_pushes (fresh (2 ^ 2)) no_tokens (ok tt ∷ ok tt ∷ []) bare_run.0
      no_tokens-TokensOk (omega arith) (refl, (refl, tt)) bare_run.1

run-Single_example :
    AllBy 5 (push_call 5 8 ∷ [])
    × (run_bare two_pushes (fresh (2 ^ 2)) ≡ done (ok tt ∷ ok tt ∷ [], run-Same_example.1.producer))
run-Single_example =
    run-Single 5 (push_call 5 7).1 (push_call 5 8 ∷ []) (fresh (2 ^ 2)) no_tokens
      (ok tt ∷ ok tt ∷ [], run-Same_example.0, run-Same_example.1) no_tokens-TokensOk (omega arith)
      run-Same_example.2

-- A second thread is refused.
intruder : run (push_call 5 7 ∷ push_call 6 8 ∷ []) no_tokens (new (fresh (2 ^ 2))) ≡ fault
unfolding run Owner.with_producer Owner.current_thread_token allocate_thread_token Producer.push
    Producer.ring_push Producer.push_after_full
intruder = refl
