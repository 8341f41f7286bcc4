-- ===== src/Blocking/Tests.antt =====
-- An endpoint that never succeeds, and is woken a number of times.
use fanring_rs.Base.{ℕ, zero, suc, ◌≡◌, refl, Bool, true, false, some, Result, done, Ensures}
use fanring_rs.Config.Defs.{SpinMode, step}
use fanring_rs.Blocking.Defs.{Attempt, Recheck, Endpoint, run, park_loop}
use fanring_rs.Blocking.Contract.{Contract, OutcomeOk, run-Ok}

-- The wakes left, and whether a registration is held.
abbrev woken_once : ℕ → ℕ × Bool → Bool × (ℕ × Bool)
woken_once n (zero, _) = (true, (zero, false))
woken_once n (suc k, _) = (false, (k, false))

abbrev stuck : Endpoint (ℕ × Bool) ℕ ℕ ℕ
stuck = record {
  attempt = λ v s. done (Attempt.pending v, s);
  recheck = λ v s. done (Recheck.pending v, s);
  notify = λ d s. s;
  register = λ s. (s.0, true);
  unregister = λ s. (s.0, false);
  wait = λ s. (s.0, false);
  wait_timeout = woken_once;
  now = λ s. 3;
}

abbrev Free : ℕ × Bool → Type 0
Free s = s.1 ≡ false

abbrev Held : ℕ × Bool → Type 0
Held s = s.1 ≡ true

abbrev IsSeven : ℕ → Type 0
IsSeven v = v ≡ 7

woken-Free : (n : ℕ) (s : ℕ × Bool) → Held s → Free (woken_once n s).1
woken-Free n (zero, _) h = refl
woken-Free n (suc k, _) h = refl

stuck-Contract : Contract Free Held IsSeven IsSeven stuck
stuck-Contract = record {
  attempt_keeps = λ v s i f. (i, f);
  register_holds = λ s f. refl;
  recheck_keeps = λ v s i h. (i, h);
  unregister_frees = λ s h. refl;
  notify_keeps = λ d s f. f;
  wait_frees = λ s h. refl;
  wait_timeout_frees = woken-Free;
}

run-Ok_example :
    Ensures
      (run stuck 9 SpinMode.finished (some 5) 7 (2, false))
      (OutcomeOk Free IsSeven IsSeven (some 5))
run-Ok_example =
    run-Ok Free Held IsSeven IsSeven stuck stuck-Contract 9 SpinMode.finished (some 5) 7 (2, false)
      refl refl

-- Woken twice, it gives its input back.
woken_twice :
    run stuck 4 SpinMode.finished (some 5) 7 (2, false) ≡ done (some (Result.err 7, (0, false)))
unfolding run step park_loop
woken_twice = refl
