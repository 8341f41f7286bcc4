-- ===== src/Sender/Keeps.antt =====
-- Blocking sends give back the value that they did not send, and those with a deadline return.
use fanring_rs.Base.{
  ℕ, ◌+◌, ◌-◌, ◌≤◌, ◌<◌, ◌≡◌, ◌≢◌, arith, refl, sym, ap, Bool, true, false, if◌then◌else◌, Result,
  ok, err, done, >>=-eq-done, done-inj, Ensures, Ensures-bind, Option, none, some,
}
use mathlib.Core.Path.{subst}
use fanring_rs.Yring.Types.{Spsc}
use fanring_rs.Yring.Queue
use fanring_rs.Yring.Queue.{Queue}
use fanring_rs.Yring.Sim.{Refines}
use fanring_rs.Error.{TrySendError, SendTimeoutError, full}
use fanring_rs.Config.Defs.{WaitStrategy}
use fanring_rs.Blocking.Map.{send_attempt, send_recheck, send_timeout_result}
use fanring_rs.Blocking.Deadline.{Spends, Spending, run-returns}
use fanring_rs.Blocking.Contract.{Contract, AttemptOk, RecheckOk, OutcomeOk}
use fanring_rs.Blocking.Block.{BlockOk, block-Ok, block_until}
use fanring_rs.Sender.Defs.{Sender, try_send, try_send_inner, after_send, notify}
use fanring_rs.Sender.Send.{try_send-Refines, answer, state_after, send_queue}
use fanring_rs.Sender.Block.{
  Others, Waiting, stepped, endpoint, send, after_try, send_deadline, timed_answer,
}

module _ {A : Type 0} where
  -- The ring holds some queue.
  abbrev pub SenderOk : Sender A → Type 0
  SenderOk s = (q : Queue A) × Refines s.lane.consumer q

  abbrev pub Carries : A → Result (Unit {0}) (TrySendError A) → Type 0
  Carries x (ok _) = Unit {0}
  Carries x (err (full y)) = y ≡ x
  Carries x (err (TrySendError.disconnected y)) = y ≡ x

  abbrev pub Returns : A → Result (Unit {0}) A → Type 0
  Returns x (ok _) = Unit {0}
  Returns x (err y) = y ≡ x

  abbrev pub ReturnsTimed : A → Result (Unit {0}) (SendTimeoutError A) → Type 0
  ReturnsTimed x (ok _) = Unit {0}
  ReturnsTimed x (err (SendTimeoutError.timeout y)) = y ≡ x
  ReturnsTimed x (err (SendTimeoutError.disconnected y)) = y ≡ x

  abbrev pub Free : Waiting A → Type 0
  Free w = SenderOk w.sender × (w.registered ≡ false)

  abbrev pub Held : Waiting A → Type 0
  Held w = SenderOk w.sender × (w.registered ≡ true)

  -- The other threads leave the ring a ring.
  pub record Fair (others : Others A) : Type 0 where
    pub meanwhile_keeps : (n : ℕ) (s : Sender A) → SenderOk s → SenderOk (others.meanwhile n s)
    pub parked_keeps : (n : ℕ) (s : Sender A) → SenderOk s → SenderOk (others.parked n s)
    pub parked_for_keeps :
        (n time : ℕ) (s : Sender A) → SenderOk s → SenderOk (others.parked_for n time s).1

  answer-Carries : (closed no_room alive : Bool) (x : A) → Carries x (answer closed no_room alive x)
  answer-Carries true no_room alive x = refl
  answer-Carries false true true x = refl
  answer-Carries false true false x = refl
  answer-Carries false false alive x = tt

  ring_after :
      (closed no_room : Bool) (s : Sender A) (ring : Spsc A)
      → (state_after closed no_room s ring).lane.consumer ≡ ring
  ring_after true no_room s ring = refl
  ring_after false true s ring = refl
  ring_after false false s ring = refl

  abbrev SentOk : A → Result (Unit {0}) (TrySendError A) × Sender A → Type 0
  SentOk x (r, s) = Carries x r × SenderOk s

  sent_answer :
      (s : Sender A) (x : A)
      → SenderOk s
      → (r : Result (Unit {0}) (TrySendError A)) × (t : Sender A) × (try_send s x ≡ done (r, t))
        × Carries x r
        × SenderOk t
  sent_answer s x (q, h) =
      let (ring, e, r') = try_send-Refines s q x h in
      (
        _,
        _,
        e,
        answer-Carries q.consumer_dropped (Queue.is_full q) s.receiver_alive x,
        (
          send_queue q x,
          subst (λ c. Refines c (send_queue q x))
              (sym (ring_after q.consumer_dropped (Queue.is_full q) s ring)) r',
        ),
      )

  sent-Ok : (s : Sender A) (x : A) → SenderOk s → Ensures (try_send s x) (SentOk x)
  sent-Ok s x h =
      let (r, t, e, c, k) = sent_answer s x h in subst (λ m. Ensures m (SentOk x)) (sym e) (c, k)

  -- The wake comes after the attempt and is no part of the ring.
  before_wake :
      (m : Result (Unit {0}) (TrySendError A) × Bool × Sender A)
      {r : Result (Unit {0}) (TrySendError A)} {t : Sender A}
      → after_send m ≡ done (r, t)
      → (m.0 ≡ r) × (m.2.lane.consumer ≡ t.lane.consumer)
  unfolding notify
  before_wake (r, true, s) e =
      (ap (λ p. p.0) (done-inj e), ap (λ p. p.1.lane.consumer) (done-inj e))
  before_wake (r, false, s) e =
      (ap (λ p. p.0) (done-inj e), ap (λ p. p.1.lane.consumer) (done-inj e))

  abbrev InnerOk : A → Result (Unit {0}) (TrySendError A) × Bool × Sender A → Type 0
  InnerOk x (r, w, s) = Carries x r × SenderOk s

  inner-Ok : (s : Sender A) (x : A) → SenderOk s → Ensures (try_send_inner s x) (InnerOk x)
  unfolding try_send
  inner-Ok s x h =
      let (r, t, e, c, (q, k)) = sent_answer s x h in
      let (m, f, g) = >>=-eq-done (try_send_inner s x) after_send e in
      let (same, ring) = before_wake m g in
      subst (λ a. Ensures a (InnerOk x)) (sym f)
        (subst (Carries x) (sym same) c, (q, subst (λ a. Refines a q) (sym ring) k))

  attempt_map :
      (x : A) (r : Result (Unit {0}) (TrySendError A)) (w : Waiting A)
      → Carries x r
      → Free w
      → AttemptOk Free (λ y. y ≡ x) (Returns x) (send_attempt r, w)
  unfolding send_attempt
  attempt_map x (ok _) w c f = (tt, f)
  attempt_map x (err (full y)) w c f = (c, f)
  attempt_map x (err (TrySendError.disconnected y)) w c f = (c, f)

  recheck_map :
      (x : A) (r : Result (Unit {0}) (TrySendError A)) (wake : Bool) (w : Waiting A)
      → Carries x r
      → Held w
      → RecheckOk Held (λ y. y ≡ x) (Returns x) (send_recheck r wake, w)
  unfolding send_recheck
  recheck_map x (ok _) wake w c f = (tt, f)
  recheck_map x (err (full y)) wake w c f = (c, f)
  recheck_map x (err (TrySendError.disconnected y)) wake w c f = (c, f)

  notify_Free :
      (wake : Bool) (w : Waiting A)
      → Free w
      → Free (if wake then record w { sender = notify w.sender } else w)
  unfolding notify
  notify_Free true w f = f
  notify_Free false w f = f

  recheck_spent :
      (r : Result (Unit {0}) (TrySendError A)) (wake : Bool) (w : Waiting A)
      → Spends (λ (v : Waiting A). 0) 0 (send_recheck r wake, w)
  unfolding send_recheck
  recheck_spent (ok _) wake w = omega arith
  recheck_spent (err (full y)) wake w = omega arith
  recheck_spent (err (TrySendError.disconnected y)) wake w = omega arith

  notify_spent :
      (others : Others A) (wake : Bool) (w : Waiting A)
      → others.clock w.steps
        ≤ others.clock (if wake then record w { sender = notify w.sender } else w).steps
  notify_spent others true w = omega arith
  notify_spent others false w = omega arith

  -- It has returned, with the value where it failed, and no registration is left.
  abbrev pub Returned : A → Option (Result (Unit {0}) (SendTimeoutError A) × Waiting A) → Type 0
  Returned x o =
      (result : Result (Unit {0}) (SendTimeoutError A)) × (w : Waiting A) × (o ≡ some (result, w))
      × ReturnsTimed x result
      × Free w

  module _ (others : Others A) (fair : Fair others) where
    -- A sender keeps an endpoint's part, whatever value it sends.
    pub endpoint-Contract : (x : A) → Contract Free Held (λ y. y ≡ x) (Returns x) (endpoint others)
    endpoint-Contract x = record {
      attempt_keeps = λ v w same (h, free).
          Ensures-bind (try_send w.sender v) _ (SentOk x) _
            (subst (λ y. Ensures (try_send w.sender v) (SentOk y)) same (sent-Ok w.sender v h))
            (λ (r, s) (c, k).
              attempt_map x r (stepped others s w) c (fair.meanwhile_keeps w.steps s k, free));
      register_holds = λ w (h, free). (h, refl);
      recheck_keeps = λ v w same (h, held).
          Ensures-bind (try_send_inner w.sender v) _ (InnerOk x) _
            (subst (λ y. Ensures (try_send_inner w.sender v) (InnerOk y)) same
              (inner-Ok w.sender v h))
            (λ (r, wake, s) (c, k).
              recheck_map x r wake (stepped others s w) c (fair.meanwhile_keeps w.steps s k, held));
      unregister_frees = λ w (h, held). (h, refl);
      notify_keeps = notify_Free;
      wait_frees = λ w (h, held). (fair.parked_keeps w.steps w.sender h, refl);
      wait_timeout_frees = λ n w (h, held). (fair.parked_for_keeps w.steps n w.sender h, refl);
    }

    try-Returns :
        (fuel : ℕ) (strategy : WaitStrategy) (x : A)
        (m : Result (Unit {0}) (TrySendError A) × Sender A)
        → SentOk x m
        → Ensures (after_try others fuel strategy m) (BlockOk Free (Returns x))
    try-Returns fuel strategy x (ok _, s) (c, k) = (tt, (k, refl))
    try-Returns fuel strategy x (err (full y), s) (c, k) =
        block-Ok Free Held (λ z. z ≡ x) (Returns x) (endpoint others) (endpoint-Contract x) fuel _ y
          _ c (k, refl)
    try-Returns fuel strategy x (err (TrySendError.disconnected y), s) (c, k) = (c, (k, refl))

    -- A blocking send never faults, however the others act between its steps, never reaches
    -- `unreachable!`, gives back the very value that it could not send, and ends unregistered.
    pub send-Returns :
        (fuel : ℕ) (strategy : WaitStrategy) (s : Sender A) (x : A)
        → SenderOk s
        → Ensures (send others fuel strategy s x) (BlockOk Free (Returns x))
    unfolding send
    send-Returns fuel strategy s x h =
        Ensures-bind (try_send s x) (after_try others fuel strategy) (SentOk x)
          (BlockOk Free (Returns x)) (sent-Ok s x h) (try-Returns fuel strategy x)

    -- Every try is a step, and steps take time; no second try leaves a part of the work.
    pub endpoint-Spending :
        ((n : ℕ) → others.clock n < others.clock (n + 1))
        → (x : A) → Spending Free Held (λ y. y ≡ x) (λ w. 0) (endpoint others)
    endpoint-Spending ticks x = record {
      attempt_spends = λ v w same (h, free).
          Ensures-bind (try_send w.sender v) _ (SentOk v) _ (sent-Ok w.sender v h)
            (λ r k. (omega arith, ticks w.steps));
      recheck_spends = λ v w same (h, held).
          Ensures-bind (try_send_inner w.sender v) _ (InnerOk v) _ (inner-Ok w.sender v h)
            (λ (r, wake, s) k.
              (recheck_spent r wake (stepped others s w), let t = ticks w.steps in omega arith));
      register_spends = λ w f. (omega arith, omega arith);
      unregister_spends = λ w f. (omega arith, omega arith);
      notify_spends = λ wake w f. (omega arith, notify_spent others wake w);
      wait_timeout_spends = λ n w f. (omega arith, let t = ticks w.steps in omega arith);
    }

    timed-Returned :
        (x : A) (deadline : ℕ) (o : Option (Result (Result (Unit {0}) A) A × Waiting A))
        → OutcomeOk Free (λ y. y ≡ x) (Returns x) (some deadline) o
        → o ≢ none
        → Ensures (timed_answer o) (Returned x)
    unfolding send_timeout_result
    timed-Returned x deadline none h there = absurd (there refl)
    timed-Returned x deadline (some (ok (ok _), w)) (h, f) there = (_, w, refl, h, f)
    timed-Returned x deadline (some (ok (err y), w)) (h, f) there = (_, w, refl, h, f)
    timed-Returned x deadline (some (err y, w)) (same, f, timed) there = (_, w, refl, same, f)

    -- A send with a deadline never faults and returns, under any strategy of spinning and whatever the
    -- others do between its steps, as long as each leaves the ring a ring and each step takes a unit of
    -- time: it needs two rounds more than the time to the deadline. Where it fails, by a timeout or by
    -- a disconnection, it gives back the very value that was to be sent, and it ends unregistered.
    pub send_deadline-returns :
        ((n : ℕ) → others.clock n < others.clock (n + 1))
        → (fuel : ℕ) (strategy : WaitStrategy) (s : Sender A) (x : A) (deadline : ℕ) → SenderOk s
        → (deadline - others.clock 0) + 1 < fuel
        → Ensures (send_deadline others fuel strategy s x deadline) (Returned x)
    unfolding send_deadline block_until
    send_deadline-returns ticks fuel strategy s x deadline h enough =
        Ensures-bind _ timed_answer
          (λ o. OutcomeOk Free (λ y. y ≡ x) (Returns x) (some deadline) o × (o ≢ none)) (Returned x)
          (run-returns Free Held (λ y. y ≡ x) (Returns x) (λ w. 0) (endpoint others)
            (endpoint-Contract x) (endpoint-Spending ticks x) fuel deadline (others.clock 0)
            strategy x _ refl (h, refl) (omega arith))
          (λ o (kept, there). timed-Returned x deadline o kept there)
