-- ===== src/Sender/Send.antt =====
-- Sends against the queue of the sender's ring.
use fanring_rs.Base.{
  suc, ◌≡◌, refl, ap, ◌∙◌, Bool, true, false, [], ◌∷◌, ◌++◌, if◌then◌else◌, Result, ok, err, Access,
  done,
}
use mathlib.Core.Path.{subst}
use fanring_rs.Yring.Types.{Spsc}
use fanring_rs.Yring.Queue
use fanring_rs.Yring.Queue.{Queue}
use fanring_rs.Yring.Producer
use fanring_rs.Yring.Sim.{Refines}
use fanring_rs.Yring.Sim.Flush.{push_flush, push_and_flush-Refines}
use fanring_rs.Error.{TrySendError, full}
use fanring_rs.Sender.Defs.{Sender, with_ring}
use fanring_rs.Sender.Defs

module _ {ℓ} {A : Type ℓ} where
  -- The answer to a send: a closed lane first, then a full one, which counts as disconnected once the
  -- receiver is gone.
  abbrev pub answer : (closed no_room alive : Bool) → A → Result (Unit {0}) (TrySendError A)
  answer true no_room alive x = err (TrySendError.disconnected x)
  answer false true alive x = err (if alive then full x else TrySendError.disconnected x)
  answer false false alive x = ok tt

  abbrev pub send_result : Bool → Queue A → A → Result (Unit {0}) (TrySendError A)
  send_result alive q x = answer q.consumer_dropped (Queue.is_full q) alive x

  -- An accepted value is published with all that was pending.
  abbrev pub queue_after : (closed no_room : Bool) → Queue A → A → Queue A
  queue_after false false q x = record q {
    hidden = q.hidden ++ (q.pending ++ (x ∷ []));
    pending = [];
  }
  queue_after closed no_room q x = q

  abbrev pub send_queue : Queue A → A → Queue A
  send_queue q x = queue_after q.consumer_dropped (Queue.is_full q) q x

  -- The first send after IDLE marks the index and wakes the receiver; the others only set PENDING.
  abbrev pub signalled : Sender A → Spsc A → Sender A
  signalled s ring = record s {
    lane = record s.lane { consumer = ring; pending = true };
    marked = if s.lane.pending then s.marked else suc s.marked;
    notified = if s.lane.pending then s.notified else suc s.notified;
  }

  abbrev pub state_after : (closed no_room : Bool) → Sender A → Spsc A → Sender A
  state_after false false s ring = signalled s ring
  state_after closed no_room s ring = with_ring s ring

  abbrev pub send_state : Sender A → Queue A → Spsc A → Sender A
  send_state s q ring = state_after q.consumer_dropped (Queue.is_full q) s ring

  dropped_lem :
      (s : Spsc A) (q : Queue A) → Refines s q → Producer.is_consumer_dropped s ≡ q.consumer_dropped
  unfolding Producer.is_consumer_dropped
  dropped_lem s q (g, v) = v.rx_dropped

  mark_and_notify :
      (s : Sender A) (ring : Spsc A) (pending : Bool)
      → s.lane.pending ≡ pending
      → (let (wake, s') = Defs.mark_ready (with_ring s ring) in Defs.after_send (ok tt, wake, s'))
        ≡ done (ok tt, signalled s ring)
  unfolding Defs.mark_ready Defs.notify
  mark_and_notify s ring true e = rw e refl
  mark_and_notify s ring false e = rw e refl

  push_error_lem :
      (s : Sender A) (ring : Spsc A) (x : A) (alive : Bool)
      → s.receiver_alive ≡ alive
      → Producer.is_consumer_dropped ring ≡ false
      → Defs.push_error (with_ring s ring) x
        ≡ (if alive then full x else TrySendError.disconnected x)
  unfolding Defs.push_error Defs.is_disconnected
  push_error_lem s ring x true a e = rw (a, e) refl
  push_error_lem s ring x false a e = rw a refl

  -- `push_and_flush` by whether there is room.
  push_by_room :
      (s : Spsc A) (q : Queue A) (x : A) (no_room : Bool)
      → Queue.is_full q ≡ no_room
      → Refines s q
      → (ring : Spsc A) × (Producer.push_and_flush s x
          ≡ done ((if no_room then err x else ok tt), ring))
        × Refines ring (queue_after false no_room q x)
  push_by_room s q x no_room e r =
      let (ring, f, r') = push_and_flush-Refines s q x r in
      (
        ring,
        f ∙ by_room no_room e ring,
        by_queue no_room (subst (λ b. Refines ring (pushed b)) e r'),
      )
    where
      pushed : Bool → Queue A
      pushed b =
          let p : Result (Unit {0}) A × Queue A =
            if b then (err x, q) else (ok tt, record q { pending = q.pending ++ (x ∷ []) }) in
          let o : Result (Unit {0}) A × Queue A =
            if b then (err x, q) else (ok tt, Queue.flush p.1) in
          o.1

      by_room :
          (b : Bool)
          → Queue.is_full q ≡ b
          → (ring : Spsc A)
          → let wanted : Access (Result (Unit {0}) A × Spsc A) =
              done ((if b then err x else ok tt), ring) in
            done ((push_flush q x).0, ring) ≡ wanted
      by_room true h ring = rw h refl
      by_room false h ring = rw h refl

      by_queue :
          (b : Bool) {ring : Spsc A}
          → Refines ring (pushed b)
          → Refines ring (queue_after false b q x)
      by_queue true r = r
      by_queue false r = r

  pub send_by :
      (s : Sender A) (q : Queue A) (x : A) (closed no_room : Bool)
      → q.consumer_dropped ≡ closed
      → Queue.is_full q ≡ no_room
      → Refines s.lane.consumer q
      → (ring : Spsc A) × (Defs.try_send s x
          ≡ done (answer closed no_room s.receiver_alive x, state_after closed no_room s ring))
        × Refines ring (queue_after closed no_room q x)
  unfolding Defs.try_send Defs.try_send_inner
  send_by s q x true no_room c f r =
      let e : Producer.is_consumer_dropped s.lane.consumer ≡ true = dropped_lem _ q r ∙ c in
      (s.lane.consumer, rw e refl, r)
  send_by s q x false true c f r =
      let e : Producer.is_consumer_dropped s.lane.consumer ≡ false = dropped_lem _ q r ∙ c in
      let (ring, g, r') = push_by_room s.lane.consumer q x true f r in
      let e' : Producer.is_consumer_dropped ring ≡ false = dropped_lem ring q r' ∙ c in
      (
        ring,
        rw (e, g)
            (ap (λ a. done (err a, with_ring s ring))
              (push_error_lem s ring x s.receiver_alive refl e')),
        r',
      )
  send_by s q x false false c f r =
      let e : Producer.is_consumer_dropped s.lane.consumer ≡ false = dropped_lem _ q r ∙ c in
      let (ring, g, r') = push_by_room s.lane.consumer q x false f r in
      (ring, rw (e, g) (mark_and_notify s ring s.lane.pending refl), r')

  -- A send answers by the state of the lane and of the channel, publishes the value if it accepts it,
  -- together with all that was pending, and wakes the receiver only where the lane was idle.
  pub try_send-Refines :
      (s : Sender A) (q : Queue A) (x : A)
      → Refines s.lane.consumer q
      → (ring : Spsc A) × (Defs.try_send s x
          ≡ done (send_result s.receiver_alive q x, send_state s q ring))
        × Refines ring (send_queue q x)
  try_send-Refines s q x r = send_by s q x q.consumer_dropped (Queue.is_full q) refl refl r
