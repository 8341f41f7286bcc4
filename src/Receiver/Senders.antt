-- ===== src/Receiver/Senders.antt =====
-- What the senders do to the state that the receiver shares with them: sends, `Drop` and registration.
use fanring_rs.Base.{
  ℕ, ◌+◌, ◌≤◌, Bool-cases, inl, inr, ltb, ltb→lt, word, ◌<◌, ◌^◌, ◌≡◌, refl, sym, ap, ◌∙◌, Bool,
  true, false, Option, none, some, ◌==◌, if◌then◌else◌, Result, Access, done, done-inj, ◌>>=◌,
  Ensures, Ensures-bind,
}
use mathlib.Core.Path.{subst}
use fanring_rs.Yring.Types.{Spsc}
use fanring_rs.Yring.Queue
use fanring_rs.Yring.Queue.{Queue}
use fanring_rs.Lane.Defs.{Lane, new}
use fanring_rs.Error.{TrySendError}
use fanring_rs.Sender.Send.{try_send-Refines, send_queue, queue_after, state_after}
use fanring_rs.Sender.Defs.{Sender, try_send, drop}
use fanring_rs.Sender.Deliver.{try_send-LaneOk, drop-LaneOk}
use fanring_rs.Receiver.Index.{mark_slot}
use fanring_rs.Receiver.Defs.{Receiver, Keyed, lane_at, put_lane}
use fanring_rs.Receiver.Rotation.{AllSound, Sound}
use fanring_rs.Receiver.Adopt.{ReceiverOk}
use fanring_rs.Receiver.Collect.{lane_of}
use fanring_rs.Receiver.Defs.{PendingLane}
use fanring_rs.Receiver.Waiting.{
  find_waiting, put_waiting, find_waiting-Sound, waiting-Sound, SharedOk-put_waiting,
}
use fanring_rs.Receiver.Register.{register_sender, register_sender-ReceiverOk}
use fanring_rs.Receiver.Kept.{put_lane-ReceiverOk}

if-Either {κ μ} :
    {B : Type κ} (b : Bool) (P : B → Type μ) (x y : B) → P x → P y → P (if b then x else y)
if-Either true P x y p q = p
if-Either false P x y p q = q

module _ {ℓ} {A : Type ℓ} where
  -- A sender's send on its lane, as the receiver's state sees it.
  abbrev pub sender_of : Receiver A → Keyed A → Sender A
  sender_of r k = record {
    lane = k.lane;
    receiver_alive = r.shared.receiver_alive;
    live_senders = r.shared.live_senders;
    marked = 0;
    notified = r.shared.notified;
  }

  abbrev pub after_sent : ℕ → Receiver A → Keyed A → Sender A → Receiver A
  after_sent slot r k s =
      let sent = put_lane slot (some (record k { lane = s.lane })) r in
      let index = if s.marked == 0 then r.shared.index else mark_slot slot r.shared.index in
      record sent {
        shared = record r.shared {
          index = index;
          notified = s.notified;
          live_senders = s.live_senders;
        };
      }

  -- The same on a lane that waits in the registry.
  abbrev pub after_waiting : ℕ → Receiver A → Sender A → Receiver A
  after_waiting slot r s = record r {
    shared = record r.shared {
      pending = put_waiting slot s.lane.consumer s.lane.pending r.shared.pending;
      index = if s.marked == 0 then r.shared.index else mark_slot slot r.shared.index;
      notified = s.notified;
      live_senders = s.live_senders;
    };
  }

  abbrev pub send_waiting : ℕ → A → Receiver A → Option (PendingLane A) → Access (Receiver A)
  send_waiting slot value r none = done r
  send_waiting slot value r (some p) =
      if p.consumer.ring.producer_dropped
      then done r
      else try_send (sender_of r (lane_of p)) value
        >>= (λ (result, s). done (after_waiting slot r s))

  -- A sender that was dropped sends no more.
  abbrev pub send_found : ℕ → A → Receiver A → Option (Keyed A) → Access (Receiver A)
  send_found slot value r none = send_waiting slot value r (find_waiting slot r.shared.pending)
  send_found slot value r (some k) =
      if k.lane.consumer.ring.producer_dropped
      then done r
      else try_send (sender_of r k) value >>= (λ (result, s). done (after_sent slot r k s))

  unfoldable pub send_on : ℕ → A → Receiver A → Access (Receiver A)
  send_on slot value r = send_found slot value r (lane_at r.lanes slot)

  -- The `Drop` of a sender, once.
  abbrev pub drop_waiting : ℕ → Receiver A → Option (PendingLane A) → Receiver A
  drop_waiting slot r none = r
  drop_waiting slot r (some p) =
      if p.consumer.ring.producer_dropped
      then r
      else after_waiting slot r (drop (sender_of r (lane_of p)))

  abbrev pub drop_found : ℕ → Receiver A → Option (Keyed A) → Receiver A
  drop_found slot r none = drop_waiting slot r (find_waiting slot r.shared.pending)
  drop_found slot r (some k) =
      if k.lane.consumer.ring.producer_dropped
      then r
      else after_sent slot r k (drop (sender_of r k))

  unfoldable pub drop_on : ℕ → Receiver A → Receiver A
  drop_on slot r = drop_found slot r (lane_at r.lanes slot)

  -- A registration, while slot numbers last.
  unfoldable pub register_on : ℕ → ℕ → Receiver A → Access (Receiver A)
  register_on max_lanes capacity r =
      let made = register_sender max_lanes capacity r >>= (λ (result, r'). done r') in
      if ltb (r.shared.registry.next_slot + 1) word then made else done r

  abbrev SentOk : Lane A → Result (Unit {0}) (TrySendError A) × Sender A → Type ℓ
  SentOk l (result, s) = Sound s.lane × (s.lane.queued ≡ l.queued)

  state_after-queued :
      (closed no_room : Bool) (s : Sender A) (ring : Spsc A)
      → (state_after closed no_room s ring).lane.queued ≡ s.lane.queued
  state_after-queued true no_room s ring = refl
  state_after-queued false true s ring = refl
  state_after-queued false false s ring = refl

  try_send-SentOk : (s : Sender A) (x : A) → Sound s.lane → Ensures (try_send s x) (SentOk s.lane)
  try_send-SentOk s x (q, v, b) =
      let (s', e, v', burst, fast) = try_send-LaneOk s q x v in
      let (ring, f, _) = try_send-Refines s q x v.0 in
      let same = ap (λ p. p.1.lane.queued) (done-inj (sym e ∙ f)) in
      subst (λ m. Ensures m (SentOk s.lane)) (sym e)
        (
          (send_queue q x, v', subst (λ (n : ℕ). n < 64) (sym burst) b),
          same ∙ state_after-queued q.consumer_dropped (Queue.is_full q) s ring,
        )

  queue_after-same :
      (closed no_room : Bool) (q : Queue A) (x : A)
      → ((queue_after closed no_room q x).window ≡ q.window)
        × ((queue_after closed no_room q x).unreleased ≡ q.unreleased)
  queue_after-same false false q x = (refl, refl)
  queue_after-same false true q x = (refl, refl)
  queue_after-same true false q x = (refl, refl)
  queue_after-same true true q x = (refl, refl)

  abbrev WaitingOk : Sender A → Type ℓ
  WaitingOk s = Sound (new s.lane.consumer s.lane.pending)

  send-WaitingOk :
      (r : Receiver A) (p : PendingLane A) (x : A)
      → Sound (lane_of p).lane
      → Ensures (try_send (sender_of r (lane_of p)) x) (λ o. WaitingOk o.1)
  send-WaitingOk r p x (q, v, b) =
      let (s', e, v', burst, fast) = try_send-LaneOk (sender_of r (lane_of p)) q x v in
      let (w, u) = queue_after-same q.consumer_dropped (Queue.is_full q) q x in
      subst (λ m. Ensures m (λ o. WaitingOk o.1)) (sym e)
        (waiting-Sound p.consumer s'.lane.consumer p.signalled s'.lane.pending q (send_queue q x) v
          w u v'.0)

  drop-WaitingOk :
      (r : Receiver A) (p : PendingLane A)
      → Sound (lane_of p).lane
      → WaitingOk (drop (sender_of r (lane_of p)))
  drop-WaitingOk r p (q, v, b) =
      let (v', burst, queued) = drop-LaneOk (sender_of r (lane_of p)) q v in
      waiting-Sound p.consumer _ p.signalled _ q _ v refl refl v'.0

  after_waiting-ReceiverOk :
      (slot : ℕ) (r : Receiver A) (s : Sender A)
      → ReceiverOk r
      → WaitingOk s
      → ReceiverOk (after_waiting slot r s)
  after_waiting-ReceiverOk slot r s (ok_r, shared) good = (
    ok_r,
    SharedOk-put_waiting r.lanes slot s.lane.consumer s.lane.pending r.shared.pending
        r.shared.registry good shared,
  )

  pub send_on-ReceiverOk :
      (slot : ℕ) (x : A) (r : Receiver A) → ReceiverOk r → Ensures (send_on slot x r) ReceiverOk
  unfolding send_on
  send_on-ReceiverOk slot x r v = by_lane (lane_at r.lanes slot) refl
    where
      kept : Receiver A → Type ℓ
      kept t = ReceiverOk t

      by_waiting :
          (o : Option (PendingLane A))
          → find_waiting slot r.shared.pending ≡ o
          → Ensures (send_waiting slot x r o) kept
      by_waiting none e = v
      by_waiting (some p) e =
          if-Either p.consumer.ring.producer_dropped (λ (m : Access (Receiver A)). Ensures m kept) _
            _ v
            (Ensures-bind (try_send (sender_of r (lane_of p)) x) _ (λ o. WaitingOk o.1) kept
              (send-WaitingOk r p x (find_waiting-Sound r.lanes slot r.shared.pending p e v.1.0))
              (λ (result, s) good. after_waiting-ReceiverOk slot r s v good))

      by_lane :
          (o : Option (Keyed A))
          → lane_at r.lanes slot ≡ o
          → Ensures (send_found slot x r o) ReceiverOk
      by_lane none e = by_waiting (find_waiting slot r.shared.pending) refl
      by_lane (some k) e =
          if-Either k.lane.consumer.ring.producer_dropped
            (λ (m : Access (Receiver A)). Ensures m kept) _ _ v
            (Ensures-bind (try_send (sender_of r k) x) _ (SentOk k.lane) kept
              (try_send-SentOk (sender_of r k) x (subst AllSound e (v.0.sound slot)))
              (λ (result, s) (good, queued).
                put_lane-ReceiverOk r slot k (record k { lane = s.lane }) v e refl queued good))

  pub drop_on-ReceiverOk : (slot : ℕ) (r : Receiver A) → ReceiverOk r → ReceiverOk (drop_on slot r)
  unfolding drop_on
  drop_on-ReceiverOk slot r v = by_lane (lane_at r.lanes slot) refl
    where
      by_waiting :
          (o : Option (PendingLane A))
          → find_waiting slot r.shared.pending ≡ o
          → ReceiverOk (drop_waiting slot r o)
      by_waiting none e = v
      by_waiting (some p) e = if-Either p.consumer.ring.producer_dropped ReceiverOk _ _ v (
          after_waiting-ReceiverOk slot r (drop (sender_of r (lane_of p))) v
            (drop-WaitingOk r p (find_waiting-Sound r.lanes slot r.shared.pending p e v.1.0)))

      by_lane : (o : Option (Keyed A)) → lane_at r.lanes slot ≡ o → ReceiverOk (drop_found slot r o)
      by_lane none e = by_waiting (find_waiting slot r.shared.pending) refl
      by_lane (some k) e =
          let (q, good, b) = subst AllSound e (v.0.sound slot) in
          let (good', burst, queued) = drop-LaneOk (sender_of r k) q good in
          let k' : Keyed A = record k { lane = (drop (sender_of r k)).lane } in
          if-Either k.lane.consumer.ring.producer_dropped ReceiverOk _ _ v (
            put_lane-ReceiverOk r slot k k' v e refl queued
              (_, good', subst (λ (n : ℕ). n < 64) (sym burst) b))

  pub register_on-ReceiverOk :
      (max_lanes capacity : ℕ) (r : Receiver A)
      → 0 < capacity
      → capacity ≤ 2 ^ 62
      → ReceiverOk r
      → Ensures (register_on max_lanes capacity r) ReceiverOk
  unfolding register_on
  register_on-ReceiverOk max_lanes capacity r pos small v =
      elim (Bool-cases (ltb (r.shared.registry.next_slot + 1) word)) [
        | inl room ↦ rw room (
            Ensures-bind (register_sender max_lanes capacity r) _ (λ p. ReceiverOk p.1) ReceiverOk
              (register_sender-ReceiverOk max_lanes capacity r v (ltb→lt _ _ room) pos small)
              (λ p h. h))
        | inr full ↦ rw full v
      ]
