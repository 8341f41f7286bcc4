-- ===== src/Sender/Deliver.antt =====
-- A value sent on a lane is the one that the receiver's poll of the lane gives.
use fanring_rs.Base.{
  suc, ◌-◌, ◌<◌, ◌≡◌, refl, sym, ap, if◌then◌else◌, Bool, true, false, ◌||◌, List, [], ◌∷◌, ◌++◌,
  ◌==◌, ok, done,
}
use mathlib.Core.Path.{subst}
use fanring_rs.Yring.Types.{Spsc}
use fanring_rs.Yring.Queue
use fanring_rs.Yring.Producer
use fanring_rs.Yring.Sim.Flush.{close-Refines}
use fanring_rs.Yring.Queue.{Queue, used, contents}
use fanring_rs.Yring.Sim.{Refines}
use fanring_rs.Yring.Sim.Receive.{refilled}
use fanring_rs.Lane.Defs.{Lane, LanePoll, batch_for, poll}
use fanring_rs.Lane.Window.{Counts, LaneOk, Refines-sizes}
use fanring_rs.Lane.Poll.{poll-LaneOk}
use fanring_rs.Sender.Defs.{Sender, with_ring}
use fanring_rs.Sender.Defs
use fanring_rs.Sender.Send.{
  try_send-Refines, send_by, send_queue, send_result, send_state, signalled, queue_after,
  state_after,
}

module _ {ℓ} {A : Type ℓ} where
  -- The sender's part of the ring is no concern of the lane's counters.
  Counts-sent :
      (l : Lane A) (q : Queue A) (ring : Spsc A) (pending : Bool) (hidden unflushed : List A)
      → Counts l q
      → Refines ring (record q { hidden = hidden; pending = unflushed })
      → Counts
          (record l { consumer = ring; pending = pending })
          (record q { hidden = hidden; pending = unflushed })
  Counts-sent l q ring pending hidden unflushed c r =
      let (pos, small, fits) = Refines-sizes ring _ r in
      record {
        some_room = (pos, small);
        fits = fits;
        available = c.available;
        taken = c.taken;
        batch = c.batch;
        short = c.short;
        charged = c.charged;
        burst_fits = c.burst_fits;
      }

  sent-LaneOk :
      (s : Sender A) (q : Queue A) (x : A) (closed no_room : Bool) (ring : Spsc A)
      → LaneOk s.lane q
      → Refines ring (queue_after closed no_room q x)
      → LaneOk (state_after closed no_room s ring).lane (queue_after closed no_room q x)
  sent-LaneOk s q x true no_room ring (r, c) r' =
      (r', Counts-sent s.lane q ring s.lane.pending q.hidden q.pending c r')
  sent-LaneOk s q x false true ring (r, c) r' =
      (r', Counts-sent s.lane q ring s.lane.pending q.hidden q.pending c r')
  sent-LaneOk s q x false false ring (r, c) r' =
      (r', Counts-sent s.lane q ring true (q.hidden ++ (q.pending ++ (x ∷ []))) [] c r')

  -- A send keeps the receiver's lane consistent, whatever it answers.
  pub try_send-LaneOk :
      (s : Sender A) (q : Queue A) (x : A)
      → LaneOk s.lane q
      → (s' : Sender A) × (Defs.try_send s x ≡ done (send_result s.receiver_alive q x, s'))
        × LaneOk s'.lane (send_queue q x)
        × (s'.lane.burst ≡ s.lane.burst)
        × (s'.lane.fast_left ≡ s.lane.fast_left)
  try_send-LaneOk s q x (r, c) =
      let (ring, e, r') = try_send-Refines s q x r in
      let (b, f) = frame s q ring q.consumer_dropped (Queue.is_full q) in
      (
        send_state s q ring,
        e,
        sent-LaneOk s q x q.consumer_dropped (Queue.is_full q) ring (r, c) r',
        b,
        f,
      )
    where
      frame :
          (s : Sender A) (q : Queue A) (ring : Spsc A) (closed no_room : Bool)
          → ((state_after closed no_room s ring).lane.burst ≡ s.lane.burst)
            × ((state_after closed no_room s ring).lane.fast_left ≡ s.lane.fast_left)
      frame s q ring true no_room = (refl, refl)
      frame s q ring false true = (refl, refl)
      frame s q ring false false = (refl, refl)

  marked_lane :
      (pending : Bool) (s : Sender A)
      → let marked = record s { lane = record s.lane { pending = true } } in
        let m : Bool × Sender A =
          if pending
          then (false, marked)
          else (true, record marked { marked = suc marked.marked }) in
        m.1.lane ≡ marked.lane
  marked_lane true s = refl
  marked_lane false s = refl

  -- So does its `Drop`, which publishes what was sent.
  pub drop-LaneOk :
      (s : Sender A) (q : Queue A)
      → LaneOk s.lane q
      → LaneOk (Defs.drop s).lane (record (Queue.flush q) { producer_dropped = true })
        × ((Defs.drop s).lane.burst ≡ s.lane.burst)
        × ((Defs.drop s).lane.queued ≡ s.lane.queued)
  unfolding Defs.drop Defs.mark_ready Defs.notify
  drop-LaneOk s q (r, c) =
      let r' = close-Refines s.lane.consumer q r in
      let (pos, small, fits) = Refines-sizes _ _ r' in
      let kept : Counts
          (record s.lane { consumer = Producer.close s.lane.consumer; pending = true })
          (record (Queue.flush q) { producer_dropped = true }) =
        record {
          some_room = (pos, small);
          fits = fits;
          available = c.available;
          taken = c.taken;
          batch = c.batch;
          short = c.short;
          charged = c.charged;
          burst_fits = c.burst_fits;
        } in
      let same = marked_lane s.lane.pending (with_ring s (Producer.close s.lane.consumer)) in
      (
        subst (λ l. LaneOk l (record (Queue.flush q) { producer_dropped = true })) (sym same)
            (r', kept),
        ap (λ l. l.burst) same,
        ap (λ l. l.queued) same,
      )

  append-eq-nil : (xs ys : List A) → xs ++ ys ≡ [] → (xs ≡ []) × (ys ≡ [])
  append-eq-nil [] ys e = (refl, e)
  append-eq-nil (x ∷ xs) ys e = cc

  seen_alone :
      (q : Queue A) (x : A) (w h p : List A)
      → w ≡ []
      → h ≡ []
      → p ≡ []
      → (refilled (record q { window = w; hidden = h ++ (p ++ (x ∷ [])); pending = [] })).window
        ≡ x ∷ []
  seen_alone q x w h p e e' e'' = rw (e, e', e'') refl

  -- A value sent on an open lane with room and nothing in it is what the next poll of the lane gives.
  pub poll-try_send :
      (s : Sender A) (q : Queue A) (x : A) (fair : Bool)
      → LaneOk s.lane q
      → s.lane.burst < 64
      → q.consumer_dropped ≡ false
      → Queue.is_full q ≡ false
      → contents q ≡ []
      → (s' : Sender A) × (m : Lane A) × (Defs.try_send s x ≡ done (ok tt, s'))
        × (poll fair s'.lane
            ≡ done (
              LanePoll.item x
                  (fair || (suc (s.lane.burst - s.lane.fast_left) == 64))
                  (suc q.unreleased == batch_for q.capacity),
              m,
            ))
  poll-try_send s q x fair ok_lane b open_lane room empty =
      let (none_seen, rest) = append-eq-nil q.window (q.hidden ++ q.pending) empty in
      let (none_hidden, none_pending) = append-eq-nil q.hidden q.pending rest in
      let (ring, e, r') = send_by s q x false false open_lane room ok_lane.0 in
      let q' = queue_after false false q x in
      let ok' = sent-LaneOk s q x false false ring ok_lane r' in
      let (m, f, _, _) =
        poll-LaneOk fair (signalled s ring).lane q' x [] ok' b
          (seen_alone q x q.window q.hidden q.pending none_seen none_hidden none_pending) in
      (signalled s ring, m, e, f)
