-- ===== src/Receiver/Control.antt =====
-- Lane control of src/mpsc/receiver/lane_control.rs.
use fanring_rs.Base.{
  suc, true, false, not, ◌&&◌, Option, none, some, [], ◌∷◌, ◌++◌, set, ◌==◌, if◌then◌else◌, Result,
  ok, err, Access, done, ◌>>=◌,
}
use fanring_rs.Error.{RecvError, TryRecvError}
use fanring_rs.Yring.Consumer
use fanring_rs.Lane.Defs.{Lane, EmptyLane, refill, release_pending, pop_targeted}
use fanring_rs.Receiver.Defs.{
  Receiver, Keyed, LaneId, current, put_lane, notify_if, notify_space, is_paused, mark, retire_lane,
  retain_other,
}
use fanring_rs.Receiver.Collect.{refresh_registry}

module _ {ℓ} {A : Type ℓ} where
  -- The lane of an ID, after the registry is read; the receiver comes back with it.
  abbrev pub lane_mut : LaneId → Receiver A → Option (Keyed A) × Receiver A
  lane_mut id r =
      let fresh = refresh_registry r in
      if r.shared.channel_id == id.channel_id then (current fresh id.key, fresh) else (none, r)

  abbrev pub with_lane : Keyed A → Lane A → Keyed A
  with_lane k lane = record k { lane = lane }

  -- The lane leaves the rotation and publishes its pending slots.
  abbrev pub pause_lane : Keyed A → Keyed A
  pause_lane k =
      let (released, lane) = release_pending (record k.lane { queued = false }) in
      notify_if released (with_lane k lane)

  abbrev pub pause_found :
      LaneId → Option (Keyed A) × Receiver A → Access (Result (Unit {0}) RecvError × Receiver A)
  pause_found id (none, r) = done (err RecvError.disconnected, r)
  pause_found id (some k, r) =
      let r' = put_lane id.key.slot (some (pause_lane k)) r in
      is_paused r' id.key.slot >>= (λ paused.
        let paused_now = record r' {
          paused = set r'.paused id.key.slot true;
          active = retain_other id.key r'.active;
        } in
        done (ok tt, if paused then r' else paused_now))

  unfoldable pub pause : LaneId → Receiver A → Access (Result (Unit {0}) RecvError × Receiver A)
  pause id r = pause_found id (lane_mut id r)

  -- A lane joins the rotation and is marked.
  abbrev pub requeue : Keyed A → Receiver A → Receiver A
  requeue k r =
      let r' = mark (with_lane k (record k.lane { queued = true })) r in
      record r' { active = r'.active ++ (k.key ∷ []) }

  abbrev pub resume_found :
      LaneId → Option (Keyed A) × Receiver A → Access (Result (Unit {0}) RecvError × Receiver A)
  resume_found id (none, r) = done (err RecvError.disconnected, r)
  resume_found id (some k, r) = is_paused r id.key.slot >>= (λ paused.
      let r' = requeue k (record r { paused = set r.paused id.key.slot false }) in
      let woken = record r' { shared = record r'.shared { notified = suc r'.shared.notified } } in
      done (ok tt, if paused then woken else r))

  unfoldable pub resume : LaneId → Receiver A → Access (Result (Unit {0}) RecvError × Receiver A)
  resume id r = resume_found id (lane_mut id r)

  -- The value of a lane that has one.
  abbrev pub take_from : LaneId → Keyed A → Receiver A → Access (Result A TryRecvError × Receiver A)
  take_from id k r = pop_targeted k.lane >>= (λ (value, released, lane).
      let k' = notify_if released (with_lane k lane) in
      let r' = put_lane id.key.slot (some k') r in
      is_paused r' id.key.slot >>= (λ paused.
        done (ok value, if not paused && not k'.lane.queued then requeue k' r' else r')))

  abbrev pub after_refill :
      LaneId
      → Keyed A
      → Receiver A
      → Option EmptyLane × Lane A
      → Access (Result A TryRecvError × Receiver A)
  after_refill id k r (none, lane) = take_from id (with_lane k lane) r
  after_refill id k r (some (EmptyLane.keep b), lane) =
      take_from id (notify_if b (with_lane k lane)) r
  after_refill id k r (some (EmptyLane.idle disconnected b), lane) =
      let r' = put_lane id.key.slot (some (notify_if b (with_lane k lane))) r in
      let left = record r' { active = retain_other id.key r'.active } in
      done (
        if disconnected
        then (err TryRecvError.disconnected, retire_lane id.key left)
        else (err TryRecvError.empty, left))

  abbrev pub try_recv_found :
      LaneId → Option (Keyed A) × Receiver A → Access (Result A TryRecvError × Receiver A)
  try_recv_found id (none, r) = done (err TryRecvError.disconnected, r)
  try_recv_found id (some k, r) = after_refill id k r (refill k.lane)

  unfoldable pub try_recv_from : LaneId → Receiver A → Access (Result A TryRecvError × Receiver A)
  try_recv_from id r = try_recv_found id (lane_mut id r)

  -- The consumer is closed, and its sender woken.
  abbrev pub shut : Keyed A → Keyed A
  shut k = notify_space (with_lane k (record k.lane { consumer = Consumer.close k.lane.consumer }))

  abbrev pub close_found :
      LaneId → Option (Keyed A) × Receiver A → Result (Unit {0}) RecvError × Receiver A
  close_found id (none, r) = (err RecvError.disconnected, r)
  close_found id (some k, r) =
      let r' = put_lane id.key.slot (some (shut k)) r in
      (ok tt, retire_lane id.key (record r' { active = retain_other id.key r'.active }))

  unfoldable pub close_lane : LaneId → Receiver A → Result (Unit {0}) RecvError × Receiver A
  close_lane id r = close_found id (lane_mut id r)
