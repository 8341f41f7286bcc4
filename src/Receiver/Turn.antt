-- ===== src/Receiver/Turn.antt =====
-- What a turn of the receive loop gives.
use fanring_rs.Base.{
  suc, ◌-◌, ◌<◌, ◌≡◌, refl, ap, ◌∙◌, Bool, ◌||◌, Option, none, some, List, [], ◌∷◌, ◌++◌, ◌==◌,
  if◌then◌else◌, Result, done, ◌>>=◌,
}
use fanring_rs.Yring.Queue.{Queue}
use fanring_rs.Yring.Sim.Receive.{refilled}
use fanring_rs.Lane.Defs.{Lane, batch_for}
use fanring_rs.Lane.Window.{LaneOk}
use fanring_rs.Lane.Settle.{settled, popped}
use fanring_rs.Lane.Poll.{poll-LaneOk}
use fanring_rs.Registry.Defs.{LaneKey}
use fanring_rs.Receiver.Defs.{Receiver, Keyed, current, put_lane}
use fanring_rs.Receiver.Receive.{Build, after_poll, poll_found, poll_lane, take_turn, spend_item}

module _ {ℓ} {A : Type ℓ} where
  -- The receiver with a served lane back in it, its key at an end of the rotation.
  abbrev pub after_value :
      (rotate : Bool) → LaneKey → List LaneKey → Keyed A → Lane A → Receiver A → Receiver A
  after_value rotate key rest k m r = record (put_lane key.slot (some (record k { lane = m })) r) {
    active = if rotate then rest ++ (key ∷ []) else key ∷ rest;
  }

  module _ {κ} {O : Type κ} (build : Build A O) where
    turn_lem :
        (fair : Bool) (r : Receiver A) (key : LaneKey) (rest : List LaneKey)
        → r.active ≡ key ∷ rest
        → take_turn build fair r
          ≡ (poll_lane fair key (record r { active = rest }) >>= after_poll build key)
    unfolding take_turn
    turn_lem fair r key rest e = rw e refl

    -- A turn on a front lane with a visible value hands over the oldest, under the lane's own key. The
    -- lane goes to the back after every value of a fair receive and at the end of a burst of 64, and
    -- stays in front otherwise; its sender is to be notified exactly when the value completes the
    -- release batch. The value is then charged to the poll counter.
    pub take_turn-oldest :
        (fair : Bool) (r : Receiver A) (key : LaneKey) (rest : List LaneKey) (k : Keyed A)
        (q : Queue A) (x : A) (xs : List A)
        → r.active ≡ key ∷ rest
        → current r key ≡ some k
        → LaneOk k.lane q
        → k.lane.burst < 64
        → (refilled q).window ≡ x ∷ xs
        → let rotate = fair || (suc (k.lane.burst - k.lane.fast_left) == 64) in
          let released : Option LaneKey =
            if suc q.unreleased == batch_for q.capacity then some key else none in
          (m : Lane A) × LaneOk m (settled (popped (refilled q) xs))
          × (take_turn build fair r ≡ (
              spend_item build.overflow_checks (after_value rotate key rest k m r)
              >>= (λ r'. done (some (Result.ok (build.item r' key x), released), r'))))
    unfolding poll_lane
    take_turn-oldest fair r key rest k q x xs e here lane_ok b w =
        let (m, f, kept, small) = poll-LaneOk fair k.lane q x xs lane_ok b w in
        let polled = ap (poll_found fair key (record r { active = rest })) here in
        (
          m,
          kept,
          turn_lem fair r key rest e ∙ ap (λ a. a >>= after_poll build key) polled ∙ rw f refl,
        )
