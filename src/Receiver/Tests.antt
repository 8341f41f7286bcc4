-- ===== src/Receiver/Tests.antt =====
-- A channel of capacity 3: sends, receives and lane control.
use fanring_rs.Base.{
  ℕ, ◌^◌, ◌≡◌, refl, arith, fault, true, false, none, some, Result, done, ◌>>=◌, List, [], ◌∷◌,
  Ensures,
}
use fanring_rs.Yring.Types.{Spsc}
use fanring_rs.Yring.Producer
use fanring_rs.Receiver.Defs.{LaneId, Receiver, Keyed, lane_at, key_eq}
use fanring_rs.Yring.Queue
use fanring_rs.Yring.Queue.{Queue}
use fanring_rs.Yring.Sim.{Refines}
use fanring_rs.Yring.Sim.Push.{push-Refines}
use fanring_rs.Yring.Sim.Flush.{flush-Refines}
use fanring_rs.Registry.Defs.{LaneKey}
use fanring_rs.Lane.Window.{LaneOk, new-LaneOk}
use fanring_rs.Lane.Settle.{popped}
use fanring_rs.Receiver.Turn.{after_value, take_turn-oldest}
use fanring_rs.Yring.New.{fresh, fresh-Refines}
use fanring_rs.Lane.Defs.{Lane, new}
use fanring_rs.Receiver.Receive.{
  release, with_lane_id, item_only, take_turn, spend_item, try_recv, try_recv_fair,
}
use fanring_rs.Receiver.Returns.{Answered, try_recv-returns}
use fanring_rs.Receiver.Run.{
  build-ReceiverOk, Operation, receive, receive_fair, receive_from, pause_lane, resume_lane, close,
  register, send, drop_sender, build_receiver,
}

abbrev first_lane : LaneId
first_lane = record { key = record { slot = 0; generation = 0 }; channel_id = 5 }

abbrev second_lane : LaneId
second_lane = record { key = record { slot = 1; generation = 0 }; channel_id = 5 }

-- A second sender registers, and a third is one too many; the second leaves, and its slot is used
-- again once the receiver has seen that.
abbrev some_operations : List (Operation ℕ)
some_operations =
    send 0 7
    ∷ send 0 8
    ∷ receive 4
    ∷ pause_lane first_lane
    ∷ receive_from first_lane
    ∷ send 0 9
    ∷ resume_lane first_lane
    ∷ receive_fair 4
    ∷ register 2
    ∷ send 1 6
    ∷ register 2
    ∷ receive 4
    ∷ send 1 10
    ∷ drop_sender 1
    ∷ receive_from second_lane
    ∷ receive 4
    ∷ register 2
    ∷ close first_lane
    ∷ receive 4
    ∷ []

try_recv-returns_example :
    let r = build_receiver (fresh {A = ℕ} (2 ^ 2)) 5 in
    Ensures (try_recv (release with_lane_id) 2 r) (Answered with_lane_id)
    × Ensures (try_recv_fair (release with_lane_id) 2 r) (Answered with_lane_id)
unfolding build_receiver new
try_recv-returns_example =
    try_recv-returns with_lane_id 2 (build_receiver (fresh {A = ℕ} (2 ^ 2)) 5)
      (build-ReceiverOk (fresh {A = ℕ} (2 ^ 2)) (2 ^ 2) 5 (fresh-Refines 2 (omega arith)))
      (omega arith)

abbrev one_published : Queue ℕ
one_published = record (Queue.new (2 ^ 2)) { hidden = 7 ∷ [] }

-- A ring whose sender has published 7.
abbrev sent : Spsc ℕ
sent =
    Producer.flush
      (push-Refines (fresh (2 ^ 2)) (Queue.new (2 ^ 2)) 7 (fresh-Refines 2 (omega arith))).0

sent-Refines : Refines sent one_published
sent-Refines =
    let (s, _, r) =
      push-Refines (fresh (2 ^ 2)) (Queue.new (2 ^ 2)) 7 (fresh-Refines 2 (omega arith)) in
    flush-Refines s _ r

abbrev first_key : LaneKey
first_key = record { slot = 0; generation = 0 }

abbrev busy_lane : Keyed ℕ
busy_lane = record { key = first_key; lane = new sent true; spaces = 0 }

-- The receiver with that lane in its rotation.
abbrev busy_receiver : Receiver ℕ
busy_receiver = record (build_receiver sent 5) {
  lanes = some busy_lane ∷ [];
  active = first_key ∷ [];
}

take_turn-oldest_example :
    (m : Lane ℕ) × LaneOk m (popped (record one_published { hidden = [] }) [])
    × (take_turn (release item_only) true busy_receiver ≡ (
        spend_item false (after_value true first_key [] busy_lane m busy_receiver)
        >>= (λ r. done (some (Result.ok 7, none), r))))
unfolding new lane_at key_eq
take_turn-oldest_example =
    take_turn-oldest (release item_only) true busy_receiver first_key [] busy_lane one_published 7
      [] refl refl (new-LaneOk sent one_published true sent-Refines refl refl) (omega arith) refl

-- The poll counter is spent, and the lane is in the rotation.
abbrev spent_receiver : Receiver ℕ
spent_receiver = record busy_receiver { items_until_ready_poll = 0 }

-- In a build with overflow checks the turn panics.
spent_receiver-faults :
    take_turn (record { item = item_only; overflow_checks = true }) true spent_receiver ≡ fault
unfolding new lane_at key_eq spend_item
spent_receiver-faults =
    let (m, kept, e) =
      take_turn-oldest (record { item = item_only; overflow_checks = true }) true spent_receiver
        first_key [] busy_lane one_published 7 [] refl refl
        (new-LaneOk sent one_published true sent-Refines refl refl) (omega arith) refl in
    e
