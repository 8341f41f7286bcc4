-- ===== src/Sender/Tests.antt =====
-- Sends on a lane of four slots, and on a full one of one slot.
use fanring_rs.Base.{
  ℕ, ◌^◌, ◌≡◌, ◌≢◌, refl, none, some, true, false, [], ◌∷◌, arith, ok, done, Ensures,
}
use fanring_rs.Yring.Types.{Spsc}
use fanring_rs.Yring.Queue
use fanring_rs.Yring.Queue.{Queue}
use fanring_rs.Yring.Sim.{Refines}
use fanring_rs.Yring.New.{fresh, fresh-Refines}
use fanring_rs.Lane.Defs.{Lane, LanePoll, poll, new}
use fanring_rs.Lane.Window.{LaneOk, new-LaneOk}
use fanring_rs.Sender.Defs.{Sender, try_send}
use fanring_rs.Sender.Send.{try_send-Refines, send_state}
use fanring_rs.Sender.Deliver.{poll-try_send}
use fanring_rs.Yring.Sim.Push.{push-Refines}
use fanring_rs.Config.Defs.{spin_for, deadline}
use fanring_rs.Blocking.Defs.{run}
use fanring_rs.Blocking.Contract.{OutcomeOk}
use fanring_rs.Blocking.Deadline.{run-returns}
use fanring_rs.Sender.Block.{Others, Waiting, endpoint, send_deadline}
use fanring_rs.Sender.Keeps.{
  Fair, Free, Held, Returns, Returned, SenderOk, endpoint-Contract, endpoint-Spending,
  send_deadline-returns,
}

abbrev none_sent : Queue ℕ
none_sent = Queue.new (2 ^ 2)

abbrev first_sender : Sender ℕ
first_sender = record {
  lane = new (fresh (2 ^ 2)) false;
  receiver_alive = true;
  live_senders = 1;
  marked = 0;
  notified = 0;
}

first_sender-Refines : Refines first_sender.lane.consumer none_sent
unfolding new
first_sender-Refines = fresh-Refines 2 (omega arith)

first_sender-LaneOk : LaneOk first_sender.lane none_sent
first_sender-LaneOk =
    new-LaneOk (fresh (2 ^ 2)) none_sent false (fresh-Refines 2 (omega arith)) refl refl

try_send-Refines_example :
    (ring : Spsc ℕ) × (try_send first_sender 7
      ≡ done (ok tt, send_state first_sender none_sent ring))
    × Refines ring (record none_sent { hidden = 7 ∷ [] })
try_send-Refines_example = try_send-Refines first_sender none_sent 7 first_sender-Refines

poll-try_send_example :
    (s : Sender ℕ) × (m : Lane ℕ) × (try_send first_sender 7 ≡ done (ok tt, s))
    × (poll false s.lane ≡ done (LanePoll.item 7 false false, m))
unfolding new
poll-try_send_example =
    poll-try_send first_sender none_sent 7 false first_sender-LaneOk (omega arith) refl refl refl

-- Nobody drains the lane, and each step takes a unit of time.
abbrev nobody : Others ℕ
nobody = record {
  meanwhile = λ n s. s;
  parked = λ n s. s;
  parked_for = λ n time s. (false, s);
  clock = λ n. n;
}

nobody-Fair : Fair nobody
nobody-Fair = record {
  meanwhile_keeps = λ n s h. h;
  parked_keeps = λ n s h. h;
  parked_for_keeps = λ n time s h. h;
}

-- A lane of one slot, with 7 in it.
abbrev full_sender : Sender ℕ
full_sender = record first_sender {
  lane =
      new (push-Refines (fresh (2 ^ 0)) (Queue.new (2 ^ 0)) 7 (fresh-Refines 0 (omega arith))).0
        false;
}

full_sender-SenderOk : SenderOk full_sender
unfolding new
full_sender-SenderOk =
    (_, (push-Refines (fresh (2 ^ 0)) (Queue.new (2 ^ 0)) 7 (fresh-Refines 0 (omega arith))).2)

abbrev full_waiting : Waiting ℕ
full_waiting = record { sender = full_sender; registered = false; steps = 0 }

-- It spins for two units of time, and waits for six.
send_deadline-returns_example :
    Ensures (send_deadline nobody 8 (spin_for 2) full_sender 8 6) (Returned 8)
send_deadline-returns_example =
    send_deadline-returns nobody nobody-Fair (λ n. omega arith) 8 (spin_for 2) full_sender 8 6
      full_sender-SenderOk (omega arith)

run-returns_example :
    Ensures
      (run (endpoint nobody) 8 (deadline (spin_for 2) 6 0) (some 6) 8 full_waiting)
      (λ o. OutcomeOk Free (λ y. y ≡ 8) (Returns 8) (some 6) o × (o ≢ none))
run-returns_example =
    run-returns Free Held (λ y. y ≡ 8) (Returns 8) (λ w. 0) (endpoint nobody)
      (endpoint-Contract nobody nobody-Fair 8)
      (endpoint-Spending nobody nobody-Fair (λ n. omega arith) 8) 8 6 0 (spin_for 2) 8 full_waiting
      refl (full_sender-SenderOk, refl) (omega arith)
