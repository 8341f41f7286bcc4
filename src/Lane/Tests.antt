-- ===== src/Lane/Tests.antt =====
-- The properties of a lane at inputs that meet their hypotheses.
use fanring_rs.Base.{
  ℕ, suc, ◌+◌, ◌^◌, ◌≤◌, ◌<◌, ◌≡◌, refl, true, false, some, List, [], ◌∷◌, arith, done,
}
use fanring_rs.Yring.Types.{Spsc}
use fanring_rs.Yring.Queue
use fanring_rs.Yring.Queue.{Queue}
use fanring_rs.Yring.Producer
use fanring_rs.Yring.Consumer
use fanring_rs.Yring.Sim.{Refines}
use fanring_rs.Yring.Sim.Push.{push-Refines}
use fanring_rs.Yring.Sim.Flush.{flush-Refines}
use fanring_rs.Yring.Sim.Pop.{prefetch-Refines}
use fanring_rs.Yring.New.{fresh, fresh-Refines}
use fanring_rs.Lane.Defs.{Lane, LanePoll, EmptyLane}
use fanring_rs.Lane.Defs
use fanring_rs.Lane.Window.{LaneOk, grant_fast-LaneOk, new-LaneOk}
use fanring_rs.Lane.Settle.{settle_empty-LaneOk, popped}
use fanring_rs.Lane.Poll.{poll-LaneOk, poll-Idle}
use fanring_rs.Lane.Take.{pop_fast-LaneOk, pop_targeted-LaneOk, move_chunk-LaneOk}

abbrev none_sent : Queue ℕ
none_sent = Queue.new (2 ^ 2)

abbrev one_published : Queue ℕ
one_published = record none_sent { hidden = 7 ∷ [] }

abbrev idle_lane : Lane ℕ
idle_lane = Defs.new (fresh (2 ^ 2)) true

idle_lane-LaneOk : LaneOk idle_lane none_sent
idle_lane-LaneOk =
    new-LaneOk (fresh (2 ^ 2)) none_sent true (fresh-Refines 2 (omega arith)) refl refl

-- The lane once its sender has published 7.
abbrev sent : Spsc ℕ
sent = Producer.flush (push-Refines (fresh (2 ^ 2)) none_sent 7 (fresh-Refines 2 (omega arith))).0

sent-Refines : Refines sent one_published
sent-Refines =
    let (s, _, r) = push-Refines (fresh (2 ^ 2)) none_sent 7 (fresh-Refines 2 (omega arith)) in
    flush-Refines s _ r

abbrev busy_lane : Lane ℕ
busy_lane = Defs.new sent true

busy_lane-LaneOk : LaneOk busy_lane one_published
busy_lane-LaneOk = new-LaneOk sent one_published true sent-Refines refl refl

poll-LaneOk_example :
    (m : Lane ℕ) × (Defs.poll false busy_lane ≡ done (LanePoll.item 7 false false, m))
    × LaneOk m (popped (record one_published { hidden = [] }) [])
    × (m.burst < 64)
unfolding Defs.new
poll-LaneOk_example =
    poll-LaneOk false busy_lane one_published 7 [] busy_lane-LaneOk (omega arith) refl

poll-Idle_example :
    (m : Lane ℕ) × (Defs.poll true idle_lane ≡ done (LanePoll.idle false false, m))
    × LaneOk m none_sent
    × (m.pending ≡ false)
    × (m.queued ≡ false)
    × (m.burst ≡ 0)
poll-Idle_example = poll-Idle true idle_lane none_sent idle_lane-LaneOk refl refl

settle_empty-LaneOk_example :
    LaneOk (Defs.settle_empty busy_lane).1 (Queue.prefetch one_published).1
    × ((Defs.settle_empty busy_lane).1.burst ≡ 0)
    × ((Defs.settle_empty busy_lane).0 ≡ EmptyLane.keep false)
    × ((Defs.settle_empty busy_lane).1.pending ≡ true)
    × ((Defs.settle_empty busy_lane).1.queued ≡ false)
unfolding Defs.new
settle_empty-LaneOk_example = settle_empty-LaneOk busy_lane one_published busy_lane-LaneOk refl

grant_fast-LaneOk_example :
    let m = Defs.grant_fast busy_lane 5 in
    LaneOk m (Queue.prefetch one_published).1
    × (m.fast_left ≤ 5)
    × (m.unreleased + 1 ≤ 4)
    × (m.burst ≤ 63)
unfolding Defs.new
grant_fast-LaneOk_example = grant_fast-LaneOk busy_lane one_published 5 busy_lane-LaneOk

abbrev one_seen : Queue ℕ
one_seen = record none_sent { window = 7 ∷ [] }

-- The lane with 7 prefetched, and with 7 in an open fast window.
abbrev ready_lane : Lane ℕ
ready_lane = record {
  consumer = (Consumer.prefetch sent).1;
  pending = true;
  cached_available = 1;
  unreleased = 0;
  release_batch = 4;
  burst = 0;
  fast_left = 0;
  queued = true;
}

abbrev fast_lane : Lane ℕ
fast_lane = record ready_lane { cached_available = 0; unreleased = 1; burst = 1; fast_left = 1 }

seen-Refines : Refines (Consumer.prefetch sent).1 one_seen
seen-Refines = (prefetch-Refines sent one_published sent-Refines).1

ready_lane-LaneOk : LaneOk ready_lane one_seen
ready_lane-LaneOk = (seen-Refines, omega arith)

fast_lane-LaneOk : LaneOk fast_lane one_seen
fast_lane-LaneOk = (seen-Refines, omega arith)

pop_fast-LaneOk_example :
    (x : ℕ) × (xs : List ℕ) × (m : Lane ℕ) × (one_seen.window ≡ x ∷ xs)
    × (Defs.pop_fast fast_lane ≡ done (some x, m))
    × LaneOk m (popped one_seen xs)
    × (suc m.fast_left ≡ 1)
    × (m.burst ≡ 1)
pop_fast-LaneOk_example = pop_fast-LaneOk fast_lane one_seen fast_lane-LaneOk (omega arith)

pop_targeted-LaneOk_example :
    (m : Lane ℕ) × (Defs.pop_targeted ready_lane ≡ done (7, false, m))
    × LaneOk m (popped one_seen [])
    × (m.burst ≡ 0)
pop_targeted-LaneOk_example =
    pop_targeted-LaneOk ready_lane one_seen 7 [] ready_lane-LaneOk refl refl

move_chunk-LaneOk_example :
    (m : Lane ℕ) × (Defs.move_chunk ready_lane (5 ∷ []) 1 ≡ done (1, false, m, 5 ∷ 7 ∷ []))
    × LaneOk m (Queue.pop_many one_seen 1).1
    × (m.burst ≡ 0 + 1)
move_chunk-LaneOk_example =
    move_chunk-LaneOk ready_lane one_seen (5 ∷ []) 1 ready_lane-LaneOk refl (omega arith)
