-- ===== src/Yring/Tests.antt =====
-- Runs of the ring at concrete inputs, and the properties at inputs that meet their hypotheses.
use fanring_rs.Base.{
  ℕ, ◌+◌, ◌*◌, ◌^◌, ◌≤◌, ◌<◌, ◌≡◌, refl, Bool, true, false, none, some, List, [], ◌∷◌, ◌++◌, arith,
  length, ltb, done, inl,
}
use fanring_rs.Yring.Ring
use fanring_rs.Yring.Types.{Spsc}
use fanring_rs.Yring.Queue
use fanring_rs.Yring.Queue.{Queue, used}
use fanring_rs.Yring.Producer
use fanring_rs.Yring.Consumer
use fanring_rs.Yring.Waiter
use fanring_rs.Yring.Sim.{Refines, Does}
use fanring_rs.Yring.Sim.Push.{push-Refines}
use fanring_rs.Yring.Sim.Flush.{
  flush_and_check-Refines, is_full-Refines, flush_result, flush-Refines, published,
}
use fanring_rs.Yring.Sim.Pop.{pop-Refines, prefetch-Refines}
use fanring_rs.Yring.Sim.Receive.{
  release_with_full-Refines, is_empty-Refines, len-visible, prefetch_and_pop-Refines,
}
use fanring_rs.Yring.Sim.Bulk.{pop_into-Refines, pop_into_while-Refines}
use fanring_rs.Yring.New.{spsc-Refines, spsc_refuses, fresh, fresh-Refines}
use fanring_rs.Yring.Run.{Op, Trace, run, fifo_prefix}

abbrev four : Spsc ℕ
four = fresh (2 ^ 2)

abbrev empty_queue : Queue ℕ
empty_queue = Queue.new (2 ^ 2)

four-Refines : Refines four empty_queue
four-Refines = fresh-Refines 2 (omega arith)

-- One value in, out, and the ring wrapped round: capacity 1.
script : List (Op ℕ)
script =
    Op.push 7
    ∷ Op.push 8
    ∷ Op.flush
    ∷ Op.prefetch
    ∷ Op.pop
    ∷ Op.push 9
    ∷ Op.release
    ∷ Op.push 9
    ∷ Op.flush_and_check
    ∷ Op.prefetch
    ∷ Op.pop_into 5
    ∷ []

script-run :
    (s : Spsc ℕ) × (run (fresh (2 ^ 0)) script
      ≡ done (record { accepted = 7 ∷ 9 ∷ []; received = 7 ∷ 9 ∷ [] }, s))
unfolding run script Producer.push Producer.ring_push Producer.push_after_full Producer.flush
    Producer.flush_and_check Consumer.prefetch Consumer.ring_prefetch Consumer.prefetch_after_empty
    Consumer.pop Consumer.release Consumer.pop_into Consumer.ring_pop_into Waiter.new
script-run = (_, refl)

fifo_prefix_example :
    (s : Spsc ℕ) × (s' : Spsc ℕ) × (t : Trace ℕ) × (size : ℕ) × (left : List ℕ) × (Producer.spsc 3
      ≡ some s)
    × (Ring.capacity s.ring ≡ size)
    × (3 ≤ size)
    × (size < 2 * 3)
    × (run s script ≡ done (t, s'))
    × (t.accepted ≡ t.received ++ left)
    × (length left ≤ size)
fifo_prefix_example = fifo_prefix 3 script (omega arith) (omega arith)

-- The same ring with the value 7 pushed, published and seen.
abbrev pushed : Spsc ℕ
pushed = (push-Refines four empty_queue 7 four-Refines).0

abbrev pushed_queue : Queue ℕ
pushed_queue = record empty_queue { pending = 7 ∷ [] }

pushed-Refines : Refines pushed pushed_queue
pushed-Refines = (push-Refines four empty_queue 7 four-Refines).2

abbrev published_queue : Queue ℕ
published_queue = record empty_queue { hidden = 7 ∷ [] }

published-Refines : Refines (Producer.flush pushed) published_queue
published-Refines = flush-Refines pushed pushed_queue pushed-Refines

abbrev seen : Spsc ℕ
seen = (Consumer.prefetch (Producer.flush pushed)).1

abbrev seen_queue : Queue ℕ
seen_queue = record empty_queue { window = 7 ∷ [] }

seen-Refines : Refines seen seen_queue
seen-Refines = (prefetch-Refines (Producer.flush pushed) published_queue published-Refines).1

push-Refines_example : Does (Producer.push pushed 8) (Queue.push pushed_queue 8)
push-Refines_example = push-Refines pushed pushed_queue 8 pushed-Refines

pop-Refines_example : Does (Consumer.pop seen) (Queue.pop seen_queue)
pop-Refines_example = pop-Refines seen seen_queue seen-Refines

prefetch-Refines_example :
    ((Consumer.prefetch (Producer.flush pushed)).0 ≡ 1)
    × Refines (Consumer.prefetch (Producer.flush pushed)).1 seen_queue
prefetch-Refines_example =
    prefetch-Refines (Producer.flush pushed) published_queue published-Refines

pop_into-Refines_example :
    (s : Spsc ℕ) × (Consumer.pop_into seen (5 ∷ []) 3 ≡ done (1, s, 5 ∷ 7 ∷ []))
    × Refines s (Queue.pop_many seen_queue 1).1
pop_into-Refines_example = pop_into-Refines seen seen_queue (5 ∷ []) 3 seen-Refines

-- `admit` counts its calls and accepts values below 7.
abbrev small_only : ℕ → ℕ → ℕ × Bool
small_only calls x = (calls + 1, ltb x 7)

pop_into_while-Refines_example :
    (s : Spsc ℕ) × (Consumer.pop_into_while seen (5 ∷ []) 3 small_only 0 ≡ done (0, s, 5 ∷ [], 1))
    × Refines s (Queue.pop_many seen_queue 0).1
pop_into_while-Refines_example =
    pop_into_while-Refines seen seen_queue (5 ∷ []) 3 small_only 0 seen-Refines

flush_and_check-Refines_example :
    (wake : Bool) × ((Producer.flush_and_check pushed).0 ≡ flush_result 1 wake)
    × (published pushed_queue ≡ 0 → wake ≡ true)
    × Refines (Producer.flush_and_check pushed).1 published_queue
flush_and_check-Refines_example = flush_and_check-Refines pushed pushed_queue pushed-Refines

is_full-Refines_example :
    ((Producer.is_full pushed).0 ≡ false) × Refines (Producer.is_full pushed).1 pushed_queue
is_full-Refines_example = is_full-Refines pushed pushed_queue pushed-Refines

release_with_full-Refines_example :
    Refines (Consumer.release_with_full seen).1 seen_queue
    × (seen_queue.unreleased ≡ 0 → (Consumer.release_with_full seen).0 ≡ false)
    × (0 < seen_queue.unreleased
        → seen_queue.unreleased + 1 ≡ 4
        → (Consumer.release_with_full seen).0 ≡ true)
release_with_full-Refines_example = release_with_full-Refines seen seen_queue seen-Refines

len-visible_example : (Consumer.len seen ≡ 1) × (Consumer.is_disconnected seen ≡ false)
len-visible_example = len-visible seen seen_queue seen-Refines

is_empty-Refines_example :
    ((Consumer.is_empty seen).0 ≡ false) × Refines (Consumer.is_empty seen).1 seen_queue
is_empty-Refines_example = is_empty-Refines seen seen_queue seen-Refines

prefetch_and_pop-Refines_example :
    Does
      (Consumer.prefetch_and_pop (Producer.flush pushed))
      (some 7, record seen_queue { window = [] })
prefetch_and_pop-Refines_example =
    prefetch_and_pop-Refines (Producer.flush pushed) published_queue published-Refines

spsc-Refines_example :
    (size : ℕ) × (s : Spsc ℕ) × (Producer.spsc 5 ≡ some s)
    × Refines s (Queue.new size)
    × (5 ≤ size)
    × (size < 10)
spsc-Refines_example = spsc-Refines 5 (omega arith) (omega arith)

spsc_refuses_example : Producer.spsc {A = ℕ} 0 ≡ none
spsc_refuses_example = spsc_refuses 0 (inl refl)
