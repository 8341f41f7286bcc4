-- ===== src/Teardown/Tests.antt =====
-- A teardown that overlaps a send, and the properties at it.
use fanring_rs.Base.{ℕ, ◌^◌, ◌≡◌, refl, [], ◌∷◌, arith, ◌⊎◌, done}
use fanring_rs.Yring.Types.{Spsc}
use fanring_rs.Yring.Queue
use fanring_rs.Yring.Queue.{Queue, contents}
use fanring_rs.Yring.Sim.{Refines}
use fanring_rs.Yring.New.{fresh, fresh-Refines}
use fanring_rs.Teardown.Discard.{discard, discarded, discard-Refines}
use fanring_rs.Teardown.Handoff.{System, Sender, Receiver, Step, Reach}
use fanring_rs.Teardown.Safe.{teardown-destroys, teardown-Progress}

abbrev one_published : Queue ℕ
one_published = record (Queue.new 4) { hidden = 7 ∷ [] }

-- The receiver closes between the push and the flush of 8.
overlapped :
    (s : System ℕ) × Reach one_published s
    × (s.receiver ≡ Receiver.done_)
    × (s.sender ≡ Sender.idle)
overlapped = (
  _,
  Reach.step
      (Reach.step
        (Reach.step
          (Reach.step
            (Reach.step
              (Reach.step
                (Reach.step
                  (Reach.step (Reach.step Reach.here (Step.begin _ refl refl refl))
                    (Step.push _ 8 refl refl))
                  (Step.drain _ refl))
                (Step.store _ refl))
              (Step.announce _ refl))
            (Step.flush _ refl))
          (Step.end_send _ refl))
        (Step.take_over _ refl refl))
      (Step.discard_late _ refl),
  refl,
  refl,
)

teardown-destroys_example :
    (overlapped.0.destroyed ≡ overlapped.0.accepted) × (contents overlapped.0.queue ≡ [])
teardown-destroys_example =
    teardown-destroys one_published overlapped.0 refl overlapped.1 overlapped.2 overlapped.3

teardown-Progress_example :
    ((overlapped.0.receiver ≡ Receiver.done_) × (overlapped.0.sender ≡ Sender.idle))
    ⊎ ((t : System ℕ) × Step overlapped.0 t)
teardown-Progress_example = teardown-Progress one_published overlapped.0 9 refl overlapped.1

discard-Refines_example :
    (s : Spsc ℕ) × (discard (fresh (2 ^ 2)) ≡ done ([], s))
    × Refines s (discarded (Queue.new (2 ^ 2)))
discard-Refines_example =
    discard-Refines (fresh (2 ^ 2)) (Queue.new (2 ^ 2)) (fresh-Refines 2 (omega arith))
