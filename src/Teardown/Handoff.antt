-- ===== src/Teardown/Handoff.antt =====
-- `Cleanup` of src/ring.rs with a sender and the receiver's teardown, under `Coordinated`. Each step
-- is one atomic action of the source; the sender and the receiver take them in any order.
use fanring_rs.Base.{◌≡◌, Bool, true, false, ◌&&◌, List, [], ◌∷◌, ◌++◌, if◌then◌else◌}
use fanring_rs.Yring.Queue
use fanring_rs.Yring.Queue.{Queue}
use fanring_rs.Teardown.Discard.{discarded}

-- `state` holds the bits ACTIVE and CLOSED; `slot` says whether the consumer is in the mutex, and
-- `locked` whether `close` holds that mutex.
pub record Cleanup : Type 0 where
  pub active : Bool
  pub closed : Bool
  pub slot : Bool
  pub locked : Bool

-- Where the sender is: outside a send; in `push_and_flush` under the guard, before the push, after
-- it, and with the flush done or the push refused; in the guard's drop, once it saw CLOSED, and with
-- the consumer in hand.
pub data Sender : Type 0 where
  idle : Sender
  begun : Sender
  pushed : Sender
  ending : Sender
  saw_closed : Sender
  discarding : Sender

-- Where the receiver is: open; after the first `discard` of its `close`; in `Cleanup::close` with the
-- consumer in the slot; with the consumer taken back; at the end.
pub data Receiver : Type 0 where
  open_ : Receiver
  drained : Receiver
  stored : Receiver
  reclaiming : Receiver
  done_ : Receiver

-- `accepted` lists the values whose push succeeded, `destroyed` those that a discard dropped.
pub record System {ℓ} (A : Type ℓ) : Type ℓ where
  pub sender : Sender
  pub receiver : Receiver
  pub cleanup : Cleanup
  pub queue : Queue A
  pub accepted : List A
  pub destroyed : List A

-- `SendGuard::drop`: the guard clears ACTIVE and looks at CLOSED.
abbrev pub after_guard : Bool → Sender
after_guard closed = if closed then Sender.saw_closed else Sender.idle

-- The consumer is there for the sender, or not.
abbrev pub after_take : Bool → Sender
after_take slot = if slot then Sender.discarding else Sender.idle

-- `Cleanup::close`: the receiver takes the consumer back unless a send is active.
abbrev pub after_announce : Bool → Receiver
after_announce active = if active then Receiver.done_ else Receiver.reclaiming

module _ {ℓ} {A : Type ℓ} where
  -- `discard`, as `discard-Refines` says it acts on the queue.
  abbrev pub drop_published : System A → System A
  drop_published s = record s {
    queue = discarded s.queue;
    destroyed = s.destroyed ++ (s.queue.window ++ s.queue.hidden);
  }

  pub data Step : System A → System A → Type ℓ where
    begin :
        (s : System A)
        → s.sender ≡ Sender.idle
        → s.cleanup.active ≡ false
        → s.cleanup.closed ≡ false
        → Step s (record s { sender = Sender.begun; cleanup = record s.cleanup { active = true } })
    push :
        (s : System A) (x : A)
        → s.sender ≡ Sender.begun
        → Queue.is_full s.queue ≡ false
        → Step s (record s {
          sender = Sender.pushed;
          queue = record s.queue { pending = s.queue.pending ++ (x ∷ []) };
          accepted = s.accepted ++ (x ∷ []);
        })
    refuse :
        (s : System A)
        → s.sender ≡ Sender.begun
        → Queue.is_full s.queue ≡ true
        → Step s (record s { sender = Sender.ending })
    flush :
        (s : System A)
        → s.sender ≡ Sender.pushed
        → Step s (record s { sender = Sender.ending; queue = Queue.flush s.queue })
    end_send :
        (s : System A)
        → s.sender ≡ Sender.ending
        → Step s (record s {
          sender = after_guard s.cleanup.closed;
          cleanup = record s.cleanup { active = false };
        })
    take_over :
        (s : System A)
        → s.sender ≡ Sender.saw_closed
        → s.cleanup.locked ≡ false
        → Step s (record s {
          sender = after_take s.cleanup.slot;
          cleanup = record s.cleanup { slot = false };
        })
    discard_late :
        (s : System A)
        → s.sender ≡ Sender.discarding
        → Step s (record (drop_published s) { sender = Sender.idle })
    drain :
        (s : System A)
        → s.receiver ≡ Receiver.open_
        → Step s (record (drop_published s) { receiver = Receiver.drained })
    store :
        (s : System A)
        → s.receiver ≡ Receiver.drained
        → Step s (record s {
          receiver = Receiver.stored;
          cleanup = record s.cleanup { slot = true; locked = true };
        })
    -- The exchange of the flag and the look into the slot: the sender waits for the lock between them.
    announce :
        (s : System A)
        → s.receiver ≡ Receiver.stored
        → Step s (record s {
          receiver = after_announce s.cleanup.active;
          cleanup = record s.cleanup {
            closed = true;
            slot = s.cleanup.slot && s.cleanup.active;
            locked = false;
          };
        })
    reclaim :
        (s : System A)
        → s.receiver ≡ Receiver.reclaiming
        → Step s (record (drop_published s) { receiver = Receiver.done_ })

-- The start of a teardown: the sender between two sends, all it pushed published, and some of it
-- already received, so that the rest is in the ring.
abbrev pub start {ℓ} : {A : Type ℓ} → Queue A → System A
start q = record {
  sender = Sender.idle;
  receiver = Receiver.open_;
  cleanup = record { active = false; closed = false; slot = false; locked = false };
  queue = q;
  accepted = Queue.contents q;
  destroyed = [];
}

pub data Reach {ℓ} {A : Type ℓ} (q : Queue A) : System A → Type ℓ where
  here : Reach q (start q)
  step : {s t : System A} → Reach q s → Step s t → Reach q t
