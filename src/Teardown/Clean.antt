-- ===== src/Teardown/Clean.antt =====
-- What holds of the flags, the slot and the queue at every place of the two sides, and that each step
-- keeps it.
use fanring_rs.Base.{◌≡◌, refl, sym, ◌∙◌, Bool, true, false, ◌≢◌, ◌&&◌, List, [], ◌∷◌, ◌++◌}
use fanring_rs.Yring.Queue
use fanring_rs.Yring.Queue.{Queue, contents}
use fanring_rs.Teardown.Discard.{discarded}
use fanring_rs.Teardown.Handoff.{Sender, Receiver, Cleanup, after_guard, after_take, after_announce}

-- The sender holds ACTIVE.
abbrev sending : Sender → Bool
sending Sender.begun = true
sending Sender.pushed = true
sending Sender.ending = true
sending _ = false

-- Only between the push and the flush is a value pending.
abbrev FlushedAt {ℓ} : {A : Type ℓ} → Sender → List A → Type ℓ
FlushedAt Sender.pushed pending = Unit
FlushedAt _ pending = pending ≡ []

abbrev closed_at : Receiver → Bool
closed_at Receiver.reclaiming = true
closed_at Receiver.done_ = true
closed_at _ = false

abbrev locked_at : Receiver → Bool
locked_at Receiver.stored = true
locked_at _ = false

-- Once the receiver is done, a sender that may still publish finds the consumer in the slot.
abbrev late_slot : Sender → Bool
late_slot Sender.idle = false
late_slot Sender.discarding = false
late_slot _ = true

abbrev slot_at : Receiver → Sender → Bool
slot_at Receiver.stored sd = true
slot_at Receiver.done_ sd = late_slot sd
slot_at _ sd = false

-- Where the sender can be.
abbrev Allowed : Receiver → Sender → Type 0
Allowed Receiver.done_ sd = Unit {0}
Allowed Receiver.reclaiming Sender.idle = Unit {0}
Allowed Receiver.reclaiming _ = ⊥
Allowed _ Sender.saw_closed = ⊥
Allowed _ Sender.discarding = ⊥
Allowed _ _ = Unit {0}

-- With both done nothing is left.
abbrev GoneAt {ℓ} : {A : Type ℓ} → Receiver → Sender → Queue A → Type ℓ
GoneAt Receiver.done_ Sender.idle q = contents q ≡ []
GoneAt _ _ q = Unit

pub record Ok {ℓ} {A : Type ℓ} (r : Receiver) (sd : Sender) (c : Cleanup) (q : Queue A)
    : Type ℓ where
  pub active_ok : c.active ≡ sending sd
  pub closed_ok : c.closed ≡ closed_at r
  pub locked_ok : c.locked ≡ locked_at r
  pub slot_ok : c.slot ≡ slot_at r sd
  pub allowed : Allowed r sd
  pub flushed : FlushedAt sd q.pending
  pub gone : GoneAt r sd q

false≢true : false ≢ true
false≢true e = cc

module _ {ℓ} {A : Type ℓ} (q : Queue A) (c : Cleanup) where
  pub begin-Ok :
      (r : Receiver)
      → Ok r Sender.idle c q
      → c.closed ≡ false
      → Ok r Sender.begun (record c { active = true }) q
  begin-Ok Receiver.open_ v h = record {
    active_ok = refl;
    closed_ok = v.closed_ok;
    locked_ok = v.locked_ok;
    slot_ok = v.slot_ok;
    allowed = tt;
    flushed = v.flushed;
    gone = tt;
  }
  begin-Ok Receiver.drained v h = record {
    active_ok = refl;
    closed_ok = v.closed_ok;
    locked_ok = v.locked_ok;
    slot_ok = v.slot_ok;
    allowed = tt;
    flushed = v.flushed;
    gone = tt;
  }
  begin-Ok Receiver.stored v h = record {
    active_ok = refl;
    closed_ok = v.closed_ok;
    locked_ok = v.locked_ok;
    slot_ok = v.slot_ok;
    allowed = tt;
    flushed = v.flushed;
    gone = tt;
  }
  begin-Ok Receiver.reclaiming v h = absurd (false≢true (sym h ∙ v.closed_ok))
  begin-Ok Receiver.done_ v h = absurd (false≢true (sym h ∙ v.closed_ok))

  pub push-Ok :
      (r : Receiver) (x : A)
      → Ok r Sender.begun c q
      → Ok r Sender.pushed c (record q { pending = q.pending ++ (x ∷ []) })
  push-Ok Receiver.open_ x v = record {
    active_ok = v.active_ok;
    closed_ok = v.closed_ok;
    locked_ok = v.locked_ok;
    slot_ok = v.slot_ok;
    allowed = tt;
    flushed = tt;
    gone = tt;
  }
  push-Ok Receiver.drained x v = record {
    active_ok = v.active_ok;
    closed_ok = v.closed_ok;
    locked_ok = v.locked_ok;
    slot_ok = v.slot_ok;
    allowed = tt;
    flushed = tt;
    gone = tt;
  }
  push-Ok Receiver.stored x v = record {
    active_ok = v.active_ok;
    closed_ok = v.closed_ok;
    locked_ok = v.locked_ok;
    slot_ok = v.slot_ok;
    allowed = tt;
    flushed = tt;
    gone = tt;
  }
  push-Ok Receiver.reclaiming x v = absurd v.allowed
  push-Ok Receiver.done_ x v = record {
    active_ok = v.active_ok;
    closed_ok = v.closed_ok;
    locked_ok = v.locked_ok;
    slot_ok = v.slot_ok;
    allowed = tt;
    flushed = tt;
    gone = tt;
  }

  pub refuse-Ok : (r : Receiver) → Ok r Sender.begun c q → Ok r Sender.ending c q
  refuse-Ok Receiver.open_ v = record {
    active_ok = v.active_ok;
    closed_ok = v.closed_ok;
    locked_ok = v.locked_ok;
    slot_ok = v.slot_ok;
    allowed = tt;
    flushed = v.flushed;
    gone = tt;
  }
  refuse-Ok Receiver.drained v = record {
    active_ok = v.active_ok;
    closed_ok = v.closed_ok;
    locked_ok = v.locked_ok;
    slot_ok = v.slot_ok;
    allowed = tt;
    flushed = v.flushed;
    gone = tt;
  }
  refuse-Ok Receiver.stored v = record {
    active_ok = v.active_ok;
    closed_ok = v.closed_ok;
    locked_ok = v.locked_ok;
    slot_ok = v.slot_ok;
    allowed = tt;
    flushed = v.flushed;
    gone = tt;
  }
  refuse-Ok Receiver.reclaiming v = absurd v.allowed
  refuse-Ok Receiver.done_ v = record {
    active_ok = v.active_ok;
    closed_ok = v.closed_ok;
    locked_ok = v.locked_ok;
    slot_ok = v.slot_ok;
    allowed = tt;
    flushed = v.flushed;
    gone = tt;
  }

  pub flush-Ok : (r : Receiver) → Ok r Sender.pushed c q → Ok r Sender.ending c (Queue.flush q)
  flush-Ok Receiver.open_ v = record {
    active_ok = v.active_ok;
    closed_ok = v.closed_ok;
    locked_ok = v.locked_ok;
    slot_ok = v.slot_ok;
    allowed = tt;
    flushed = refl;
    gone = tt;
  }
  flush-Ok Receiver.drained v = record {
    active_ok = v.active_ok;
    closed_ok = v.closed_ok;
    locked_ok = v.locked_ok;
    slot_ok = v.slot_ok;
    allowed = tt;
    flushed = refl;
    gone = tt;
  }
  flush-Ok Receiver.stored v = record {
    active_ok = v.active_ok;
    closed_ok = v.closed_ok;
    locked_ok = v.locked_ok;
    slot_ok = v.slot_ok;
    allowed = tt;
    flushed = refl;
    gone = tt;
  }
  flush-Ok Receiver.reclaiming v = absurd v.allowed
  flush-Ok Receiver.done_ v = record {
    active_ok = v.active_ok;
    closed_ok = v.closed_ok;
    locked_ok = v.locked_ok;
    slot_ok = v.slot_ok;
    allowed = tt;
    flushed = refl;
    gone = tt;
  }

  -- The guard's end: with CLOSED set the sender goes on to the slot.
  pub end_send-Ok :
      (r : Receiver)
      → Ok r Sender.ending c q
      → Ok r (after_guard c.closed) (record c { active = false }) q
  end_send-Ok Receiver.open_ v = rw v.closed_ok record {
    active_ok = refl;
    closed_ok = refl;
    locked_ok = v.locked_ok;
    slot_ok = v.slot_ok;
    allowed = tt;
    flushed = v.flushed;
    gone = tt;
  }
  end_send-Ok Receiver.drained v = rw v.closed_ok record {
    active_ok = refl;
    closed_ok = refl;
    locked_ok = v.locked_ok;
    slot_ok = v.slot_ok;
    allowed = tt;
    flushed = v.flushed;
    gone = tt;
  }
  end_send-Ok Receiver.stored v = rw v.closed_ok record {
    active_ok = refl;
    closed_ok = refl;
    locked_ok = v.locked_ok;
    slot_ok = v.slot_ok;
    allowed = tt;
    flushed = v.flushed;
    gone = tt;
  }
  end_send-Ok Receiver.reclaiming v = absurd v.allowed
  end_send-Ok Receiver.done_ v = rw v.closed_ok record {
    active_ok = refl;
    closed_ok = refl;
    locked_ok = v.locked_ok;
    slot_ok = v.slot_ok;
    allowed = tt;
    flushed = v.flushed;
    gone = tt;
  }

  pub take_over-Ok :
      (r : Receiver)
      → Ok r Sender.saw_closed c q
      → Ok r (after_take c.slot) (record c { slot = false }) q
  take_over-Ok Receiver.open_ v = absurd v.allowed
  take_over-Ok Receiver.drained v = absurd v.allowed
  take_over-Ok Receiver.stored v = absurd v.allowed
  take_over-Ok Receiver.reclaiming v = absurd v.allowed
  take_over-Ok Receiver.done_ v = rw v.slot_ok record {
    active_ok = v.active_ok;
    closed_ok = v.closed_ok;
    locked_ok = v.locked_ok;
    slot_ok = refl;
    allowed = tt;
    flushed = v.flushed;
    gone = tt;
  }

  pub discard_late-Ok :
      (r : Receiver) → Ok r Sender.discarding c q → Ok r Sender.idle c (discarded q)
  discard_late-Ok Receiver.open_ v = absurd v.allowed
  discard_late-Ok Receiver.drained v = absurd v.allowed
  discard_late-Ok Receiver.stored v = absurd v.allowed
  discard_late-Ok Receiver.reclaiming v = absurd v.allowed
  discard_late-Ok Receiver.done_ v = record {
    active_ok = v.active_ok;
    closed_ok = v.closed_ok;
    locked_ok = v.locked_ok;
    slot_ok = v.slot_ok;
    allowed = tt;
    flushed = v.flushed;
    gone = v.flushed;
  }

  pub drain-Ok : (sd : Sender) → Ok Receiver.open_ sd c q → Ok Receiver.drained sd c (discarded q)
  drain-Ok sd v = record {
    active_ok = v.active_ok;
    closed_ok = v.closed_ok;
    locked_ok = v.locked_ok;
    slot_ok = v.slot_ok;
    allowed = v.allowed;
    flushed = v.flushed;
    gone = tt;
  }

  pub store-Ok :
      (sd : Sender)
      → Ok Receiver.drained sd c q
      → Ok Receiver.stored sd (record c { slot = true; locked = true }) q
  store-Ok sd v = record {
    active_ok = v.active_ok;
    closed_ok = v.closed_ok;
    locked_ok = refl;
    slot_ok = refl;
    allowed = v.allowed;
    flushed = v.flushed;
    gone = tt;
  }

  -- With a send active the consumer stays in the slot for it.
  pub announce-Ok :
      (sd : Sender)
      → Ok Receiver.stored sd c q
      → Ok
          (after_announce c.active)
          sd
          (record c { closed = true; slot = c.slot && c.active; locked = false })
          q
  announce-Ok Sender.idle v =
      rw (v.active_ok, v.slot_ok)
        record {
          active_ok = refl;
          closed_ok = refl;
          locked_ok = refl;
          slot_ok = refl;
          allowed = tt;
          flushed = v.flushed;
          gone = tt;
        }
  announce-Ok Sender.begun v =
      rw (v.active_ok, v.slot_ok)
        record {
          active_ok = refl;
          closed_ok = refl;
          locked_ok = refl;
          slot_ok = refl;
          allowed = tt;
          flushed = v.flushed;
          gone = tt;
        }
  announce-Ok Sender.pushed v =
      rw (v.active_ok, v.slot_ok)
        record {
          active_ok = refl;
          closed_ok = refl;
          locked_ok = refl;
          slot_ok = refl;
          allowed = tt;
          flushed = v.flushed;
          gone = tt;
        }
  announce-Ok Sender.ending v =
      rw (v.active_ok, v.slot_ok)
        record {
          active_ok = refl;
          closed_ok = refl;
          locked_ok = refl;
          slot_ok = refl;
          allowed = tt;
          flushed = v.flushed;
          gone = tt;
        }
  announce-Ok Sender.saw_closed v = absurd v.allowed
  announce-Ok Sender.discarding v = absurd v.allowed

  pub reclaim-Ok :
      (sd : Sender) → Ok Receiver.reclaiming sd c q → Ok Receiver.done_ sd c (discarded q)
  reclaim-Ok Sender.idle v = record {
    active_ok = v.active_ok;
    closed_ok = v.closed_ok;
    locked_ok = v.locked_ok;
    slot_ok = v.slot_ok;
    allowed = tt;
    flushed = v.flushed;
    gone = v.flushed;
  }
  reclaim-Ok Sender.begun v = absurd v.allowed
  reclaim-Ok Sender.pushed v = absurd v.allowed
  reclaim-Ok Sender.ending v = absurd v.allowed
  reclaim-Ok Sender.saw_closed v = absurd v.allowed
  reclaim-Ok Sender.discarding v = absurd v.allowed
