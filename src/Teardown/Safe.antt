-- ===== src/Teardown/Safe.antt =====
-- No value is left behind, and none is destroyed twice.
use fanring_rs.Base.{
  ◌≡◌, refl, sym, ap, ◌∙◌, [], ◌∷◌, ◌++◌, append-nil, append_assoc, ◌⊎◌, inl, inr, Bool-cases,
}
use mathlib.Core.Path.{subst}
use fanring_rs.Yring.Queue
use fanring_rs.Yring.Queue.{Queue, contents}
use fanring_rs.Teardown.Handoff.{System, Sender, Receiver, Step, Reach, drop_published}
use fanring_rs.Teardown.Clean.{
  Ok, begin-Ok, push-Ok, refuse-Ok, flush-Ok, end_send-Ok, take_over-Ok, discard_late-Ok, drain-Ok,
  store-Ok, announce-Ok, reclaim-Ok,
}

-- Every accepted value is destroyed once or still in the ring, in the order of the pushes.
abbrev Balanced {ℓ} : {A : Type ℓ} → System A → Type ℓ
Balanced s = s.accepted ≡ s.destroyed ++ contents s.queue

abbrev OkAt {ℓ} : {A : Type ℓ} → System A → Type ℓ
OkAt s = Ok s.receiver s.sender s.cleanup s.queue × Balanced s

module _ {ℓ} {A : Type ℓ} where
  drop-Balanced : (s : System A) → Balanced s → Balanced (drop_published s)
  drop-Balanced s b = b ∙ simp append_assoc

  push-Balanced :
      (s : System A) (x : A)
      → Balanced s
      → s.accepted ++ (x ∷ [])
        ≡ s.destroyed ++ (s.queue.window ++ (s.queue.hidden ++ (s.queue.pending ++ (x ∷ []))))
  push-Balanced s x b = ap (λ l. l ++ (x ∷ [])) b ∙ simp append_assoc

  flush-Balanced : (s : System A) → Balanced s → Balanced (record s { queue = Queue.flush s.queue })
  flush-Balanced s b = b ∙ simp append-nil

  sent :
      (s : System A) (sd : Sender)
      → s.sender ≡ sd
      → Ok s.receiver s.sender s.cleanup s.queue
      → Ok s.receiver sd s.cleanup s.queue
  sent s sd e v = subst (λ t. Ok s.receiver t s.cleanup s.queue) e v

  received :
      (s : System A) (r : Receiver)
      → s.receiver ≡ r
      → Ok s.receiver s.sender s.cleanup s.queue
      → Ok r s.sender s.cleanup s.queue
  received s r e v = subst (λ t. Ok t s.sender s.cleanup s.queue) e v

  step-Ok : (s t : System A) → Step s t → OkAt s → OkAt t
  step-Ok _ _ (Step.begin s e a c) (v, b) =
      (begin-Ok s.queue s.cleanup s.receiver (sent s _ e v) c, b)
  step-Ok _ _ (Step.push s x e room) (v, b) =
      (push-Ok s.queue s.cleanup s.receiver x (sent s _ e v), push-Balanced s x b)
  step-Ok _ _ (Step.refuse s e full) (v, b) =
      (refuse-Ok s.queue s.cleanup s.receiver (sent s _ e v), b)
  step-Ok _ _ (Step.flush s e) (v, b) =
      (flush-Ok s.queue s.cleanup s.receiver (sent s _ e v), flush-Balanced s b)
  step-Ok _ _ (Step.end_send s e) (v, b) =
      (end_send-Ok s.queue s.cleanup s.receiver (sent s _ e v), b)
  step-Ok _ _ (Step.take_over s e free) (v, b) =
      (take_over-Ok s.queue s.cleanup s.receiver (sent s _ e v), b)
  step-Ok _ _ (Step.discard_late s e) (v, b) =
      (discard_late-Ok s.queue s.cleanup s.receiver (sent s _ e v), drop-Balanced s b)
  step-Ok _ _ (Step.drain s e) (v, b) =
      (drain-Ok s.queue s.cleanup s.sender (received s _ e v), drop-Balanced s b)
  step-Ok _ _ (Step.store s e) (v, b) = (store-Ok s.queue s.cleanup s.sender (received s _ e v), b)
  step-Ok _ _ (Step.announce s e) (v, b) =
      (announce-Ok s.queue s.cleanup s.sender (received s _ e v), b)
  step-Ok _ _ (Step.reclaim s e) (v, b) =
      (reclaim-Ok s.queue s.cleanup s.sender (received s _ e v), drop-Balanced s b)

  reach-Ok : (q : Queue A) (s : System A) → q.pending ≡ [] → Reach q s → OkAt s
  reach-Ok q _ e Reach.here = (
    record {
      active_ok = refl;
      closed_ok = refl;
      locked_ok = refl;
      slot_ok = refl;
      allowed = tt;
      flushed = e;
      gone = tt;
    },
    refl,
  )
  reach-Ok q _ e (Reach.step {s} {t} past now) = step-Ok s t now (reach-Ok q s e past)

  -- However the sends of a sender and the teardown of its receiver interleave, once the receiver is
  -- done and the sender is outside a send, every accepted value has been destroyed, exactly once and
  -- in order, and the ring is empty. Before the teardown all pushes are published.
  pub teardown-destroys :
      (q : Queue A) (s : System A)
      → q.pending ≡ []
      → Reach q s
      → s.receiver ≡ Receiver.done_
      → s.sender ≡ Sender.idle
      → (s.destroyed ≡ s.accepted) × (contents s.queue ≡ [])
  teardown-destroys q s e past r_done sd_idle =
      let (v, b) = reach-Ok q s e past in
      let v' : Ok Receiver.done_ Sender.idle s.cleanup s.queue =
        subst (λ r. Ok r Sender.idle s.cleanup s.queue) r_done (sent s _ sd_idle v) in
      (sym (b ∙ ap (λ l. s.destroyed ++ l) v'.gone ∙ append-nil s.destroyed), v'.gone)

  next_send :
      (s : System A) (x : A) (sd : Sender)
      → s.sender ≡ sd
      → s.receiver ≡ Receiver.done_
      → Ok Receiver.done_ sd s.cleanup s.queue
      → ((s.receiver ≡ Receiver.done_) × (s.sender ≡ Sender.idle)) ⊎ ((t : System A) × Step s t)
  next_send s x Sender.idle e d v = inl (d, e)
  next_send s x Sender.begun e d v = elim (Bool-cases (Queue.is_full s.queue)) [
    | inl full ↦ inr (_, Step.refuse s e full)
    | inr room ↦ inr (_, Step.push s x e room)
  ]
  next_send s x Sender.pushed e d v = inr (_, Step.flush s e)
  next_send s x Sender.ending e d v = inr (_, Step.end_send s e)
  next_send s x Sender.saw_closed e d v = inr (_, Step.take_over s e v.locked_ok)
  next_send s x Sender.discarding e d v = inr (_, Step.discard_late s e)

  next_step :
      (s : System A) (x : A) (r : Receiver)
      → s.receiver ≡ r
      → Ok s.receiver s.sender s.cleanup s.queue
      → ((s.receiver ≡ Receiver.done_) × (s.sender ≡ Sender.idle)) ⊎ ((t : System A) × Step s t)
  next_step s x Receiver.open_ e v = inr (_, Step.drain s e)
  next_step s x Receiver.drained e v = inr (_, Step.store s e)
  next_step s x Receiver.stored e v = inr (_, Step.announce s e)
  next_step s x Receiver.reclaiming e v = inr (_, Step.reclaim s e)
  next_step s x Receiver.done_ e v = next_send s x s.sender refl e (received s _ e v)

  -- The handoff does not get stuck: as long as the receiver is not done or the sender is inside a
  -- send of a value `x`, one of them can take a step.
  pub teardown-Progress :
      (q : Queue A) (s : System A) (x : A)
      → q.pending ≡ []
      → Reach q s
      → ((s.receiver ≡ Receiver.done_) × (s.sender ≡ Sender.idle)) ⊎ ((t : System A) × Step s t)
  teardown-Progress q s x e past =
      let (v, b) = reach-Ok q s e past in next_step s x s.receiver refl v
