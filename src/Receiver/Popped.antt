-- ===== src/Receiver/Popped.antt =====
-- Pops of a lane's fast window, and what they and a notification leave of the receiver.
use fanring_rs.Base.{
  ap₂, ◌||◌, ℕ, suc, ◌≡◌, refl, sym, ap, ◌∙◌, arith, Option, none, some, ◌==◌, if◌then◌else◌,
  Bool-cases, inl, inr, done, ◌>>=◌, >>=-eq-done, done-inj, Ensures, ==→eq, wrapping_sub,
}
use mathlib.Core.Path.{subst}
use fanring_rs.Lane.Defs.{Lane}
use fanring_rs.Lane.Defs
use fanring_rs.Lane.Window.{grant_fast-LaneOk}
use fanring_rs.Lane.Take.{pop_fast-LaneOk, pop_fast-shut}
use fanring_rs.Registry.Defs.{LaneKey}
use fanring_rs.Receiver.Defs.{
  Receiver, Keyed, lane_at, put_lane, current, notify_released, notify_space,
}
use fanring_rs.Receiver.Rotation.{AllSound, Sound, lane_at-some}
use fanring_rs.Receiver.Adopt.{ReceiverOk}
use fanring_rs.Receiver.Sound.{expect_pop-frame}
use fanring_rs.Receiver.Kept.{current_lem, put_lane-ReceiverOk}
use fanring_rs.Receiver.Weight.{busy, weight, put_lane-weight}

module _ {ℓ} {A : Type ℓ} where
  -- A pop of the fast window, open or not.
  abbrev pub PoppedOk : Lane A → Option A × Lane A → Type ℓ
  PoppedOk l (v, m) = Sound m × (m.queued ≡ l.queued) × (m.pending ≡ l.pending)

  pop_fast-flags :
      (l : Lane A) (v : Option A) (m : Lane A)
      → Defs.pop_fast l ≡ done (v, m)
      → (m.queued ≡ l.queued) × (m.pending ≡ l.pending)
  unfolding Defs.pop_fast
  pop_fast-flags l v m e = elim (Bool-cases (l.fast_left == 0)) [
    | inl shut ↦
        let f : done (none, l) ≡ done (v, m) = rw shut at e in
        (ap (λ p. p.1.queued) (sym (done-inj f)), ap (λ p. p.1.pending) (sym (done-inj f)))
    | inr some_left ↦
        let opened : Lane A = record l { fast_left = wrapping_sub l.fast_left 1 } in
        let f : (Defs.expect_pop opened >>= λ (x, n). done (some x, n)) ≡ done (v, m) =
          rw some_left at e in
        let ((x, n), g, h) = >>=-eq-done (Defs.expect_pop opened) (λ (x, n). done (some x, n)) f in
        let frame = expect_pop-frame opened x n g in
        (
          ap (λ p. p.1.queued) (sym (done-inj h)) ∙ ap (λ o. o.queued) frame,
          ap (λ p. p.1.pending) (sym (done-inj h)) ∙ ap (λ o. o.pending) frame,
        )
  ]

  pub pop_fast-Sound : (l : Lane A) → Sound l → Ensures (Defs.pop_fast l) (PoppedOk l)
  pop_fast-Sound l (q, v, b) = elim (Bool-cases (l.fast_left == 0)) [
    | inl shut ↦
        subst (λ a. Ensures a (PoppedOk l)) (sym (pop_fast-shut l (==→eq l.fast_left 0 shut)))
          ((q, v, b), refl, refl)
    | inr some_left ↦
        let (x, xs, m, w, f, v', less, same) = pop_fast-LaneOk l q v (ground arith) in
        let (queued, pending) = pop_fast-flags l (some x) m f in
        subst (λ a. Ensures a (PoppedOk l)) (sym f) ((_, v', omega arith), queued, pending)
  ]

  pub grant_fast-Sound : (l : Lane A) (budget : ℕ) → Sound l → Sound (Defs.grant_fast l budget)
  grant_fast-Sound l budget (q, v, b) =
      let g = grant_fast-LaneOk l q budget v in (_, g.0, omega arith)

  -- A lane that keeps its flags keeps its weight.
  pub same_flags-weight :
      (r : Receiver A) (slot : ℕ) (k : Keyed A) (l : Lane A)
      → lane_at r.lanes slot ≡ some k
      → l.queued ≡ k.lane.queued
      → l.pending ≡ k.lane.pending
      → weight (put_lane slot (some (record k { lane = l })) r) ≡ weight r
  same_flags-weight r slot k l e queued pending =
      let same : busy l ≡ busy k.lane = ap₂ (λ a b. if a || b then 1 else 0) queued pending in
      omega (
        arith,
        put_lane-weight r slot k (some (record k { lane = l })) e (lane_at-some r.lanes slot k e),
        same,
      )

  pub notify_released-ReceiverOk :
      (key : Option LaneKey) (r : Receiver A) → ReceiverOk r → ReceiverOk (notify_released key r)
  unfolding notify_released notify_space
  notify_released-ReceiverOk none r v = v
  notify_released-ReceiverOk (some key) r v = by_lane (current r key) refl
    where
      by_lane :
          (o : Option (Keyed A))
          → current r key ≡ o
          → ReceiverOk (elim o [
            | none ↦ r
            | some k ↦ put_lane key.slot (some (record k { spaces = suc k.spaces })) r
          ])
      by_lane none e = v
      by_lane (some k) e =
          let (here, same) = current_lem r key k e in
          put_lane-ReceiverOk r key.slot k (record k { spaces = suc k.spaces }) v here refl refl
            (subst AllSound here (v.0.sound key.slot))
