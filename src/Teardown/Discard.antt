-- ===== src/Teardown/Discard.antt =====
-- `discard` of src/ring.rs: a prefetch, then every value of the window is popped and destroyed.
use fanring_rs.Base.{
  ℕ, zero, suc, ◌+◌, ◌≤◌, ◌≡◌, refl, ap, ◌∙◌, Option, none, some, List, [], ◌∷◌, ◌++◌, arith,
  length, length-append, Access, done, fault, ◌>>=◌,
}
use mathlib.Core.Path.{subst}
use fanring_rs.Yring.Types.{Spsc}
use fanring_rs.Yring.Queue
use fanring_rs.Yring.Queue.{Queue}
use fanring_rs.Yring.Ring
use fanring_rs.Yring.Consumer
use fanring_rs.Yring.Sim.{Refines}
use fanring_rs.Yring.Sim.Pop.{pop-Refines, prefetch-Refines}

module _ {ℓ} {A : Type ℓ} where
  -- `while let Some(value) = consumer.pop()`, for at most `fuel` rounds: the values and the ring.
  unfoldable pub pop_all : ℕ → Spsc A → Access (List A × Spsc A)
  pop_all zero s = fault
  pop_all (suc fuel) s = Consumer.pop s >>= λ (val, s'). elim val [
    | none ↦ done ([], s')
    | some v ↦ pop_all fuel s' >>= λ (vs, s''). done (v ∷ vs, s'')
  ]

  -- One round for each slot of the ring, and the last that finds none.
  unfoldable pub discard : Spsc A → Access (List A × Spsc A)
  discard s = pop_all (suc (Ring.capacity s.ring)) (Consumer.prefetch s).1

  -- The queue once everything published is gone. The slots stay taken.
  abbrev pub discarded : Queue A → Queue A
  discarded q = record q {
    window = [];
    hidden = [];
    unreleased = q.unreleased + (length q.window + length q.hidden);
  }

  emptied :
      (q : Queue A) (w : List A)
      → w ≡ []
      → record q { window = w } ≡ record q { window = []; unreleased = q.unreleased + 0 }
  emptied q w e =
      let n : q.unreleased ≡ q.unreleased + 0 = omega arith in
      λ i. record q { window = e i; unreleased = n i }

  abbrev cons : A → List A × Spsc A → Access (List A × Spsc A)
  cons v (vs, s) = done (v ∷ vs, s)

  abbrev after : ℕ → Option A × Spsc A → Access (List A × Spsc A)
  after fuel (val, s) = elim val [ none ↦ done ([], s) | some v ↦ pop_all fuel s >>= cons v ]

  pop_all-window :
      (w : List A) (fuel : ℕ) (s : Spsc A) (q : Queue A)
      → Refines s q
      → q.window ≡ w
      → suc (length w) ≤ fuel
      → (s' : Spsc A) × (pop_all fuel s ≡ done (w, s'))
        × Refines s' (record q { window = []; unreleased = q.unreleased + length w })
  unfolding pop_all
  pop_all-window w zero s q r e le = absurd (omega arith)
  pop_all-window [] (suc fuel) s q r e le =
      let (s', f, r') = pop-Refines s q r in
      let p : Queue.pop q ≡ (none, q) = ap (λ w. Queue.pop_from w q) e in
      let f' : Consumer.pop s ≡ done (none, s') = f ∙ ap (λ m. done (m.0, s')) p in
      let r'' : Refines s' q = rw p at r' in
      (s', ap (λ m. m >>= after fuel) f', subst (Refines s') (emptied q (q.window) e) r'')
  pop_all-window (x ∷ xs) (suc fuel) s q r e le =
      let (s', f, r') = pop-Refines s q r in
      let q' = record q { window = xs; unreleased = suc q.unreleased } in
      let p : Queue.pop q ≡ (some x, q') = ap (λ w. Queue.pop_from w q) e in
      let f' : Consumer.pop s ≡ done (some x, s') = f ∙ ap (λ m. done (m.0, s')) p in
      let r'' : Refines s' q' = rw p at r' in
      let (s'', g, t) = pop_all-window xs fuel s' q' r'' refl (omega arith) in
      let sum : suc q.unreleased + length xs ≡ q.unreleased + suc (length xs) = omega arith in
      (
        s'',
        ap (λ m. m >>= after fuel) f' ∙ ap (λ m. m >>= cons x) g,
        subst (λ (n : ℕ). Refines s'' (record q { window = []; unreleased = n })) sum t,
      )

  -- Discarding destroys every published value, in order, within the rounds given, and frees no slot
  -- for the producer.
  pub discard-Refines :
      (s : Spsc A) (q : Queue A)
      → Refines s q
      → (s' : Spsc A) × (discard s ≡ done (q.window ++ q.hidden, s')) × Refines s' (discarded q)
  unfolding discard
  discard-Refines s q (g, v) =
      let (_, r) = prefetch-Refines s q (g, v) in
      let len = length-append q.window q.hidden in
      let (s', e, r') =
        pop_all-window (q.window ++ q.hidden) (suc (Ring.capacity s.ring)) _ (Queue.prefetch q).1 r
          refl (omega arith) in
      (
        s',
        e,
        subst
            (λ (n : ℕ).
              Refines s' (record q { window = []; hidden = []; unreleased = q.unreleased + n }))
            len r',
      )
