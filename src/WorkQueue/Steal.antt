-- ===== src/WorkQueue/Steal.antt =====
-- What steals and drains do to the values, and when a batch fits.
use fanring_rs.Base.{
  ℕ, zero, suc, ◌+◌, ◌/◌, min, ◌≤◌, ◌<◌, ◌≡◌, refl, sym, ap, ap₂, ◌∙◌, Bool, true, false, not,
  Option, none, some, List, [], ◌∷◌, ◌++◌, append-nil, append_assoc, arith, length, length-append,
  length-take, take, drop, leb, ◌==◌, Bool-cases, leb-false→lt, inl, inr, Access, done, fault,
  ◌>>=◌,
}
use mathlib.Core.Path.{subst}
use fanring_rs.WorkQueue.Defs.{WorkQueue}
use fanring_rs.WorkQueue.Defs

-- `n` more values fit.
abbrev pub Fits {ℓ} : {A : Type ℓ} → Option ℕ → List A → ℕ → Type 0
Fits none values n = Unit {0}
Fits (some capacity) values n = length values + n ≤ capacity

abbrev pub with_values {ℓ} : {A : Type ℓ} → WorkQueue A → List A → WorkQueue A
with_values w values = record w { values = values }

module _ {ℓ} {A : Type ℓ} where
  not_full :
      (capacity : Option ℕ) (values : List A) (n : ℕ)
      → Fits capacity values (suc n)
      → (Defs.at_capacity capacity (length values) ≡ false)
  not_full none values n h = refl
  not_full (some capacity) values n h = ground arith

  Fits-next :
      (capacity : Option ℕ) (values : List A) (v : A) (n : ℕ)
      → Fits capacity values (suc n)
      → Fits capacity (values ++ (v ∷ [])) n
  Fits-next none values v n h = tt
  Fits-next (some capacity) values v n h = omega (arith, length-append values (v ∷ []))

  -- A batch that fits is appended in order; the `unreachable!` is not reached.
  pub push_batch-Fits :
      (w : WorkQueue A) (batch : List A)
      → Fits w.capacity w.values (length batch)
      → Defs.push_batch w batch ≡ done (with_values w (w.values ++ batch))
  unfolding Defs.push_batch
  push_batch-Fits w [] h = ap (λ l. done (with_values w l)) (sym (append-nil w.values))
  push_batch-Fits w (v ∷ vs) h =
      let room = not_full w.capacity w.values (length vs) h in
      rw room (
        push_batch-Fits (with_values w (w.values ++ (v ∷ []))) vs
          (Fits-next w.capacity w.values v (length vs) h)
        ∙ ap (λ l. done (with_values w l)) (append_assoc w.values (v ∷ []) vs))

  pop_slots-take :
      (n : ℕ) (w : WorkQueue A) (values : List A)
      → n ≤ length values
      → let r = Defs.pop_slots n (with_values w values) in
        (Defs.flatten r.0 ≡ take n values) × (r.1 ≡ with_values w (drop n values))
  unfolding Defs.pop_slots Defs.pop
  pop_slots-take zero w values h = (refl, refl)
  pop_slots-take (suc n) w [] h = absurd (omega arith)
  pop_slots-take (suc n) w (v ∷ vs) h =
      let (e, e') = pop_slots-take n w vs (omega arith) in (ap (λ l. v ∷ l) e, e')

  -- The number of values that move besides the one that is handed over: half of what is left,
  -- rounded up, but at most seven.
  abbrev pub moved : List A → ℕ
  moved rest = min ((length rest + 1) / 2) 7

  steal-cons :
      (source : WorkQueue A) (x : A) (rest : List A)
      → source.values ≡ x ∷ rest
      → Defs.steal source
        ≡ (some (x, take (moved rest) rest), with_values source (drop (moved rest) rest))
  unfolding Defs.steal Defs.pop
  steal-cons source x rest e =
      let (f, f') = pop_slots-take (moved rest) source rest (omega arith) in
      rw e (ap₂ (λ stolen left. (some (x, stolen), left)) f f')

  -- A steal hands over the oldest value and moves the next ones, in order, to the thief; nothing is
  -- lost or doubled, and the rest stays where it was.
  pub steal_batch_into-Fits :
      (source destination : WorkQueue A) (x : A) (rest : List A)
      → source.values ≡ x ∷ rest
      → Fits destination.capacity destination.values (moved rest)
      → Defs.steal_batch_into source destination
        ≡ done (
          some x,
          with_values source (drop (moved rest) rest),
          with_values destination (destination.values ++ take (moved rest) rest),
        )
  unfolding Defs.steal_batch_into Defs.deliver
  steal_batch_into-Fits source destination x rest e h =
      let count : length (take (moved rest) rest) ≡ moved rest =
        omega (arith, length-take (moved rest) rest) in
      let fits : Fits destination.capacity destination.values (length (take (moved rest) rest)) =
        subst (Fits destination.capacity destination.values) (sym count) h in
      rw (steal-cons source x rest e) (
        ap
          (λ m.
            (m >>= λ d. done (some x, d)) >>= finish (with_values source (drop (moved rest) rest)))
          (push_batch-Fits destination (take (moved rest) rest) fits))
    where
      finish : WorkQueue A → Option A × WorkQueue A → Access (Option A × WorkQueue A × WorkQueue A)
      finish source' (value, destination') = done (value, source', destination')

  -- Draining moves everything, in order, and says whether there was anything.
  pub drain_into-Fits :
      (source destination : WorkQueue A)
      → Fits destination.capacity destination.values (length source.values)
      → Defs.drain_into source destination
        ≡ done (
          not (length source.values == 0),
          with_values source [],
          with_values destination (destination.values ++ source.values),
        )
  unfolding Defs.drain_into
  drain_into-Fits source destination h =
      ap (λ m. m >>= finish) (push_batch-Fits destination source.values h)
    where
      finish : WorkQueue A → Access (Bool × WorkQueue A × WorkQueue A)
      finish destination' =
          done (not (length source.values == 0), record source { values = [] }, destination')

  -- A batch that does not fit reaches the `unreachable!`.
  pub push_batch-overflow :
      (w : WorkQueue A) (batch : List A) (capacity : ℕ)
      → w.capacity ≡ some capacity
      → capacity < length w.values + length batch
      → length w.values ≤ capacity
      → Defs.push_batch w batch ≡ fault
  unfolding Defs.push_batch
  push_batch-overflow w [] capacity e over le = absurd (omega arith)
  push_batch-overflow w (v ∷ vs) capacity e over le =
      elim (Bool-cases (leb capacity (length w.values))) [
        | inl full ↦
            let c : Defs.at_capacity w.capacity (length w.values) ≡ true = rw e full in rw c refl
        | inr room ↦
            let c : Defs.at_capacity w.capacity (length w.values) ≡ false = rw e room in
            rw c (
              push_batch-overflow (with_values w (w.values ++ (v ∷ []))) vs capacity e
                (omega (arith, length-append w.values (v ∷ [])))
                (omega (arith, length-append w.values (v ∷ []), leb-false→lt _ _ room)))
      ]
