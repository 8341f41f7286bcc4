-- ===== src/Yring/Sim/Bulk.antt =====
-- `pop_into` and `pop_into_while` of a consumer against the queue.
use fanring_rs.Base.{
  ℕ, zero, suc, ◌+◌, ◌≤◌, ◌<◌, min, ◌≡◌, refl, sym, ap, ◌∙◌, Bool, true, false, Option, some, List,
  [], ◌∷◌, ◌++◌, arith, length, get_elem?, take, wrapping_add, ◌==◌, if◌then◌else◌, Bool-cases, inl,
  inr, Access, done, ◌>>=◌, append-nil, length-take, get_elem?-of_take, get_elem?-lt,
}
use fanring_rs.Yring.Types.{Spsc, Ring}
use fanring_rs.Yring.Queue
use fanring_rs.Yring.Queue.{Queue, contents}
use fanring_rs.Yring.Slots.{get_elem?-fill}
use fanring_rs.Yring.Ring
use fanring_rs.Yring.Consumer
use fanring_rs.Yring.Sim.{
  Ghost, Sim, Refines, slots, read_pos, window-length, index-mod, length-slots,
}
use fanring_rs.Yring.Sim.PopInto.{ring_pop_into_lem}

module _ {ℓ} {A : Type ℓ} where
  pop_many-zero : (q : Queue A) → (Queue.pop_many q 0).1 ≡ q
  pop_many-zero q = λ i. record q { unreleased = none_taken i }
    where
      none_taken : q.unreleased + min 0 (length q.window) ≡ q.unreleased
      none_taken = omega arith

  -- A bulk move takes as many values as the window and the limit allow, in order, and answers with
  -- their number.
  pub pop_into-Refines :
      (s : Spsc A) (q : Queue A) (output : List A) (limit : ℕ)
      → Refines s q
      → let n = min (length q.window) limit in
        (s' : Spsc A) × (Consumer.pop_into s output limit ≡ done (n, s', output ++ take n q.window))
        × Refines s' (Queue.pop_many q n).1
  unfolding Consumer.pop_into
  pop_into-Refines s q output limit (g, v) = elim (Bool-cases (min (length q.window) limit == 0)) [
    | inl nothing ↦
        let e : min (length q.window) limit ≡ 0 = ground arith in
        rw (window-length g s q v, e) (s, rw append-nil, rw pop_many-zero (g, v))
    | inr more ↦
        let (s', e, r) =
          ring_pop_into_lem s q (min (length q.window) limit) output (g, v) (omega arith) in
        rw (window-length g s q v, more, e) (s', refl, r)
  ]

abbrev pub accept_one {κ} : {S : Type κ} → Bool → ℕ × S → S → ℕ × S
accept_one true rest st = (suc rest.0, rest.1)
accept_one false rest st = (0, st)

-- The prefix of `xs` that `admit` accepts: its length, and the state of `admit` afterwards.
abbrev pub accepted {ℓ κ} : {A : Type ℓ} {S : Type κ} → (S → A → S × Bool) → S → List A → ℕ × S
accepted admit st [] = (0, st)
accepted admit st (x ∷ xs) =
    accept_one (admit st x).1 (accepted admit (admit st x).0 xs) (admit st x).0

pub accepted-le {ℓ κ} :
    {A : Type ℓ} {S : Type κ} (admit : S → A → S × Bool) (st : S) (xs : List A)
    → (accepted admit st xs).0 ≤ length xs
accepted-le {S = S} admit st [] = omega arith
accepted-le {S = S} admit st (x ∷ xs) =
    go (admit st x).1 (accepted admit (admit st x).0 xs) (accepted-le admit (admit st x).0 xs)
  where
    go :
        (b : Bool) (rest : ℕ × S)
        → rest.0 ≤ length xs
        → (accept_one b rest (admit st x).0).0 ≤ suc (length xs)
    go true rest h = omega arith
    go false rest h = omega arith

-- One round of the loop of `accepted_prefix`.
accept_round {κ} :
    {S : Type κ} (b : Bool) (a : ℕ) (m : Access (ℕ × S)) (rest : ℕ × S) (st : S)
    → m ≡ done (a + 1 + rest.0, rest.1)
    → (elim b as (λ _. Access (ℕ × S)) [ true ↦ m | false ↦ done (a, st) ])
      ≡ done (a + (accept_one b rest st).0, (accept_one b rest st).1)
accept_round true a m rest st ih = ih ∙ ap (λ (t : ℕ). done (t, rest.1)) (omega arith)
accept_round false a m rest st ih = ap (λ (t : ℕ). done (t, st)) (omega arith)

peek_slot-some {ℓ} :
    {A : Type ℓ} (buf : List (Option A)) (i : ℕ) (x : A)
    → get_elem? buf i ≡ some (some x)
    → Ring.peek_slot buf i ≡ done x
peek_slot-some buf i x e = ground arith

module _ {ℓ} {A : Type ℓ} (r : Ring A) (head : ℕ) where
  -- The slots from `head + a` on hold `xs`.
  abbrev Shows : ℕ → List A → Type ℓ
  Shows a xs =
      (i : ℕ) (x : A)
      → get_elem? xs i ≡ some x
      → get_elem? r.buf (Ring.index r (wrapping_add head (a + i))) ≡ some (some x)

  accepted_from_lem {κ} :
      {S : Type κ} (admit : S → A → S × Bool) (xs : List A) (a : ℕ) (st : S)
      → Shows a xs
      → Ring.accepted_from r head admit (length xs) a st
        ≡ done (a + (accepted admit st xs).0, (accepted admit st xs).1)
  unfolding Ring.accepted_from
  accepted_from_lem admit [] a st shows = ap (λ (t : ℕ). done (t, st)) (omega arith)
  accepted_from_lem {S = S} admit (x ∷ xs) a st shows =
      let first : get_elem? r.buf (Ring.index r (wrapping_add head a)) ≡ some (some x) =
        ap (λ (t : ℕ). get_elem? r.buf (Ring.index r (wrapping_add head t)))
          (let e : a ≡ a + 0 = omega arith in e)
        ∙ shows 0 x refl in
      let ih = accepted_from_lem admit xs (a + 1) (admit st x).0 (λ i y e.
        ap (λ (t : ℕ). get_elem? r.buf (Ring.index r (wrapping_add head t)))
          (let e' : a + 1 + i ≡ a + suc i = omega arith in e')
        ∙ shows (suc i) y e) in
      ap (λ m. m >>= round xs a st)
        (peek_slot-some r.buf (Ring.index r (wrapping_add head a)) x first)
      ∙ accept_round (admit st x).1 a
          (Ring.accepted_from r head admit (length xs) (a + 1) (admit st x).0)
          (accepted admit (admit st x).0 xs) (admit st x).0 ih
    where
      round : List A → ℕ → S → A → Access (ℕ × S)
      round xs a st val = elim (admit st val).1 [
        | true ↦ Ring.accepted_from r head admit (length xs) (a + 1) (admit st val).0
        | false ↦ done (a, (admit st val).0)
      ]

module _ {ℓ} {A : Type ℓ} (s : Spsc A) (q : Queue A) where
  -- The values that a call may look at.
  abbrev pub candidates : ℕ → List A
  candidates limit = take (min (length q.window) limit) q.window

  window-Shows :
      (g : Ghost) → Sim g s q → (limit : ℕ) → Shows s.ring s.consumer.head 0 (candidates limit)
  window-Shows g v limit i x e =
      let here = get_elem?-of_take (min (length q.window) limit) q.window i x e in
      let inside : i < length (slots q) =
        omega (arith, get_elem?-lt q.window i x here, length-slots g s q v, window-fits g v) in
      ap (get_elem? s.ring.buf)
        (index-mod g s q v (read_pos g q + i) (wrapping_add s.consumer.head (0 + i)) (omega arith))
      ∙ v.held i inside
      ∙ get_elem?-fill q.window (q.hidden ++ q.pending) _ i x here
    where
      window-fits : (g : Ghost) → Sim g s q → length q.window ≤ q.capacity
      window-fits g v = omega arith

  module _ {κ} {S : Type κ} (output : List A) where
    abbrev finish : ℕ → S → Access (ℕ × Spsc A × List A × S)
    finish n st =
        if n == 0
        then done (0, s, output, st)
        else Consumer.ring_pop_into s n output >>= λ (s', output'). done (n, s', output', st)

    -- The end of `pop_into_while`, once the accepted prefix is known.
    move_accepted :
        (n : ℕ) (st : S)
        → Refines s q
        → n ≤ length q.window
        → (s' : Spsc A) × (finish n st ≡ done (n, s', output ++ take n q.window, st))
          × Refines s' (Queue.pop_many q n).1
    move_accepted zero st r fits = (s, rw append-nil, rw pop_many-zero r)
    move_accepted (suc n) st r fits =
        let (s', e, r') = ring_pop_into_lem s q (suc n) output r fits in
        let some_taken : (suc n == 0) ≡ false = ground arith in (s', rw (some_taken, e), r')

    -- A conditional bulk move takes the longest prefix of the candidates that `admit` accepts.
    pub pop_into_while-Refines :
        (limit : ℕ) (admit : S → A → S × Bool) (st : S)
        → Refines s q
        → let (n, st') = accepted admit st (candidates limit) in
          (s' : Spsc A) × (Consumer.pop_into_while s output limit admit st
            ≡ done (n, s', output ++ take n q.window, st'))
          × Refines s' (Queue.pop_many q n).1
    unfolding Consumer.pop_into_while
    pop_into_while-Refines limit admit st (g, v) =
        elim (Bool-cases (min (length q.window) limit == 0)) [
          | inl nothing ↦
              let e : min (length q.window) limit ≡ 0 = ground arith in
              rw (window-length g s q v, e) (s, rw append-nil, rw pop_many-zero (g, v))
          | inr more ↦
              let (n, st') = accepted admit st (candidates limit) in
              let (s', e, r) =
                move_accepted n st' (g, v)
                  (omega (
                    arith,
                    accepted-le admit st (candidates limit),
                    length-take (min (length q.window) limit) q.window,
                  )) in
              (
                s',
                rw (window-length g s q v, more) (ap (λ m. m >>= λ p. finish p.0 p.1) scan ∙ e),
                r,
              )
        ]
      where
        count : length (candidates limit) ≡ min (length q.window) limit
        count = omega (arith, length-take (min (length q.window) limit) q.window)

        scan :
            Ring.accepted_from s.ring s.consumer.head admit (min (length q.window) limit) 0 st
            ≡ done (accepted admit st (candidates limit))
        scan =
            ap (λ (t : ℕ). Ring.accepted_from s.ring s.consumer.head admit t 0 st) (sym count)
            ∙ accepted_from_lem s.ring s.consumer.head admit (candidates limit) 0 st
                (window-Shows g v limit)
            ∙ ap (λ (t : ℕ). done (t, (accepted admit st (candidates limit)).1)) (omega arith)
