-- ===== src/Yring/Owner/Single.antt =====
-- A `ProducerOwner` serves one thread.
use fanring_rs.Base.{
  ℕ, ◌+◌, ◌≤◌, ◌<◌, ◌≡◌, ◌≢◌, refl, sym, ap, ◌∙◌, true, false, none, some, List, [], ◌∷◌, ◌⊎◌,
  arith, length, ltb, ◌==◌, Bool-cases, inl, inr, ==→eq, eq→==, ==-false→ne, word, Access, done,
  ◌>>=◌, >>=-eq-done, done-inj,
}
use mathlib.Core.Path.{subst}
use fanring_rs.Yring.Types.{Spsc}
use fanring_rs.Yring.Owner.{
  Threads, ProducerOwner, no_tokens, new, set_token, get_or_init, current_thread_token,
  allocate_thread_token, with_producer,
}

-- A token that was given out is below the next one and belongs to one thread.
pub record TokensOk (th : Threads) : Type 0 where
  pub positive : 0 < th.next_token
  pub below : (t : ℕ) → th.tokens t < th.next_token
  pub apart : (t u : ℕ) → th.tokens t ≢ 0 → th.tokens t ≡ th.tokens u → t ≡ u

pub no_tokens-TokensOk : TokensOk no_tokens
no_tokens-TokensOk = record {
  positive = omega arith;
  below = λ t. omega arith;
  apart = λ t u h e. absurd (h refl);
}

set_token_self : (t token : ℕ) (tokens : ℕ → ℕ) → set_token t token tokens t ≡ token
set_token_self t token tokens = let e : (t == t) ≡ true = ground arith in rw e refl

set_token_other : (t u token : ℕ) (tokens : ℕ → ℕ) → u ≢ t → set_token t token tokens u ≡ tokens u
set_token_other t u token tokens h = let e : (u == t) ≡ false = ground arith in rw e refl

-- A thread's first use gives it a token of its own.
allocated-TokensOk :
    (t : ℕ) (th : Threads)
    → TokensOk th
    → TokensOk
        (record { next_token = th.next_token + 1; tokens = set_token t th.next_token th.tokens })
allocated-TokensOk t th v = record {
  positive = omega arith;
  below = λ u. elim (Bool-cases (u == t)) [
    | inl same ↦ rw same (omega arith)
    | inr other ↦ rw other (omega (arith, v.below u))
  ];
  apart = λ u w some_token e. elim (Bool-cases (u == t)) [
    | inl same ↦ elim (Bool-cases (w == t)) [
      | inl same' ↦ ==→eq _ _ same ∙ sym (==→eq _ _ same')
      | inr other ↦ absurd (omega (arith, v.below w, rw (same, other) at e))
    ]
    | inr other ↦ elim (Bool-cases (w == t)) [
      | inl same' ↦ absurd (omega (arith, v.below u, rw (other, same') at e))
      | inr other' ↦ v.apart u w (rw other at some_token) (rw (other, other') at e)
    ]
  ];
}

-- The token that a thread's call goes by: its own, nonzero; no token that is set changes.
current_thread_token-TokensOk :
    (t : ℕ) (th : Threads)
    → TokensOk th
    → th.next_token + 1 < word
    → (token : ℕ) × (th' : Threads) × (current_thread_token t th ≡ done (token, th'))
      × TokensOk th'
      × (th'.next_token ≤ th.next_token + 1)
      × (th'.tokens t ≡ token)
      × (token ≢ 0)
      × ((u : ℕ) → th.tokens u ≢ 0 → th'.tokens u ≡ th.tokens u)
unfolding current_thread_token allocate_thread_token
current_thread_token-TokensOk t th v h = elim (Bool-cases (th.tokens t == 0)) [
  | inl unset ↦
      let room : ltb (th.next_token + 1) word ≡ true = ground arith in
      (
        th.next_token,
        record { next_token = th.next_token + 1; tokens = set_token t th.next_token th.tokens },
        rw (unset, room) refl,
        allocated-TokensOk t th v,
        omega arith,
        set_token_self t th.next_token th.tokens,
        (λ e. absurd (omega (arith, v.positive))),
        λ u set.
            set_token_other t u th.next_token th.tokens
              (λ e. set (ap th.tokens e ∙ ==→eq _ _ unset)),
      )
  | inr own ↦
      (th.tokens t, th, rw own refl, v, omega arith, refl, ==-false→ne _ _ own, λ u set. refl)
]

-- The owner is bound to thread `t`.
abbrev Bound {ℓ} : {A : Type ℓ} → ℕ → Threads → ProducerOwner A → Type 0
Bound t th o = (k : ℕ) × (o.owner ≡ some k) × (k ≢ 0) × (th.tokens t ≡ k)

-- A list of calls by threads, and the same calls on the bare producer.
abbrev pub Call {ℓ κ} : Type ℓ → Type κ → Type (ℓ ⊔ κ)
Call A R = ℕ × (Spsc A → Access (R × Spsc A))

module _ {ℓ κ} {A : Type ℓ} {R : Type κ} where
  unfoldable pub run :
      List (Call A R) → Threads → ProducerOwner A → Access (List R × Threads × ProducerOwner A)
  run [] th o = done ([], th, o)
  run ((t, f) ∷ cs) th o = with_producer t f th o >>= λ (r, th', o').
      run cs th' o' >>= λ (rs, th'', o''). done (r ∷ rs, th'', o'')

  unfoldable pub run_bare : List (Call A R) → Spsc A → Access (List R × Spsc A)
  run_bare [] s = done ([], s)
  run_bare ((t, f) ∷ cs) s = f s >>= λ (r, s'). run_bare cs s' >>= λ (rs, s''). done (r ∷ rs, s'')

  abbrev pub AllBy : ℕ → List (Call A R) → Type 0
  AllBy t [] = Unit {0}
  AllBy t ((u, f) ∷ cs) = (u ≡ t) × AllBy t cs

  -- What a call of thread `u` leaves when it runs through.
  abbrev Passed :
      ℕ
      → (Spsc A → Access (R × Spsc A))
      → Threads
      → ProducerOwner A
      → R × Threads × ProducerOwner A
      → Type (ℓ ⊔ κ)
  Passed u f th o x =
      (token : ℕ) × (get_or_init o.owner token ≡ token)
      × (token ≢ 0)
      × (x.2.owner ≡ some token)
      × (x.1.tokens u ≡ token)
      × (f o.producer ≡ done (x.0, x.2.producer))
      × TokensOk x.1
      × (x.1.next_token ≤ th.next_token + 1)
      × ((t : ℕ) → th.tokens t ≢ 0 → x.1.tokens t ≡ th.tokens t)

  -- A call that runs through: the owner is the caller's token, and the producer did the work.
  with_producer-done :
      (u : ℕ) (f : Spsc A → Access (R × Spsc A)) (th : Threads) (o : ProducerOwner A)
      (x : R × Threads × ProducerOwner A)
      → TokensOk th
      → th.next_token + 1 < word
      → with_producer u f th o ≡ done x
      → Passed u f th o x
  unfolding with_producer
  with_producer-done u f th o x v room ran =
      let (token, th', e, v', le, own, some_token, same) =
        current_thread_token-TokensOk u th v room in
      elim (Bool-cases (get_or_init o.owner token == token)) [
        | inl matches ↦
            let ran' = rw (e, matches) at ran in
            let ((r, s), g, h) = >>=-eq-done (f o.producer) (finish token th') ran' in
            subst (Passed u f th o) (done-inj h)
              (token, ==→eq _ _ matches, some_token, refl, own, g, v', le, same)
        | inr differs ↦ let ran' = rw (e, differs) at ran in cc
      ]
    where
      finish : ℕ → Threads → R × Spsc A → Access (R × Threads × ProducerOwner A)
      finish token th' (result, producer) =
          done (result, th', record { producer = producer; owner = some token })

  -- The results and the producer that calls leave are those of the bare producer.
  abbrev Bare :
      List (Call A R) → ProducerOwner A → List R × Threads × ProducerOwner A → Type (ℓ ⊔ κ)
  Bare cs o x = run_bare cs o.producer ≡ done (x.0, x.2.producer)

  Bound-caller :
      (t u : ℕ) (f : Spsc A → Access (R × Spsc A)) (th : Threads) (o : ProducerOwner A)
      (x : R × Threads × ProducerOwner A)
      → Bound t th o
      → Passed u f th o x
      → (u ≡ t) × Bound t x.1 x.2
  Bound-caller t u f th o x (k, e, some_k, mine)
        (token, agree, some_token, owned, own, g, v, le, same) =
      let k_token : k ≡ token = ap (λ w. get_or_init w token) (sym e) ∙ agree in
      let still : x.1.tokens t ≡ k = same t (λ z. some_k (sym mine ∙ z)) ∙ mine in
      let same_thread : u ≡ t =
        v.apart u t (λ z. some_token (sym own ∙ z)) (own ∙ sym k_token ∙ sym still) in
      (same_thread, (k, owned ∙ ap some (sym k_token), some_k, still))

  continue :
      List (Call A R) → R × Threads × ProducerOwner A → Access (List R × Threads × ProducerOwner A)
  continue cs (r, th', o') = run cs th' o' >>= λ (rs, th'', o''). done (r ∷ rs, th'', o'')

  run-Bound :
      (t : ℕ) (cs : List (Call A R)) (th : Threads) (o : ProducerOwner A)
      (x : List R × Threads × ProducerOwner A)
      → TokensOk th
      → th.next_token + length cs < word
      → Bound t th o
      → run cs th o ≡ done x
      → AllBy t cs × Bare cs o x
  unfolding run run_bare continue
  run-Bound t [] th o x v room b ran = (tt, ap (λ y. done (y.0, y.2.producer)) (done-inj ran))
  run-Bound t ((u, f) ∷ cs) th o x v room b ran =
      let (y, e, ran') = >>=-eq-done (with_producer u f th o) (continue cs) ran in
      let (z, e', ran'') =
        >>=-eq-done (run cs y.1 y.2) (λ (rs, th'', o''). done (y.0 ∷ rs, th'', o'')) ran' in
      let passed = with_producer-done u f th o y v (omega arith) e in
      let (same, b') = Bound-caller t u f th o y b passed in
      let (all, bare) = run-Bound t cs y.1 y.2 z passed.6 (omega (arith, passed.7)) b' e' in
      ((same, all), rw passed.5 (rw bare (ap (λ w. done (w.0, w.2.producer)) (done-inj ran''))))

  -- Calls on a new owner that all run through come from one thread, and are the same calls on the
  -- bare producer: whatever threads call, no two of them ever touch the producer. Enough tokens are
  -- left for the threads.
  pub run-Single :
      (t : ℕ) (f : Spsc A → Access (R × Spsc A)) (cs : List (Call A R)) (s : Spsc A) (th : Threads)
      (x : List R × Threads × ProducerOwner A)
      → TokensOk th
      → th.next_token + length cs + 1 < word
      → run ((t, f) ∷ cs) th (new s) ≡ done x
      → AllBy t cs × (run_bare ((t, f) ∷ cs) s ≡ done (x.0, x.2.producer))
  unfolding run run_bare continue
  run-Single t f cs s th x v room ran =
      let (y, e, ran') = >>=-eq-done (with_producer t f th (new s)) (continue cs) ran in
      let (z, e', ran'') =
        >>=-eq-done (run cs y.1 y.2) (λ (rs, th'', o''). done (y.0 ∷ rs, th'', o'')) ran' in
      let passed = with_producer-done t f th (new s) y v (omega arith) e in
      let b : Bound t y.1 y.2 = (passed.0, passed.3, passed.2, passed.4) in
      let (all, bare) = run-Bound t cs y.1 y.2 z passed.6 (omega (arith, passed.7)) b e' in
      (all, rw passed.5 (rw bare (ap (λ w. done (w.0, w.2.producer)) (done-inj ran''))))

  -- The owning thread, or the first, gets through to the producer.
  with_producer-own :
      (t : ℕ) (f : Spsc A → Access (R × Spsc A)) (th : Threads) (o : ProducerOwner A) (r : R)
      (s : Spsc A)
      → TokensOk th
      → th.next_token + 1 < word
      → (o.owner ≡ none) ⊎ Bound t th o
      → f o.producer ≡ done (r, s)
      → (th' : Threads) × (o' : ProducerOwner A) × (with_producer t f th o ≡ done (r, th', o'))
        × (o'.producer ≡ s)
  unfolding with_producer
  with_producer-own t f th o r s v room who g =
      let (token, th', e, v', le, own, some_token, same) =
        current_thread_token-TokensOk t th v room in
      let agree : get_or_init o.owner token ≡ token = elim who [
        | inl free ↦ ap (λ w. get_or_init w token) free
        | inr (k, owned, some_k, mine) ↦
            ap (λ w. get_or_init w token) owned
            ∙ sym mine
            ∙ sym (same t (λ z. some_k (sym mine ∙ z)))
            ∙ own
      ] in
      let test : (get_or_init o.owner token == token) ≡ true = eq→== _ _ agree in
      (th', record { producer = s; owner = some token }, rw (e, test, g) refl, refl)

  run-own :
      (t : ℕ) (cs : List (Call A R)) (th : Threads) (o : ProducerOwner A) (rs : List R) (s : Spsc A)
      → TokensOk th
      → th.next_token + length cs < word
      → (o.owner ≡ none) ⊎ Bound t th o
      → AllBy t cs
      → run_bare cs o.producer ≡ done (rs, s)
      → (th' : Threads) × (o' : ProducerOwner A) × (run cs th o ≡ done (rs, th', o'))
        × (o'.producer ≡ s)
  unfolding run run_bare
  run-own t [] th o rs s v room who all ran =
      let e = done-inj ran in (th, o, ap (λ y. done (y.0, th, o)) e, ap (λ y. y.1) e)
  run-own t ((u, f) ∷ cs) th o rs s v room who (same, all) ran =
      let (y, g, ran') =
        >>=-eq-done (f o.producer) (λ (r, s'). run_bare cs s' >>= λ (rs, s''). done (r ∷ rs, s''))
          ran in
      let (z, g', ran'') = >>=-eq-done (run_bare cs y.1) (λ (rs, s''). done (y.0 ∷ rs, s'')) ran' in
      let (th', o', e, p) = with_producer-own t f th o y.0 y.1 v (omega arith) who g in
      let passed = with_producer-done t f th o (y.0, th', o') v (omega arith) e in
      let (th'', o'', e', p') =
        run-own t cs th' o' z.0 z.1 passed.6 (omega (arith, passed.7))
          (inr (passed.0, passed.3, passed.2, passed.4)) all (rw p g') in
      let ends = done-inj ran'' in
      (th'', o'', rw (same, e, e') (ap (λ w. done (w.0, th'', o'')) ends), p' ∙ ap (λ w. w.1) ends)

  -- All calls of one thread on a new owner run through as they would on the bare producer.
  pub run-Same :
      (t : ℕ) (cs : List (Call A R)) (s : Spsc A) (th : Threads) (rs : List R) (s' : Spsc A)
      → TokensOk th
      → th.next_token + length cs < word
      → AllBy t cs
      → run_bare cs s ≡ done (rs, s')
      → (th' : Threads) × (o' : ProducerOwner A) × (run cs th (new s) ≡ done (rs, th', o'))
        × (o'.producer ≡ s')
  run-Same t cs s th rs s' v room all ran = run-own t cs th (new s) rs s' v room (inl refl) all ran
