-- ===== src/Lane/Poll.antt =====
-- The polls of a lane, against the lane's queue.
use fanring_rs.Base.{
  ℕ, suc, ◌-◌, ◌≤◌, ◌<◌, ◌≡◌, refl, sym, ap, ap₂, ◌∙◌, Bool, true, false, not, ◌||◌, Option, none,
  some, List, [], ◌∷◌, arith, length, ◌==◌, eq→==, if◌then◌else◌, wrapping_add, wrapping_sub,
  Access, done, ◌>>=◌,
}
use mathlib.Core.Path.{subst}
use fanring_rs.Yring.Types.{Spsc}
use fanring_rs.Yring.Queue
use fanring_rs.Yring.Queue.{Queue, used}
use fanring_rs.Yring.Sim.Receive.{refilled}
use fanring_rs.Lane.Defs.{Lane, LanePoll, EmptyLane, batch_for, prefetch_limit}
use fanring_rs.Lane.Defs
use fanring_rs.Lane.Window.{Counts, LaneOk, refilled-sizes, reopen-LaneOk}
use fanring_rs.Lane.Settle.{settled, popped, settle_empty-LaneOk, expect_pop_lem, take_one-LaneOk}

pub if-true {ℓ} : {A : Type ℓ} {x : A} (y : A) (b : Bool) → b ≡ true → (if b then x else y) ≡ x
if-true y true e = refl
if-true y false e = absurd (ground arith)

not_rotated : (fair : Bool) (n : ℕ) → n ≤ 64 → (fair || (n == 64)) ≡ false → n < 64
not_rotated true n h e = absurd (ground arith)
not_rotated false n h e = ground arith

module _ {ℓ} {A : Type ℓ} where
  -- Ending the burst of a lane with no open window keeps it.
  burst-LaneOk :
      (l : Lane A) (q : Queue A) (rotate : Bool)
      → LaneOk l q
      → l.fast_left ≡ 0
      → (rotate ≡ false → l.burst < 64)
      → LaneOk (if rotate then record l { burst = 0 } else l) q
        × ((if rotate then record l { burst = 0 } else l).burst < 64)
  burst-LaneOk l q true (r, c) shut b = ((r, omega arith), omega arith)
  burst-LaneOk l q false ok shut b = (ok, b refl)

  pub cached-cons :
      (l : Lane A) (q : Queue A) (x : A) (xs : List A)
      → Counts l q
      → l.fast_left ≡ 0
      → q.window ≡ x ∷ xs
      → (length q.window ≡ suc (length xs)) × ((l.cached_available == 0) ≡ false)
  cached-cons l q x xs c shut e =
      let len : length q.window ≡ suc (length xs) = ap length e in (len, ground arith)

  -- Taking a value of the window with full bookkeeping.
  poll_item-LaneOk :
      (fair : Bool) (l : Lane A) (q : Queue A) (x : A) (xs : List A)
      → LaneOk l q
      → l.fast_left ≡ 0
      → l.burst < 64
      → q.window ≡ x ∷ xs
      → let rotate = fair || (suc l.burst == 64) in
        (m : Lane A) × (Defs.poll_item fair l
          ≡ done (LanePoll.item x rotate (suc q.unreleased == batch_for q.capacity), m))
        × LaneOk m (settled (popped q xs))
        × (m.burst < 64)
  unfolding Defs.poll_item
  poll_item-LaneOk fair l q x xs (r, c) shut b e =
      let (s, f, r') = expect_pop_lem l q x xs r e in
      let (len, _) = cached-cons l q x xs c shut e in
      let (rel, ok, b', shut') =
        take_one-LaneOk l q xs s (wrapping_add l.burst 1) c shut (omega arith) len r' in
      let b'' = b' ∙ (let w : wrapping_add l.burst 1 ≡ suc l.burst = omega arith in w) in
      let (ok_end, small) =
        burst-LaneOk (charged_lane s).1 _ (fair || (suc l.burst == 64)) ok shut'
          (λ stay. subst (λ (n : ℕ). n < 64) (sym b'') (not_rotated fair (suc l.burst) b stay)) in
      (
        _,
        ap (λ m. m >>= after) f
            ∙ ap₂ (finish x (charged_lane s).1) (ap (λ n. fair || (n == 64)) b'') rel,
        ok_end,
        small,
      )
    where
      charged_lane : Spsc A → Bool × Lane A
      charged_lane s = Defs.release_full_batch (record l {
        consumer = s;
        cached_available = wrapping_sub l.cached_available 1;
        unreleased = wrapping_add l.unreleased 1;
        burst = wrapping_add l.burst 1;
      })

      finish : A → Lane A → Bool → Bool → Access (LanePoll A × Lane A)
      finish v o rotate released =
          done (LanePoll.item v rotate released, if rotate then record o { burst = 0 } else o)

      after : A × Lane A → Access (LanePoll A × Lane A)
      after (v, m) =
          let n = record m {
            cached_available = wrapping_sub m.cached_available 1;
            unreleased = wrapping_add m.unreleased 1;
            burst = wrapping_add m.burst 1;
          } in
          let (released, o) = Defs.release_full_batch n in
          finish v o (fair || (o.burst == prefetch_limit)) released

  pub refill-none :
      (l : Lane A)
      → ((Defs.reload (Defs.close_fast l)).cached_available == 0) ≡ false
      → Defs.refill l ≡ (none, Defs.reload (Defs.close_fast l))
  unfolding Defs.refill
  refill-none l e = rw e refl

  pub refill-some :
      (l : Lane A)
      → ((Defs.reload (Defs.close_fast l)).cached_available == 0) ≡ true
      → let r = Defs.settle_empty (Defs.reload (Defs.close_fast l)) in
        Defs.refill l ≡ (some r.0, r.1)
  unfolding Defs.refill
  refill-some l e = rw e refl

  -- What `poll` makes of a refill.
  abbrev pub poll_end : Bool → Option EmptyLane × Lane A → Access (LanePoll A × Lane A)
  poll_end fair (empty, m) = elim empty [
    | none ↦ Defs.poll_item fair m
    | some e ↦ done (Defs.poll_empty e, m)
  ]

  -- A poll of a lane whose queue has a visible value takes the oldest.
  pub poll-LaneOk :
      (fair : Bool) (l : Lane A) (q : Queue A) (x : A) (xs : List A)
      → LaneOk l q
      → l.burst < 64
      → (refilled q).window ≡ x ∷ xs
      → let rotate = fair || (suc (l.burst - l.fast_left) == 64) in
        let released = suc q.unreleased == batch_for q.capacity in
        (m : Lane A) × (Defs.poll fair l ≡ done (LanePoll.item x rotate released, m))
        × LaneOk m (settled (popped (refilled q) xs))
        × (m.burst < 64)
  unfolding Defs.poll
  poll-LaneOk fair l q x xs ok b e =
      let (ok', shut, b') = reopen-LaneOk l q ok in
      let (_, some_left) = cached-cons _ (refilled q) x xs ok'.1 shut e in
      let b'' : (Defs.reload (Defs.close_fast l)).burst ≡ l.burst - l.fast_left = omega arith in
      let (_, cap, unrel) = refilled-sizes q in
      let (m, f, ok'', small) =
        poll_item-LaneOk fair _ (refilled q) x xs ok' shut (omega arith) e in
      (
        m,
        ap (poll_end fair) (refill-none l some_left)
            ∙ f
            ∙ ap₂ (λ n r. done (LanePoll.item x (fair || (suc n == 64)) r, m)) b''
                (ap₂ (λ n c. suc n == batch_for c) unrel cap),
        ok'',
        small,
      )

  pub refilled-none :
      (q : Queue A) (w h : List A)
      → w ≡ []
      → h ≡ []
      → let p = record q { window = w; hidden = h } in refilled p ≡ p
  refilled-none q w h e e' = rw (e, e') refl

  prefetch-none :
      (q : Queue A) (w h : List A)
      → w ≡ []
      → h ≡ []
      → let p = record q { window = w; hidden = h } in (Queue.prefetch p).1 ≡ p
  prefetch-none q w h e e' = rw (e, e') refl

  -- A poll of a lane whose queue has none releases what is pending and leaves the rotation; it
  -- reports the end once the sender is gone.
  pub poll-Idle :
      (fair : Bool) (l : Lane A) (q : Queue A)
      → LaneOk l q
      → q.window ≡ []
      → q.hidden ≡ []
      → (m : Lane A) × (Defs.poll fair l
          ≡ done (LanePoll.idle q.producer_dropped (not (q.unreleased == 0)), m))
        × LaneOk m (Queue.release q)
        × (m.pending ≡ false)
        × (m.queued ≡ false)
        × (m.burst ≡ 0)
  unfolding Defs.poll
  poll-Idle fair l q ok e e' =
      let (ok', shut, b') = reopen-LaneOk l q ok in
      let same = refilled-none q q.window q.hidden e e' in
      let ok_q : LaneOk (Defs.reload (Defs.close_fast l)) q = subst (LaneOk _) same ok' in
      let w : length q.window ≡ 0 = ap length e in
      let h : length q.hidden ≡ 0 = ap length e' in
      let z : ((Defs.reload (Defs.close_fast l)).cached_available == 0) ≡ true =
        ground (arith, ok_q.1) in
      let (ok'', b'', res, p, d) = settle_empty-LaneOk _ q ok_q e in
      let hid : (length q.hidden == 0) ≡ true = eq→== _ _ h in
      (
        _,
        ap (poll_end fair) (refill-some l z)
            ∙ ap
                (λ r.
                  done (Defs.poll_empty r, (Defs.settle_empty (Defs.reload (Defs.close_fast l))).1))
                (res ∙ if-true _ (length q.hidden == 0) hid),
        subst (LaneOk _) (prefetch-none (Queue.release q) q.window q.hidden e e') ok'',
        p ∙ rw hid refl,
        d ∙ if-true _ (length q.hidden == 0) hid,
        b'',
      )
