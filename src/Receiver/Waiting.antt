-- ===== src/Receiver/Waiting.antt =====
-- The lanes that wait in the registry: the entry of a slot, and a change of it.
use fanring_rs.Base.{
  ℕ, ◌≡◌, refl, ap, ◌∙◌, arith, Bool, Option, none, some, List, [], ◌∷◌, ◌==◌, length,
  if◌then◌else◌, Bool-cases, inl, inr,
}
use mathlib.Core.Path.{subst}
use fanring_rs.Yring.Types.{Spsc}
use fanring_rs.Yring.Queue.{Queue}
use fanring_rs.Yring.Sim.{Refines}
use fanring_rs.Lane.Defs.{new}
use fanring_rs.Lane.Window.{LaneOk, new-LaneOk}
use fanring_rs.Registry.Defs.{Registry}
use fanring_rs.Receiver.Defs.{Keyed, PendingLane}
use fanring_rs.Receiver.Collect.{lane_of}
use fanring_rs.Receiver.Rotation.{Sound}
use fanring_rs.Receiver.Slots.{waiting, fewer-SlotsOk}
use fanring_rs.Receiver.Adopt.{Apart, PendingOk, SharedOk}

module _ {ℓ} {A : Type ℓ} where
  abbrev pub find_waiting : ℕ → List (PendingLane A) → Option (PendingLane A)
  find_waiting slot [] = none
  find_waiting slot (p ∷ ps) = if p.key.slot == slot then some p else find_waiting slot ps

  -- The entry of the slot has a new ring and a new signal.
  abbrev pub put_waiting : ℕ → Spsc A → Bool → List (PendingLane A) → List (PendingLane A)
  put_waiting slot ring signalled [] = []
  put_waiting slot ring signalled (p ∷ ps) =
      if p.key.slot == slot
      then record p { consumer = ring; signalled = signalled } ∷ ps
      else p ∷ put_waiting slot ring signalled ps

  some-inj : {p q : PendingLane A} → some p ≡ some q → p ≡ q
  some-inj e = cc

  pub find_waiting-Sound :
      (lanes : List (Option (Keyed A))) (slot : ℕ) (ps : List (PendingLane A)) (p : PendingLane A)
      → find_waiting slot ps ≡ some p
      → PendingOk lanes ps
      → Sound (lane_of p).lane
  find_waiting-Sound lanes slot [] p e h = absurd (none-some e)
    where
      none-some : none ≡ some p → ⊥
      none-some f = cc
  find_waiting-Sound lanes slot (x ∷ xs) p e (free, good, apart, h) =
      elim (Bool-cases (x.key.slot == slot)) [
        | inl hit ↦
            let f : some x ≡ some p = rw hit at e in
            subst (λ (y : PendingLane A). Sound (lane_of y).lane) (some-inj f) good
        | inr miss ↦
            let f : find_waiting slot xs ≡ some p = rw miss at e in
            find_waiting-Sound lanes slot xs p f h
      ]

  -- A lane that waits has nothing seen and nothing to release, so a sound ring makes a sound lane.
  pub waiting-Sound :
      (ring ring' : Spsc A) (signalled signalled' : Bool) (q q' : Queue A)
      → LaneOk (new ring signalled) q
      → q'.window ≡ q.window
      → q'.unreleased ≡ q.unreleased
      → Refines ring' q'
      → Sound (new ring' signalled')
  unfolding new
  waiting-Sound ring ring' signalled signalled' q q' (r, c) w u r' =
      let seen : length q.window ≡ 0 = omega (arith, c.available) in
      let held : q.unreleased ≡ 0 = omega (arith, c.taken) in
      (q', new-LaneOk ring' q' signalled' r' (ap length w ∙ seen) (u ∙ held), omega arith)

  waiting-put :
      (i slot : ℕ) (ring : Spsc A) (signalled : Bool) (ps : List (PendingLane A))
      → waiting i (put_waiting slot ring signalled ps) ≡ waiting i ps
  waiting-put i slot ring signalled [] = refl
  waiting-put i slot ring signalled (p ∷ ps) = elim (Bool-cases (p.key.slot == slot)) [
    | inl hit ↦ rw hit refl
    | inr miss ↦ rw miss (omega (arith, waiting-put i slot ring signalled ps))
  ]

  Apart-put :
      (i slot : ℕ) (ring : Spsc A) (signalled : Bool) (ps : List (PendingLane A))
      → Apart i ps
      → Apart i (put_waiting slot ring signalled ps)
  Apart-put i slot ring signalled [] h = tt
  Apart-put i slot ring signalled (p ∷ ps) (d, h) = elim (Bool-cases (p.key.slot == slot)) [
    | inl hit ↦ rw hit (d, h)
    | inr miss ↦ rw miss (d, Apart-put i slot ring signalled ps h)
  ]

  PendingOk-put_waiting :
      (lanes : List (Option (Keyed A))) (slot : ℕ) (ring : Spsc A) (signalled : Bool)
      (ps : List (PendingLane A))
      → Sound (new ring signalled)
      → PendingOk lanes ps
      → PendingOk lanes (put_waiting slot ring signalled ps)
  PendingOk-put_waiting lanes slot ring signalled [] good h = tt
  PendingOk-put_waiting lanes slot ring signalled (p ∷ ps) good (free, old, apart, h) =
      elim (Bool-cases (p.key.slot == slot)) [
        | inl hit ↦ rw hit (free, good, apart, h)
        | inr miss ↦ rw miss (
          free,
          old,
          Apart-put p.key.slot slot ring signalled ps apart,
          PendingOk-put_waiting lanes slot ring signalled ps good h,
        )
      ]

  -- A change of a waiting lane's ring and signal keeps what is shared in order.
  pub SharedOk-put_waiting :
      (lanes : List (Option (Keyed A))) (slot : ℕ) (ring : Spsc A) (signalled : Bool)
      (ps : List (PendingLane A)) (registry : Registry)
      → Sound (new ring signalled)
      → SharedOk lanes ps registry
      → SharedOk lanes (put_waiting slot ring signalled ps) registry
  SharedOk-put_waiting lanes slot ring signalled ps registry good (h, slots) = (
    PendingOk-put_waiting lanes slot ring signalled ps good h,
    fewer-SlotsOk lanes lanes ps (put_waiting slot ring signalled ps) registry registry
        (λ i. omega (arith, waiting-put i slot ring signalled ps)) refl slots.pages slots,
  )
