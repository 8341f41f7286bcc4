-- ===== src/Receiver/Register.antt =====
-- `Shared::register_sender` of src/mpsc.rs, on the state that the receiver shares with its senders.
-- Nobody acts between the two looks at the limit, as in a step of an interleaving.
use fanring_rs.Base.{
  ℕ, ◌+◌, ◌≤◌, ◌<◌, ◌^◌, ◌≡◌, ◌≢◌, refl, ap, arith, true, false, not, Option, none, some, List, [],
  ◌∷◌, ◌++◌, ◌==◌, leb, if◌then◌else◌, Result, ok, err, Access, done, ◌>>=◌, Ensures, Bool-cases,
  inl, inr, eq→==, word, wrapping_add,
}
use fanring_rs.Error.{TryRegisterBoundedError}
use fanring_rs.Yring.Types.{Spsc}
use fanring_rs.Yring.Producer
use fanring_rs.Yring.Queue
use fanring_rs.Yring.Sim.{Refines}
use fanring_rs.Yring.New.{spsc-Refines}
use fanring_rs.Lane.Defs.{new}
use fanring_rs.Lane.Window.{new-LaneOk}
use fanring_rs.Registry.Defs.{
  Registry, LaneKey, ReadyPage, or_fault, allocate_lane, take_key, take_from,
}
use fanring_rs.Registry.Pages.{PagesOk, allocate_lane-PagesOk}
use fanring_rs.Receiver.Defs.{Receiver, Keyed, PendingLane, lane_at}
use fanring_rs.Receiver.Collect.{lane_of}
use fanring_rs.Receiver.Rotation.{count, Sound}
use fanring_rs.Receiver.Slots.{SlotsOk, owners, waiting, occupied}
use fanring_rs.Receiver.Adopt.{Apart, PendingOk, SharedOk, ReceiverOk}

abbrev pub Registration {ℓ} : Type ℓ → Type ℓ
Registration A = Result LaneKey TryRegisterBoundedError × Receiver A

module _ {ℓ} {A : Type ℓ} where
  -- The new lane waits in the registry for the receiver.
  abbrev pub registered :
      Spsc A → Receiver A → LaneKey × ReadyPage × Registry → Access (Registration A)
  registered consumer r (key, page, registry) = done (
    ok key,
    record r {
      shared = record r.shared {
        registry = registry;
        pending =
            r.shared.pending ++ (record { key = key; signalled = false; consumer = consumer } ∷ []);
        registered_lanes = wrapping_add r.shared.registered_lanes 1;
        live_senders = wrapping_add r.shared.live_senders 1;
        registry_generation = wrapping_add r.shared.registry_generation 1;
      };
    },
  )

  unfoldable pub register_sender : ℕ → ℕ → Receiver A → Access (Registration A)
  register_sender max_lanes capacity r =
      let made =
        or_fault (Producer.spsc capacity)
        >>= (λ consumer. allocate_lane r.shared.registry >>= registered consumer r) in
      if not r.shared.receiver_alive
      then done (err TryRegisterBoundedError.disconnected, r)
      else if leb max_lanes r.shared.registered_lanes
      then done (err TryRegisterBoundedError.at_capacity, r)
      else made

  waiting-append :
      (i : ℕ) (ps : List (PendingLane A)) (p : PendingLane A)
      → waiting i (ps ++ (p ∷ [])) ≡ waiting i ps + (if p.key.slot == i then 1 else 0)
  waiting-append i [] p = omega arith
  waiting-append i (x ∷ xs) p = omega (arith, waiting-append i xs p)

  Apart-append :
      (slot : ℕ) (ps : List (PendingLane A)) (p : PendingLane A)
      → Apart slot ps
      → slot ≢ p.key.slot
      → Apart slot (ps ++ (p ∷ []))
  Apart-append slot [] p h d = (d, tt)
  Apart-append slot (x ∷ xs) p (c, h) d = (c, Apart-append slot xs p h d)

  PendingOk-append :
      (lanes : List (Option (Keyed A))) (ps : List (PendingLane A)) (p : PendingLane A)
      → lane_at lanes p.key.slot ≡ none
      → Sound (lane_of p).lane
      → waiting p.key.slot ps ≡ 0
      → PendingOk lanes ps
      → PendingOk lanes (ps ++ (p ∷ []))
  PendingOk-append lanes [] p free good none_waits h = (free, good, tt, tt)
  PendingOk-append lanes (x ∷ xs) p free good none_waits (free', good', apart, h) = (
    free',
    good',
    Apart-append x.key.slot xs p apart (λ s. let f : x.key.slot ≡ p.key.slot = s in ground arith),
    PendingOk-append lanes xs p free good (omega arith) h,
  )

  -- The key that is taken is one more owner of its slot, and the only one.
  abbrev TakenOk : List (Option (Keyed A)) → List (PendingLane A) → LaneKey × Registry → Type 0
  TakenOk lanes pending (key, taken) =
      ((i : ℕ) → owners lanes pending taken i + (if key.slot == i then 1 else 0) ≤ 1)
      × ((i : ℕ)
          → taken.next_slot ≤ i
          → owners lanes pending taken i + (if key.slot == i then 1 else 0) ≡ 0)

  take_from-TakenOk :
      (lanes : List (Option (Keyed A))) (pending : List (PendingLane A)) (registry : Registry)
      (free : List LaneKey)
      → registry.free ≡ free
      → registry.next_slot + 1 < word
      → SlotsOk lanes pending registry
      → TakenOk lanes pending (take_from free registry)
  take_from-TakenOk lanes pending registry [] e room v =
      let next : wrapping_add registry.next_slot 1 ≡ registry.next_slot + 1 = omega arith in
      (λ i. ground (arith, v.once i, v.fresh i), λ i h. ground (arith, v.fresh i (omega arith)))
  take_from-TakenOk lanes pending registry (key ∷ rest) e room v =
      let split = λ (i : ℕ). ap (count i) e in
      (λ i. omega (arith, split i, v.once i), λ i h. omega (arith, split i, v.fresh i h))

  nobody : (o : Option (Keyed A)) → occupied o ≡ 0 → o ≡ none
  nobody none e = refl
  nobody (some k) e = absurd (omega arith)

  registered-SharedOk :
      (r : Receiver A) (consumer : Spsc A) (size : ℕ) (key : LaneKey) (taken grown : Registry)
      → SharedOk r.lanes r.shared.pending r.shared.registry
      → Refines consumer (Queue.new size)
      → TakenOk r.lanes r.shared.pending (key, taken)
      → grown.free ≡ taken.free
      → grown.next_slot ≡ taken.next_slot
      → PagesOk grown
      → SharedOk r.lanes
          (r.shared.pending ++ (record { key = key; signalled = false; consumer = consumer } ∷ []))
          grown
  unfolding new
  registered-SharedOk r consumer size key taken grown (h, slots) v (one, fresh) f n g =
      let p : PendingLane A = record { key = key; signalled = false; consumer = consumer } in
      let here : (key.slot == key.slot) ≡ true = eq→== key.slot key.slot refl in
      let alone : owners r.lanes r.shared.pending taken key.slot ≡ 0 =
        let o = rw here at (one key.slot) in omega arith in
      (
        PendingOk-append r.lanes r.shared.pending p (nobody _ (omega arith))
            (Queue.new size, new-LaneOk consumer (Queue.new size) false v refl refl, omega arith)
            (omega arith) h,
        record {
          once = λ i. omega (arith, waiting-append i r.shared.pending p, ap (count i) f, one i);
          fresh = λ i l.
              omega
                (arith, waiting-append i r.shared.pending p, ap (count i) f, fresh i (omega arith));
          pages = g;
        },
      )

  -- A registration for a valid capacity, while slot numbers last, faults nowhere and keeps the
  -- receiver in order: the new lane has a slot that no other lane has.
  pub register_sender-ReceiverOk :
      (max_lanes capacity : ℕ) (r : Receiver A)
      → ReceiverOk r
      → r.shared.registry.next_slot + 1 < word
      → 0 < capacity
      → capacity ≤ 2 ^ 62
      → Ensures (register_sender max_lanes capacity r) (λ p. ReceiverOk p.1)
  unfolding register_sender
  register_sender-ReceiverOk max_lanes capacity r (ok_r, shared) room pos small =
      let (size, consumer, made, v, _, _) = spsc-Refines {A = A} capacity pos small in
      let (key, taken) = take_key r.shared.registry in
      let (grown, e, pages, _, _, _, _, _, _, free, next) =
        allocate_lane-PagesOk r.shared.registry shared.1.pages in
      let right =
        take_from-TakenOk r.lanes r.shared.pending r.shared.registry r.shared.registry.free refl
          room shared.1 in
      elim (Bool-cases (not r.shared.receiver_alive)) [
        | inl gone ↦ rw gone (ok_r, shared)
        | inr alive ↦ rw alive (elim (Bool-cases (leb max_lanes r.shared.registered_lanes)) [
          | inl many ↦ rw many (ok_r, shared)
          | inr few ↦ rw few (
              rw made (
                rw e (
                  ok_r,
                  registered-SharedOk r consumer size key taken grown shared v right free next
                      pages,
                )))
        ])
      ]
