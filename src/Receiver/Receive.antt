-- ===== src/Receiver/Receive.antt =====
-- The nonblocking receives of src/mpsc/receiver.rs. `item` is `ReceiveOutput::item` of
-- src/mpsc/receiver/lane_control.rs, the view of a received value, and a part of `Build`.
use fanring_rs.Base.{
  ℕ, zero, suc, Bool, true, false, not, ◌&&◌, ◌||◌, Option, none, some, List, [], ◌∷◌, ◌++◌, ◌==◌,
  if◌then◌else◌, Result, ok, err, Access, done, fault, ◌>>=◌, wrapping_sub,
}
use fanring_rs.Error.{TryRecvError}
use fanring_rs.Lane.Defs.{Lane, LanePoll, poll, grant_fast, pop_fast, pop_fair}
use fanring_rs.Registry.Defs.{LaneKey, ReadyGroup}
use fanring_rs.Receiver.Index.{Index, is_zero}
use fanring_rs.Receiver.Defs.{
  Receiver, Keyed, LaneId, lane_at, current, put_lane, notify_released, retire_lane,
  ready_poll_interval,
}
use fanring_rs.Receiver.Collect.{collect_ready, is_drained}

-- The result, and the lane whose sender is to be notified.
abbrev pub Answer {ℓ} : Type ℓ → Type ℓ
Answer O = Result O TryRecvError × Option LaneKey

abbrev pub is_empty : List LaneKey → Bool
is_empty [] = true
is_empty (k ∷ ks) = false

-- `self.groups.iter().any(|group| group.has_ready())`
abbrev pub any_ready : List ReadyGroup → Index → Bool
any_ready [] x = false
any_ready (group ∷ groups) x = not (is_zero (x.group_bits group.id)) || any_ready groups x

-- The view of a received value, and whether the program is built with overflow checks.
pub record Build {ℓ κ} (A : Type ℓ) (O : Type κ) : Type (ℓ ⊔ κ) where
  pub item : Receiver A → LaneKey → A → O
  pub overflow_checks : Bool

-- A build without overflow checks, as by the release profile.
abbrev pub release {ℓ κ} : {A : Type ℓ} {O : Type κ} → (Receiver A → LaneKey → A → O) → Build A O
release item = record { item = item; overflow_checks = false }

module _ {ℓ} {A : Type ℓ} where
  abbrev pub item_only : Receiver A → LaneKey → A → A
  item_only r key value = value

  abbrev pub with_lane_id : Receiver A → LaneKey → A → LaneId × A
  with_lane_id r key value = (record { key = key; channel_id = r.shared.channel_id }, value)

  abbrev pub poll_found :
      Bool → LaneKey → Receiver A → Option (Keyed A) → Access (LanePoll A × Receiver A)
  poll_found fair key r none = done (LanePoll.stale, r)
  poll_found fair key r (some k) =
      poll fair k.lane
      >>= (λ (p, lane). done (p, put_lane key.slot (some (record k { lane = lane })) r))

  unfoldable pub poll_lane : Bool → LaneKey → Receiver A → Access (LanePoll A × Receiver A)
  poll_lane fair key r = poll_found fair key r (current r key)

  -- `self.items_until_ready_poll -= 1`: below zero it panics under overflow checks, and wraps without.
  unfoldable pub spend_item : (overflow_checks : Bool) → Receiver A → Access (Receiver A)
  spend_item overflow_checks r =
      if overflow_checks && (r.items_until_ready_poll == 0)
      then fault
      else done (record r { items_until_ready_poll = wrapping_sub r.items_until_ready_poll 1 })

  module _ {κ} {O : Type κ} (b : Build A O) where
    -- `none` is the next round of the loop.
    abbrev pub after_poll :
        LaneKey → LanePoll A × Receiver A → Access (Option (Answer O) × Receiver A)
    after_poll key (LanePoll.item value rotate released, r) =
        let queued = if rotate then r.active ++ (key ∷ []) else key ∷ r.active in
        spend_item b.overflow_checks (record r { active = queued })
        >>= (λ r'. done (some (ok (b.item r' key value), if released then some key else none), r'))
    after_poll key (LanePoll.keep released, r) =
        let r' = record r { active = r.active ++ (key ∷ []) } in
        done (if released then some (err TryRecvError.empty, some key) else none, r')
    after_poll key (LanePoll.idle disconnected released, r) =
        let stop = if released then some (err TryRecvError.empty, some key) else none in
        done (if disconnected then (none, retire_lane key r) else (stop, r))
    after_poll key (LanePoll.stale, r) = done (none, r)

    -- `pop_front` under its `expect`.
    abbrev pub turn_from :
        Bool → List LaneKey → Receiver A → Access (Option (Answer O) × Receiver A)
    turn_from fair [] r = fault
    turn_from fair (key ∷ rest) r =
        poll_lane fair key (record r { active = rest }) >>= after_poll key

    unfoldable pub take_turn : Bool → Receiver A → Access (Option (Answer O) × Receiver A)
    take_turn fair r = turn_from fair r.active r

    abbrev pub nothing_active : Receiver A → Access (Option (Answer O) × Receiver A)
    nothing_active r = is_drained r >>= (λ (drained, r').
        done (
          some (err (if drained then TryRecvError.disconnected else TryRecvError.empty), none),
          r',
        ))

    -- One round of `try_recv_inner`.
    unfoldable pub round : Bool → Receiver A → Access (Option (Answer O) × Receiver A)
    round fair r =
        let found = collect_ready true r >>= (λ r'.
          let turn = take_turn fair r' in
          let nothing = nothing_active r' in if is_empty r'.active then nothing else turn) in
        let polled =
          collect_ready false r
          >>= (λ r'. take_turn fair (record r' { items_until_ready_poll = ready_poll_interval })) in
        let turn = take_turn fair r in
        if is_empty r.active then found else if r.items_until_ready_poll == 0 then polled else turn

    -- `none` where the fuel ran out.
    unfoldable pub try_recv_inner : ℕ → Bool → Receiver A → Access (Option (Answer O) × Receiver A)
    try_recv_inner zero fair r = done (none, r)
    try_recv_inner (suc fuel) fair r = round fair r >>= (λ (answer, r').
        let rest = try_recv_inner fuel fair r' in
        elim answer [ none ↦ rest | some a ↦ done (some a, r') ])

    abbrev pub retries : Answer O → Bool
    retries (err TryRecvError.empty, some key) = true
    retries (err TryRecvError.empty, none) = false
    retries (err TryRecvError.disconnected, released) = false
    retries (ok x, released) = false

    -- The loop around `try_recv_inner`: a released lane is notified, and an empty answer is tried again.
    unfoldable pub recv_loop :
        ℕ → Bool → Receiver A → Access (Option (Result O TryRecvError) × Receiver A)
    recv_loop zero fair r = done (none, r)
    recv_loop (suc fuel) fair r = try_recv_inner (suc fuel) fair r >>= (λ (answer, r').
        elim answer [
          | none ↦ done (none, r')
          | some a ↦
              let told = notify_released a.1 r' in
              let rest = recv_loop fuel fair told in
              if retries a then rest else done (some a.0, told)
        ])

    -- A value from the lane's fast window, or the full path.
    abbrev pub fast_or :
        ℕ
        → Receiver A
        → Keyed A
        → Access (Option (Result O TryRecvError) × Receiver A)
        → Option A × Lane A
        → Access (Option (Result O TryRecvError) × Receiver A)
    fast_or slot r k full (none, lane) = full
    fast_or slot r k full (some value, lane) =
        spend_item b.overflow_checks (put_lane slot (some (record k { lane = lane })) r)
        >>= (λ r'. done (some (ok (b.item r' k.key value)), record r' { fast_slot = slot }))

    -- The front lane opens a window, and keeps it shut where it has none.
    abbrev pub try_front :
        ℕ
        → LaneKey
        → Receiver A
        → Option (Keyed A)
        → Access (Option (Result O TryRecvError) × Receiver A)
    try_front fuel key r none = recv_loop fuel false r
    try_front fuel key r (some k) =
        let granted = grant_fast k.lane r.items_until_ready_poll in
        pop_fast granted >>= (λ (value, lane).
          fast_or key.slot r k
            (recv_loop fuel false (put_lane key.slot (some (record k { lane = lane })) r))
            (value, lane))

    abbrev pub refill_from :
        ℕ → List LaneKey → Receiver A → Access (Option (Result O TryRecvError) × Receiver A)
    refill_from fuel [] r = recv_loop fuel false r
    refill_from fuel (key ∷ rest) r = try_front fuel key r (current r key)

    unfoldable pub try_recv_refill :
        ℕ → Receiver A → Access (Option (Result O TryRecvError) × Receiver A)
    try_recv_refill fuel r =
        let polled = collect_ready false r >>= (λ r'.
          let r'' = record r' { items_until_ready_poll = ready_poll_interval } in
          refill_from fuel r''.active r'') in
        let direct = refill_from fuel r.active r in
        if (r.items_until_ready_poll == 0) && not (is_empty r.active) then polled else direct

    -- `try_recv_output`: an open fast window skips all the rest.
    abbrev pub try_fast :
        ℕ → Receiver A → Option (Keyed A) → Access (Option (Result O TryRecvError) × Receiver A)
    try_fast fuel r none = try_recv_refill fuel r
    try_fast fuel r (some k) = pop_fast k.lane >>= fast_or r.fast_slot r k (try_recv_refill fuel r)

    unfoldable pub try_recv : ℕ → Receiver A → Access (Option (Result O TryRecvError) × Receiver A)
    try_recv fuel r = try_fast fuel r (lane_at r.lanes r.fast_slot)

    -- The fair receive: a lone lane keeps its window, and has nothing to rotate past.
    abbrev pub try_single :
        ℕ
        → LaneKey
        → Receiver A
        → Option (Keyed A)
        → Access (Option (Result O TryRecvError) × Receiver A)
    try_single fuel key r none = recv_loop fuel true r
    try_single fuel key r (some k) = pop_fair k.lane r.items_until_ready_poll >>= (λ (value, lane).
        fast_or key.slot r k
          (recv_loop fuel true (put_lane key.slot (some (record k { lane = lane })) r))
          (value, lane))

    abbrev pub single_from :
        ℕ → List LaneKey → Receiver A → Access (Option (Result O TryRecvError) × Receiver A)
    single_from fuel [] r = recv_loop fuel true r
    single_from fuel (key ∷ []) r = try_single fuel key r (current r key)
    single_from fuel (key ∷ other ∷ rest) r = recv_loop fuel true r

    abbrev pub serve_fair : ℕ → Receiver A → Access (Option (Result O TryRecvError) × Receiver A)
    serve_fair fuel r =
        let ready = record r { items_until_ready_poll = ready_poll_interval } in
        single_from fuel ready.active ready

    unfoldable pub try_recv_fair :
        ℕ → Receiver A → Access (Option (Result O TryRecvError) × Receiver A)
    try_recv_fair fuel r =
        let collected = collect_ready true r >>= serve_fair fuel in
        let direct = serve_fair fuel r in
        if not (r.shared.registry_generation == r.seen_registry_generation)
          || any_ready r.groups r.shared.index
        then collected
        else direct
