-- ===== src/Receiver/Collect.antt =====
-- src/mpsc/receiver/registry.rs: how the receiver adopts new lanes and finds ready ones.
use fanring_rs.Base.{
  ℕ, zero, suc, ◌+◌, ◌-◌, ◌*◌, Bool, true, false, not, ◌&&◌, Option, none, some, List, [], ◌∷◌,
  ◌++◌, length, replicate, set, get_elem?, ◌==◌, ltb, if◌then◌else◌, Access, done, ◌>>=◌,
}
use fanring_rs.Lane.Defs.{Lane}
use fanring_rs.Lane.Defs
use fanring_rs.Registry.Defs.{lanes_per_page, pages_per_group}
use fanring_rs.Receiver.Index.{is_zero, while_bits, take_group, take_page, Word}
use fanring_rs.Receiver.Defs.{
  Receiver, Keyed, PendingLane, lane_at, put_lane, is_paused, retire_lane, is_disconnected,
}

-- `resize`, to a length that is no less.
abbrev pub resize {ℓ} : {A : Type ℓ} → List A → ℕ → A → List A
resize xs size x = xs ++ replicate (size - length xs) x

module _ {ℓ} {A : Type ℓ} where
  abbrev pub lane_of : PendingLane A → Keyed A
  lane_of p = record { key = p.key; lane = Defs.new p.consumer p.signalled; spaces = 0 }

  -- A new lane in its slot, which grows the tables.
  unfoldable pub adopt : PendingLane A → Receiver A → Receiver A
  adopt p r = record r {
    lanes = set (resize r.lanes (suc p.key.slot) none) p.key.slot (some (lane_of p));
    paused = set (resize r.paused (suc p.key.slot) false) p.key.slot false;
  }

  unfoldable pub adopt_all : List (PendingLane A) → Receiver A → Receiver A
  adopt_all [] r = r
  adopt_all (p ∷ ps) r = adopt_all ps (adopt p r)

  unfoldable pub refresh_registry : Receiver A → Receiver A
  refresh_registry r =
      let taken = record r {
        shared = record r.shared { pending = [] };
        groups = r.shared.registry.groups;
        pages = r.shared.registry.pages;
        seen_registry_generation = r.shared.registry_generation;
      } in
      if r.shared.registry_generation == r.seen_registry_generation
      then r
      else adopt_all r.shared.pending taken

  -- A lane that its page reports joins the rotation, once.
  abbrev pub enqueue_if : Keyed A → ℕ → Receiver A → Bool → Access (Receiver A)
  enqueue_if k slot r paused =
      let queued = put_lane slot (some (record k { lane = record k.lane { queued = true } })) r in
      if not paused && (k.lane.pending && not k.lane.queued)
      then done (record queued { active = r.active ++ (k.key ∷ []) })
      else done r

  abbrev pub enqueue_found : Option (Keyed A) → ℕ → Receiver A → Access (Receiver A)
  enqueue_found none slot r = done r
  enqueue_found (some k) slot r = is_paused r slot >>= enqueue_if k slot r

  unfoldable pub enqueue : ℕ → Receiver A → Access (Receiver A)
  enqueue slot r = enqueue_found (lane_at r.lanes slot) slot r

  abbrev pub visit_lanes : ℕ → Word → Receiver A → Access (Receiver A)
  visit_lanes page_id lane_bits r =
      while_bits (length lane_bits) lane_bits
        (λ lane_bit. enqueue (page_id * lanes_per_page + lane_bit)) r

  -- `self.pages.get(page_id)`, the claim of the page, and the lanes that it reports.
  unfoldable pub visit_page : ℕ → Receiver A → Access (Receiver A)
  visit_page page_id r0 =
      let r = refresh_registry r0 in
      let (lane_bits, index) = take_page page_id r.shared.index in
      let found =
        visit_lanes page_id lane_bits
          (refresh_registry (record r { shared = record r.shared { index = index } })) in
      elim (get_elem? r.pages page_id) [ none ↦ done r | some page ↦ found ]

  -- One round over the groups. `has_ready` and `take_all` see the same word here.
  abbrev pub visit_group : ℕ → Receiver A → Access (Receiver A)
  visit_group group_index r =
      let (page_bits, index) = take_group group_index r.shared.index in
      while_bits (length page_bits) page_bits
        (λ page_bit. visit_page (group_index * pages_per_group + page_bit))
        (record r { shared = record r.shared { index = index } })
      >>= λ r'. done (record r' { ready_group_cursor = suc group_index })

  unfoldable pub collect_groups : ℕ → ℕ → ℕ → Bool → Receiver A → Access (Receiver A)
  collect_groups zero next_group group_count all r = done r
  collect_groups (suc rounds) next_group group_count all r =
      let group_index = if ltb next_group group_count then next_group else 0 in
      let rest = collect_groups rounds (suc group_index) group_count all in
      if is_zero (r.shared.index.group_bits group_index)
      then rest r
      else (visit_group group_index r >>= (λ r'. if all then rest r' else done r'))

  unfoldable pub collect_ready : Bool → Receiver A → Access (Receiver A)
  collect_ready all r0 =
      let r = refresh_registry r0 in
      collect_groups (length r.groups) r.ready_group_cursor (length r.groups) all r

  -- One slot of `retire_empty_paused_lanes`: the lane reloads its window only where it is paused.
  abbrev pub retire_if : Keyed A → ℕ → Receiver A → Bool → Access (Receiver A)
  retire_if k slot r paused =
      let (empty, lane) = Defs.reload_is_empty k.lane in
      let reloaded = put_lane slot (some (record k { lane = lane })) r in
      if paused then done (if empty then retire_lane k.key reloaded else reloaded) else done r

  abbrev pub retire_found_empty : Option (Keyed A) → ℕ → Receiver A → Access (Receiver A)
  retire_found_empty none slot r = done r
  retire_found_empty (some k) slot r = is_paused r slot >>= retire_if k slot r

  -- `for slot in 0..len`, by the slots that are left.
  unfoldable pub retire_empty_from : ℕ → ℕ → Receiver A → Access (Receiver A)
  retire_empty_from zero slot r = done r
  retire_empty_from (suc left) slot r =
      retire_found_empty (lane_at r.lanes slot) slot r >>= retire_empty_from left (suc slot)

  unfoldable pub is_drained : Receiver A → Access (Bool × Receiver A)
  is_drained r =
      let retired =
        retire_empty_from (length r.lanes) 0 r
        >>= (λ r'. done ((r'.shared.registered_lanes == 0), r')) in
      let settled = if r.shared.registered_lanes == 0 then done (true, r) else retired in
      if is_disconnected r then settled else done (false, r)
