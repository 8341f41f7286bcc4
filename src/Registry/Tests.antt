-- ===== src/Registry/Tests.antt =====
-- The properties of the registry at inputs that meet their hypotheses.
use fanring_rs.Base.{refl, [], ◌∷◌, arith}
use fanring_rs.Registry.Defs.{Registry, LaneKey}
use fanring_rs.Registry.Defs
use fanring_rs.Registry.Keys.{History, Slots, AllDistinct, issued-AllDistinct}
use fanring_rs.Registry.Pages.{group_at, page_at}

abbrev empty_registry : Registry
empty_registry = record { free = []; made = 0; groups = []; pages = []; next_slot = 0 }

-- Two senders, the first leaves, and a third takes its slot.
abbrev second_key : LaneKey
second_key = record { slot = 0; generation = 1 }

reused :
    (r : Registry) × (slots : Slots) × History r slots
      (second_key ∷ record { slot = 1; generation = 0 } ∷ record { slot = 0; generation = 0 } ∷ [])
unfolding Defs.retire_lane
reused = (
  _,
  _,
  History.allocate
      (History.retire (record { slot = 0; generation = 0 })
        (History.allocate (History.allocate (History.start empty_registry refl refl) (omega arith))
          (omega arith))
        refl)
      (omega arith),
)

issued-AllDistinct_example :
    AllDistinct
      (second_key ∷ record { slot = 1; generation = 0 } ∷ record { slot = 0; generation = 0 } ∷ [])
issued-AllDistinct_example = issued-AllDistinct reused.0 reused.1 _ reused.2

-- A channel's first page, with every slot of it taken.
abbrev one_page : Registry
one_page = record {
  free = [];
  made = 1;
  groups = group_at 0 ∷ [];
  pages = page_at 0 ∷ [];
  next_slot = 64;
}
