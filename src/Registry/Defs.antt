-- ===== src/Registry/Defs.antt =====
-- `Registry` and `allocate_channel_id` of src/mpsc.rs. A group is shared by reference, and known here
-- by its ID and by the number of groups that the registry had made before it, which tells a group
-- from any other, one of the same ID included; a page is known by its ID and its group. The rings of
-- pending lanes are left out.
use fanring_rs.Base.{
  ℕ, zero, suc, ◌+◌, ◌-◌, ◌/◌, Option, none, some, List, [], ◌∷◌, ◌++◌, length, get_elem?, Access,
  done, fault, ◌>>=◌, wrapping_add, word, ltb, if◌then◌else◌,
}

abbrev pub lanes_per_page : ℕ
lanes_per_page = 64

abbrev pub pages_per_group : ℕ
pages_per_group = 64

pub record LaneKey : Type 0 where
  pub slot : ℕ
  pub generation : ℕ

-- `arc` is the reference: which of the groups made it is.
pub record ReadyGroup : Type 0 where
  pub id : ℕ
  pub arc : ℕ

pub record ReadyPage : Type 0 where
  pub id : ℕ
  pub group : ReadyGroup

-- `free` is a stack: the source's last element first. `made` counts the groups made.
pub record Registry : Type 0 where
  pub free : List LaneKey
  pub made : ℕ
  pub groups : List ReadyGroup
  pub pages : List ReadyPage
  pub next_slot : ℕ

-- The loop of `allocate_channel_id` under no contention, and its error: the counter and the ID.
unfoldable pub allocate_channel_id : ℕ → Access (ℕ × ℕ)
allocate_channel_id current = if ltb (current + 1) word then done (current, current + 1) else fault

-- The key: a freed slot, or the next new one.
abbrev pub take_from : List LaneKey → Registry → LaneKey × Registry
take_from [] r = (
  record { slot = r.next_slot; generation = 0 },
  record r { next_slot = wrapping_add r.next_slot 1 },
)
take_from (key ∷ rest) r = (key, record r { free = rest })

abbrev pub take_key : Registry → LaneKey × Registry
take_key r = take_from r.free r

-- `while self.groups.len() <= group_id`: each round makes a group and appends it.
unfoldable pub grow_groups : ℕ → ℕ → List ReadyGroup → ℕ × List ReadyGroup
grow_groups zero made groups = (made, groups)
grow_groups (suc rounds) made groups =
    grow_groups rounds (made + 1) (groups ++ (record { id = length groups; arc = made } ∷ []))

unfoldable pub groups_to : ℕ → ℕ → List ReadyGroup → ℕ × List ReadyGroup
groups_to group_id made groups = grow_groups (suc group_id - length groups) made groups

-- The element at an index, `fault` out of range.
abbrev pub or_fault {ℓ} : {A : Type ℓ} → Option A → Access A
or_fault none = fault
or_fault (some a) = done a

-- `while self.pages.len() <= page_id`: each round appends one page.
unfoldable pub grow_pages : ℕ → Registry → Access Registry
grow_pages zero r = done r
grow_pages (suc rounds) r =
    let id = length r.pages in
    let (made, groups) = groups_to (id / pages_per_group) r.made r.groups in
    or_fault (get_elem? groups (id / pages_per_group)) >>= λ group. grow_pages rounds (record r {
      made = made;
      groups = groups;
      pages = r.pages ++ (record { id = id; group = group } ∷ []);
    })

unfoldable pub allocate_lane : Registry → Access (LaneKey × ReadyPage × Registry)
allocate_lane r =
    let (key, r') = take_key r in
    let page_id = key.slot / lanes_per_page in
    grow_pages (suc page_id - length r'.pages) r' >>= λ grown.
    or_fault (get_elem? grown.pages page_id) >>= λ page. done (key, page, grown)

unfoldable pub retire_lane : Registry → LaneKey → Registry
retire_lane r key =
    if ltb (key.generation + 1) word
    then record r { free = record { slot = key.slot; generation = key.generation + 1 } ∷ r.free }
    else r
