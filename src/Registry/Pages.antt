-- ===== src/Registry/Pages.antt =====
-- The ready pages and groups that the registry grows for a lane.
use fanring_rs.Base.{
  ℕ, zero, suc, ◌+◌, ◌-◌, ◌/◌, ◌≤◌, ◌<◌, ◌≡◌, refl, sym, ap, ◌∙◌, some, List, [], ◌∷◌, ◌++◌, arith,
  length, get_elem?, Access, done, ◌>>=◌, get_elem?-append_left, get_elem?-append_length,
  length-append, Bool-cases, inl, inr, ltb, ltb→lt, ltb-false→le,
}
use mathlib.Core.Path.{subst}
use fanring_rs.Registry.Defs.{
  Registry, LaneKey, ReadyGroup, ReadyPage, lanes_per_page, pages_per_group,
}
use fanring_rs.Registry.Defs

-- The group of an ID in a registry that makes each group once, in order.
abbrev pub group_at : ℕ → ReadyGroup
group_at i = record { id = i; arc = i }

-- The page of an ID, in the group that it belongs to.
abbrev pub page_at : ℕ → ReadyPage
page_at i = record { id = i; group = group_at (i / pages_per_group) }

-- Every group and page stands at its own index, and each group was made once: the groups made are
-- the groups there, and a page's group is the one in the list of groups, not another of its ID.
pub record PagesOk (r : Registry) : Type 0 where
  pub counted : r.made ≡ length r.groups
  pub groups_at : (i : ℕ) → i < length r.groups → get_elem? r.groups i ≡ some (group_at i)
  pub pages_at : (i : ℕ) → i < length r.pages → get_elem? r.pages i ≡ some (page_at i)
  pub covered : (i : ℕ) → i < length r.pages → i / pages_per_group < length r.groups

-- A list that holds at each index what `f` says, also after one more element.
snoc-at {ℓ} :
    {A : Type ℓ} (f : ℕ → A) (xs : List A)
    → ((i : ℕ) → i < length xs → get_elem? xs i ≡ some (f i))
    → (i : ℕ) → i < length (xs ++ (f (length xs) ∷ []))
    → get_elem? (xs ++ (f (length xs) ∷ [])) i ≡ some (f i)
snoc-at f xs h i lt = elim (Bool-cases (ltb i (length xs))) [
  | inl old ↦ get_elem?-append_left xs _ i (ltb→lt _ _ old) ∙ h i (ltb→lt _ _ old)
  | inr new ↦
      let e : i ≡ length xs =
        omega (arith, length-append xs (f (length xs) ∷ []), ltb-false→le _ _ new) in
      get_elem?-append_length xs _ [] i e ∙ ap (λ n. some (f n)) (sym e)
]

abbrev GroupsOk : ℕ × List ReadyGroup → Type 0
GroupsOk (made, groups) =
    (made ≡ length groups) × ((i : ℕ) → i < length groups → get_elem? groups i ≡ some (group_at i))

grow_groups-GroupsOk :
    (rounds made : ℕ) (groups : List ReadyGroup)
    → GroupsOk (made, groups)
    → (length (Defs.grow_groups rounds made groups).1 ≡ length groups + rounds)
      × GroupsOk (Defs.grow_groups rounds made groups)
unfolding Defs.grow_groups
grow_groups-GroupsOk zero made groups h = (omega arith, h)
grow_groups-GroupsOk (suc rounds) made groups (e, h) =
    let more = groups ++ (record { id = length groups; arc = made } ∷ []) in
    let more_at =
      subst
        (λ (n : ℕ).
          (i : ℕ)
          → i < length (groups ++ (record { id = length groups; arc = n } ∷ []))
          → get_elem? (groups ++ (record { id = length groups; arc = n } ∷ [])) i
            ≡ some (group_at i))
        (sym e) (snoc-at group_at groups h) in
    let longer = length-append groups (record { id = length groups; arc = made } ∷ []) in
    let (n, h') = grow_groups-GroupsOk rounds (made + 1) more (omega (arith, longer), more_at) in
    (omega (arith, longer), h')

groups_to-GroupsOk :
    (group_id made : ℕ) (groups : List ReadyGroup)
    → GroupsOk (made, groups)
    → (group_id < length (Defs.groups_to group_id made groups).1)
      × (length groups ≤ length (Defs.groups_to group_id made groups).1)
      × GroupsOk (Defs.groups_to group_id made groups)
unfolding Defs.groups_to
groups_to-GroupsOk group_id made groups h =
    let (n, h') = grow_groups-GroupsOk (suc group_id - length groups) made groups h in
    (omega arith, omega arith, h')

-- One round of the page loop.
abbrev next_page : Registry → Registry
next_page r =
    let id = length r.pages in
    let (made, groups) = Defs.groups_to (id / pages_per_group) r.made r.groups in
    record r { made = made; groups = groups; pages = r.pages ++ (page_at id ∷ []) }

next_page-PagesOk :
    (r : Registry)
    → PagesOk r
    → PagesOk (next_page r) × (length r.groups ≤ length (next_page r).groups)
next_page-PagesOk r v =
    let (room, more, (made, at)) =
      groups_to-GroupsOk (length r.pages / pages_per_group) r.made r.groups
        (v.counted, v.groups_at) in
    (
      record {
        counted = made;
        groups_at = at;
        pages_at = snoc-at page_at r.pages v.pages_at;
        covered = λ i lt. elim (Bool-cases (ltb i (length r.pages))) [
          | inl old ↦ let c = v.covered i (ltb→lt _ _ old) in omega arith
          | inr new ↦
              let e : i ≡ length r.pages = omega (
                arith,
                length-append r.pages (page_at (length r.pages) ∷ []),
                ltb-false→le _ _ new,
              ) in
              subst (λ (n : ℕ). n / pages_per_group < length (next_page r).groups) (sym e) room
        ];
      },
      more,
    )

grow_pages-PagesOk :
    (rounds : ℕ) (r : Registry)
    → PagesOk r
    → (grown : Registry) × (Defs.grow_pages rounds r ≡ done grown)
      × PagesOk grown
      × (length grown.pages ≡ length r.pages + rounds)
      × (length r.groups ≤ length grown.groups)
      × (grown.free ≡ r.free)
      × (grown.next_slot ≡ r.next_slot)
unfolding Defs.grow_pages
grow_pages-PagesOk zero r v = (r, refl, v, omega arith, omega arith, refl, refl)
grow_pages-PagesOk (suc rounds) r v =
    let (room, _, (_, at)) =
      groups_to-GroupsOk (length r.pages / pages_per_group) r.made r.groups
        (v.counted, v.groups_at) in
    let (w, more) = next_page-PagesOk r v in
    let (grown, e, v', n, m, f, s) = grow_pages-PagesOk rounds (next_page r) w in
    (
      grown,
      ap (λ o. Defs.or_fault o >>= k) (at _ room) ∙ e,
      v',
      omega (arith, length-append r.pages (page_at (length r.pages) ∷ [])),
      omega arith,
      f,
      s,
    )
  where
    k : ReadyGroup → Access Registry
    k group =
        let id = length r.pages in
        let (made, groups) = Defs.groups_to (id / pages_per_group) r.made r.groups in
        Defs.grow_pages rounds (record r {
          made = made;
          groups = groups;
          pages = r.pages ++ (record { id = id; group = group } ∷ []);
        })

take_from-pages : (free : List LaneKey) (r : Registry) → (Defs.take_from free r).1.pages ≡ r.pages
take_from-pages [] r = refl
take_from-pages (key ∷ rest) r = refl

take_from-groups :
    (free : List LaneKey) (r : Registry) → (Defs.take_from free r).1.groups ≡ r.groups
take_from-groups [] r = refl
take_from-groups (key ∷ rest) r = refl

take_from-PagesOk :
    (free : List LaneKey) (r : Registry) → PagesOk r → PagesOk (Defs.take_from free r).1
take_from-PagesOk [] r v = record {
  counted = v.counted;
  groups_at = v.groups_at;
  pages_at = v.pages_at;
  covered = v.covered;
}
take_from-PagesOk (key ∷ rest) r v = record {
  counted = v.counted;
  groups_at = v.groups_at;
  pages_at = v.pages_at;
  covered = v.covered;
}

pub allocate_lane-PagesOk :
    (r : Registry)
    → PagesOk r
    → let (key, taken) = Defs.take_key r in
      let page_id = key.slot / lanes_per_page in
      (grown : Registry) × (Defs.allocate_lane r ≡ done (key, page_at page_id, grown))
      × PagesOk grown
      × (page_id < length grown.pages)
      × (length r.pages ≤ length grown.pages)
      × (length r.groups ≤ length grown.groups)
      × ((i : ℕ) → i < length r.groups → get_elem? grown.groups i ≡ get_elem? r.groups i)
      × ((i : ℕ) → i < length r.pages → get_elem? grown.pages i ≡ get_elem? r.pages i)
      × (get_elem? grown.groups (page_id / pages_per_group)
          ≡ some (group_at (page_id / pages_per_group)))
      × (grown.free ≡ taken.free)
      × (grown.next_slot ≡ taken.next_slot)
unfolding Defs.allocate_lane
allocate_lane-PagesOk r v =
    let (key, taken) = Defs.take_key r in
    let page_id = key.slot / lanes_per_page in
    let (grown, e, v', n, more, f, s) =
      grow_pages-PagesOk (suc page_id - length taken.pages) taken (take_from-PagesOk r.free r v) in
    let m = ap length (take_from-pages r.free r) in
    let g = ap length (take_from-groups r.free r) in
    let room : page_id < length grown.pages = omega arith in
    (
      grown,
      ap (λ a. a >>= finish key) e
          ∙ ap (λ o. Defs.or_fault o >>= λ page. done (key, page, grown))
              (v'.pages_at page_id room),
      v',
      room,
      omega arith,
      omega arith,
      λ i lt. v'.groups_at i (omega arith) ∙ sym (v.groups_at i lt),
      λ i lt. v'.pages_at i (omega arith) ∙ sym (v.pages_at i lt),
      v'.groups_at _ (v'.covered page_id room),
      f,
      s,
    )
  where
    finish : LaneKey → Registry → Access (LaneKey × ReadyPage × Registry)
    finish key grown = Defs.or_fault (get_elem? grown.pages (key.slot / lanes_per_page)) >>= λ page.
        done (key, page, grown)
