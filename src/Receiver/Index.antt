-- ===== src/Receiver/Index.antt =====
-- The ready index of src/ready.rs. A word of 64 bits is the list of its bits, lowest first, and a
-- page or group is known by its index.
use fanring_rs.Base.{
  ℕ, zero, suc, ◌/◌, ◌%◌, Bool, true, false, List, [], ◌∷◌, replicate, set, ◌==◌, if◌then◌else◌,
  Access, done, ◌>>=◌,
}
use fanring_rs.Registry.Defs.{lanes_per_page, pages_per_group}

abbrev pub Word : Type 0
Word = List Bool

abbrev pub no_bits : Word
no_bits = replicate 64 false

abbrev pub is_zero : Word → Bool
is_zero [] = true
is_zero (true ∷ bits) = false
is_zero (false ∷ bits) = is_zero bits

abbrev pub trailing_zeros : Word → ℕ
trailing_zeros [] = 0
trailing_zeros (true ∷ bits) = 0
trailing_zeros (false ∷ bits) = suc (trailing_zeros bits)

-- `bits & (bits - 1)`
abbrev pub clear_lowest : Word → Word
clear_lowest [] = []
clear_lowest (true ∷ bits) = false ∷ bits
clear_lowest (false ∷ bits) = false ∷ clear_lowest bits

-- `while bits != 0`: a round for each bit, with the lowest taken and cleared.
unfoldable pub while_bits {ℓ} : {S : Type ℓ} → ℕ → Word → (ℕ → S → Access S) → S → Access S
while_bits zero bits body s = done s
while_bits (suc fuel) bits body s =
    let rest = body (trailing_zeros bits) s >>= while_bits fuel (clear_lowest bits) body in
    if is_zero bits then done s else rest

pub record Index : Type 0 where
  pub group_bits : ℕ → Word
  pub page_bits : ℕ → Word

abbrev pub put : ℕ → Word → (ℕ → Word) → ℕ → Word
put id word words = λ i. if i == id then word else words i

-- `ReadyGroup::mark` and `ReadyPage::mark`: the first mark of an empty page marks its group.
unfoldable pub mark_page : ℕ → ℕ → Index → Index
mark_page page bit x =
    let group = page / pages_per_group in
    let before = x.page_bits page in
    let marked = record x { page_bits = put page (set before bit true) x.page_bits } in
    if is_zero before
    then record marked {
      group_bits = put group (set (x.group_bits group) (page % pages_per_group) true) x.group_bits;
    }
    else marked

-- `ReadyGroup::take_all` and `ReadyPage::take`.
abbrev pub take_group : ℕ → Index → Word × Index
take_group group x = (x.group_bits group, record x { group_bits = put group no_bits x.group_bits })

abbrev pub take_page : ℕ → Index → Word × Index
take_page page x = (x.page_bits page, record x { page_bits = put page no_bits x.page_bits })

-- The mark of a lane's slot in `LaneSignal::mark`, after IDLE.
abbrev pub mark_slot : ℕ → Index → Index
mark_slot slot x = mark_page (slot / lanes_per_page) (slot % lanes_per_page) x
