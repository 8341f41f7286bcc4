-- ===== src/Registry/Keys.antt =====
-- Lane keys are never reused: a history of allocations and retirements, with what became of each slot.
use fanring_rs.Base.{
  ℕ, ◌+◌, ◌≤◌, ◌<◌, ◌≡◌, ◌≢◌, refl, sym, ap, ◌∙◌, true, false, List, [], ◌∷◌, arith, ltb, ◌==◌,
  if◌then◌else◌, Bool-cases, inl, inr, word, wrapping_add, ==→eq, ltb→lt, ltb-false→le,
}
use mathlib.Core.Path.{subst}
use fanring_rs.Registry.Defs.{Registry, LaneKey}
use fanring_rs.Registry.Defs

-- A slot has never been given out, belongs to a lane of some generation, waits with the next
-- generation, or is used up.
pub data Slot : Type 0 where
  unused : Slot
  live : (generation : ℕ) → Slot
  waiting : (generation : ℕ) → Slot
  retired : Slot

abbrev pub Slots : Type 0
Slots = ℕ → Slot

abbrev pub update : ℕ → Slot → Slots → Slots
update slot state slots = λ t. if t == slot then state else slots t

-- What a retirement does to a slot.
abbrev pub after_retire : ℕ → Slot
after_retire generation = if ltb (generation + 1) word then waiting (generation + 1) else retired

-- The registries that a channel goes through, with the slots' states and every key given out so
-- far. A lane is retired once, while it is live; a slot number fits the machine word.
pub data History : Registry → Slots → List LaneKey → Type 0 where
  start : (r : Registry) → r.free ≡ [] → r.next_slot ≡ 0 → History r (λ t. unused) []
  allocate :
      {r : Registry} {slots : Slots} {issued : List LaneKey}
      → History r slots issued
      → r.next_slot + 1 < word
      → History
          (Defs.take_key r).1
          (update (Defs.take_key r).0.slot (live (Defs.take_key r).0.generation) slots)
          ((Defs.take_key r).0 ∷ issued)
  retire :
      {r : Registry} {slots : Slots} {issued : List LaneKey} (key : LaneKey)
      → History r slots issued
      → slots key.slot ≡ live key.generation
      → History
          (Defs.retire_lane r key)
          (update key.slot (after_retire key.generation) slots)
          issued

-- No key of the list has the slot.
abbrev Without : ℕ → List LaneKey → Type 0
Without slot [] = Unit {0}
Without slot (k ∷ ks) = (k.slot ≢ slot) × Without slot ks

-- The free keys have distinct waiting slots.
abbrev FreeOk : Slots → List LaneKey → Type 0
FreeOk slots [] = Unit {0}
FreeOk slots (k ∷ ks) = (slots k.slot ≡ waiting k.generation) × Without k.slot ks × FreeOk slots ks

-- A key given out is no newer than its slot's state.
abbrev Past : Slot → ℕ → Type 0
Past unused n = ⊥
Past (live g) n = n ≤ g
Past (waiting g) n = n < g
Past retired n = Unit {0}

abbrev IssuedOk : Slots → List LaneKey → Type 0
IssuedOk slots [] = Unit {0}
IssuedOk slots (k ∷ ks) = Past (slots k.slot) k.generation × IssuedOk slots ks

record KeysOk (r : Registry) (slots : Slots) (issued : List LaneKey) : Type 0 where
  free_ok : FreeOk slots r.free
  issued_ok : IssuedOk slots issued
  unused_above : (t : ℕ) → r.next_slot ≤ t → slots t ≡ unused

-- The key is none of the list.
abbrev pub Fresh : LaneKey → List LaneKey → Type 0
Fresh k [] = Unit {0}
Fresh k (j ∷ js) = (j ≢ k) × Fresh k js

abbrev pub AllDistinct : List LaneKey → Type 0
AllDistinct [] = Unit {0}
AllDistinct (k ∷ ks) = Fresh k ks × AllDistinct ks

FreeOk-update :
    (s : ℕ) (state : Slot) (slots : Slots) (ks : List LaneKey)
    → Without s ks
    → FreeOk slots ks
    → FreeOk (update s state slots) ks
FreeOk-update s state slots [] w f = tt
FreeOk-update s state slots (k ∷ ks) (ne, w) (e, d, f) =
    let z : (k.slot == s) ≡ false = ground arith in (rw z e, d, FreeOk-update s state slots ks w f)

IssuedOk-update :
    (s : ℕ) (state : Slot) (slots : Slots) (ks : List LaneKey)
    → ((n : ℕ) → Past (slots s) n → Past state n)
    → IssuedOk slots ks
    → IssuedOk (update s state slots) ks
IssuedOk-update s state slots [] up h = tt
IssuedOk-update s state slots (k ∷ ks) up (p, h) = (
  elim (Bool-cases (k.slot == s)) [
    | inl same ↦
        rw same (up k.generation (subst (λ t. Past (slots t) k.generation) (==→eq _ _ same) p))
    | inr other ↦ rw other p
  ],
  IssuedOk-update s state slots ks up h,
)

update-at : (s : ℕ) (state : Slot) (slots : Slots) → update s state slots s ≡ state
update-at s state slots = let z : (s == s) ≡ true = ground arith in rw z refl

update-above :
    (s : ℕ) (state : Slot) (slots : Slots) (n : ℕ)
    → s < n
    → ((t : ℕ) → n ≤ t → slots t ≡ unused)
    → (t : ℕ) → n ≤ t
    → update s state slots t ≡ unused
update-above s state slots n h above t le =
    let z : (t == s) ≡ false = ground arith in rw z (above t le)

-- A slot that is in use lies below the next one.
used-below :
    (n s : ℕ) (slots : Slots) → ((t : ℕ) → n ≤ t → slots t ≡ unused) → slots s ≢ unused → s < n
used-below n s slots above used = elim (Bool-cases (ltb s n)) [
  | inl h ↦ ltb→lt _ _ h
  | inr h ↦ absurd (used (above s (ltb-false→le _ _ h)))
]

live-Without :
    (s g : ℕ) (slots : Slots) (ks : List LaneKey)
    → slots s ≡ live g
    → FreeOk slots ks
    → Without s ks
live-Without s g slots [] e f = tt
live-Without s g slots (k ∷ ks) e (w, d, f) = (
  (λ same. absurd (live-ne-waiting (sym e ∙ ap slots (sym same) ∙ w))),
  live-Without s g slots ks e f,
)
  where
    live-ne-waiting : {a b : ℕ} → live a ≢ waiting b
    live-ne-waiting p = cc

waiting-used : (g : ℕ) → waiting g ≢ unused
waiting-used g p = cc

live-used : (g : ℕ) → live g ≢ unused
live-used g p = cc

-- The key that is taken is live from then on, and the registry stays consistent.
take_from-KeysOk :
    (free : List LaneKey) (r : Registry) (slots : Slots) (issued : List LaneKey)
    → r.free ≡ free
    → FreeOk slots free
    → IssuedOk slots issued
    → ((t : ℕ) → r.next_slot ≤ t → slots t ≡ unused)
    → r.next_slot + 1 < word
    → let key = (Defs.take_from free r).0 in
      KeysOk (Defs.take_from free r).1 (update key.slot (live key.generation) slots) (key ∷ issued)
take_from-KeysOk [] r slots issued e f i above h =
    let none_used : slots r.next_slot ≡ unused = above r.next_slot (omega arith) in
    let next : wrapping_add r.next_slot 1 ≡ r.next_slot + 1 = omega arith in
    record {
      free_ok = rw e tt;
      issued_ok = (
        rw (update-at r.next_slot (live 0) slots) (omega arith),
        IssuedOk-update r.next_slot (live 0) slots issued (λ n p. absurd (rw none_used at p)) i,
      );
      unused_above = rw next (
          update-above r.next_slot (live 0) slots (r.next_slot + 1) (omega arith)
            (λ t le. above t (omega arith)));
    }
take_from-KeysOk (key ∷ rest) r slots issued e (w, d, f) i above h =
    let below : key.slot < r.next_slot =
      used-below r.next_slot key.slot slots above (λ u. waiting-used _ (sym w ∙ u)) in
    record {
      free_ok = FreeOk-update key.slot (live key.generation) slots rest d f;
      issued_ok = (
        rw (update-at key.slot (live key.generation) slots) (omega arith),
        IssuedOk-update key.slot (live key.generation) slots issued
            (λ n p. let p' : n < key.generation = rw w at p in omega arith) i,
      );
      unused_above = update-above key.slot (live key.generation) slots r.next_slot below above;
    }

retire-up : (g n : ℕ) → Past (live g) n → Past (after_retire g) n
retire-up g n p = elim (Bool-cases (ltb (g + 1) word)) [
  | inl h ↦ rw h (omega arith)
  | inr h ↦ rw h tt
]

retire_lane-KeysOk :
    (r : Registry) (slots : Slots) (issued : List LaneKey) (key : LaneKey)
    → KeysOk r slots issued
    → slots key.slot ≡ live key.generation
    → KeysOk (Defs.retire_lane r key) (update key.slot (after_retire key.generation) slots) issued
unfolding Defs.retire_lane
retire_lane-KeysOk r slots issued key v e =
    let without = live-Without key.slot key.generation slots r.free e v.free_ok in
    let below =
      used-below r.next_slot key.slot slots v.unused_above (λ u. live-used _ (sym e ∙ u)) in
    let i =
      IssuedOk-update key.slot (after_retire key.generation) slots issued
        (λ n p. retire-up key.generation n (subst (λ t. Past t n) e p)) v.issued_ok in
    let a =
      update-above key.slot (after_retire key.generation) slots r.next_slot below v.unused_above in
    elim (Bool-cases (ltb (key.generation + 1) word)) [
      | inl again ↦
          let state = waiting (key.generation + 1) in
          rw again record {
            free_ok = (
              update-at key.slot state slots,
              without,
              FreeOk-update key.slot state slots r.free without v.free_ok,
            );
            issued_ok = rw again at i;
            unused_above = rw again at a;
          }
      | inr last ↦ rw last record {
        free_ok = FreeOk-update key.slot retired slots r.free without v.free_ok;
        issued_ok = rw last at i;
        unused_above = rw last at a;
      }
    ]

history-KeysOk :
    (r : Registry) (slots : Slots) (issued : List LaneKey)
    → History r slots issued
    → KeysOk r slots issued
history-KeysOk _ _ _ (start r e n) = record {
  free_ok = rw e tt;
  issued_ok = tt;
  unused_above = λ t le. refl;
}
history-KeysOk _ _ _ (allocate {r} {slots} {issued} past h) =
    let v = history-KeysOk r slots issued past in
    take_from-KeysOk r.free r slots issued refl v.free_ok v.issued_ok v.unused_above h
history-KeysOk _ _ _ (retire {r} {slots} {issued} key past e) =
    retire_lane-KeysOk r slots issued key (history-KeysOk r slots issued past) e

-- A slot's next key is newer than all that were given out.
waiting-Fresh :
    (slots : Slots) (k : LaneKey) (issued : List LaneKey)
    → slots k.slot ≡ waiting k.generation
    → IssuedOk slots issued
    → Fresh k issued
waiting-Fresh slots k [] e i = tt
waiting-Fresh slots k (j ∷ js) e (p, i) = (
  (λ same.
      let p' : Past (slots k.slot) k.generation =
        subst (λ x. Past (slots x.slot) x.generation) same p in
      let lt : k.generation < k.generation = subst (λ t. Past t k.generation) e p' in
      absurd (omega arith)),
  waiting-Fresh slots k js e i,
)

unused-Fresh :
    (slots : Slots) (k : LaneKey) (issued : List LaneKey)
    → slots k.slot ≡ unused
    → IssuedOk slots issued
    → Fresh k issued
unused-Fresh slots k [] e i = tt
unused-Fresh slots k (j ∷ js) e (p, i) = (
  (λ same.
      let p' : Past (slots k.slot) k.generation =
        subst (λ x. Past (slots x.slot) x.generation) same p in
      subst (λ t. Past t k.generation) e p'),
  unused-Fresh slots k js e i,
)

take_from-Fresh :
    (free : List LaneKey) (r : Registry) (slots : Slots) (issued : List LaneKey)
    → FreeOk slots free
    → IssuedOk slots issued
    → ((t : ℕ) → r.next_slot ≤ t → slots t ≡ unused)
    → Fresh (Defs.take_from free r).0 issued
take_from-Fresh [] r slots issued f i above =
    unused-Fresh slots (record { slot = r.next_slot; generation = 0 }) issued
      (above r.next_slot (omega arith)) i
take_from-Fresh (key ∷ rest) r slots issued (w, d, f) i above = waiting-Fresh slots key issued w i

-- The keys given out over the life of a channel are all different: a sender's key is never that of
-- another, however slots are reused, and a slot with no generation left stays unused.
pub issued-AllDistinct :
    (r : Registry) (slots : Slots) (issued : List LaneKey)
    → History r slots issued
    → AllDistinct issued
issued-AllDistinct _ _ _ (start r e n) = tt
issued-AllDistinct _ _ _ (allocate {r} {slots} {issued} past h) =
    let v = history-KeysOk r slots issued past in
    (
      take_from-Fresh r.free r slots issued v.free_ok v.issued_ok v.unused_above,
      issued-AllDistinct r slots issued past,
    )
issued-AllDistinct _ _ _ (retire {r} {slots} {issued} key past e) =
    issued-AllDistinct r slots issued past
