-- ===== src/Yring/Sim/PopInto.antt =====
-- The bulk moves `pop_into` and `pop_into_while` of a consumer against the queue.
use fanring_rs.Base.{
  ℕ, suc, ◌+◌, ◌-◌, ◌%◌, ◌≤◌, ◌<◌, min, ◌≡◌, sym, ap, ap₂, ◌∙◌, Option, none, some, List, [], ◌∷◌,
  ◌++◌, map, arith, length, set, get_elem?, take, drop, replicate, word, Access, done, ◌>>=◌,
  length-append, append_assoc, append-nil, length-set, length-map, length-take, length-drop,
  length-replicate, take-append-drop, drop-add, take-add,
}
use mathlib.Core.Path.{subst}
use native.Mathlib.Nat.{mod-eq_of_lt, mod-add-mod, mod-lt, mod_self}
use fanring_rs.Yring.Types.{Spsc, Ring}
use fanring_rs.Yring.Queue
use fanring_rs.Yring.Queue.{Queue, contents}
use fanring_rs.Yring.Slots.{
  Holds, Holds-take, fill, fill-append, fill-append-replicate, length-fill,
}
use fanring_rs.Yring.Ring
use fanring_rs.Yring.Consumer
use fanring_rs.Yring.Sim.{Ghost, Sim, Refines, slots, read_pos, index-mod, length-slots}

next_start :
    (cap at start : ℕ)
    → start ≡ at % cap
    → {n : ℕ} → start + suc n ≤ cap
    → 0 < n
    → start + 1 ≡ (at + 1) % cap
next_start cap at start e fits more =
    sym (mod-eq_of_lt {n = start + 1} {m = cap} (omega arith))
    ∙ ap (λ (t : ℕ). (t + 1) % cap) e
    ∙ mod-add-mod at cap 1

read_slot-some {ℓ} :
    {A : Type ℓ} (buf : List (Option A)) (i : ℕ) (x : A)
    → get_elem? buf i ≡ some (some x)
    → Ring.read_slot buf i ≡ done (x, set buf i none)
read_slot-some buf i x e = ground arith

module _ {ℓ} {A : Type ℓ} (cap : ℕ) where
  -- What moving `xs` out of the slots from position `at` on leaves.
  record Moved (buf : List (Option A)) (start at : ℕ) (xs : List A) (ys : List (Option A))
      (dst : List A) : Type ℓ where
    buf' : List (Option A)
    runs : Ring.move_slots buf start (length xs) dst ≡ done (buf', dst ++ xs)
    size : length buf' ≡ cap
    held : Holds cap buf' (at + length xs) (ys ++ replicate (length xs) none)

  -- A run that does not pass the end of the buffer.
  move_slots_lem :
      (xs : List A) (buf : List (Option A)) (start at : ℕ) (ys : List (Option A)) (dst : List A)
      → length buf ≡ cap
      → length xs + length ys ≡ cap
      → (0 < length xs → start ≡ at % cap)
      → start + length xs ≤ cap
      → Holds cap buf at (map some xs ++ ys)
      → Moved buf start at xs ys dst
  unfolding Ring.move_slots
  move_slots_lem [] buf start at ys dst size full here fits h = record {
    buf' = buf;
    runs = rw append-nil;
    size = size;
    held =
        rw append-nil
          (subst (λ (t : ℕ). Holds cap buf t ys) (let e : at ≡ at + 0 = omega arith in e) h);
  }
  move_slots_lem (x ∷ xs) buf start at ys dst size full here fits h =
      let at_start : start ≡ at % cap = here (omega arith) in
      let m =
        move_slots_lem xs (set buf start none) (start + 1) (at + 1) (ys ++ (none ∷ []))
          (dst ++ (x ∷ [])) (omega (arith, length-set buf start none))
          (omega (arith, length-append ys (none ∷ []))) (next_start cap at start at_start fits)
          (omega arith)
          (rw (at_start, ← append_assoc)
            (Holds-take cap buf at (some x) (map some xs ++ ys) size
              (omega (arith, length-append (map some xs) ys, length-map xs filled)) h)) in
      record {
        buf' = m.buf';
        runs =
            ap (λ r. r >>= λ p. Ring.move_slots p.1 (start + 1) (length xs) (dst ++ (p.0 ∷ [])))
              (read_slot-some buf start x (first at_start))
            ∙ m.runs
            ∙ rw append_assoc;
        size = m.size;
        held = rw (← append_assoc ys (none ∷ []) (replicate (length xs) none)) (
            subst
              (λ (t : ℕ). Holds cap m.buf' t ((ys ++ (none ∷ [])) ++ replicate (length xs) none))
              (let e : at + 1 + length xs ≡ at + suc (length xs) = omega arith in e) m.held);
      }
    where
      filled : A → Option A
      filled = some

      first : start ≡ at % cap → get_elem? buf start ≡ some (some x)
      first e = rw e (
          ap (λ (t : ℕ). get_elem? buf (t % cap)) (let z : at ≡ at + 0 = omega arith in z)
          ∙ h 0 (omega arith))

-- Both runs: to the end of the buffer, and on from its start.
module _ {ℓ} {A : Type ℓ} (g : Ghost) (s : Spsc A) (q : Queue A) (v : Sim g s q) where
  module _ (n : ℕ) (fits : n ≤ length q.window) where
    abbrev start : ℕ
    start = Ring.index s.ring s.consumer.head

    start-mod : start ≡ read_pos g q % q.capacity
    start-mod = index-mod g s q v (read_pos g q) s.consumer.head v.read_at

    start-lt : start < q.capacity
    start-lt = omega (arith, start-mod, mod-lt (read_pos g q) {m = q.capacity} (omega arith))

    -- The values of the first and of the second run.
    abbrev front : ℕ
    front = min n (q.capacity - start)

    abbrev xs₁ : List A
    xs₁ = take front q.window

    abbrev xs₂ : List A
    xs₂ = take (n - front) (drop front q.window)

    abbrev later : List A
    later = drop (n - front) (drop front q.window)

    abbrev rest : List A
    rest = later ++ (q.hidden ++ q.pending)

    abbrev free : ℕ
    free = q.capacity - length (contents q)

    abbrev left : List (Option A)
    left = fill rest free

    contents-split : contents q ≡ xs₁ ++ (xs₂ ++ rest)
    contents-split =
        ap (λ l. l ++ (q.hidden ++ q.pending)) (sym (take-append-drop front q.window))
        ∙ ap (λ l. (xs₁ ++ l) ++ (q.hidden ++ q.pending))
            (sym (take-append-drop (n - front) (drop front q.window)))
        ∙ simp append_assoc

    slots-split : slots q ≡ map some xs₁ ++ (map some xs₂ ++ left)
    slots-split =
        ap (λ l. fill l free) contents-split
        ∙ fill-append xs₁ (xs₂ ++ rest) free
        ∙ ap (λ l. map some xs₁ ++ l) (fill-append xs₂ rest free)

    lengths : (length xs₁ ≡ front) × (length xs₂ ≡ n - front)
    lengths = (
      omega (arith, length-take front q.window),
      omega (arith, length-take (n - front) (drop front q.window), length-drop front q.window),
    )

    length-left : front + (n - front) + length left ≡ q.capacity
    length-left =
        let filled : A → Option A = some in
        omega (
          arith,
          ap length slots-split,
          length-append (map some xs₁) (map some xs₂ ++ left),
          length-append (map some xs₂) left,
          length-map xs₁ filled,
          length-map xs₂ filled,
          length-slots g s q v,
          lengths,
        )

    module _ (output : List A) where
      run₁ : Moved q.capacity s.ring.buf start (read_pos g q) xs₁ (map some xs₂ ++ left) output
      run₁ =
          let filled : A → Option A = some in
          move_slots_lem q.capacity xs₁ s.ring.buf start (read_pos g q) (map some xs₂ ++ left)
            output v.size
            (omega (
              arith,
              length-left,
              lengths,
              length-append (map some xs₂) left,
              length-map xs₂ filled,
            ))
            (λ _. start-mod) (omega (arith, lengths, start-lt)) (rw (← slots-split) v.held)

      -- The second run is empty unless the first reached the end of the buffer.
      wrapped : 0 < length xs₂ → 0 ≡ (read_pos g q + length xs₁) % q.capacity
      wrapped more =
          let full : start + length xs₁ ≡ q.capacity = omega (arith, lengths, start-lt) in
          sym (mod_self q.capacity)
          ∙ ap (λ (t : ℕ). t % q.capacity) (sym full)
          ∙ ap (λ (t : ℕ). (t + length xs₁) % q.capacity) start-mod
          ∙ mod-add-mod (read_pos g q) q.capacity (length xs₁)

      run₂ :
          Moved q.capacity run₁.buf' 0
            (read_pos g q + length xs₁)
            xs₂
            (left ++ replicate (length xs₁) none)
            (output ++ xs₁)
      run₂ =
          let empty : Option A = none in
          move_slots_lem q.capacity xs₂ run₁.buf' 0 (read_pos g q + length xs₁)
            (left ++ replicate (length xs₁) none) (output ++ xs₁) run₁.size
            (omega (
              arith,
              length-left,
              lengths,
              length-append left (replicate (length xs₁) empty),
              length-replicate (length xs₁) empty,
            ))
            wrapped (omega (arith, lengths))
            (rw (← append_assoc (map some xs₂) left (replicate (length xs₁) none)) run₁.held)

      abbrev moved : Spsc A
      moved = record s {
        ring = record s.ring { buf = run₂.buf' };
        consumer = record s.consumer { head = (s.consumer.head + n) % word };
      }

      ring_pop_into-moved : Consumer.ring_pop_into s n output ≡ done (moved, (output ++ xs₁) ++ xs₂)
      unfolding Consumer.ring_pop_into
      ring_pop_into-moved =
          ap
            (λ (t : ℕ).
              Ring.move_slots s.ring.buf start (min n (t - start)) output
              >>= (λ p. Ring.move_slots p.0 0 (n - min n (t - start)) p.1 >>= finish)
              >>= keep)
            v.mask
          ∙ ap (λ r. r >>= (λ p. Ring.move_slots p.0 0 (n - front) p.1 >>= finish) >>= keep)
              (ap (λ (t : ℕ). Ring.move_slots s.ring.buf start t output) (sym lengths.0)
                ∙ run₁.runs)
          ∙ ap (λ r. r >>= finish >>= keep)
              (ap (λ (t : ℕ). Ring.move_slots run₁.buf' 0 t (output ++ xs₁)) (sym lengths.1)
                ∙ run₂.runs)
        where
          finish : List (Option A) × List A → Access (Ring A × ℕ × List A)
          finish (buf, out) = done (record s.ring { buf = buf }, (s.consumer.head + n) % word, out)

          keep : Ring A × ℕ × List A → Access (Spsc A × List A)
          keep (ring, head, out) =
              done (record s { ring = ring; consumer = record s.consumer { head = head } }, out)

      moved_contents : contents (Queue.pop_many q n).1 ≡ rest
      moved_contents =
          let whole : n ≡ front + (n - front) = omega arith in
          ap (λ (t : ℕ). drop t q.window ++ (q.hidden ++ q.pending)) whole
          ∙ ap (λ l. l ++ (q.hidden ++ q.pending)) (drop-add front (n - front) q.window)

      moved-slots :
          (left ++ replicate (length xs₁) none) ++ replicate (length xs₂) none
          ≡ slots (Queue.pop_many q n).1
      moved-slots =
          ap (λ l. l ++ replicate (length xs₂) none) (fill-append-replicate rest free (length xs₁))
          ∙ fill-append-replicate rest (free + length xs₁) (length xs₂)
          ∙ ap₂ fill (sym moved_contents)
              (omega (arith, ap length moved_contents, length-left, length-fill rest free, lengths))

      moved-Sim : Sim g moved (Queue.pop_many q n).1
      moved-Sim = record {
        places = omega (arith, length-drop n q.window, run₂.size);
        held = rw (← moved-slots) (
            subst
              (λ (t : ℕ).
                Holds q.capacity run₂.buf' t
                  ((left ++ replicate (length xs₁) none) ++ replicate (length xs₂) none))
              next run₂.held);
        tx_dropped = v.tx_dropped;
        rx_dropped = v.rx_dropped;
      }
        where
          next :
              read_pos g q + length xs₁ + length xs₂
              ≡ g.base + (q.unreleased + min n (length q.window))
          next = omega (arith, lengths)

module _ {ℓ} {A : Type ℓ} where
  -- `ring.pop_into` of values that the window holds.
  pub ring_pop_into_lem :
      (s : Spsc A) (q : Queue A) (n : ℕ) (output : List A)
      → Refines s q
      → n ≤ length q.window
      → (s' : Spsc A) × (Consumer.ring_pop_into s n output ≡ done (s', output ++ take n q.window))
        × Refines s' (Queue.pop_many q n).1
  ring_pop_into_lem s q n output (g, v) fits =
      let whole : n ≡ front g s q v n fits + (n - front g s q v n fits) = omega arith in
      (
        moved g s q v n fits output,
        ring_pop_into-moved g s q v n fits output
            ∙ ap (λ l. done (moved g s q v n fits output, l))
                (append_assoc output _ _
                  ∙ ap (λ l. output ++ l)
                      (sym (take-add (front g s q v n fits) (n - front g s q v n fits) q.window)
                        ∙ ap (λ (t : ℕ). take t q.window) (sym whole))),
        (g, moved-Sim g s q v n fits output),
      )
