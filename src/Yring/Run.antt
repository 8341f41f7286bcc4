-- ===== src/Yring/Run.antt =====
-- Any sequence of producer and consumer operations on one ring, in any interleaving.
use fanring_rs.Base.{
  ℕ, ◌≤◌, ◌<◌, ◌^◌, ◌*◌, min, ◌≡◌, refl, sym, ap, ◌∙◌, Bool, true, false, Option, none, some, List,
  [], ◌∷◌, ◌++◌, arith, length, take, drop, if◌then◌else◌, Result, ok, err, Access, done, ◌>>=◌,
  append-nil, append_assoc, take-append-drop,
}
use fanring_rs.Yring.Types.{Spsc}
use fanring_rs.Yring.Ring
use fanring_rs.Yring.Queue
use fanring_rs.Yring.Queue.{Queue, contents, used}
use fanring_rs.Yring.Producer
use fanring_rs.Yring.Consumer
use fanring_rs.Yring.Sim.{Refines, contents-fit}
use fanring_rs.Yring.Sim.Push.{push-Refines}
use fanring_rs.Yring.Sim.Flush.{
  flush-Refines, flush_and_check-Refines, contents-flush, is_full-Refines,
}
use fanring_rs.Yring.Sim.Pop.{pop-Refines, prefetch-Refines, release-Refines, contents-prefetch}
use fanring_rs.Yring.Sim.Receive.{release_with_full-Refines, is_empty-Refines}
use fanring_rs.Yring.New.{spsc-Refines}
use fanring_rs.Yring.Sim.Bulk.{pop_into-Refines}

-- An operation of one of the endpoints.
pub data Op {ℓ} (A : Type ℓ) : Type ℓ where
  push : A → Op A
  flush : Op A
  flush_and_check : Op A
  is_full : Op A
  prefetch : Op A
  pop : Op A
  pop_into : (limit : ℕ) → Op A
  release : Op A
  release_with_full : Op A
  is_empty : Op A

-- What went in and what came out, in order.
pub record Trace {ℓ} (A : Type ℓ) : Type ℓ where
  pub accepted : List A
  pub received : List A

module _ {ℓ} {A : Type ℓ} where
  abbrev nothing : Trace A
  nothing = record { accepted = []; received = [] }

  abbrev pub join : Trace A → Trace A → Trace A
  join t u = record { accepted = t.accepted ++ u.accepted; received = t.received ++ u.received }

  abbrev of_push : A → Result (Unit {0}) A → Trace A
  of_push x (ok _) = record nothing { accepted = x ∷ [] }
  of_push x (err _) = nothing

  abbrev of_pop : Option A → Trace A
  of_pop none = nothing
  of_pop (some x) = record nothing { received = x ∷ [] }

  unfoldable pub step : Spsc A → Op A → Access (Trace A × Spsc A)
  step s (push x) = Producer.push s x >>= λ (result, s'). done (of_push x result, s')
  step s flush = done (nothing, Producer.flush s)
  step s flush_and_check = done (nothing, (Producer.flush_and_check s).1)
  step s is_full = done (nothing, (Producer.is_full s).1)
  step s prefetch = done (nothing, (Consumer.prefetch s).1)
  step s pop = Consumer.pop s >>= λ (val, s'). done (of_pop val, s')
  step s (pop_into limit) =
      Consumer.pop_into s [] limit >>= λ (_, s', out). done (record nothing { received = out }, s')
  step s release = done (nothing, Consumer.release s)
  step s release_with_full = done (nothing, (Consumer.release_with_full s).1)
  step s is_empty = done (nothing, (Consumer.is_empty s).1)

  unfoldable pub run : Spsc A → List (Op A) → Access (Trace A × Spsc A)
  unfolding step
  run s [] = done (nothing, s)
  run s (op ∷ ops) = step s op >>= λ (t, s'). run s' ops >>= λ (u, s''). done (join t u, s'')

  -- What one operation or a sequence of them is to do: keep to some queue, and lose, invent and
  -- reorder nothing.
  pub record Keeps (q : Queue A) (m : Access (Trace A × Spsc A)) : Type ℓ where
    pub trace : Trace A
    pub after : Spsc A
    pub queue : Queue A
    pub runs : m ≡ done (trace, after)
    pub refines : Refines after queue
    pub capacity : queue.capacity ≡ q.capacity
    pub balance : contents q ++ trace.accepted ≡ trace.received ++ contents queue

  quiet :
      (q q' : Queue A) (s : Spsc A)
      → Refines s q'
      → q'.capacity ≡ q.capacity
      → contents q' ≡ contents q
      → Keeps q (done (nothing, s))
  quiet q q' s r c e = record {
    trace = nothing;
    after = s;
    queue = q';
    runs = refl;
    refines = r;
    capacity = c;
    balance = append-nil (contents q) ∙ sym e;
  }

  push-balance :
      (q : Queue A) (x : A) (b : Bool)
      → let m : Result (Unit {0}) A × Queue A =
          if b then (err x, q) else (ok tt, record q { pending = q.pending ++ (x ∷ []) }) in
        (m.1.capacity ≡ q.capacity)
        × (contents q ++ (of_push x m.0).accepted ≡ (of_push x m.0).received ++ contents m.1)
  push-balance q x true = (refl, append-nil (contents q))
  push-balance q x false = (refl, simp append_assoc)

  pop-balance :
      (q : Queue A) (w : List A)
      → q.window ≡ w
      → let m = Queue.pop_from w q in
        (m.1.capacity ≡ q.capacity)
        × (contents q ++ (of_pop m.0).accepted ≡ (of_pop m.0).received ++ contents m.1)
  pop-balance q [] e = (refl, append-nil (contents q))
  pop-balance q (x ∷ xs) e =
      (refl, append-nil (contents q) ∙ ap (λ l. l ++ (q.hidden ++ q.pending)) e)

  pop_many-balance :
      (q : Queue A) (n : ℕ) → contents q ++ [] ≡ take n q.window ++ contents (Queue.pop_many q n).1
  pop_many-balance q n =
      append-nil (contents q)
      ∙ ap (λ l. l ++ (q.hidden ++ q.pending)) (sym (take-append-drop n q.window))
      ∙ append_assoc (take n q.window) (drop n q.window) (q.hidden ++ q.pending)

  step-Keeps : (s : Spsc A) (q : Queue A) (op : Op A) → Refines s q → Keeps q (step s op)
  unfolding step
  step-Keeps s q (push x) r =
      let (s', e, r') = push-Refines s q x r in
      let (c, b) = push-balance q x (Queue.is_full q) in
      record {
        trace = of_push x (Queue.push q x).0;
        after = s';
        queue = (Queue.push q x).1;
        runs = rw e;
        refines = r';
        capacity = c;
        balance = b;
      }
  step-Keeps s q flush r = quiet q _ _ (flush-Refines s q r) refl (contents-flush q)
  step-Keeps s q flush_and_check r =
      quiet q _ _ (flush_and_check-Refines s q r).3 refl (contents-flush q)
  step-Keeps s q is_full r = quiet q q _ (is_full-Refines s q r).1 refl refl
  step-Keeps s q prefetch r = quiet q _ _ (prefetch-Refines s q r).1 refl (contents-prefetch q)
  step-Keeps s q pop r =
      let (s', e, r') = pop-Refines s q r in
      let (c, b) = pop-balance q q.window refl in
      record {
        trace = of_pop (Queue.pop q).0;
        after = s';
        queue = (Queue.pop q).1;
        runs = rw e;
        refines = r';
        capacity = c;
        balance = b;
      }
  step-Keeps s q (pop_into limit) r =
      let (s', e, r') = pop_into-Refines s q [] limit r in
      let n = min (length q.window) limit in
      record {
        trace = record nothing { received = take n q.window };
        after = s';
        queue = (Queue.pop_many q n).1;
        runs = rw e;
        refines = r';
        capacity = refl;
        balance = pop_many-balance q n;
      }
  step-Keeps s q release r = quiet q _ _ (release-Refines s q r) refl refl
  step-Keeps s q release_with_full r = quiet q _ _ (release_with_full-Refines s q r).0 refl refl
  step-Keeps s q is_empty r = quiet q q _ (is_empty-Refines s q r).1 refl refl

  join-balance :
      (a b c : List A) (t u : Trace A)
      → a ++ t.accepted ≡ t.received ++ b
      → b ++ u.accepted ≡ u.received ++ c
      → a ++ (join t u).accepted ≡ (join t u).received ++ c
  join-balance a b c t u p r =
      sym (append_assoc a t.accepted u.accepted)
      ∙ ap (λ l. l ++ u.accepted) p
      ∙ append_assoc t.received b u.accepted
      ∙ ap (λ l. t.received ++ l) r
      ∙ sym (append_assoc t.received u.received c)

  -- Every sequence of operations on a ring that stands for a queue runs to its end, and what was
  -- in the queue with what was accepted is what was received with what is left, in order.
  pub run-Keeps : (s : Spsc A) (q : Queue A) (ops : List (Op A)) → Refines s q → Keeps q (run s ops)
  unfolding run
  run-Keeps s q [] r = quiet q q s r refl refl
  run-Keeps s q (op ∷ ops) r =
      let k = step-Keeps s q op r in
      let l = run-Keeps k.after k.queue ops k.refines in
      record {
        trace = join k.trace l.trace;
        after = l.after;
        queue = l.queue;
        runs =
            ap (λ m. m >>= rest) k.runs ∙ ap (λ m. m >>= λ p. done (join k.trace p.0, p.1)) l.runs;
        refines = l.refines;
        capacity = l.capacity ∙ k.capacity;
        balance =
            join-balance (contents q) (contents k.queue) (contents l.queue) k.trace l.trace
              k.balance l.balance;
      }
    where
      rest : Trace A × Spsc A → Access (Trace A × Spsc A)
      rest (t, s') = run s' ops >>= λ (u, s''). done (join t u, s'')

  -- For a capacity from 1 to 2 ^ 62, on the ring that `spsc` makes, every interleaving of the two
  -- endpoints' operations runs without touching an empty slot or leaving the buffer. What was
  -- received is a prefix of what was accepted, and the accepted values still inside number at most
  -- the capacity of the ring, which is at least the one asked for and less than twice that.
  pub fifo_prefix :
      (capacity : ℕ) (ops : List (Op A))
      → 0 < capacity
      → capacity ≤ 2 ^ 62
      → (s : Spsc A) × (s' : Spsc A) × (t : Trace A) × (size : ℕ) × (left : List A) × (Producer.spsc
            capacity
          ≡ some s)
        × (Ring.capacity s.ring ≡ size)
        × (capacity ≤ size)
        × (size < 2 * capacity)
        × (run s ops ≡ done (t, s'))
        × (t.accepted ≡ t.received ++ left)
        × (length left ≤ size)
  fifo_prefix capacity ops pos small =
      let (size, s, made, r, reached, below) = spsc-Refines capacity pos small in
      let k = run-Keeps s (Queue.new size) ops r in
      let (g, v) = k.refines in
      let (h, w) = r in
      (
        s,
        k.after,
        k.trace,
        size,
        contents k.queue,
        made,
        omega arith,
        reached,
        below,
        k.runs,
        k.balance,
        omega (arith, contents-fit g k.after k.queue v, k.capacity),
      )
