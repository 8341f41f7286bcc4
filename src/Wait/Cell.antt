-- ===== src/Wait/Cell.antt =====
-- `WaitCell` of src/wait.rs: one waiter and any number of notifiers, without the asynchronous waker.
-- The waiter follows the loop of src/blocking.rs: register, recheck, park, unregister. The mutex makes
-- the comparison with the snapshot and the sleep one step, and a notifier's look at WAITING and its
-- signal another.
use fanring_rs.Base.{ℕ, suc, ◌≡◌, ◌≢◌, Bool, true, false, ◌==◌, if◌then◌else◌}

-- Outside a wait; registered with a snapshot of the generation; rechecked without success; asleep on
-- the condition variable; about to drop its registration.
pub data Waiter : Type 0 where
  running : Waiter
  registered : (snapshot : ℕ) → Waiter
  rechecked : (snapshot : ℕ) → Waiter
  asleep : Waiter
  leaving : Waiter

-- Outside a notification; with its change published; with the generation advanced, past a set
-- WAITING bit and before the mutex.
pub data Notifier : Type 0 where
  resting : Notifier
  published : Notifier
  signalling : Notifier

-- `generation` holds the higher bits of the state and `waiting` its low bit. `ready` is the condition
-- that the waiter waits for.
pub record WaitCell : Type 0 where
  pub waiter : Waiter
  pub notifiers : ℕ → Notifier
  pub generation : ℕ
  pub waiting : Bool
  pub ready : Bool

abbrev pub update : ℕ → Notifier → (ℕ → Notifier) → ℕ → Notifier
update i n notifiers = λ j. if j == i then n else notifiers j

-- `notify`: the advance tells whether WAITING was set.
abbrev pub after_advance : Bool → Notifier
after_advance waiting = if waiting then signalling else resting

-- `notify_waiter`: `notify_one` wakes a sleeper.
abbrev pub wake : Bool → Waiter → Waiter
wake waiting asleep = if waiting then leaving else asleep
wake waiting w = w

-- The state has 63 bits for the generation, which is taken not to come round.
pub data Step : WaitCell → WaitCell → Type 0 where
  prepare :
      (c : WaitCell)
      → c.waiter ≡ running
      → Step c (record c { waiter = registered c.generation; waiting = true })
  find :
      (c : WaitCell) (snapshot : ℕ)
      → c.waiter ≡ registered snapshot
      → c.ready ≡ true
      → Step c (record c { waiter = leaving; ready = false })
  miss :
      (c : WaitCell) (snapshot : ℕ)
      → c.waiter ≡ registered snapshot
      → c.ready ≡ false
      → Step c (record c { waiter = rechecked snapshot })
  sleep :
      (c : WaitCell) (snapshot : ℕ)
      → c.waiter ≡ rechecked snapshot
      → snapshot ≡ c.generation
      → Step c (record c { waiter = asleep })
  stay :
      (c : WaitCell) (snapshot : ℕ)
      → c.waiter ≡ rechecked snapshot
      → snapshot ≢ c.generation
      → Step c (record c { waiter = leaving })
  -- A spurious wakeup, or the end of a timeout.
  stir : (c : WaitCell) → c.waiter ≡ asleep → Step c (record c { waiter = leaving })
  unregister :
      (c : WaitCell) → c.waiter ≡ leaving → Step c (record c { waiter = running; waiting = false })
  publish :
      (c : WaitCell) (i : ℕ)
      → c.notifiers i ≡ resting
      → Step c (record c { notifiers = update i published c.notifiers; ready = true })
  advance :
      (c : WaitCell) (i : ℕ)
      → c.notifiers i ≡ published
      → Step c (record c {
        notifiers = update i (after_advance c.waiting) c.notifiers;
        generation = suc c.generation;
      })
  signal :
      (c : WaitCell) (i : ℕ)
      → c.notifiers i ≡ signalling
      → Step c
          (record c { waiter = wake c.waiting c.waiter; notifiers = update i resting c.notifiers })

abbrev pub new : WaitCell
new = record {
  waiter = running;
  notifiers = λ i. resting;
  generation = 0;
  waiting = false;
  ready = false;
}

pub data Steps : WaitCell → WaitCell → Type 0 where
  stop : (c : WaitCell) → Steps c c
  more : {c d e : WaitCell} → Steps c d → Step d e → Steps c e
