-- ===== src/Receiver/Returns.antt =====
-- A nonblocking receive is through after as many rounds as there are lanes to poll, and one more.
use fanring_rs.Base.{ℕ, ◌<◌, ◌≢◌, arith, Option, none, some, Result, Ensures, Ensures-weaken}
use fanring_rs.Error.{TryRecvError}
use fanring_rs.Registry.Defs.{LaneKey}
use fanring_rs.Receiver.Defs.{Receiver}
use fanring_rs.Receiver.Receive.{release, try_recv, try_recv_fair}
use fanring_rs.Receiver.Adopt.{ReceiverOk}
use fanring_rs.Receiver.Weight.{weight}
use fanring_rs.Receiver.Fair.{try_recv_fair-ServedOk}
use fanring_rs.Receiver.Serve.{ServedOk, try_recv-ServedOk}

module _ {ℓ κ} {A : Type ℓ} {O : Type κ} (item : Receiver A → LaneKey → A → O) where
  -- It has an answer, and the receiver is in order.
  abbrev pub Answered : Option (Result O TryRecvError) × Receiver A → Type (ℓ ⊔ κ)
  Answered (answer, r) = (answer ≢ none) × ReceiverOk r

  served-Answered :
      (fuel m : ℕ)
      → m < fuel
      → (o : Option (Result O TryRecvError) × Receiver A) → ServedOk item fuel m o
      → Answered o
  served-Answered fuel m h (none, r) (v, out) = absurd (omega arith)
  served-Answered fuel m h (some a, r) v = (λ e. cc, v)

  -- A nonblocking receive of a receiver in order, plain or fair, never faults and returns: with fuel
  -- above the number of lanes that are queued, marked or not yet adopted it has an answer, and the
  -- receiver is in order again.
  pub try_recv-returns :
      (fuel : ℕ) (r : Receiver A)
      → ReceiverOk r
      → weight r < fuel
      → Ensures (try_recv (release item) fuel r) Answered
        × Ensures (try_recv_fair (release item) fuel r) Answered
  try_recv-returns fuel r v h = (
    Ensures-weaken (try_recv (release item) fuel r) (ServedOk item fuel (weight r)) Answered
        (try_recv-ServedOk item fuel r v) (served-Answered fuel (weight r) h),
    Ensures-weaken (try_recv_fair (release item) fuel r) (ServedOk item fuel (weight r)) Answered
        (try_recv_fair-ServedOk item fuel r v) (served-Answered fuel (weight r) h),
  )
