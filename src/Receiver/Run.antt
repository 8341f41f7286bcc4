-- ===== src/Receiver/Run.antt =====
-- A channel's receiver over its life: from `build_channel` of src/mpsc.rs through any sequence of its
-- operations and of what senders do.
use fanring_rs.Base.{
  ℕ, zero, suc, ◌+◌, ◌≤◌, get_elem?, ◌<◌, ◌≡◌, refl, sym, ap, arith, true, false, Option, none,
  some, List, [], ◌∷◌, Access, done, ◌>>=◌,
}
use fanring_rs.Yring.Types.{Spsc}
use fanring_rs.Yring.Queue
use fanring_rs.Yring.Queue.{Queue}
use fanring_rs.Yring.Producer
use fanring_rs.Lane.Defs.{new}
use fanring_rs.Yring.Sim.{Refines}
use fanring_rs.Lane.Window.{new-LaneOk}
use fanring_rs.Registry.Defs.{LaneKey, ReadyGroup}
use fanring_rs.Receiver.Index.{no_bits}
use fanring_rs.Receiver.Defs.{Receiver, Keyed, LaneId, lane_at, ready_poll_interval}
use fanring_rs.Receiver.Receive.{release, item_only, try_recv, try_recv_fair}
use fanring_rs.Receiver.Control.{pause, resume, try_recv_from, close_lane}
use fanring_rs.Receiver.Rotation.{AllSound, queued_in}
use fanring_rs.Receiver.Adopt.{ReceiverOk}
use fanring_rs.Receiver.Slots.{occupied}
use fanring_rs.Receiver.Senders.{send_on, drop_on, register_on}
use fanring_rs.Registry.Pages.{group_at, page_at}

module _ {ℓ} {A : Type ℓ} where
  -- The receiver of `build_channel`, on the ring of its first lane.
  unfoldable pub build_receiver : Spsc A → ℕ → Receiver A
  build_receiver consumer channel_id =
      let key : LaneKey = record { slot = 0; generation = 0 } in
      let group : ReadyGroup = record { id = 0; arc = 0 } in
      record {
        shared = record {
          registry = record {
            free = [];
            made = 1;
            groups = group ∷ [];
            pages = record { id = 0; group = group } ∷ [];
            next_slot = 1;
          };
          pending = [];
          registry_generation = 0;
          registered_lanes = 1;
          live_senders = 1;
          receiver_alive = true;
          channel_id = channel_id;
          index = record { group_bits = λ i. no_bits; page_bits = λ i. no_bits };
          notified = 0;
        };
        lanes = some (record { key = key; lane = new consumer false; spaces = 0 }) ∷ [];
        groups = group ∷ [];
        pages = record { id = 0; group = group } ∷ [];
        active = [];
        paused = false ∷ [];
        ready_group_cursor = 0;
        seen_registry_generation = 0;
        items_until_ready_poll = ready_poll_interval;
        fast_slot = 0;
      }

-- An operation of the receiver, a registration of a sender, or a send or the `Drop` of the sender whose
-- lane has a slot, adopted or not.
pub data Operation {ℓ} (A : Type ℓ) : Type ℓ where
  receive : (fuel : ℕ) → Operation A
  receive_fair : (fuel : ℕ) → Operation A
  receive_from : (id : LaneId) → Operation A
  pause_lane : (id : LaneId) → Operation A
  resume_lane : (id : LaneId) → Operation A
  close : (id : LaneId) → Operation A
  register : (max_lanes : ℕ) → Operation A
  send : (slot : ℕ) (value : A) → Operation A
  drop_sender : (slot : ℕ) → Operation A

module _ {ℓ} {A : Type ℓ} where
  abbrev only {κ} : {R : Type κ} → R × Receiver A → Access (Receiver A)
  only (result, r) = done r

  -- `capacity` is the channel's, for each sender.
  unfoldable pub operate : ℕ → Operation A → Receiver A → Access (Receiver A)
  operate capacity (Operation.receive fuel) r = try_recv (release item_only) fuel r >>= only
  operate capacity (Operation.receive_fair fuel) r =
      try_recv_fair (release item_only) fuel r >>= only
  operate capacity (Operation.receive_from id) r = try_recv_from id r >>= only
  operate capacity (Operation.pause_lane id) r = pause id r >>= only
  operate capacity (Operation.resume_lane id) r = resume id r >>= only
  operate capacity (Operation.close id) r = done (close_lane id r).1
  operate capacity (Operation.register max_lanes) r = register_on max_lanes capacity r
  operate capacity (Operation.send slot value) r = send_on slot value r
  operate capacity (Operation.drop_sender slot) r = done (drop_on slot r)

  unfoldable pub run : ℕ → List (Operation A) → Receiver A → Access (Receiver A)
  unfolding operate
  run capacity [] r = done r
  run capacity (o ∷ os) r = operate capacity o r >>= run capacity os

  -- A new ring's lane is the only one, and out of the rotation.
  pub build-ReceiverOk :
      (consumer : Spsc A) (size channel_id : ℕ)
      → Refines consumer (Queue.new size)
      → ReceiverOk (build_receiver consumer channel_id)
  unfolding build_receiver lane_at new
  build-ReceiverOk consumer size channel_id v = (
    record {
      sized = refl;
      counted = outside;
      keyed = slots;
      all_current = tt;
      still = λ i p. sym (outside i);
      sound = lanes_sound;
    },
    (
      tt,
      record {
        once = one_owner;
        fresh = λ i h. unused i h;
        pages = record {
          counted = refl;
          groups_at = λ i lt. first_group i lt;
          pages_at = λ i lt. first_page i lt;
          covered = λ i lt. omega arith;
        };
      },
    ),
  )
    where
      lanes : List (Option (Keyed A))
      lanes = (build_receiver consumer channel_id).lanes

      one_owner : (i : ℕ) → occupied (lane_at lanes i) + 0 + 0 ≤ 1
      one_owner zero = omega arith
      one_owner (suc i) = omega arith

      unused : (i : ℕ) → 1 ≤ i → occupied (lane_at lanes i) + 0 + 0 ≡ 0
      unused zero h = absurd (omega arith)
      unused (suc i) h = refl

      first_group : (i : ℕ) → i < 1 → get_elem? (group_at 0 ∷ []) i ≡ some (group_at i)
      first_group zero lt = refl
      first_group (suc i) lt = absurd (omega arith)

      first_page : (i : ℕ) → i < 1 → get_elem? (page_at 0 ∷ []) i ≡ some (page_at i)
      first_page zero lt = refl
      first_page (suc i) lt = absurd (omega arith)

      outside : (i : ℕ) → 0 ≡ queued_in (lane_at lanes i)
      outside zero = refl
      outside (suc i) = refl

      key_slot : Option (Keyed A) → ℕ
      key_slot none = 0
      key_slot (some k) = k.key.slot

      slots : (i : ℕ) (k : Keyed A) → lane_at lanes i ≡ some k → k.key.slot ≡ i
      slots zero k e = ap key_slot (sym e)
      slots (suc i) k e = cc

      lanes_sound : (i : ℕ) → AllSound (lane_at lanes i)
      lanes_sound zero =
          (Queue.new size, new-LaneOk consumer (Queue.new size) false v refl refl, omega arith)
      lanes_sound (suc i) = tt
