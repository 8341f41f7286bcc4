-- ===== src/Receiver/Defs.antt =====
-- `Receiver` of src/mpsc/receiver.rs with the channel state of src/mpsc.rs that it shares with the
-- senders, and the helpers of the receive paths. Each operation of the receiver is one step: the
-- senders act between operations.
use fanring_rs.Base.{
  ℕ, suc, Bool, true, false, ◌&&◌, Option, none, some, List, [], ◌∷◌, set, get_elem?, ◌==◌,
  if◌then◌else◌, Access, wrapping_sub,
}
use fanring_rs.Yring.Types.{Spsc}
use fanring_rs.Lane.Defs.{Lane}
use fanring_rs.Registry.Defs.{
  LaneKey, Registry, ReadyGroup, ReadyPage, or_fault, retire_lane as free_key,
}
use fanring_rs.Receiver.Index.{Index, mark_slot}

-- `READY_POLL_INTERVAL`
abbrev pub ready_poll_interval : ℕ
ready_poll_interval = 64

pub record LaneId : Type 0 where
  pub key : LaneKey
  pub channel_id : ℕ

-- `pending` is the signal's state; `spaces` counts the notifications of its waiter.
pub record PendingLane {ℓ} (A : Type ℓ) : Type ℓ where
  pub key : LaneKey
  pub signalled : Bool
  pub consumer : Spsc A

-- A lane with its key and the notifications of its space waiter.
pub record Keyed {ℓ} (A : Type ℓ) : Type ℓ where
  pub key : LaneKey
  pub lane : Lane A
  pub spaces : ℕ

pub record Shared {ℓ} (A : Type ℓ) : Type ℓ where
  pub registry : Registry
  pub pending : List (PendingLane A)
  pub registry_generation : ℕ
  pub registered_lanes : ℕ
  pub live_senders : ℕ
  pub receiver_alive : Bool
  pub channel_id : ℕ
  pub index : Index
  pub notified : ℕ

pub record Receiver {ℓ} (A : Type ℓ) : Type ℓ where
  pub shared : Shared A
  pub lanes : List (Option (Keyed A))
  pub groups : List ReadyGroup
  pub pages : List ReadyPage
  pub active : List LaneKey
  pub paused : List Bool
  pub ready_group_cursor : ℕ
  pub seen_registry_generation : ℕ
  pub items_until_ready_poll : ℕ
  pub fast_slot : ℕ

unfoldable pub key_eq : LaneKey → LaneKey → Bool
key_eq a b = (a.slot == b.slot) && (a.generation == b.generation)

-- `retain(|key| *key != id.key)`
abbrev pub retain_other : LaneKey → List LaneKey → List LaneKey
retain_other key [] = []
retain_other key (k ∷ ks) = if key_eq k key then retain_other key ks else k ∷ retain_other key ks

module _ {ℓ} {A : Type ℓ} where
  -- `lanes.get_mut(slot).and_then(Option::as_mut)`
  abbrev pub flat : Option (Option (Keyed A)) → Option (Keyed A)
  flat none = none
  flat (some k) = k

  unfoldable pub lane_at : List (Option (Keyed A)) → ℕ → Option (Keyed A)
  lane_at lanes slot = flat (get_elem? lanes slot)

  abbrev pub put_lane : ℕ → Option (Keyed A) → Receiver A → Receiver A
  put_lane slot k r = record r { lanes = set r.lanes slot k }

  -- `self.paused[slot]`
  unfoldable pub is_paused : Receiver A → ℕ → Access Bool
  is_paused r slot = or_fault (get_elem? r.paused slot)

  unfoldable pub notify_space : Keyed A → Keyed A
  notify_space k = record k { spaces = suc k.spaces }

  abbrev pub notify_if : Bool → Keyed A → Keyed A
  notify_if released k = if released then notify_space k else k

  -- The lane of a key, if it still has it.
  abbrev pub with_key : LaneKey → Option (Keyed A) → Option (Keyed A)
  with_key key none = none
  with_key key (some k) = if key_eq k.key key then some k else none

  abbrev pub current : Receiver A → LaneKey → Option (Keyed A)
  current r key = with_key key (lane_at r.lanes key.slot)

  unfoldable pub notify_released : Option LaneKey → Receiver A → Receiver A
  notify_released none r = r
  notify_released (some key) r = elim (current r key) [
    | none ↦ r
    | some k ↦ put_lane key.slot (some (notify_space k)) r
  ]

  -- `LaneSignal::mark`
  unfoldable pub mark : Keyed A → Receiver A → Receiver A
  mark k r =
      let marked =
        put_lane k.key.slot (some (record k { lane = record k.lane { pending = true } })) r in
      if k.lane.pending then marked else record marked {
        shared = record r.shared { index = mark_slot k.key.slot r.shared.index };
      }

  -- The slot's lane is dropped with its consumer.
  abbrev pub retire_found : LaneKey → Option (Keyed A) → Receiver A → Receiver A
  retire_found key none r = r
  retire_found key (some k) r = record (put_lane key.slot none r) {
    paused = set r.paused key.slot false;
    shared = record r.shared {
      registered_lanes = wrapping_sub r.shared.registered_lanes 1;
      registry = free_key r.shared.registry key;
    };
  }

  unfoldable pub retire_lane : LaneKey → Receiver A → Receiver A
  retire_lane key r = retire_found key (lane_at r.lanes key.slot) r

  unfoldable pub is_disconnected : Receiver A → Bool
  is_disconnected r = r.shared.live_senders == 0
