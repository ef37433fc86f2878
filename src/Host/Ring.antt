-- ===== src/Host/Ring.antt =====
-- include/usb3_host_controller.h, `usb3_trb_t` and `usb3_transfer_ring_t`. An assertion that fails
-- ends the program: `none`.
use usb3_otg.Base.{
  ℕ, ◌+◌, ◌≤◌, ◌≡◌, Bool, true, false, Option, none, some, List, [], ◌∷◌, ◌++◌, arith, length,
  length-append, ltb, if◌then◌else◌, append-nil, append_assoc, leb,
}
use usb3_otg.Types.{Dir, host_to_device, EpType, bulk, Completion, success}

pub record Trb : Type 0 where
  pub data_ptr : ℕ
  pub trb_length : ℕ
  pub dev_addr : ℕ
  pub endpoint : ℕ
  pub direction : Dir
  pub ep_type : EpType
  pub ioc : Bool
  pub chain : Bool
  pub completion : Completion
  pub payload : List ℕ

abbrev pub default_trb : Trb
default_trb = record {
  data_ptr = 0;
  trb_length = 0;
  dev_addr = 0;
  endpoint = 0;
  direction = host_to_device;
  ep_type = bulk;
  ioc = true;
  chain = false;
  completion = success;
  payload = [];
}

abbrev pub ring_depth : ℕ
ring_depth = 256

-- The queue, oldest first.
unfoldable pub enqueue : Trb → List Trb → Option (List Trb)
enqueue trb queue = if ltb (length queue) ring_depth then some (queue ++ trb ∷ []) else none

unfoldable pub dequeue : List Trb → Option (Trb × List Trb)
dequeue [] = none
dequeue (trb ∷ queue) = some (trb, queue)

-- Requests that are queued one after the other.
pub enqueue_all : List Trb → List Trb → Option (List Trb)
enqueue_all [] queue = some queue
enqueue_all (trb ∷ trbs) queue = elim (enqueue trb queue) [
  | none ↦ none
  | some queue' ↦ enqueue_all trbs queue'
]

-- For a ring within its capacity: requests are accepted as long as there is room for all of them,
-- and they then stand behind those that were queued before, in order; when there is not, the
-- program ends.
pub enqueue_all_lem :
    (trbs queue : List Trb)
    → length queue ≤ ring_depth
    → enqueue_all trbs queue
      ≡ (if leb (length queue + length trbs) ring_depth then some (queue ++ trbs) else none)
unfolding enqueue_all enqueue
enqueue_all_lem [] queue h = ground (arith, append-nil queue)
enqueue_all_lem (trb ∷ trbs) queue h = ground (
  arith,
  length-append queue (trb ∷ []),
  append_assoc queue (trb ∷ []) trbs,
  enqueue_all_lem trbs (queue ++ trb ∷ []),
)
