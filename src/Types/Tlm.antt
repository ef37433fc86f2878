-- ===== src/Types/Tlm.antt =====
-- What the code sets and reads of a `tlm_generic_payload`, through its accessors, and the shape of a
-- blocking transport call. A socket takes the transaction and the state of the system, and returns
-- both: the callee may write to the transaction, and may call back into the caller's module.
use usb3_otg.Base.{ℕ, ◌≡◌, List, [], Option, none, some, length, take, take-length}
use usb3_otg.Types.{PktExt}

-- `TLM_READ_COMMAND`, `TLM_WRITE_COMMAND`, `TLM_IGNORE_COMMAND`.
pub data Command : Type 0 where
  read_command write_command ignore_command : Command

-- `TLM_OK_RESPONSE`, `TLM_INCOMPLETE_RESPONSE`, `TLM_GENERIC_ERROR_RESPONSE`.
pub data Status : Type 0 where
  ok_response incomplete_response generic_error_response : Status

-- `data_ptr` is `none` for a null pointer, and otherwise the buffer that it points to.
pub record Trans : Type 0 where
  pub command : Command
  pub address : ℕ
  pub data_ptr : Option (List ℕ)
  pub data_length : ℕ
  pub ext : Option PktExt
  pub status : Status

-- The bytes `data .. data + len` that a callee copies.
abbrev pub buffer : Option (List ℕ) → List ℕ
buffer none = []
buffer (some bytes) = bytes

abbrev pub payload : Trans → List ℕ
payload t = take t.data_length (buffer t.data_ptr)

-- The length that a sender states is the length of its buffer.
abbrev pub IsSized : Trans → Type 0
IsSized t = t.data_length ≡ length (buffer t.data_ptr)

abbrev pub set_status : Status → Trans → Trans
set_status s t = record t { status = s }

abbrev pub Socket : Type 0 → Type 0
Socket S = Trans → S → Trans × S

-- A transaction over a vector's bytes, as each sender in the code builds it. A new transaction has
-- the status `fresh`; the sender of a packet never sets one.
abbrev pub packet : Status → Command → PktExt → List ℕ → Trans
packet fresh command ext bytes = record {
  command = command;
  address = 0;
  data_ptr = some bytes;
  data_length = length bytes;
  ext = some ext;
  status = fresh;
}

pub payload-packet :
    (fresh : Status) (c : Command) (e : PktExt) (bytes : List ℕ)
    → payload (packet fresh c e bytes) ≡ bytes
payload-packet fresh c e bytes = take-length bytes
