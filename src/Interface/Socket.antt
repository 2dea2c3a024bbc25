-- ===== src/Interface/Socket.antt =====
-- src/interface/socket_if.rs: `PduSocket`, the place where a task leaves its next PDU and finds the answer.
pub mod Laws
mod Tests
use ethercat.Base.{
  ℕ, Bool, true, false, Option, none, some, List, length, take, leb, if◌then◌else◌, ◌>>=◌,
  overwrite, replicate,
}
use ethercat.Interface.{Command, Pdu}

pub record PduSocket : Type 0 where
  pub command : Option Command
  pub data_buf : List ℕ
  pub wkc : ℕ
  pub data_length : ℕ
  pub recv_flag : Bool

unfoldable pub new : List ℕ → PduSocket
new buf = record { command = none; data_buf = buf; wkc = 0; data_length = 0; recv_flag = false }

unfoldable pub clear : PduSocket → PduSocket
clear s = record {
  command = none;
  data_buf = replicate (length s.data_buf) 0;
  wkc = 0;
  data_length = 0;
  recv_flag = false;
}

-- `buf[..n]`, which panics if `buf` is shorter.
unfoldable pub slice_to : ℕ → List ℕ → Option (List ℕ)
slice_to n buf = if leb n (length buf) then some (take n buf) else none

-- The closure writes into the buffer and may give a command with the length of its data. Both come in as
-- the pair of what it left.
unfoldable pub set_pdu : PduSocket → List ℕ → Option (Command × ℕ) → PduSocket
set_pdu s buf (some (command, length)) = record s {
  data_buf = buf;
  recv_flag = false;
  wkc = 0;
  command = some command;
  data_length = length;
}
set_pdu s buf none = record s {
  data_buf = buf;
  recv_flag = false;
  wkc = 0;
  command = none;
  data_length = 0;
}

-- The outer `none` is the panic of the slice.
recieved : Bool → Option Command → PduSocket → Option (Option Pdu)
unfolding slice_to
recieved true (some command) s = do
  bytes ← slice_to s.data_length s.data_buf
  some (some (record { command = command; bytes = bytes; wkc = s.wkc }))
recieved true none s = some none
recieved false command s = some none

unfoldable pub get_recieved_pdu : PduSocket → Option (Option Pdu)
unfolding recieved
get_recieved_pdu s = recieved s.recv_flag s.command s

length_for : Option Command → ℕ → ℕ
length_for (some command) n = n
length_for none n = 0

unfoldable pub data_length : PduSocket → ℕ
unfolding length_for
data_length s = length_for s.command s.data_length

taken : Bool → Option Command → PduSocket → Option (PduSocket × Option Pdu)
unfolding slice_to
taken true command s = some (s, none)
taken false none s = some (record s { command = none }, none)
taken false (some command) s = do
  bytes ← slice_to s.data_length s.data_buf
  some (record s { command = none }, some (record { command = command; bytes = bytes; wkc = 0 }))

unfoldable pub take_pdu : PduSocket → Option (PduSocket × Option Pdu)
unfolding taken
take_pdu s = taken s.recv_flag s.command s

unfoldable pub recieve : PduSocket → Pdu → PduSocket
recieve s recv_data = record s {
  recv_flag = true;
  command = some recv_data.command;
  data_buf = overwrite s.data_buf recv_data.bytes;
  wkc = recv_data.wkc;
}
