-- ===== src/Task/Calls/Tests.antt =====
-- The calls of `SocketInterface` over slaves that answer from a script.
use ethercat.Base.{
  returned, panicked, ℕ, ◌≡◌, refl, Bool, true, false, Option, none, some, List, [], ◌∷◌, Result,
  ok, arith,
}
use ethercat.Foreign.Lsb0.{lsb0}
use ethercat.Foreign.Codes.{al_status_codes}
use ethercat.Interface.{
  Pdu, PhyError, SlaveAddress, single, station_address, answers, discriminant, new_read, new_write,
  fprd,
}
use ethercat.Register.SiiControl
use ethercat.Register.SiiAccess
use ethercat.Register.SiiAddress
use ethercat.Task.SiiRead
use ethercat.Foreign.Bits.{read_field, read_flag, write_field, write_flag}
use ethercat.Register.AlStatus
use ethercat.Interface.Socket
use ethercat.Interface.Socket.{PduSocket, take_pdu, recieve, slice_to}
use ethercat.Slave.{operational, same_state, from_u8}
use ethercat.Task.{expected_wkc}
use ethercat.Task.Reach.{Reach}
use ethercat.Task.AlTransfer
use ethercat.Task.AlTransfer.{AlStateTransferTaskError}
use ethercat.Task.Driver.{SocketInterface, block_on, polled, process_one_step}
use ethercat.Task.Driver.Laws.{block_on_finished}
use ethercat.Task.Calls.{read_sii, change_al_state, read_al_state}
use ethercat.Task.Calls.Laws.{change_al_state_target, read_al_state_panics}

-- The answers to come, each with a working counter of 1, and the only socket.
abbrev Line : Type 0
Line = List (List ℕ) × PduSocket

abbrev answered :
    List (List ℕ) → Option (PduSocket × Option Pdu) → Option (Line × Result Bool PhyError)
answered answers none = none
answered answers (some (s, none)) = some ((answers, s), ok true)
answered [] (some (s, some pdu)) = some (([], s), ok true)
answered (bytes ∷ answers) (some (s, some pdu)) =
    some ((answers, recieve s (record { command = pdu.command; bytes = bytes; wkc = 1 })), ok true)

abbrev line : SocketInterface Line
line = record {
  poll_tx_rx = λ i. answered i.0 (take_pdu i.1);
  get_socket = λ i. some i.1;
  set_socket = λ i s. (i.0, s);
}

abbrev slave : SlaveAddress
slave = station_address 1

abbrev on_line : List (List ℕ) → Line
on_line answers = (
  answers,
  record {
    command = none;
    data_buf = 0 ∷ 0 ∷ 0 ∷ 0 ∷ 0 ∷ 0 ∷ 0 ∷ 0 ∷ [];
    wkc = 0;
    data_length = 0;
    recv_flag = false;
  },
)

-- The slave is operational already.
abbrev at_operational : Line
at_operational = on_line ((8 ∷ 0 ∷ 0 ∷ 0 ∷ 0 ∷ 0 ∷ []) ∷ [])

abbrev settled : Line
settled = (
  [],
  record {
    command = none;
    data_buf = 8 ∷ 0 ∷ 0 ∷ 0 ∷ 0 ∷ 0 ∷ 0 ∷ 0 ∷ [];
    wkc = 0;
    data_length = 0;
    recv_flag = false;
  },
)

changed :
    change_al_state line 3 at_operational (single slave) operational
    ≡ returned (settled, ok operational)
unfolding change_al_state block_on polled take_pdu process_one_step Socket.get_recieved_pdu
    AlTransfer.next_pdu AlTransfer.start AlTransfer.is_busy Socket.set_pdu recieve
    AlTransfer.recieve_and_process expected_wkc answers discriminant new_read AlStatus.state
    read_field same_state read_flag slice_to from_u8 AlTransfer.new AlTransfer.wait
changed = refl

change_al_state_target_example : operational ≡ operational
change_al_state_target_example =
    change_al_state_target line 3 at_operational settled (single slave) operational operational
      changed

abbrev done : AlTransfer.AlStateTransferTask
done = record {
  timer_start = 0;
  state = AlTransfer.complete;
  slave_address = single slave;
  target_al = operational;
  command = record { c_type = fprd; adp = 1; ado = 0x0130 };
  current_al_state = operational;
  timeout_ms = 0;
}

blocked :
    block_on AlStateTransferTaskError line AlTransfer.task 3 at_operational
      (AlTransfer.start AlTransfer.new (single slave) operational)
    ≡ returned (settled, done, ok tt)
unfolding block_on polled take_pdu process_one_step Socket.get_recieved_pdu AlTransfer.next_pdu
    AlTransfer.start AlTransfer.is_busy Socket.set_pdu recieve AlTransfer.recieve_and_process
    expected_wkc answers discriminant new_read AlStatus.state read_field same_state read_flag
    slice_to from_u8 AlTransfer.new
blocked = refl

block_on_finished_example :
    Reach AlTransfer.task (AlTransfer.start AlTransfer.new (single slave) operational) done
    × (AlTransfer.is_busy done ≡ false)
block_on_finished_example =
    block_on_finished AlStateTransferTaskError line AlTransfer.task 3 at_operational settled
      (AlTransfer.start AlTransfer.new (single slave) operational) done blocked

read_al_state_panics_example : read_al_state line 5 at_operational (single slave) ≡ panicked
unfolding take_pdu
read_al_state_panics_example =
    read_al_state_panics line 4 at_operational at_operational at_operational.1 at_operational.1
      (single slave) refl refl refl refl (omega arith)

-- Zeros in every register and a word of four bytes.
abbrev eeprom : Line
eeprom = on_line (
    (0 ∷ 0 ∷ [])
    ∷ (0 ∷ 0 ∷ [])
    ∷ (0 ∷ 0 ∷ [])
    ∷ (0 ∷ 0 ∷ 0 ∷ 0 ∷ [])
    ∷ (0 ∷ 0 ∷ [])
    ∷ (0 ∷ 0 ∷ [])
    ∷ (1 ∷ 2 ∷ 3 ∷ 4 ∷ 0 ∷ 0 ∷ 0 ∷ 0 ∷ [])
    ∷ [])

abbrev word_read : Line
word_read = (
  [],
  record {
    command = none;
    data_buf = 1 ∷ 2 ∷ 3 ∷ 4 ∷ 0 ∷ 0 ∷ 0 ∷ 0 ∷ [];
    wkc = 0;
    data_length = 0;
    recv_flag = false;
  },
)

sii_read :
    read_sii line 9 eeprom slave 4
    ≡ returned (word_read, ok (1 ∷ 2 ∷ 3 ∷ 4 ∷ 0 ∷ 0 ∷ 0 ∷ 0 ∷ [], 4))
unfolding read_sii block_on polled take_pdu process_one_step Socket.get_recieved_pdu
    SiiRead.next_pdu SiiRead.start SiiRead.is_busy Socket.set_pdu recieve
    SiiRead.recieve_and_process answers discriminant new_read new_write SiiControl.check_sum_error
    read_flag SiiControl.device_info_error SiiControl.address_algorithm SiiControl.busy
    SiiControl.read_operation SiiControl.write_operation SiiControl.reload_operation
    SiiControl.read_size SiiRead.new SiiRead.wait SiiAccess.set_owner read_field write_field
    write_flag SiiAccess.owner SiiAccess.pdi_accessed SiiAccess.set_reset_access
    SiiAddress.set_sii_address SiiControl.command_error SiiControl.set_read_operation slice_to
sii_read = refl
