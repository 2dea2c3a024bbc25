-- ===== src/Task/SiiRead/Tests.antt =====
-- The laws of `SiiReader` at concrete answers.
use ethercat.Base.{some, ok}
use ethercat.Task.SiiRead.Completion.{sii_read_completes}
use ethercat.Task.SiiRead.Progress.{size_of}
use ethercat.Base.{◌>>=◌, overwrite}
use ethercat.Task.Reach.{exchange}
use ethercat.Foreign.Bits.{read_flag, read_field, write_field, write_flag}
use ethercat.Interface.{answers, discriminant, new_read, new_write}
use ethercat.Register.SiiAddress
use ethercat.Register.SiiAccess
use ethercat.Interface.{new_read}
use ethercat.Interface.{answers}
use ethercat.Interface.{discriminant}
use ethercat.Foreign.Bits.{read_flag}
use ethercat.Register.SiiControl
use ethercat.Base.{ℕ, ◌≡◌, refl, List, [], ◌∷◌, arith}
use ethercat.Foreign.Lsb0.{lsb0}
use ethercat.Interface.{SlaveAddress, station_address, CommandType, fprd, fpwr}
use ethercat.Task.{task_specific}
use ethercat.Task.Reach.{Reach, here, Reach-exchange}
use ethercat.Task.SiiRead.{
  SiiReader, State, new, start, wait, task, next_pdu, recieve_and_process, error, command_error,
  set_ownership, check_ownership, set_address, set_read_operation, wait_busy, read, complete,
}
use ethercat.Task.SiiRead.Outcomes.{wait_only_command_error}

abbrev slave : SlaveAddress
slave = station_address 1

abbrev buffer : List ℕ
buffer = 0 ∷ 0 ∷ 0 ∷ 0 ∷ 0 ∷ 0 ∷ 0 ∷ 0 ∷ []

abbrev zeros : List ℕ
zeros = 0 ∷ 0 ∷ []

abbrev at_state : State → CommandType → ℕ → SiiReader
at_state s c ado = record {
  timer_start = 0;
  command = record { c_type = c; adp = 1; ado = ado };
  slave_address = slave;
  state = s;
  sii_address = 4;
  read_size = 4;
  sii_data = buffer;
}

waiting : Reach task (start new slave 4) (at_state wait_busy fpwr 0x0502)
unfolding next_pdu start recieve_and_process answers discriminant new_read
    SiiControl.check_sum_error read_flag SiiControl.device_info_error SiiControl.address_algorithm
    SiiControl.busy SiiControl.read_operation SiiControl.write_operation SiiControl.reload_operation
    SiiControl.read_size new SiiAccess.set_owner read_field write_field write_flag new_write
    SiiAccess.owner SiiAccess.pdi_accessed SiiAccess.set_reset_access SiiAddress.set_sii_address
    SiiControl.command_error SiiControl.set_read_operation
waiting =
    Reach-exchange task 1 buffer zeros 0 {u = at_state set_read_operation fpwr 0x0504}
      (Reach-exchange task 1 buffer zeros 0 {u = at_state set_address fprd 0x0500}
        (Reach-exchange task 1 buffer zeros 0 {u = at_state check_ownership fpwr 0x0500}
          (Reach-exchange task 1 buffer zeros 0 {u = at_state set_ownership fprd 0x0502}
            (Reach-exchange task 1 buffer zeros 0 {u = start new slave 4} here refl) refl)
          refl)
        refl)
      refl

-- Bit 13 of the control register.
failing :
    Reach task (start new slave 4) (at_state (error (task_specific command_error)) fprd 0x0502)
unfolding next_pdu start recieve_and_process answers discriminant new_read
    SiiControl.check_sum_error read_flag SiiControl.device_info_error SiiControl.address_algorithm
    SiiControl.busy SiiControl.read_operation SiiControl.write_operation SiiControl.reload_operation
    SiiControl.read_size new SiiAccess.set_owner read_field write_field write_flag new_write
    SiiAccess.owner SiiAccess.pdi_accessed SiiAccess.set_reset_access SiiAddress.set_sii_address
    SiiControl.command_error SiiControl.set_read_operation
failing =
    Reach-exchange task 1 buffer (0 ∷ 0x20 ∷ []) 10 {u = at_state wait_busy fpwr 0x0502} waiting
      refl

abbrev word : List ℕ
word = 1 ∷ 2 ∷ 3 ∷ 4 ∷ 0 ∷ 0 ∷ 0 ∷ 0 ∷ []

reading :
    Reach task (start new slave 4) (record (at_state complete fprd 0x0508) { sii_data = word })
unfolding next_pdu start recieve_and_process answers discriminant new_read
    SiiControl.check_sum_error read_flag SiiControl.device_info_error SiiControl.address_algorithm
    SiiControl.busy SiiControl.read_operation SiiControl.write_operation SiiControl.reload_operation
    SiiControl.read_size new SiiAccess.set_owner read_field write_field write_flag new_write
    SiiAccess.owner SiiAccess.pdi_accessed SiiAccess.set_reset_access SiiAddress.set_sii_address
    SiiControl.command_error SiiControl.set_read_operation
reading =
    Reach-exchange task 1 buffer word 20 {u = at_state read fprd 0x0502}
      (Reach-exchange task 1 buffer zeros 10 {u = at_state wait_busy fpwr 0x0502} waiting refl) refl

wait_only_command_error_example : command_error ≡ command_error
unfolding wait
wait_only_command_error_example =
    wait_only_command_error new (at_state (error (task_specific command_error)) fprd 0x0502) slave 4
      command_error failing refl

abbrev read_bytes : ℕ
read_bytes = 4

sii_read_completes_example :
    (exchange task 1 buffer zeros 0 (start new slave 4)
      >>= exchange task 1 buffer [] 0
      >>= exchange task 1 buffer zeros 0
      >>= exchange task 1 buffer [] 0
      >>= exchange task 1 buffer [] 0
      >>= exchange task 1 buffer zeros 10
      >>= exchange task 1 buffer word 20
      >>= wait)
    ≡ some (ok (overwrite new.sii_data word, size_of zeros))
unfolding SiiControl.command_error SiiControl.busy SiiControl.read_operation read_flag read_field
sii_read_completes_example =
    sii_read_completes new slave 4 buffer zeros zeros zeros word [] [] [] 0 0 0 0 0 10 20
      (omega arith) (omega arith) (omega arith) refl refl refl
