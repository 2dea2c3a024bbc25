-- ===== src/Task/AlTransfer/Tests.antt =====
-- The laws of `AlStateTransferTask` at concrete answers.
use ethercat.Foreign.Bits.{read_flag}
use ethercat.Task.AlTransfer.{reset_sii_ownership}
use ethercat.Task.AlTransfer.{complete}
use ethercat.Task.AlTransfer.{request}
use ethercat.Interface.{new_read}
use ethercat.Foreign.Bits.{write_flag}
use ethercat.Task.AlTransfer.{read}
use ethercat.Interface.{new_write}
use ethercat.Task.AlTransfer.{transition_timeout_ms}
use ethercat.Foreign.Bits.{read_field}
use ethercat.Base.{
  ℕ, ◌+◌, ◌*◌, ◌≡◌, ◌≢◌, refl, none, some, List, [], ◌∷◌, ok, ◌==◌, leb, if◌then◌else◌, arith,
  ◌>>=◌,
}
use ethercat.Foreign.Lsb0.{lsb0}
use ethercat.Foreign.Codes.{al_status_codes}
use ethercat.Interface.{
  TargetSlave, single, station_address, fprd, fpwr, answers, no_command, discriminant,
}
use ethercat.Register.AlStatus
use ethercat.Register.AlControl
use ethercat.Register.SiiAccess
use ethercat.Register.AlStatusCode
use ethercat.Register.AlStatusCode.{AlStatusCode}
use ethercat.Slave.{AlState, operational, safe_operational, same_state, from_u8}
use ethercat.Slave
use ethercat.Task.{unexpected_command, unexpected_wkc, timeout, expected_wkc}
use ethercat.Task.Reach.{Reach, here, exchange, Reach-exchange}
use ethercat.Task.Sending.{SendsWithin}
use ethercat.Task.AlTransfer.{
  AlStateTransferTask, error, poll, new, start, wait, task, next_pdu, recieve_and_process, is_busy,
}
use ethercat.Task.AlTransfer.Safety.{wait-target, recieve_rejected}
use ethercat.Task.AlTransfer.Progress.{
  next_pdu-SendsWithin, exchange_to_target, recieve_unknown_code, recieve_poll_deadline,
}

abbrev slave : TargetSlave
slave = single (station_address 1)

abbrev buffer : List ℕ
buffer = 0 ∷ 0 ∷ 0 ∷ 0 ∷ 0 ∷ 0 ∷ []

-- SAFE-OP, then OP.
abbrev before : List ℕ
before = 4 ∷ 0 ∷ 0 ∷ 0 ∷ 0 ∷ 0 ∷ []

abbrev after : List ℕ
after = 8 ∷ 0 ∷ 0 ∷ 0 ∷ 0 ∷ 0 ∷ []

-- SAFE-OP with the error flag and the code 0xffff.
abbrev strange : List ℕ
strange = 0x14 ∷ 0 ∷ 0 ∷ 0 ∷ 0xff ∷ 0xff ∷ []

abbrev started : AlStateTransferTask
started = record {
  timer_start = 0;
  state = read;
  slave_address = slave;
  target_al = operational;
  command = no_command;
  current_al_state = Slave.init;
  timeout_ms = 0;
}

start-new : start new slave operational ≡ started
unfolding start new
start-new = refl

-- The task after each of four exchanges.
abbrev has_read : AlStateTransferTask
has_read = record started {
  command = record { c_type = fprd; adp = 1; ado = 0x0130 };
  current_al_state = safe_operational;
  state = reset_sii_ownership;
}

abbrev owns_sii : AlStateTransferTask
owns_sii = record has_read {
  command = record { c_type = fpwr; adp = 1; ado = 0x0500 };
  state = request;
}

abbrev requested : AlStateTransferTask
requested = record owns_sii {
  command = record { c_type = fpwr; adp = 1; ado = 0x0120 };
  timeout_ms = 10000;
  timer_start = 30;
  state = poll;
}

abbrev completed : AlStateTransferTask
completed = record requested {
  command = record { c_type = fprd; adp = 1; ado = 0x0130 };
  current_al_state = operational;
  state = complete;
}

started_completes : Reach task (start new slave operational) completed
unfolding start new next_pdu recieve_and_process answers discriminant expected_wkc AlStatus.state
    AlStatus.change_err AlControl.set_state SiiAccess.set_owner SiiAccess.set_reset_access
    same_state from_u8 new_read read_field read_flag write_flag new_write transition_timeout_ms
started_completes =
    Reach-exchange task 1 buffer after 40 {u = requested}
      (Reach-exchange task 1 buffer [] 30 {u = owns_sii}
        (Reach-exchange task 1 buffer [] 20 {u = has_read}
          (Reach-exchange task 1 buffer before 10 {u = started} here refl) refl)
        refl)
      refl

wait-target_example : operational ≡ operational
unfolding wait
wait-target_example = wait-target new completed slave operational operational started_completes refl

recieve_rejected_example :
    recieve_and_process requested
      (record { command = requested.command; bytes = after; wkc = 0 })
      40
    ≡ some (record requested {
      state = error (
          if 0 == expected_wkc slave
          then unexpected_command
          else unexpected_wkc (record { expected = expected_wkc slave; recieved = 0 }));
    })
unfolding answers expected_wkc discriminant
recieve_rejected_example =
    recieve_rejected requested (record { command = requested.command; bytes = after; wkc = 0 }) 40
      refl

next_pdu-SendsWithin_example : SendsWithin buffer (next_pdu requested buffer)
unfolding is_busy
next_pdu-SendsWithin_example = next_pdu-SendsWithin requested buffer (omega arith) refl

exchange_to_target_example :
    (exchange task (expected_wkc slave) buffer before 10 (start new slave operational)
      >>= exchange task (expected_wkc slave) buffer [] 20
      >>= exchange task (expected_wkc slave) buffer [] 30
      >>= exchange task (expected_wkc slave) buffer after 40
      >>= wait)
    ≡ some (ok (from_u8 8))
unfolding AlStatus.state AlStatus.change_err same_state from_u8 read_field read_flag
exchange_to_target_example =
    exchange_to_target new slave operational buffer before after [] [] 10 20 30 40 4 8 (omega arith)
      refl refl refl refl refl

no_code : (c : AlStatusCode) → AlStatusCode.discriminant c ≢ 0xffff
unfolding AlStatusCode.discriminant
no_code c = ground arith

recieve_unknown_code_example :
    recieve_and_process requested
      (record { command = requested.command; bytes = strange; wkc = 1 })
      40
    ≡ none
unfolding AlStatus.state AlStatus.change_err AlStatus.al_status_code same_state from_u8 answers
    expected_wkc discriminant read_field read_flag
recieve_unknown_code_example =
    recieve_unknown_code requested
      (record { command = requested.command; bytes = strange; wkc = 1 }) 40 4 0xffff refl refl refl
      refl refl refl no_code

recieve_poll_deadline_example :
    recieve_and_process requested
      (record { command = requested.command; bytes = before; wkc = 1 })
      40
    ≡ some (record requested {
      current_al_state = from_u8 4;
      state = if leb 40 (30 + 10000 * 1000000000) then poll else error timeout;
    })
unfolding AlStatus.state AlStatus.change_err same_state from_u8 answers expected_wkc discriminant
    read_field read_flag
recieve_poll_deadline_example =
    recieve_poll_deadline requested
      (record { command = requested.command; bytes = before; wkc = 1 }) 40 4 refl refl refl refl
      refl
