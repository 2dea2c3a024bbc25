-- ===== src/Task/MailboxRead/Tests.antt =====
-- The laws of `MailboxReadTask` at concrete answers.
use ethercat.Interface.{discriminant}
use ethercat.Foreign.Bits.{read_flag}
use ethercat.Interface.{new_read}
use ethercat.Base.{◌≡◌, refl, true, some, [], ◌∷◌, ok, ◌>>=◌, arith}
use ethercat.Foreign.Lsb0.{lsb0}
use ethercat.Interface.{Pdu, SlaveAddress, station_address, answers, fprd}
use ethercat.Register.SyncManagerStatus
use ethercat.Slave.{SyncManager}
use ethercat.Task.{task_specific}
use ethercat.Task.MailboxError.{no_slave_reaction}
use ethercat.Task.Reach.{Reach, here, exchange, Reach-exchange}
use ethercat.Task.MailboxRead.{
  MailboxReadTask, new, start, wait, task, next_pdu, recieve_and_process, is_busy, error, read,
  complete,
}
use ethercat.Task.MailboxRead.Laws.{mailbox_read_success}
use ethercat.Task.MailboxRead.Progress.{mailbox_read_completes}

abbrev slave : SlaveAddress
slave = station_address 1

abbrev manager : SyncManager
manager = record { number = 1; size = 3; start_address = 0x1000 }

abbrev reading : MailboxReadTask
reading = record {
  timer_start = 10;
  command = record { c_type = fprd; adp = 1; ado = 0x1000 };
  slave_address = slave;
  state = read;
  activation_buf = 1 ∷ [];
  sm_ado_offset = 8;
  sm_size = 3;
  sm_start_address = 0x1000;
}

abbrev silent : MailboxReadTask
silent = record {
  timer_start = 5;
  command = record { c_type = fprd; adp = 1; ado = 0x080d };
  slave_address = slave;
  state = error (task_specific no_slave_reaction);
  activation_buf = 0 ∷ [];
  sm_ado_offset = 8;
  sm_size = 3;
  sm_start_address = 0x1000;
}

started_silent : Reach task (start new slave manager true) silent
unfolding next_pdu start recieve_and_process answers discriminant new_read new
started_silent =
    Reach-exchange task 0 (0 ∷ 0 ∷ 0 ∷ []) (0 ∷ 0 ∷ []) 5 {u = start new slave manager true} here
      refl

abbrev answer : Pdu
answer = record { command = reading.command; bytes = 7 ∷ 8 ∷ 9 ∷ []; wkc = 1 }

mailbox_read_success_example :
    (reading.state ≡ read) × (answer.wkc ≡ 1) × (answers answer.command reading.command ≡ true)
unfolding recieve_and_process answers discriminant is_busy wait
mailbox_read_success_example =
    mailbox_read_success reading (record reading { state = complete }) answer 20 refl refl refl

mailbox_read_completes_example :
    (exchange task 1 (0 ∷ 0 ∷ 0 ∷ []) (8 ∷ 1 ∷ []) 10 (start new slave manager true)
      >>= exchange task 1 (0 ∷ 0 ∷ 0 ∷ []) (7 ∷ 8 ∷ 9 ∷ []) 20
      >>= wait)
    ≡ some (ok tt)
unfolding new SyncManagerStatus.is_mailbox_full read_flag
mailbox_read_completes_example =
    mailbox_read_completes new slave manager true 8 1 (0 ∷ 0 ∷ 0 ∷ []) (7 ∷ 8 ∷ 9 ∷ []) 10 20 refl
      (omega arith) (omega arith) refl (omega arith)
