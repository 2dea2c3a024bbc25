-- ===== src/Task/MailboxWrite/Tests.antt =====
-- The laws of `MailboxWriteTask` at concrete answers.
use ethercat.Foreign.Bits.{read_flag}
use ethercat.Interface.{new_read}
use ethercat.Interface.{discriminant}
use ethercat.Base.{◌≡◌, refl, true, some, [], ◌∷◌, ◌>>=◌, arith}
use ethercat.Foreign.Lsb0.{lsb0}
use ethercat.Interface.{Pdu, SlaveAddress, single, station_address, answers, fprd, fpwr, new_write}
use ethercat.Register.SyncManagerStatus
use ethercat.Slave.{SyncManager}
use ethercat.Task.{task_specific}
use ethercat.Task.MailboxError.{no_slave_reaction}
use ethercat.Task.Reach.{Reach, here, Reach-exchange}
use ethercat.Task.MailboxWrite.{
  MailboxWriteTask, new, start, wait, task, next_pdu, recieve_and_process, is_busy, error, write,
  complete,
}
use ethercat.Task.MailboxWrite.Laws.{mailbox_write_success}
use ethercat.Task.MailboxWrite.Progress.{
  mailbox_write_restores, mailbox_write_loses_message, check_exchange,
}

abbrev slave : SlaveAddress
slave = station_address 1

abbrev manager : SyncManager
manager = record { number = 0; size = 3; start_address = 0x1000 }

abbrev writing : MailboxWriteTask
writing = record {
  timer_start = 10;
  command = record { c_type = fpwr; adp = 1; ado = 0x1000 };
  slave_address = slave;
  empty_check_buffer = 7 ∷ 8 ∷ [];
  state = write;
  sm_ado_offset = 0;
  sm_size = 3;
  sm_start_address = 0x1000;
}

abbrev silent : MailboxWriteTask
silent = record {
  timer_start = 5;
  command = record { c_type = fprd; adp = 1; ado = 0x0805 };
  slave_address = slave;
  empty_check_buffer = 7 ∷ 8 ∷ [];
  state = error (task_specific no_slave_reaction);
  sm_ado_offset = 0;
  sm_size = 3;
  sm_start_address = 0x1000;
}

started_silent : Reach task (start new slave manager true) silent
unfolding next_pdu start recieve_and_process answers discriminant new_read new
started_silent =
    Reach-exchange task 0 (7 ∷ 8 ∷ 9 ∷ []) (0 ∷ 0 ∷ []) 5 {u = start new slave manager true} here
      refl

abbrev answer : Pdu
answer = record { command = writing.command; bytes = 7 ∷ 8 ∷ 9 ∷ []; wkc = 1 }

mailbox_write_success_example :
    (writing.state ≡ write) × (answer.wkc ≡ 1) × (answers answer.command writing.command ≡ true)
unfolding recieve_and_process answers discriminant is_busy wait
mailbox_write_success_example =
    mailbox_write_success writing (record writing { state = complete }) answer 20 refl refl refl

mailbox_write_restores_example :
    (t' : MailboxWriteTask) × ((check_exchange
          (0 ∷ 1 ∷ [])
          10
          (start new slave manager true, 7 ∷ 8 ∷ 9 ∷ [])
        >>= λ u. next_pdu u.0 u.1)
      ≡ some (t', 7 ∷ 8 ∷ 9 ∷ [], some (new_write (single slave) 0x1000, 3)))
    × (t'.state ≡ write)
unfolding new SyncManagerStatus.is_mailbox_full read_flag
mailbox_write_restores_example =
    mailbox_write_restores new slave manager 0 0 0 1 7 8 (9 ∷ []) 10 true refl refl (omega arith)

mailbox_write_loses_message_example :
    (t' : MailboxWriteTask) × ((check_exchange
          (8 ∷ 1 ∷ [])
          10
          (start new slave manager true, 7 ∷ 8 ∷ 9 ∷ [])
        >>= check_exchange (0 ∷ 1 ∷ []) 20
        >>= λ u. next_pdu u.0 u.1)
      ≡ some (t', 8 ∷ 1 ∷ 9 ∷ [], some (new_write (single slave) 0x1000, 3)))
    × (t'.state ≡ write)
unfolding new SyncManagerStatus.is_mailbox_full read_flag
mailbox_write_loses_message_example =
    mailbox_write_loses_message new slave manager 0 0 8 1 0 1 7 8 (9 ∷ []) 10 20 refl refl refl
      (omega arith) (omega arith)
