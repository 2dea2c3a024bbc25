-- ===== src/Task/Mailbox/Tests.antt =====
-- The laws of `MailboxTask` at concrete answers.
use ethercat.Interface.{answers}
use ethercat.Interface.{discriminant}
use ethercat.Interface.{new_read}
use ethercat.Base.{◌≡◌, inl, refl, true, none, some, [], ◌∷◌, err, arith}
use ethercat.Foreign.Lsb0.{lsb0}
use ethercat.Interface.{SlaveAddress, station_address, fprd}
use ethercat.Slave.{SyncManager}
use ethercat.Task.{task_specific}
use ethercat.Task.MailboxError.{no_slave_reaction, buffer_small}
use ethercat.Task.Reach.{Reach, here, Reach-exchange}
use ethercat.Task.MailboxRead
use ethercat.Task.MailboxRead.{MailboxReadTask}
use ethercat.Task.Mailbox.{
  MailboxTask, reader, error, processing, new, start_to_read, wait, is_busy, next_pdu,
  recieve_and_process, task,
}
use ethercat.Task.Mailbox.Laws.{mailbox_wait-inner, mailbox_small_buffer_stuck, inner_wait}

abbrev slave : SlaveAddress
slave = station_address 1

abbrev manager : SyncManager
manager = record { number = 1; size = 3; start_address = 0x1000 }

abbrev silent : MailboxReadTask
silent = record {
  timer_start = 5;
  command = record { c_type = fprd; adp = 1; ado = 0x080d };
  slave_address = slave;
  state = MailboxRead.error (task_specific no_slave_reaction);
  activation_buf = 0 ∷ [];
  sm_ado_offset = 8;
  sm_size = 3;
  sm_start_address = 0x1000;
}

abbrev failed : MailboxTask
failed = record { state = error (task_specific no_slave_reaction); inner = reader silent }

started_failed : Reach task (start_to_read new slave manager true) failed
unfolding next_pdu start_to_read MailboxRead.next_pdu MailboxRead.start recieve_and_process
    MailboxRead.recieve_and_process answers discriminant new_read MailboxRead.wait MailboxRead.new
started_failed =
    Reach-exchange task 0 (0 ∷ 0 ∷ 0 ∷ []) (0 ∷ 0 ∷ []) 5 {u = start_to_read new slave manager true}
      here refl

mailbox_wait-inner_example :
    inner_wait (reader silent) ≡ some (err (task_specific no_slave_reaction))
unfolding wait
mailbox_wait-inner_example =
    mailbox_wait-inner new failed slave manager true (err (task_specific no_slave_reaction))
      (inl started_failed) refl

abbrev reading : MailboxTask
reading = record { state = processing; inner = reader (record silent { state = MailboxRead.read }) }

mailbox_small_buffer_stuck_example :
    (t' : MailboxTask) × (next_pdu reading (0 ∷ 0 ∷ []) ≡ some (t', 0 ∷ 0 ∷ [], none))
    × (inner_wait t'.inner ≡ some (err (task_specific buffer_small)))
    × (is_busy t' ≡ true)
    × (wait t' ≡ none)
    × (next_pdu t' (0 ∷ 0 ∷ []) ≡ some (t', 0 ∷ 0 ∷ [], none))
mailbox_small_buffer_stuck_example =
    mailbox_small_buffer_stuck reading (record silent { state = MailboxRead.read }) (0 ∷ 0 ∷ [])
      refl refl refl (omega arith)
