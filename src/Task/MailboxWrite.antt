-- ===== src/Task/MailboxWrite.antt =====
-- src/task/mailbox_write.rs: `MailboxWriteTask`, which waits for a slave's incoming mailbox to be empty and
-- writes the message that lies in the socket's buffer.
pub mod Laws
pub mod Progress
mod Tests
use ethercat.Base.{
  ℕ, ◌+◌, ◌-◌, ◌*◌, Bool, true, false, not, ◌&&◌, Option, none, some, List, Result, ok, err, ◌==◌,
  ltb, length, if◌then◌else◌, ◌>>=◌, fill, replicate, overwrite,
}
use ethercat.Foreign.{Bitfield}
use ethercat.Interface.{
  Command, no_command, Pdu, SlaveAddress, slave_position, single, new_read, new_write, answers,
}
use ethercat.Register.SyncManagerStatus
use ethercat.Register.SyncManagerActivation
use ethercat.Slave.{SyncManager}
use ethercat.Task.{
  TaskError, unexpected_command, task_specific, timeout, EtherCatSystemTime, Sent, CyclicTask,
}
use ethercat.Task.MailboxError.{
  MailboxTaskError, no_slave_reaction, mailbox_already_existed, buffer_small,
}

abbrev pub retry_timeout_ms : ℕ
retry_timeout_ms = 100

-- The two flags of the check are `is_first` and `wait_empty`.
pub data State : Type 0 where
  error : TaskError MailboxTaskError → State
  idle complete : State
  check_mailbox_empty : Bool → Bool → State
  write : State

abbrev pub check_size : ℕ
check_size = SyncManagerStatus.size + SyncManagerActivation.size

pub record MailboxWriteTask : Type 0 where
  pub timer_start : EtherCatSystemTime
  pub command : Command
  pub slave_address : SlaveAddress
  pub empty_check_buffer : List ℕ
  pub state : State
  pub sm_ado_offset : ℕ
  pub sm_size : ℕ
  pub sm_start_address : ℕ

unfoldable pub new : MailboxWriteTask
new = record {
  timer_start = 0;
  command = no_command;
  slave_address = slave_position 0;
  empty_check_buffer = replicate check_size 0;
  state = idle;
  sm_ado_offset = 0;
  sm_size = 0;
  sm_start_address = 0;
}

-- The number of a sync manager is a `u8`, so its offset and the registers at it stay below 2 ^ 16.
unfoldable pub start : MailboxWriteTask → SlaveAddress → SyncManager → Bool → MailboxWriteTask
start t slave_address rx_sm wait_empty = record t {
  timer_start = 0;
  command = no_command;
  slave_address = slave_address;
  state = check_mailbox_empty true wait_empty;
  sm_ado_offset = rx_sm.number * 8;
  sm_size = rx_sm.size;
  sm_start_address = rx_sm.start_address;
}

wait_in : State → Option (Result (Unit {0}) (TaskError MailboxTaskError))
wait_in complete = some (ok tt)
wait_in (error e) = some (err e)
wait_in _ = none

unfoldable pub wait : MailboxWriteTask → Option (Result (Unit {0}) (TaskError MailboxTaskError))
unfolding wait_in
wait t = wait_in t.state

busy_in : State → Bool
busy_in idle = false
busy_in complete = false
busy_in (error _) = false
busy_in _ = true

unfoldable pub is_busy : MailboxWriteTask → Bool
unfolding busy_in
is_busy t = busy_in t.state

-- The check of the mailbox borrows the first bytes of the buffer: what was there is saved in the task and
-- put back for the writing.
send_in : State → MailboxWriteTask → List ℕ → Option (Sent MailboxWriteTask)
send_in idle t buf = some (t, buf, none)
send_in (error _) t buf = some (t, buf, none)
send_in complete t buf = some (t, buf, none)
send_in (check_mailbox_empty _ _) t buf = do
  let command = new_read (single t.slave_address) (SyncManagerStatus.address + t.sm_ado_offset)
  let saved = overwrite t.empty_check_buffer buf
  buf ← fill check_size 0 buf
  some (record t { command = command; empty_check_buffer = saved }, buf, some (command, check_size))
send_in write t buf =
    let command = new_write (single t.slave_address) t.sm_start_address in
    let t = record t { command = command } in
    let buf = overwrite buf t.empty_check_buffer in
    if ltb (length buf) t.sm_size
    then some (record t { state = error (task_specific buffer_small) }, buf, none)
    else some (t, buf, some (command, t.sm_size))

unfoldable pub next_pdu : MailboxWriteTask → List ℕ → Option (Sent MailboxWriteTask)
unfolding send_in
next_pdu t buf = send_in t.state t buf

check : MailboxWriteTask → Pdu → MailboxWriteTask
check t pdu =
    if answers pdu.command t.command then t else record t { state = error unexpected_command }

-- The test at the end of every answer.
expire : MailboxWriteTask → EtherCatSystemTime → MailboxWriteTask
expire t sys_time =
    if ltb t.timer_start sys_time && ltb (retry_timeout_ms * 1000 * 1000) (sys_time - t.timer_start)
    then record t { state = error timeout }
    else t

module _ ⦃bf : Bitfield⦄ where
  process_in : State → MailboxWriteTask → Pdu → EtherCatSystemTime → Option MailboxWriteTask
  process_in idle t pdu sys_time = some t
  process_in (error _) t pdu sys_time = some t
  process_in complete t pdu sys_time = some t
  process_in (check_mailbox_empty is_first wait_empty) t pdu sys_time =
      let t = if is_first then record t { timer_start = sys_time } else t in
      if pdu.wkc == 1
      then (do
        full ← SyncManagerStatus.is_mailbox_full pdu.bytes
        some (
            if not full
            then record t { state = write }
            else if wait_empty
            then record t { state = check_mailbox_empty false wait_empty }
            else record t { state = error (task_specific mailbox_already_existed) }))
      else some (record t { state = error (task_specific no_slave_reaction) })
  process_in write t pdu sys_time =
      some (if pdu.wkc == 1 then record t { state = complete } else record t { state = write })

  unfoldable pub recieve_and_process :
      MailboxWriteTask → Pdu → EtherCatSystemTime → Option MailboxWriteTask
  unfolding check process_in expire
  recieve_and_process t pdu sys_time = do
    let t = check t pdu
    t ← process_in t.state t pdu sys_time
    some (expire t sys_time)

  abbrev pub task : CyclicTask MailboxWriteTask
  task = record {
    next_pdu = next_pdu;
    recieve_and_process = recieve_and_process;
    is_busy = is_busy;
  }
