-- ===== src/Task/MailboxRead.antt =====
-- src/task/mailbox_read.rs: `MailboxReadTask`, which waits for a slave's outgoing mailbox to fill, reads it,
-- and asks for a repetition when the reading was lost.
pub mod Laws
pub mod Progress
mod Tests
use ethercat.Base.{
  ℕ, ◌+◌, ◌-◌, ◌*◌, Bool, true, false, not, ◌&&◌, Option, none, some, List, Result, ok, err, ◌==◌,
  ltb, length, drop, if◌then◌else◌, ◌>>=◌, fill, replicate, overwrite,
}
use ethercat.Foreign.{Bitfield}
use ethercat.Interface.{
  Command, no_command, Pdu, SlaveAddress, slave_position, single, new_read, new_write, answers,
}
use ethercat.Register.SyncManagerStatus
use ethercat.Register.SyncManagerActivation
use ethercat.Register.SyncManagerPdiControl
use ethercat.Slave.{SyncManager}
use ethercat.Task.{
  TaskError, unexpected_command, unexpected_wkc, task_specific, timeout, EtherCatSystemTime, Sent,
  CyclicTask,
}
use ethercat.Task.MailboxError.{MailboxTaskError, no_slave_reaction, mailbox_empty, buffer_small}

abbrev pub retry_timeout_ms : ℕ
retry_timeout_ms = 2000

-- The two flags of the check are `is_first` and `wait_full`.
pub data State : Type 0 where
  error : TaskError MailboxTaskError → State
  idle complete : State
  check_mailbox_already_existed : Bool → Bool → State
  read request_repeat wait_repeat_ack : State

pub record MailboxReadTask : Type 0 where
  pub timer_start : EtherCatSystemTime
  pub command : Command
  pub slave_address : SlaveAddress
  pub state : State
  pub activation_buf : List ℕ
  pub sm_ado_offset : ℕ
  pub sm_size : ℕ
  pub sm_start_address : ℕ

unfoldable pub new : MailboxReadTask
new = record {
  timer_start = 0;
  command = no_command;
  slave_address = slave_position 0;
  state = idle;
  activation_buf = replicate SyncManagerActivation.size 0;
  sm_ado_offset = 0;
  sm_size = 0;
  sm_start_address = 0;
}

-- The number of a sync manager is a `u8`, so its offset and the registers at it stay below 2 ^ 16.
unfoldable pub start : MailboxReadTask → SlaveAddress → SyncManager → Bool → MailboxReadTask
start t slave_address tx_sm wait_full = record t {
  timer_start = 0;
  command = no_command;
  slave_address = slave_address;
  state = check_mailbox_already_existed true wait_full;
  sm_ado_offset = tx_sm.number * 8;
  sm_size = tx_sm.size;
  sm_start_address = tx_sm.start_address;
}

wait_in : State → Option (Result (Unit {0}) (TaskError MailboxTaskError))
wait_in complete = some (ok tt)
wait_in (error e) = some (err e)
wait_in _ = none

unfoldable pub wait : MailboxReadTask → Option (Result (Unit {0}) (TaskError MailboxTaskError))
unfolding wait_in
wait t = wait_in t.state

busy_in : State → Bool
busy_in idle = false
busy_in complete = false
busy_in (error _) = false
busy_in _ = true

unfoldable pub is_busy : MailboxReadTask → Bool
unfolding busy_in
is_busy t = busy_in t.state

abbrev pub check_size : ℕ
check_size = SyncManagerStatus.size + SyncManagerActivation.size

-- `copy_from_slice` panics on another length.
copy_from_slice : List ℕ → List ℕ → Option (List ℕ)
copy_from_slice dst src = if length src == length dst then some src else none

-- `buf[..n].copy_from_slice(src)` with `n` the length of `src`.
copy_into : List ℕ → List ℕ → Option (List ℕ)
copy_into buf src = if ltb (length buf) (length src) then none else some (overwrite buf src)

module _ ⦃bf : Bitfield⦄ where
  send_in : State → MailboxReadTask → List ℕ → Option (Sent MailboxReadTask)
  unfolding copy_into
  send_in idle t buf = some (t, buf, none)
  send_in (error _) t buf = some (t, buf, none)
  send_in complete t buf = some (t, buf, none)
  send_in (check_mailbox_already_existed _ _) t buf = do
    let command = new_read (single t.slave_address) (SyncManagerStatus.address + t.sm_ado_offset)
    buf ← fill check_size 0 buf
    some (record t { command = command }, buf, some (command, check_size))
  send_in read t buf =
      let command = new_read (single t.slave_address) t.sm_start_address in
      let t = record t { command = command } in
      if ltb (length buf) t.sm_size
      then some (record t { state = error (task_specific buffer_small) }, buf, none)
      else (do buf ← fill t.sm_size 0 buf; some (t, buf, some (command, t.sm_size)))
  send_in request_repeat t buf = do
    let command =
        new_write (single t.slave_address) (SyncManagerActivation.address + t.sm_ado_offset)
    repeated ← SyncManagerActivation.repeat t.activation_buf
    activation ← SyncManagerActivation.set_repeat t.activation_buf (not repeated)
    buf ← copy_into buf activation
    some (
      record t { command = command; activation_buf = activation },
      buf,
      some (command, length activation),
    )
  send_in wait_repeat_ack t buf = do
    let command =
        new_read (single t.slave_address) (SyncManagerPdiControl.address + t.sm_ado_offset)
    buf ← fill SyncManagerPdiControl.size 0 buf
    some (record t { command = command }, buf, some (command, SyncManagerPdiControl.size))

  unfoldable pub next_pdu : MailboxReadTask → List ℕ → Option (Sent MailboxReadTask)
  unfolding send_in
  next_pdu t buf = send_in t.state t buf

  check : MailboxReadTask → Pdu → MailboxReadTask
  check t pdu =
      if answers pdu.command t.command then t else record t { state = error unexpected_command }

  same_flag : Bool → Bool → Bool
  same_flag true b = b
  same_flag false b = not b

  process_in : State → MailboxReadTask → Pdu → EtherCatSystemTime → Option MailboxReadTask
  unfolding copy_from_slice same_flag
  process_in idle t pdu sys_time = some t
  process_in (error _) t pdu sys_time = some t
  process_in complete t pdu sys_time = some t
  process_in (check_mailbox_already_existed is_first wait_full) t pdu sys_time =
      let t = if is_first then record t { timer_start = sys_time } else t in
      if pdu.wkc == 1
      then (do
        activation ← copy_from_slice t.activation_buf (drop SyncManagerStatus.size pdu.bytes)
        let t = record t { activation_buf = activation }
        full ← SyncManagerStatus.is_mailbox_full pdu.bytes
        some (
            if full
            then record t { state = read }
            else if wait_full
            then record t { state = check_mailbox_already_existed false wait_full }
            else record t { state = error (task_specific mailbox_empty) }))
      else some (record t { state = error (task_specific no_slave_reaction) })
  process_in read t pdu sys_time =
      some (
        if pdu.wkc == 1 then record t { state = complete } else record t { state = request_repeat })
  process_in request_repeat t pdu sys_time = some (record t { state = wait_repeat_ack })
  process_in wait_repeat_ack t pdu sys_time =
      if pdu.wkc == 1
      then (do
        ack ← SyncManagerPdiControl.repeat_ack pdu.bytes
        repeated ← SyncManagerActivation.repeat t.activation_buf
        some (
            if same_flag ack repeated
            then record t { state = check_mailbox_already_existed false true }
            else record t { state = wait_repeat_ack }))
      else some (record t {
        state = error (unexpected_wkc (record { expected = 1; recieved = pdu.wkc }));
      })

  -- The test at the end of every answer.
  expire : MailboxReadTask → EtherCatSystemTime → MailboxReadTask
  expire t sys_time =
      if ltb t.timer_start sys_time
        && ltb (retry_timeout_ms * 1000 * 1000) (sys_time - t.timer_start)
      then record t { state = error timeout }
      else t

  unfoldable pub recieve_and_process :
      MailboxReadTask → Pdu → EtherCatSystemTime → Option MailboxReadTask
  unfolding check process_in expire
  recieve_and_process t pdu sys_time = do
    let t = check t pdu
    t ← process_in t.state t pdu sys_time
    some (expire t sys_time)

  abbrev pub task : CyclicTask MailboxReadTask
  task = record {
    next_pdu = next_pdu;
    recieve_and_process = recieve_and_process;
    is_busy = is_busy;
  }
