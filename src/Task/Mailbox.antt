-- ===== src/Task/Mailbox.antt =====
-- src/task/mailbox.rs: `MailboxTask`, which runs a reader or a writer of a mailbox and takes over its outcome.
pub mod Laws
mod Tests
use ethercat.Base.{ℕ, Bool, true, false, Option, none, some, List, Result, ok, err, ◌>>=◌}
use ethercat.Foreign.{Bitfield}
use ethercat.Interface.{Command, Pdu, SlaveAddress}
use ethercat.Slave.{SyncManager}
use ethercat.Task.{TaskError, EtherCatSystemTime, Sent, CyclicTask}
use ethercat.Task.MailboxError.{MailboxTaskError}
use ethercat.Task.MailboxRead
use ethercat.Task.MailboxRead.{MailboxReadTask}
use ethercat.Task.MailboxWrite
use ethercat.Task.MailboxWrite.{MailboxWriteTask}

pub data State : Type 0 where
  error : TaskError MailboxTaskError → State
  idle complete processing : State

pub data Inner : Type 0 where
  reader : MailboxReadTask → Inner
  writer : MailboxWriteTask → Inner

pub record MailboxTask : Type 0 where
  pub state : State
  pub inner : Inner

unfoldable pub new : MailboxTask
new = record { state = idle; inner = reader MailboxRead.new }

unfoldable pub start_to_read : MailboxTask → SlaveAddress → SyncManager → Bool → MailboxTask
start_to_read t slave_address tx_sm wait_full = record t {
  inner = reader (MailboxRead.start MailboxRead.new slave_address tx_sm wait_full);
  state = processing;
}

unfoldable pub start_to_write : MailboxTask → SlaveAddress → SyncManager → Bool → MailboxTask
start_to_write t slave_address rx_sm wait_empty = record t {
  inner = writer (MailboxWrite.start MailboxWrite.new slave_address rx_sm wait_empty);
  state = processing;
}

writes : Inner → Bool
writes (writer _) = true
writes (reader _) = false

unfoldable pub is_write_mode : MailboxTask → Bool
unfolding writes
is_write_mode t = writes t.inner

reads : Inner → Bool
reads (reader _) = true
reads (writer _) = false

unfoldable pub is_read_mode : MailboxTask → Bool
unfolding reads
is_read_mode t = reads t.inner

address_of : Inner → SlaveAddress
address_of (reader r) = r.slave_address
address_of (writer w) = w.slave_address

unfoldable pub slave_address : MailboxTask → SlaveAddress
unfolding address_of
slave_address t = address_of t.inner

wait_in : State → Option (Result (Unit {0}) (TaskError MailboxTaskError))
wait_in complete = some (ok tt)
wait_in (error e) = some (err e)
wait_in _ = none

unfoldable pub wait : MailboxTask → Option (Result (Unit {0}) (TaskError MailboxTaskError))
unfolding wait_in
wait t = wait_in t.state

busy_in : State → Bool
busy_in idle = false
busy_in complete = false
busy_in (error _) = false
busy_in processing = true

unfoldable pub is_busy : MailboxTask → Bool
unfolding busy_in
is_busy t = busy_in t.state

-- The state after the inner task was asked for its outcome.
outcome : State → Option (Result (Unit {0}) (TaskError MailboxTaskError)) → State
outcome s none = s
outcome s (some (ok _)) = complete
outcome s (some (err e)) = error e

module _ ⦃bf : Bitfield⦄ where
  inner_next : Inner → MailboxTask → List ℕ → Option (Sent MailboxTask)
  inner_next (reader r) t buf = do
    (r, buf, out) ← MailboxRead.next_pdu r buf
    some (record t { inner = reader r }, buf, out)
  inner_next (writer w) t buf = do
    (w, buf, out) ← MailboxWrite.next_pdu w buf
    some (record t { inner = writer w }, buf, out)

  send_in : State → MailboxTask → List ℕ → Option (Sent MailboxTask)
  unfolding inner_next
  send_in idle t buf = some (t, buf, none)
  send_in (error _) t buf = some (t, buf, none)
  send_in complete t buf = some (t, buf, none)
  send_in processing t buf = inner_next t.inner t buf

  unfoldable pub next_pdu : MailboxTask → List ℕ → Option (Sent MailboxTask)
  unfolding send_in
  next_pdu t buf = send_in t.state t buf

  inner_recieve : Inner → MailboxTask → Pdu → EtherCatSystemTime → Option MailboxTask
  unfolding outcome
  inner_recieve (reader r) t pdu sys_time = do
    r ← MailboxRead.recieve_and_process r pdu sys_time
    some (record t { inner = reader r; state = outcome t.state (MailboxRead.wait r) })
  inner_recieve (writer w) t pdu sys_time = do
    w ← MailboxWrite.recieve_and_process w pdu sys_time
    some (record t { inner = writer w; state = outcome t.state (MailboxWrite.wait w) })

  process_in : State → MailboxTask → Pdu → EtherCatSystemTime → Option MailboxTask
  unfolding inner_recieve
  process_in idle t pdu sys_time = some t
  process_in (error _) t pdu sys_time = some t
  process_in complete t pdu sys_time = some t
  process_in processing t pdu sys_time = inner_recieve t.inner t pdu sys_time

  unfoldable pub recieve_and_process : MailboxTask → Pdu → EtherCatSystemTime → Option MailboxTask
  unfolding process_in
  recieve_and_process t pdu sys_time = process_in t.state t pdu sys_time

  abbrev pub task : CyclicTask MailboxTask
  task = record {
    next_pdu = next_pdu;
    recieve_and_process = recieve_and_process;
    is_busy = is_busy;
  }
