-- ===== src/Master/MailboxManager.antt =====
-- src/master/mailbox.rs: `MailboxManager`, which finds out from the process data which slave has a message and reads
-- its mailbox.
pub mod Laws
mod Tests
use ethercat.Base.{
  ℕ, ◌+◌, ◌*◌, ◌%◌, ◌^◌, Bool, true, false, not, Option, none, some, List, [], ◌∷◌, get_elem?,
  replicate, assert, ◌>>◌, Result, ok, err, ◌==◌, if◌then◌else◌, ◌>>=◌,
}
use ethercat.Foreign.{Bitfield}
use ethercat.Interface.{SlaveAddress, slave_position}
use ethercat.Interface.Socket.{PduSocket}
use ethercat.Frame.MailboxFrame
use ethercat.Register.SyncManagerStatus
use ethercat.Slave.Config.{SlaveConfig, FmmuConfig, read_fmmu}
use ethercat.Slave.Info.{Slave, mailbox_tx_sm}
use ethercat.Slave.Network.{Network, slave, slaves_of}
use ethercat.Task.{TaskError, EtherCatSystemTime}
use ethercat.Task.Driver
use ethercat.Task.Mailbox
use ethercat.Task.Mailbox.{MailboxTask, start_to_read, is_busy, is_write_mode, wait}
use ethercat.Task.MailboxError.{MailboxTaskError}

pub record MailboxManager : Type 0 where
  pub task : MailboxTask
  pub slave_with_mailbox : Option SlaveAddress

unfoldable pub new : MailboxTask → MailboxManager
new task = record { task = task; slave_with_mailbox = none }

pub record MailboxSessionId : Type 0 where
  pub slave_address : SlaveAddress
  pub mailbox_count : ℕ

-- The task that reads from the slave that was found.
start_from : Network → MailboxTask → Option SlaveAddress → Option MailboxTask
start_from network task none = some task
start_from network task (some addr) = do
  found ← slave network addr
  place ← found
  tx_sm ← mailbox_tx_sm place.0.info
  some (start_to_read task addr tx_sm false)

-- `fmmu_config()[2]` of a slave, and the state of its mailbox in the image.
is_full : ⦃bf : Bitfield⦄ → Slave → ℕ → List ℕ → FmmuConfig → Option Bool
is_full s offset image config = do
  tx_sm ← mailbox_tx_sm s.info
  assert (((SyncManagerStatus.address + 8 * tx_sm.number) % 2 ^ 16) == config.physical_address)
      >> (do
        read ← read_fmmu config offset image (replicate SyncManagerStatus.size 0)
        status ← read
        SyncManagerStatus.is_mailbox_full status)

module _ ⦃bf : Bitfield⦄ where
  unfoldable pub process_one_step :
      MailboxManager
      → Network
      → PduSocket
      → EtherCatSystemTime
      → Option (MailboxManager × PduSocket)
  unfolding start_from
  process_one_step m network mb_socket sys_time = do
    task ← (if is_busy m.task then some m.task else start_from network m.task m.slave_with_mailbox)
    (mb_socket, task) ← Driver.process_one_step Mailbox.task mb_socket task sys_time
    some (record m { task = task }, mb_socket)

  after_wait :
      MailboxManager
      → PduSocket
      → Option (Result (Unit {0}) (TaskError MailboxTaskError))
      → Option (Option (Result (MailboxSessionId × List ℕ) (TaskError MailboxTaskError)))
  after_wait m mb_socket none = some none
  after_wait m mb_socket (some _) = do
    count ← MailboxFrame.count mb_socket.data_buf
    let session_id : MailboxSessionId = record {
      slave_address = Mailbox.slave_address m.task;
      mailbox_count = count;
    }
    some (some (ok (session_id, mb_socket.data_buf)))

  -- The outer `none` is a panic.
  unfoldable pub received_mailbox :
      MailboxManager
      → PduSocket
      → Option (Option (Result (MailboxSessionId × List ℕ) (TaskError MailboxTaskError)))
  unfolding after_wait
  received_mailbox m mb_socket =
      if is_write_mode m.task then some none else after_wait m mb_socket (wait m.task)

  check_slave : MailboxManager → ℕ → Slave → ℕ → List ℕ → Option FmmuConfig → Option MailboxManager
  unfolding is_full
  check_slave m pos s offset image none = some m
  check_slave m pos s offset image (some config) = do
    full ← is_full s offset image config
    some
        (if full then record m { slave_with_mailbox = some (slave_position (pos % 2 ^ 16)) } else m)

  check_slaves :
      MailboxManager → ℕ → List (Slave × SlaveConfig) → ℕ → List ℕ → Option MailboxManager
  unfolding check_slave
  check_slaves m pos [] offset image = some m
  check_slaves m pos ((s, config) ∷ places) offset image = do
    fmmu ← get_elem? s.fmmu 2
    m ← check_slave m pos s offset image fmmu
    check_slaves m (pos + 1) places offset image

  unfoldable pub find_slave_with_mailbox_from_process_data :
      MailboxManager → Network → ℕ → List ℕ → Option MailboxManager
  unfolding check_slaves
  find_slave_with_mailbox_from_process_data m network logical_address_offset process_data_image = do
    m ← check_slaves m 0 (slaves_of network) logical_address_offset process_data_image
    some (record m { slave_with_mailbox = none })

-- The task that a request is put into, unless it is busy.
unfoldable pub try_get_mailbox_request_interface : MailboxManager → Option MailboxTask
try_get_mailbox_request_interface m = if is_busy m.task then none else some m.task
