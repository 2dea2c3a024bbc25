-- ===== src/Task/SiiRead.antt =====
-- src/task/sii_read.rs: `SiiReader`, which reads a word of a slave's EEPROM through its registers: check
-- the interface, take it over, set the address, start a read, wait for it and fetch the data.
pub mod Outcomes
pub mod Progress
pub mod Completion
mod Tests
use ethercat.Base.{
  ℕ, zero, suc, ◌+◌, ◌-◌, ◌*◌, ◌/◌, ◌^◌, Bool, true, false, not, ◌&&◌, ◌||◌, Option, none, some,
  List, Result, ok, err, ◌==◌, ltb, if◌then◌else◌, ◌>>=◌, fill, replicate, overwrite,
}
use ethercat.Foreign.{Bitfield}
use ethercat.Interface.{
  Command, no_command, Pdu, SlaveAddress, slave_position, single, new_read, new_write, answers,
}
use ethercat.Register.SiiAccess
use ethercat.Register.SiiControl
use ethercat.Register.SiiAddress
use ethercat.Register.SiiData
use ethercat.Task.{
  TaskError, unexpected_command, unexpected_wkc, task_specific, timeout, EtherCatSystemTime, Sent,
  CyclicTask,
}

abbrev pub timeout_ms : ℕ
timeout_ms = 100

pub data SiiTaskError : Type 0 where
  permittion_denied address_size_over busy check_sum_error device_info_error command_error :
      SiiTaskError

pub data State : Type 0 where
  error : TaskError SiiTaskError → State
  idle init set_ownership check_ownership set_address set_read_operation wait_busy read complete :
      State

pub record SiiReader : Type 0 where
  pub timer_start : EtherCatSystemTime
  pub command : Command
  pub slave_address : SlaveAddress
  pub state : State
  pub sii_address : ℕ
  pub read_size : ℕ
  pub sii_data : List ℕ

unfoldable pub new : SiiReader
new = record {
  timer_start = 0;
  state = idle;
  slave_address = slave_position 0;
  sii_address = 0;
  command = no_command;
  read_size = 0;
  sii_data = replicate SiiData.size 0;
}

unfoldable pub start : SiiReader → SlaveAddress → ℕ → SiiReader
start t slave_address sii_address = record t {
  slave_address = slave_address;
  sii_address = sii_address;
  state = init;
  command = no_command;
}

wait_in : State → SiiReader → Option (Result (List ℕ × ℕ) (TaskError SiiTaskError))
wait_in complete t = some (ok (t.sii_data, t.read_size))
wait_in (error e) t = some (err e)
wait_in _ t = none

unfoldable pub wait : SiiReader → Option (Result (List ℕ × ℕ) (TaskError SiiTaskError))
unfolding wait_in
wait t = wait_in t.state t

busy_in : State → Bool
busy_in idle = false
busy_in complete = false
busy_in (error _) = false
busy_in _ = true

unfoldable pub is_busy : SiiReader → Bool
unfolding busy_in
is_busy t = busy_in t.state

-- `const_max` of src/util.rs over the sizes of the four registers.
abbrev larger : ℕ → ℕ → ℕ
larger max x = if ltb x max then max else x

abbrev pub required_buffer_size : ℕ
required_buffer_size =
    larger (larger (larger (larger 0 SiiAccess.size) SiiControl.size) SiiAddress.size) SiiData.size

module _ ⦃bf : Bitfield⦄ where
  send_in : State → SiiReader → List ℕ → Option (Sent SiiReader)
  send_in idle t buf = some (t, buf, none)
  send_in (error _) t buf = some (t, buf, none)
  send_in complete t buf = some (t, buf, none)
  send_in init t buf = do
    buf ← fill SiiControl.size 0 buf
    let command = new_read (single t.slave_address) SiiControl.address
    some (record t { command = command }, buf, some (command, SiiControl.size))
  send_in set_ownership t buf = do
    buf ← fill SiiAccess.size 0 buf
    buf ← SiiAccess.set_owner buf false
    buf ← SiiAccess.set_reset_access buf true
    let command = new_write (single t.slave_address) SiiAccess.address
    some (record t { command = command }, buf, some (command, SiiAccess.size))
  send_in check_ownership t buf = do
    buf ← fill SiiAccess.size 0 buf
    let command = new_read (single t.slave_address) SiiAccess.address
    some (record t { command = command }, buf, some (command, SiiAccess.size))
  send_in set_address t buf = do
    buf ← fill SiiAddress.size 0 buf
    buf ← SiiAddress.set_sii_address buf t.sii_address
    let command = new_write (single t.slave_address) SiiAddress.address
    some (record t { command = command }, buf, some (command, SiiAddress.size))
  send_in set_read_operation t buf = do
    buf ← fill SiiControl.size 0 buf
    buf ← SiiControl.set_read_operation buf true
    let command = new_write (single t.slave_address) SiiControl.address
    some (record t { command = command }, buf, some (command, SiiControl.size))
  send_in wait_busy t buf = do
    buf ← fill SiiControl.size 0 buf
    let command = new_read (single t.slave_address) SiiControl.address
    some (record t { command = command }, buf, some (command, SiiControl.size))
  send_in read t buf = do
    buf ← fill SiiData.size 0 buf
    let command = new_read (single t.slave_address) SiiData.address
    some (record t { command = command }, buf, some (command, SiiData.size))

  unfoldable pub next_pdu : SiiReader → List ℕ → Option (Sent SiiReader)
  unfolding send_in
  next_pdu t buf = send_in t.state t buf

-- The two checks on an answer. The second overrides the first.
check : SiiReader → Pdu → SiiReader
check t pdu =
    let t =
      if answers pdu.command t.command then t else record t { state = error unexpected_command } in
    if pdu.wkc == 1
    then t
    else record t { state = error (unexpected_wkc (record { expected = 1; recieved = pdu.wkc })) }

fail_if : Bool → SiiTaskError → SiiReader → SiiReader
fail_if b e t = if b then record t { state = error (task_specific e) } else t

module _ ⦃bf : Bitfield⦄ where
  -- Each test of the first branch and of `check_ownership` writes an error into the state, and the
  -- assignment that follows the tests writes the next state over it.
  unfoldable pub process_in : State → SiiReader → List ℕ → EtherCatSystemTime → Option SiiReader
  unfolding fail_if
  process_in idle t bytes sys_time = some t
  process_in (error _) t bytes sys_time = some t
  process_in complete t bytes sys_time = some t
  process_in init t bytes sys_time = do
    sum ← SiiControl.check_sum_error bytes
    let t = fail_if sum check_sum_error t
    info ← SiiControl.device_info_error bytes
    let t = fail_if info device_info_error t
    algorithm ← SiiControl.address_algorithm bytes
    let t = fail_if (not algorithm && not (t.sii_address / 2 ^ 8 == 0)) address_size_over t
    b ← SiiControl.busy bytes
    r ← SiiControl.read_operation bytes
    w ← SiiControl.write_operation bytes
    l ← SiiControl.reload_operation bytes
    let t = fail_if (b || (r || (w || l))) busy t
    wide ← SiiControl.read_size bytes
    let t = record t { read_size = if wide then 8 else 4 }
    some (record t { state = set_ownership })
  process_in set_ownership t bytes sys_time = some (record t { state = check_ownership })
  process_in check_ownership t bytes sys_time = do
    o ← SiiAccess.owner bytes
    p ← SiiAccess.pdi_accessed bytes
    let t = fail_if (o || p) permittion_denied t
    some (record t { state = set_address })
  process_in set_address t bytes sys_time = some (record t { state = set_read_operation })
  process_in set_read_operation t bytes sys_time =
      some (record t { state = wait_busy; timer_start = sys_time })
  process_in wait_busy t bytes sys_time = do
    failed ← SiiControl.command_error bytes
    b ← SiiControl.busy bytes
    r ← SiiControl.read_operation bytes
    some (
        if failed
        then record t { state = error (task_specific command_error) }
        else if not b && not r
        then record t { state = read }
        else if ltb t.timer_start sys_time && ltb (timeout_ms * 1000) (sys_time - t.timer_start)
        then record t { state = error timeout }
        else t)
  process_in read t bytes sys_time =
      some (record t { sii_data = overwrite t.sii_data bytes; state = complete })

  unfoldable pub recieve_and_process : SiiReader → Pdu → EtherCatSystemTime → Option SiiReader
  unfolding check process_in
  recieve_and_process t pdu sys_time =
      let t = check t pdu in process_in t.state t pdu.bytes sys_time

  abbrev pub task : CyclicTask SiiReader
  task = record {
    next_pdu = next_pdu;
    recieve_and_process = recieve_and_process;
    is_busy = is_busy;
  }
