-- ===== src/Task/AlTransfer.antt =====
-- src/task/al_state_transfer.rs: `AlStateTransferTask`, which brings a slave, or all slaves at once, to a
-- state of the application layer: clear an error, take the EEPROM back, request the state and poll.
pub mod Safety
pub mod Progress
mod Tests
use ethercat.Base.{
  ℕ, zero, suc, ◌+◌, ◌-◌, ◌*◌, Bool, true, false, ◌&&◌, Option, none, some, List, Result, ok, err,
  ◌==◌, ltb, if◌then◌else◌, ◌>>=◌, fill,
}
use ethercat.Foreign.{Bitfield, TryFromPrimitive}
use ethercat.Interface.{
  Command, no_command, Pdu, TargetSlave, no_target, new_read, new_write, answers,
}
use ethercat.Register.AlControl
use ethercat.Register.AlStatus
use ethercat.Register.SiiAccess
use ethercat.Register.AlStatusCode
use ethercat.Register.AlStatusCode.{AlStatusCode}
use ethercat.Slave
use ethercat.Slave.{
  AlState, init, pre_operational, bootstrap, safe_operational, operational, invalid_or_mixed,
  from_u8, same_state,
}
use ethercat.Task.{
  TaskError, unexpected_command, unexpected_wkc, task_specific, timeout, EtherCatSystemTime, Sent,
  CyclicTask, expected_wkc,
}

abbrev pub preop_timeout_ms : ℕ
preop_timeout_ms = 3000

abbrev pub safeop_op_timeout_ms : ℕ
safeop_op_timeout_ms = 10000

abbrev pub back_to_init_timeout_ms : ℕ
back_to_init_timeout_ms = 5000

abbrev pub back_to_safeop_timeout_ms : ℕ
back_to_safeop_timeout_ms = 200

abbrev larger : ℕ → ℕ → ℕ
larger max x = if ltb max x then x else max

abbrev pub max_timeout_ms : ℕ
max_timeout_ms =
    larger (larger (larger preop_timeout_ms safeop_op_timeout_ms) back_to_init_timeout_ms)
      back_to_safeop_timeout_ms

pub data AlStateTransferTaskError : Type 0 where
  al_status_code : AlState → AlStatusCode → AlStateTransferTaskError

pub data State : Type 0 where
  error : TaskError AlStateTransferTaskError → State
  idle read : State
  reset_error off_ack : AlState → State
  reset_sii_ownership request poll complete : State

pub record AlStateTransferTask : Type 0 where
  pub timer_start : EtherCatSystemTime
  pub state : State
  pub slave_address : TargetSlave
  pub target_al : AlState
  pub command : Command
  pub current_al_state : AlState
  pub timeout_ms : ℕ

unfoldable pub new : AlStateTransferTask
new = record {
  timer_start = 0;
  state = idle;
  slave_address = no_target;
  target_al = init;
  command = no_command;
  current_al_state = init;
  timeout_ms = 0;
}

unfoldable pub start : AlStateTransferTask → TargetSlave → AlState → AlStateTransferTask
start t slave_address target_al = record t {
  slave_address = slave_address;
  target_al = target_al;
  state = read;
  command = no_command;
}

wait_in : State → AlState → Option (Result AlState (TaskError AlStateTransferTaskError))
wait_in complete al = some (ok al)
wait_in (error e) al = some (err e)
wait_in _ al = none

unfoldable pub wait :
    AlStateTransferTask → Option (Result AlState (TaskError AlStateTransferTaskError))
unfolding wait_in
wait t = wait_in t.state t.current_al_state

busy_in : State → Bool
busy_in idle = false
busy_in complete = false
busy_in (error _) = false
busy_in _ = true

unfoldable pub is_busy : AlStateTransferTask → Bool
unfolding busy_in
is_busy t = busy_in t.state

-- The timeout of a change from the first state to the second.
unfoldable pub transition_timeout_ms : AlState → AlState → ℕ
transition_timeout_ms pre_operational safe_operational = safeop_op_timeout_ms
transition_timeout_ms _ operational = safeop_op_timeout_ms
transition_timeout_ms _ pre_operational = preop_timeout_ms
transition_timeout_ms _ bootstrap = preop_timeout_ms
transition_timeout_ms _ init = back_to_init_timeout_ms
transition_timeout_ms _ safe_operational = back_to_safeop_timeout_ms
transition_timeout_ms _ invalid_or_mixed = max_timeout_ms

-- `const_max` of src/util.rs, and the largest register that the task reads or writes.
abbrev pub required_buffer_size : ℕ
required_buffer_size = larger (larger (larger 0 AlStatus.size) AlControl.size) SiiAccess.size

module _ ⦃bf : Bitfield⦄ where
  -- The request of a state, with or without the acknowledgement of an error.
  control : List ℕ → AlState → Bool → Option (List ℕ)
  control buf al acknowledge = do
    buf ← AlControl.set_state buf (Slave.discriminant al)
    AlControl.set_acknowledge buf acknowledge

  send_in : State → AlStateTransferTask → List ℕ → Option (Sent AlStateTransferTask)
  unfolding control
  send_in idle t buf = some (t, buf, none)
  send_in (error _) t buf = some (t, buf, none)
  send_in complete t buf = some (t, buf, none)
  send_in read t buf = do
    let command = new_read t.slave_address AlStatus.address
    buf ← fill AlStatus.size 0 buf
    some (record t { command = command }, buf, some (command, AlStatus.size))
  send_in (reset_error al) t buf = do
    let command = new_write t.slave_address AlControl.address
    buf ← fill AlStatus.size 0 buf
    buf ← control buf al true
    some (record t { command = command }, buf, some (command, AlControl.size))
  send_in (off_ack al) t buf = do
    let command = new_write t.slave_address AlControl.address
    buf ← fill AlControl.size 0 buf
    buf ← control buf al false
    some (record t { command = command }, buf, some (command, AlControl.size))
  send_in reset_sii_ownership t buf = do
    let command = new_write t.slave_address SiiAccess.address
    buf ← fill SiiAccess.size 0 buf
    buf ← SiiAccess.set_owner buf true
    buf ← SiiAccess.set_reset_access buf false
    some (record t { command = command }, buf, some (command, SiiAccess.size))
  send_in request t buf = do
    let command = new_write t.slave_address AlControl.address
    buf ← fill AlControl.size 0 buf
    buf ← AlControl.set_state buf (Slave.discriminant t.target_al)
    some (
      record t {
        command = command;
        timeout_ms = transition_timeout_ms t.current_al_state t.target_al;
      },
      buf,
      some (command, AlControl.size),
    )
  send_in poll t buf = do
    let command = new_read t.slave_address AlStatus.address
    buf ← fill AlStatus.size 0 buf
    some (record t { command = command }, buf, some (command, AlStatus.size))

  unfoldable pub next_pdu : AlStateTransferTask → List ℕ → Option (Sent AlStateTransferTask)
  unfolding send_in
  next_pdu t buf = send_in t.state t buf

-- The two checks on an answer. The second overrides the first.
check : AlStateTransferTask → Pdu → AlStateTransferTask
check t pdu =
    let t =
      if answers pdu.command t.command then t else record t { state = error unexpected_command } in
    if pdu.wkc == expected_wkc t.slave_address then t else record t {
      state =
          error (
            unexpected_wkc
              (record { expected = expected_wkc t.slave_address; recieved = pdu.wkc }));
    }

-- The error that a change stopped at is acknowledged with the state, or with `init` if the slaves differ.
non_mixed : AlState → AlState
non_mixed invalid_or_mixed = init
non_mixed al = al

-- The timer has run for longer than the timeout, in the units of the source.
is_late : AlStateTransferTask → EtherCatSystemTime → Bool
is_late t sys_time =
    ltb t.timer_start sys_time && ltb (t.timeout_ms * 1000000000) (sys_time - t.timer_start)

module _ ⦃bf : Bitfield⦄ ⦃codes : TryFromPrimitive AlStatusCode AlStatusCode.discriminant⦄ where
  process_in :
      State → AlStateTransferTask → List ℕ → EtherCatSystemTime → Option AlStateTransferTask
  unfolding non_mixed is_late
  process_in idle t bytes sys_time = some t
  process_in (error _) t bytes sys_time = some t
  process_in complete t bytes sys_time = some t
  process_in read t bytes sys_time = do
    v ← AlStatus.state bytes
    let al = from_u8 v
    let t = record t { current_al_state = al }
    if same_state al t.target_al then some (record t { state = complete }) else do
      change_err ← AlStatus.change_err bytes
      some (
          if change_err
          then record t { state = reset_error (non_mixed al) }
          else record t { state = reset_sii_ownership })
  process_in (reset_error al) t bytes sys_time = some (record t { state = off_ack al })
  process_in (off_ack _) t bytes sys_time = some (record t { state = read })
  process_in reset_sii_ownership t bytes sys_time = some (record t { state = request })
  process_in request t bytes sys_time = some (record t { timer_start = sys_time; state = poll })
  process_in poll t bytes sys_time = do
    v ← AlStatus.state bytes
    let al = from_u8 v
    let t = record t { current_al_state = al }
    if same_state t.target_al al then some (record t { state = complete }) else do
      change_err ← AlStatus.change_err bytes
      if change_err
          then (do
            n ← AlStatus.al_status_code bytes
            code ← codes.try_from n
            some (record t { state = error (task_specific (al_status_code al code)) }))
          else some (if is_late t sys_time then record t { state = error timeout } else t)

  unfoldable pub recieve_and_process :
      AlStateTransferTask → Pdu → EtherCatSystemTime → Option AlStateTransferTask
  unfolding check process_in
  recieve_and_process t pdu sys_time =
      let t = check t pdu in process_in t.state t pdu.bytes sys_time

  abbrev pub task : CyclicTask AlStateTransferTask
  task = record {
    next_pdu = next_pdu;
    recieve_and_process = recieve_and_process;
    is_busy = is_busy;
  }
