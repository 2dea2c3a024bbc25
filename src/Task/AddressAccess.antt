-- ===== src/Task/AddressAccess.antt =====
-- src/task/address_access_task.rs: `AddressAccessTask`, which reads or writes a register in one exchange.
pub mod Laws
mod Tests
use ethercat.Base.{
  ℕ, Bool, true, false, ◌&&◌, Option, none, some, List, Result, ok, err, ◌==◌, leb, length,
  if◌then◌else◌, ◌>>=◌, overwrite,
}
use ethercat.Interface.{
  Command, no_command, Pdu, TargetSlave, no_target, new_read, new_write, answers,
}
use ethercat.Task.{
  TaskError, unexpected_command, unexpected_wkc, EtherCatSystemTime, Sent, CyclicTask, expected_wkc,
}

pub data State : Type 0 where
  error : TaskError (Unit {0}) → State
  idle read write complete : State

pub record AddressAccessTask : Type 0 where
  pub state : State
  pub slave_address : TargetSlave
  pub command : Command
  pub data_size : ℕ
  pub ado : ℕ

unfoldable pub new : AddressAccessTask
new = record {
  state = idle;
  slave_address = no_target;
  command = no_command;
  data_size = 0;
  ado = 0;
}

unfoldable pub start_to_read : AddressAccessTask → TargetSlave → ℕ → ℕ → AddressAccessTask
start_to_read t slave_address ado data_size = record t {
  slave_address = slave_address;
  state = read;
  command = no_command;
  data_size = data_size;
  ado = ado;
}

-- `buf` is the socket's buffer, into which the data is copied; `none` is the failed assertion.
unfoldable pub start_to_write :
    AddressAccessTask → TargetSlave → ℕ → List ℕ → List ℕ → Option (AddressAccessTask × List ℕ)
start_to_write t slave_address ado bytes buf =
    if leb (length bytes) (length buf)
    then some (
      record t {
        slave_address = slave_address;
        state = write;
        command = no_command;
        data_size = length bytes;
        ado = ado;
      },
      overwrite buf bytes,
    )
    else none

wait_in : State → Option (Result (Unit {0}) (TaskError (Unit {0})))
wait_in complete = some (ok tt)
wait_in (error e) = some (err e)
wait_in _ = none

unfoldable pub wait : AddressAccessTask → Option (Result (Unit {0}) (TaskError (Unit {0})))
unfolding wait_in
wait t = wait_in t.state

busy_in : State → Bool
busy_in idle = false
busy_in complete = false
busy_in (error _) = false
busy_in _ = true

unfoldable pub is_busy : AddressAccessTask → Bool
unfolding busy_in
is_busy t = busy_in t.state

send_in : State → AddressAccessTask → List ℕ → Option (Sent AddressAccessTask)
send_in idle t buf = some (t, buf, none)
send_in (error _) t buf = some (t, buf, none)
send_in read t buf =
    let command = new_read t.slave_address t.ado in
    some (record t { command = command }, buf, some (command, t.data_size))
send_in write t buf =
    let command = new_write t.slave_address t.ado in
    some (record t { command = command }, buf, some (command, t.data_size))
send_in complete t buf = some (t, buf, none)

unfoldable pub next_pdu : AddressAccessTask → List ℕ → Option (Sent AddressAccessTask)
unfolding send_in
next_pdu t buf = send_in t.state t buf

-- The two checks on an answer. The second overrides the first.
check : AddressAccessTask → Pdu → AddressAccessTask
check t pdu =
    let t =
      if answers pdu.command t.command then t else record t { state = error unexpected_command } in
    if pdu.wkc == expected_wkc t.slave_address then t else record t {
      state =
          error (
            unexpected_wkc
              (record { expected = expected_wkc t.slave_address; recieved = pdu.wkc }));
    }

process_in : State → AddressAccessTask → AddressAccessTask
process_in idle t = t
process_in (error _) t = t
process_in read t = record t { state = complete }
process_in write t = record t { data_size = 0; state = complete }
process_in complete t = t

unfoldable pub recieve_and_process :
    AddressAccessTask → Pdu → EtherCatSystemTime → Option AddressAccessTask
unfolding check process_in
recieve_and_process t pdu sys_time = let t = check t pdu in some (process_in t.state t)

abbrev pub task : CyclicTask AddressAccessTask
task = record { next_pdu = next_pdu; recieve_and_process = recieve_and_process; is_busy = is_busy }
