-- ===== src/Task/LoopTask/AlStateRead.antt =====
-- src/task/loop_task/al_state_read.rs: `AlStateReadTask`, which reads the state of the application layer.
use ethercat.Base.{ℕ, Bool, true, false, Option, none, some, List, ◌==◌, if◌then◌else◌, ◌>>=◌, fill}
use ethercat.Foreign.{Bitfield, TryFromPrimitive}
use ethercat.Interface.{Command, no_command, Pdu, TargetSlave, no_target, num_targets, new_read}
use ethercat.Register.AlStatus
use ethercat.Register.AlStatusCode
use ethercat.Register.AlStatusCode.{AlStatusCode}
use ethercat.Slave.{AlState, from_u8}
use ethercat.Task.{EtherCatSystemTime, Sent, CyclicTask}
use ethercat.Task.LoopTask.{saturating_suc}

pub record AlStateReadTask : Type 0 where
  pub target : TargetSlave
  pub command : Command
  pub last_al_state : Option AlState
  pub last_al_status_code : Option AlStatusCode
  pub invalid_wkc_count : ℕ
  pub last_wkc : ℕ

unfoldable pub new : AlStateReadTask
new = record {
  target = no_target;
  command = no_command;
  last_al_state = none;
  last_al_status_code = none;
  invalid_wkc_count = 0;
  last_wkc = 0;
}

unfoldable pub set_target : AlStateReadTask → TargetSlave → AlStateReadTask
set_target t target_slave = record t { target = target_slave }

abbrev pub required_buffer_size : ℕ
required_buffer_size = AlStatus.size

unfoldable pub is_busy : AlStateReadTask → Bool
is_busy t = false

unfoldable pub next_pdu : AlStateReadTask → List ℕ → Option (Sent AlStateReadTask)
next_pdu t buf = do
  let command = new_read t.target AlStatus.address
  buf ← fill AlStatus.size 0 buf
  some (record t { command = command }, buf, some (command, AlStatus.size))

module _ ⦃bf : Bitfield⦄ ⦃codes : TryFromPrimitive AlStatusCode AlStatusCode.discriminant⦄ where
  status_code : Bool → List ℕ → Option (Option AlStatusCode)
  status_code true bytes = do
    n ← AlStatus.al_status_code bytes
    code ← codes.try_from n
    some (some code)
  status_code false bytes = some none

  unfoldable pub recieve_and_process :
      AlStateReadTask → Pdu → EtherCatSystemTime → Option AlStateReadTask
  unfolding status_code
  recieve_and_process t pdu sys_time = do
    let t =
        if pdu.wkc == num_targets t.target
        then t
        else record t { invalid_wkc_count = saturating_suc t.invalid_wkc_count }
    v ← AlStatus.state pdu.bytes
    change_err ← AlStatus.change_err pdu.bytes
    code ← status_code change_err pdu.bytes
    some (record t { last_al_state = some (from_u8 v); last_al_status_code = code })

  abbrev pub task : CyclicTask AlStateReadTask
  task = record {
    next_pdu = next_pdu;
    recieve_and_process = recieve_and_process;
    is_busy = is_busy;
  }
