-- ===== src/Task/LoopTask/RxErrorRead.antt =====
-- src/task/loop_task/rx_error_check.rs: `RxErrorReadTask`, which reads the counters of receive errors.
use ethercat.Base.{
  ℕ, Bool, false, Option, some, List, ◌==◌, if◌then◌else◌, ◌>>=◌, fill, overwrite, replicate,
}
use ethercat.Interface.{Command, no_command, Pdu, TargetSlave, no_target, num_targets, new_read}
use ethercat.Interface.Socket.{slice_to}
use ethercat.Register.RxErrorCounter
use ethercat.Task.{EtherCatSystemTime, Sent, CyclicTask}
use ethercat.Task.LoopTask.{saturating_suc}

pub record RxErrorReadTask : Type 0 where
  pub command : Command
  pub target : TargetSlave
  pub rx_error_count : List ℕ
  pub invalid_wkc_count : ℕ
  pub last_wkc : ℕ

unfoldable pub new : RxErrorReadTask
new = record {
  command = no_command;
  target = no_target;
  rx_error_count = replicate RxErrorCounter.size 0;
  invalid_wkc_count = 0;
  last_wkc = 0;
}

unfoldable pub set_target : RxErrorReadTask → TargetSlave → RxErrorReadTask
set_target t target_slave = record t { target = target_slave }

unfoldable pub is_busy : RxErrorReadTask → Bool
is_busy t = false

unfoldable pub next_pdu : RxErrorReadTask → List ℕ → Option (Sent RxErrorReadTask)
next_pdu t buf = do
  buf ← fill RxErrorCounter.size 0 buf
  let command = new_read t.target RxErrorCounter.address
  some (record t { command = command }, buf, some (command, RxErrorCounter.size))

unfoldable pub recieve_and_process :
    RxErrorReadTask → Pdu → EtherCatSystemTime → Option RxErrorReadTask
recieve_and_process t pdu sys_time = do
  let t =
      if pdu.wkc == num_targets t.target
      then t
      else record t { invalid_wkc_count = saturating_suc t.invalid_wkc_count }
  counters ← slice_to RxErrorCounter.size pdu.bytes
  some (record t { rx_error_count = overwrite t.rx_error_count counters })

abbrev pub task : CyclicTask RxErrorReadTask
task = record { next_pdu = next_pdu; recieve_and_process = recieve_and_process; is_busy = is_busy }
