-- ===== src/Task/LoopTask/Process.antt =====
-- src/task/loop_task/process.rs: `ProcessTask`, which exchanges the image of the process data.
use ethercat.Base.{ℕ, Bool, false, Option, none, some, List, ◌==◌, if◌then◌else◌}
use ethercat.Interface.{Command, Pdu, new_logical_read_write}
use ethercat.Task.{EtherCatSystemTime, Sent, CyclicTask}
use ethercat.Task.LoopTask.{saturating_suc}

pub record ProcessTask : Type 0 where
  pub command : Command
  pub start_logical_address : ℕ
  pub expected_wkc : ℕ
  pub image_size : ℕ
  pub invalid_wkc_count : ℕ
  pub last_wkc : ℕ

unfoldable pub new : ℕ → ℕ → ℕ → ProcessTask
new start_logical_address expected_wkc image_size = record {
  command = new_logical_read_write start_logical_address;
  start_logical_address = start_logical_address;
  expected_wkc = expected_wkc;
  image_size = image_size;
  invalid_wkc_count = 0;
  last_wkc = 0;
}

unfoldable pub set_expected_wkc : ProcessTask → ℕ → ProcessTask
set_expected_wkc t expected_wkc = record t { expected_wkc = expected_wkc }

unfoldable pub set_start_logical_address : ProcessTask → ℕ → ProcessTask
set_start_logical_address t start_logical_address = record t {
  start_logical_address = start_logical_address;
}

unfoldable pub set_image_size : ProcessTask → ℕ → ProcessTask
set_image_size t image_size = record t { image_size = image_size }

unfoldable pub is_busy : ProcessTask → Bool
is_busy t = false

unfoldable pub next_pdu : ProcessTask → List ℕ → Option (Sent ProcessTask)
next_pdu t buf =
    if t.expected_wkc == 0
    then some (t, buf, none)
    else some (t, buf, some (t.command, t.image_size))

unfoldable pub recieve_and_process : ProcessTask → Pdu → EtherCatSystemTime → Option ProcessTask
recieve_and_process t pdu sys_time = some (
    if pdu.wkc == t.expected_wkc
    then t
    else record t { invalid_wkc_count = saturating_suc t.invalid_wkc_count })

abbrev pub task : CyclicTask ProcessTask
task = record { next_pdu = next_pdu; recieve_and_process = recieve_and_process; is_busy = is_busy }
