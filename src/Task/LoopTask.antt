-- ===== src/Task/LoopTask.antt =====
-- src/task/loop_task: the tasks that a master repeats in every cycle. Their counts are of type `usize`,
-- taken to have 64 bits.
pub mod AlStateRead
pub mod RxErrorRead
pub mod Process
pub mod DcSync
pub mod Laws
mod Tests
use ethercat.Base.{ℕ, ◌+◌, ◌-◌, ◌^◌, ltb, if◌then◌else◌}

abbrev pub usize_max : ℕ
usize_max = 2 ^ 64 - 1

-- `saturating_add(1)`.
unfoldable pub saturating_suc : ℕ → ℕ
saturating_suc n = if ltb n usize_max then n + 1 else usize_max
