-- ===== src/Task.antt =====
-- src/task/mod.rs and src/task/error.rs: the trait `CyclicTask`, by which every job of the master is
-- a state machine that sends one PDU and reads the answer, and the errors of tasks.
pub mod Reach
pub mod Sending
pub mod AlTransfer
pub mod SiiRead
pub mod AddressAccess
pub mod Driver
pub mod Calls
pub mod LoopTask
pub mod MailboxError
pub mod MailboxRead
pub mod MailboxWrite
pub mod Mailbox
use ethercat.Base.{
  ℕ, zero, suc, ◌+◌, Bool, true, false, Option, none, some, List, Result, ok, err, ◌==◌,
  if◌then◌else◌, ◌>>=◌,
}
use ethercat.Interface.{Command, PhyError, Pdu, TargetSlave, single, all}

-- A time is in nanoseconds, a `u64`.
abbrev pub EtherCatSystemTime : Type 0
EtherCatSystemTime = ℕ

pub record UnexpectedWkc : Type 0 where
  pub expected : ℕ
  pub recieved : ℕ

pub data TaskError {ℓ} (E : Type ℓ) : Type ℓ where
  unexpected_command : TaskError E
  unexpected_wkc : UnexpectedWkc → TaskError E
  interface : PhyError → TaskError E
  task_specific : E → TaskError E
  timeout : TaskError E

-- What `next_pdu` leaves: the task, the socket's buffer, and the command with the length of its data.
abbrev pub Sent : Type 0 → Type 0
Sent Task = Task × List ℕ × Option (Command × ℕ)

-- The trait. `none` is a panic.
pub record CyclicTask (Task : Type 0) : Type 0 where
  pub next_pdu : Task → List ℕ → Option (Sent Task)
  pub recieve_and_process : Task → Pdu → EtherCatSystemTime → Option Task
  pub is_busy : Task → Bool

-- The working counter that a target must give: `1` from one slave, the number of slaves from all.
unfoldable pub expected_wkc : TargetSlave → ℕ
expected_wkc (single _) = 1
expected_wkc (all num_slaves) = num_slaves
