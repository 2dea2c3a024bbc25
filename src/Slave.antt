-- ===== src/Slave.antt =====
-- src/slave/slave.rs: a slave's state, its sync managers and the counter of its mailbox messages.
pub mod MailboxCount
pub mod LogicalBits
pub mod Config
pub mod Info
pub mod Network
mod Tests
use ethercat.Base.{ℕ, ◌+◌, ◌==◌, if◌then◌else◌, Bool, true, false}

pub data AlState : Type 0 where
  init pre_operational bootstrap safe_operational operational invalid_or_mixed : AlState

-- `state as u8`.
unfoldable pub discriminant : AlState → ℕ
discriminant init = 1
discriminant pre_operational = 2
discriminant bootstrap = 3
discriminant safe_operational = 4
discriminant operational = 8
discriminant invalid_or_mixed = 9

-- `AlState::from`.
unfoldable pub from_u8 : ℕ → AlState
unfolding discriminant
from_u8 v =
    if v == discriminant init
    then init
    else if v == discriminant pre_operational
    then pre_operational
    else if v == discriminant bootstrap
    then bootstrap
    else if v == discriminant safe_operational
    then safe_operational
    else if v == discriminant operational
    then operational
    else invalid_or_mixed

-- The derived `==`.
unfoldable pub same_state : AlState → AlState → Bool
unfolding discriminant
same_state a b = discriminant a == discriminant b

pub record SyncManager : Type 0 where
  pub number : ℕ
  pub size : ℕ
  pub start_address : ℕ
