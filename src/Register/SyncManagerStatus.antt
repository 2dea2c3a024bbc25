-- ===== src/Register/SyncManagerStatus.antt =====
-- src/register/datalink.rs: the register `SyncManagerStatus`, the status of a sync manager.
use ethercat.Base.{ℕ, Option, List, Bool}
use ethercat.Foreign.{Bitfield}
use ethercat.Foreign.Bits.{read_field, read_flag}

abbrev pub address : ℕ
address = 0x0805

abbrev pub size : ℕ
size = 1

module _ ⦃bf : Bitfield⦄ where
  unfoldable pub write_event : List ℕ → Option Bool
  write_event bytes = read_flag bytes 0

  unfoldable pub read_event : List ℕ → Option Bool
  read_event bytes = read_flag bytes 1

  unfoldable pub is_mailbox_full : List ℕ → Option Bool
  is_mailbox_full bytes = read_flag bytes 3

  unfoldable pub bufferd_state : List ℕ → Option ℕ
  bufferd_state bytes = read_field bytes 5 4
