-- ===== src/Register/SyncManagerPdiControl.antt =====
-- src/register/datalink.rs: the register `SyncManagerPdiControl`, the device's side of a sync manager.
use ethercat.Base.{ℕ, Option, List, Bool}
use ethercat.Foreign.{Bitfield}
use ethercat.Foreign.Bits.{read_flag}

abbrev pub address : ℕ
address = 0x0807

abbrev pub size : ℕ
size = 1

module _ ⦃bf : Bitfield⦄ where
  unfoldable pub channel_enable_pdi : List ℕ → Option Bool
  channel_enable_pdi bytes = read_flag bytes 0

  unfoldable pub repeat_ack : List ℕ → Option Bool
  repeat_ack bytes = read_flag bytes 1
