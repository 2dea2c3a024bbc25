-- ===== src/Register/SyncManagerActivation.antt =====
-- src/register/datalink.rs: the register `SyncManagerActivation`, the activation of a sync manager.
use ethercat.Base.{ℕ, Option, List, Bool}
use ethercat.Foreign.{Bitfield}
use ethercat.Foreign.Bits.{read_flag, write_flag}

abbrev pub address : ℕ
address = 0x0806

abbrev pub size : ℕ
size = 1

module _ ⦃bf : Bitfield⦄ where
  unfoldable pub channel_enable : List ℕ → Option Bool
  channel_enable bytes = read_flag bytes 0

  unfoldable pub set_channel_enable : List ℕ → Bool → Option (List ℕ)
  set_channel_enable bytes v = write_flag bytes 0 v

  unfoldable pub repeat : List ℕ → Option Bool
  repeat bytes = read_flag bytes 1

  unfoldable pub set_repeat : List ℕ → Bool → Option (List ℕ)
  set_repeat bytes v = write_flag bytes 1 v
