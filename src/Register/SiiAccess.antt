-- ===== src/Register/SiiAccess.antt =====
-- src/register/datalink.rs: the register `SiiAccess`, who may access the EEPROM.
use ethercat.Base.{ℕ, Option, List, Bool}
use ethercat.Foreign.{Bitfield}
use ethercat.Foreign.Bits.{read_flag, write_flag}

abbrev pub address : ℕ
address = 0x0500

abbrev pub size : ℕ
size = 2

module _ ⦃bf : Bitfield⦄ where
  unfoldable pub owner : List ℕ → Option Bool
  owner bytes = read_flag bytes 0

  unfoldable pub set_owner : List ℕ → Bool → Option (List ℕ)
  set_owner bytes v = write_flag bytes 0 v

  unfoldable pub reset_access : List ℕ → Option Bool
  reset_access bytes = read_flag bytes 1

  unfoldable pub set_reset_access : List ℕ → Bool → Option (List ℕ)
  set_reset_access bytes v = write_flag bytes 1 v

  unfoldable pub pdi_accessed : List ℕ → Option Bool
  pdi_accessed bytes = read_flag bytes 8
