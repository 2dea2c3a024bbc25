-- ===== src/Register/SiiData.antt =====
-- src/register/datalink.rs: the register `SiiData`, the EEPROM data.
use ethercat.Base.{ℕ, Option, List}
use ethercat.Foreign.{Bitfield}
use ethercat.Foreign.Bits.{read_field, write_field}

abbrev pub address : ℕ
address = 0x0508

abbrev pub size : ℕ
size = 8

module _ ⦃bf : Bitfield⦄ where
  unfoldable pub sii_data : List ℕ → Option ℕ
  sii_data bytes = read_field bytes 63 0

  unfoldable pub set_sii_data : List ℕ → ℕ → Option (List ℕ)
  set_sii_data bytes v = write_field bytes 63 0 v
