-- ===== src/Register/SiiAddress.antt =====
-- src/register/datalink.rs: the register `SiiAddress`, the EEPROM address.
use ethercat.Base.{ℕ, Option, List}
use ethercat.Foreign.{Bitfield}
use ethercat.Foreign.Bits.{read_field, write_field}

abbrev pub address : ℕ
address = 0x0504

abbrev pub size : ℕ
size = 4

module _ ⦃bf : Bitfield⦄ where
  unfoldable pub sii_address : List ℕ → Option ℕ
  sii_address bytes = read_field bytes 31 0

  unfoldable pub set_sii_address : List ℕ → ℕ → Option (List ℕ)
  set_sii_address bytes v = write_field bytes 31 0 v
