-- ===== src/Register/DcSystemTime.antt =====
-- src/register/datalink.rs: the register `DcSystemTime`, the system time of a distributed clock.
use ethercat.Base.{ℕ, Option, List}
use ethercat.Foreign.{Bitfield}
use ethercat.Foreign.Bits.{read_field, write_field}

abbrev pub address : ℕ
address = 0x0910

abbrev pub size : ℕ
size = 8

module _ ⦃bf : Bitfield⦄ where
  unfoldable pub local_system_time : List ℕ → Option ℕ
  local_system_time bytes = read_field bytes 63 0

  unfoldable pub set_local_system_time : List ℕ → ℕ → Option (List ℕ)
  set_local_system_time bytes v = write_field bytes 63 0 v
