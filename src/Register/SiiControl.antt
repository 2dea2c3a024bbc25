-- ===== src/Register/SiiControl.antt =====
-- src/register/datalink.rs: the register `SiiControl`, the control and status of the EEPROM interface.
use ethercat.Base.{ℕ, Option, List, Bool}
use ethercat.Foreign.{Bitfield}
use ethercat.Foreign.Bits.{read_flag, write_flag}

abbrev pub address : ℕ
address = 0x0502

abbrev pub size : ℕ
size = 2

module _ ⦃bf : Bitfield⦄ where
  unfoldable pub enable_write_access : List ℕ → Option Bool
  enable_write_access bytes = read_flag bytes 0

  unfoldable pub set_enable_write_access : List ℕ → Bool → Option (List ℕ)
  set_enable_write_access bytes v = write_flag bytes 0 v

  unfoldable pub read_size : List ℕ → Option Bool
  read_size bytes = read_flag bytes 6

  unfoldable pub address_algorithm : List ℕ → Option Bool
  address_algorithm bytes = read_flag bytes 7

  unfoldable pub read_operation : List ℕ → Option Bool
  read_operation bytes = read_flag bytes 8

  unfoldable pub set_read_operation : List ℕ → Bool → Option (List ℕ)
  set_read_operation bytes v = write_flag bytes 8 v

  unfoldable pub write_operation : List ℕ → Option Bool
  write_operation bytes = read_flag bytes 9

  unfoldable pub set_write_operation : List ℕ → Bool → Option (List ℕ)
  set_write_operation bytes v = write_flag bytes 9 v

  unfoldable pub reload_operation : List ℕ → Option Bool
  reload_operation bytes = read_flag bytes 10

  unfoldable pub set_reload_operation : List ℕ → Bool → Option (List ℕ)
  set_reload_operation bytes v = write_flag bytes 10 v

  unfoldable pub check_sum_error : List ℕ → Option Bool
  check_sum_error bytes = read_flag bytes 11

  unfoldable pub device_info_error : List ℕ → Option Bool
  device_info_error bytes = read_flag bytes 12

  unfoldable pub command_error : List ℕ → Option Bool
  command_error bytes = read_flag bytes 13

  unfoldable pub busy : List ℕ → Option Bool
  busy bytes = read_flag bytes 15
