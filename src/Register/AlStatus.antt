-- ===== src/Register/AlStatus.antt =====
-- src/register/application.rs: the register `AlStatus`, the state of the application layer.
use ethercat.Base.{ℕ, Option, List, Bool}
use ethercat.Foreign.{Bitfield}
use ethercat.Foreign.Bits.{read_field, read_flag}

abbrev pub address : ℕ
address = 0x0130

abbrev pub size : ℕ
size = 6

module _ ⦃bf : Bitfield⦄ where
  unfoldable pub state : List ℕ → Option ℕ
  state bytes = read_field bytes 3 0

  unfoldable pub change_err : List ℕ → Option Bool
  change_err bytes = read_flag bytes 4

  unfoldable pub appl_specific : List ℕ → Option ℕ
  appl_specific bytes = read_field bytes 15 8

  unfoldable pub al_status_code : List ℕ → Option ℕ
  al_status_code bytes = read_field bytes 47 32
