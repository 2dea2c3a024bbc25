-- ===== src/Register/AlControl.antt =====
-- src/register/application.rs: the register `AlControl`, the requested state of the application layer.
use ethercat.Base.{ℕ, Option, List, Bool}
use ethercat.Foreign.{Bitfield}
use ethercat.Foreign.Bits.{read_field, write_field, read_flag, write_flag}

abbrev pub address : ℕ
address = 0x0120

abbrev pub size : ℕ
size = 2

module _ ⦃bf : Bitfield⦄ where
  unfoldable pub state : List ℕ → Option ℕ
  state bytes = read_field bytes 3 0

  unfoldable pub set_state : List ℕ → ℕ → Option (List ℕ)
  set_state bytes v = write_field bytes 3 0 v

  unfoldable pub acknowledge : List ℕ → Option Bool
  acknowledge bytes = read_flag bytes 4

  unfoldable pub set_acknowledge : List ℕ → Bool → Option (List ℕ)
  set_acknowledge bytes v = write_flag bytes 4 v

  unfoldable pub appl_specific : List ℕ → Option ℕ
  appl_specific bytes = read_field bytes 15 8

  unfoldable pub set_appl_specific : List ℕ → ℕ → Option (List ℕ)
  set_appl_specific bytes v = write_field bytes 15 8 v
