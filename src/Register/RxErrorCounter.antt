-- ===== src/Register/RxErrorCounter.antt =====
-- src/register/datalink.rs: the register `RxErrorCounter`, the receive errors of the four ports.
use ethercat.Base.{ℕ, Option, List}
use ethercat.Foreign.{Bitfield}
use ethercat.Foreign.Bits.{read_field, write_field}

abbrev pub address : ℕ
address = 0x0300

abbrev pub size : ℕ
size = 8

module _ ⦃bf : Bitfield⦄ where
  unfoldable pub frame_error_count_port0 : List ℕ → Option ℕ
  frame_error_count_port0 bytes = read_field bytes 7 0

  unfoldable pub set_frame_error_count_port0 : List ℕ → ℕ → Option (List ℕ)
  set_frame_error_count_port0 bytes v = write_field bytes 7 0 v

  unfoldable pub phy_error_count_port0 : List ℕ → Option ℕ
  phy_error_count_port0 bytes = read_field bytes 15 8

  unfoldable pub set_phy_error_count_port0 : List ℕ → ℕ → Option (List ℕ)
  set_phy_error_count_port0 bytes v = write_field bytes 15 8 v

  unfoldable pub frame_error_count_port1 : List ℕ → Option ℕ
  frame_error_count_port1 bytes = read_field bytes 23 16

  unfoldable pub set_frame_error_count_port1 : List ℕ → ℕ → Option (List ℕ)
  set_frame_error_count_port1 bytes v = write_field bytes 23 16 v

  unfoldable pub phy_error_count_port1 : List ℕ → Option ℕ
  phy_error_count_port1 bytes = read_field bytes 31 24

  unfoldable pub set_phy_error_count_port1 : List ℕ → ℕ → Option (List ℕ)
  set_phy_error_count_port1 bytes v = write_field bytes 31 24 v

  unfoldable pub frame_error_count_port2 : List ℕ → Option ℕ
  frame_error_count_port2 bytes = read_field bytes 39 32

  unfoldable pub set_frame_error_count_port2 : List ℕ → ℕ → Option (List ℕ)
  set_frame_error_count_port2 bytes v = write_field bytes 39 32 v

  unfoldable pub phy_error_count_port2 : List ℕ → Option ℕ
  phy_error_count_port2 bytes = read_field bytes 47 40

  unfoldable pub set_phy_error_count_port2 : List ℕ → ℕ → Option (List ℕ)
  set_phy_error_count_port2 bytes v = write_field bytes 47 40 v

  unfoldable pub frame_error_count_port3 : List ℕ → Option ℕ
  frame_error_count_port3 bytes = read_field bytes 55 48

  unfoldable pub set_frame_error_count_port3 : List ℕ → ℕ → Option (List ℕ)
  set_frame_error_count_port3 bytes v = write_field bytes 55 48 v

  unfoldable pub phy_error_count_port3 : List ℕ → Option ℕ
  phy_error_count_port3 bytes = read_field bytes 63 56

  unfoldable pub set_phy_error_count_port3 : List ℕ → ℕ → Option (List ℕ)
  set_phy_error_count_port3 bytes v = write_field bytes 63 56 v
