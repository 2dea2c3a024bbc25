-- ===== src/Frame/Ethernet.antt =====
-- src/frame/ethercat.rs: the headers `EthernetFrame` and `EtherCatFrame`.
use ethercat.Base.{ℕ, ◌+◌, Option, List, ◌>>=◌}
use ethercat.Foreign.{Bitfield, Msb0}
use ethercat.Foreign.Bits.{read_field, write_field}
use ethercat.Frame.{dst_mac, src_mac, ethercat_type}

module _ ⦃m : Msb0⦄ where
  unfoldable pub set_destination : List ℕ → ℕ → Option (List ℕ)
  set_destination bytes v = write_field ⦃bf = m.order⦄ bytes 47 0 v

  unfoldable pub source : List ℕ → Option ℕ
  source bytes = read_field ⦃bf = m.order⦄ bytes (48 + 47) 48

  unfoldable pub set_source : List ℕ → ℕ → Option (List ℕ)
  set_source bytes v = write_field ⦃bf = m.order⦄ bytes (48 + 47) 48 v

  unfoldable pub ether_type : List ℕ → Option ℕ
  ether_type bytes = read_field ⦃bf = m.order⦄ bytes (48 + 47 + 1 + 15) (48 + 47 + 1)

  unfoldable pub set_ether_type : List ℕ → ℕ → Option (List ℕ)
  set_ether_type bytes v = write_field ⦃bf = m.order⦄ bytes (48 + 47 + 1 + 15) (48 + 47 + 1) v

  unfoldable pub set_ethercat_default : List ℕ → Option (List ℕ)
  unfolding set_destination set_source set_ether_type
  set_ethercat_default bytes = do
    bytes ← set_destination bytes dst_mac
    bytes ← set_source bytes src_mac
    set_ether_type bytes ethercat_type

module _ ⦃bf : Bitfield⦄ where
  -- `EtherCatFrame::length`.
  unfoldable pub frame_length : List ℕ → Option ℕ
  frame_length bytes = read_field bytes 10 0

  -- `EtherCatFrame::set_length`.
  unfoldable pub set_frame_length : List ℕ → ℕ → Option (List ℕ)
  set_frame_length bytes v = write_field bytes 10 0 v

  unfoldable pub set_ethercat_type : List ℕ → ℕ → Option (List ℕ)
  set_ethercat_type bytes v = write_field bytes 15 12 v
