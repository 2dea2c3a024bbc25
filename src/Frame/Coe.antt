-- ===== src/Frame/Coe.antt =====
-- src/frame/coe.rs: the headers of messages of CANopen over EtherCAT.
use ethercat.Base.{ℕ, Bool, Option, List}
use ethercat.Foreign.{Bitfield}
use ethercat.Foreign.Bits.{read_field, write_field, read_flag, write_flag}

pub data CoeServiceType : Type 0 where
  emmergency sdo_req sdo_res tx_pdo rx_pdo tx_pdo_remote_req rx_pdo_remote_req sdo_info other :
      CoeServiceType

-- `coe_type as u8`.
unfoldable pub discriminant : CoeServiceType → ℕ
discriminant emmergency = 1
discriminant sdo_req = 2
discriminant sdo_res = 3
discriminant tx_pdo = 4
discriminant rx_pdo = 5
discriminant tx_pdo_remote_req = 6
discriminant rx_pdo_remote_req = 7
discriminant sdo_info = 8
discriminant other = 9

abbrev pub coe_header_size : ℕ
coe_header_size = 2

abbrev pub sdo_header_size : ℕ
sdo_header_size = 4

abbrev pub download_header_size : ℕ
download_header_size = 4

abbrev pub emmergency_size : ℕ
emmergency_size = 8

module _ ⦃bf : Bitfield⦄ where
  unfoldable pub set_number : List ℕ → ℕ → Option (List ℕ)
  set_number bytes v = write_field bytes 8 0 v

  unfoldable pub service_type : List ℕ → Option ℕ
  service_type bytes = read_field bytes 15 12

  unfoldable pub set_coe_service_type : List ℕ → CoeServiceType → Option (List ℕ)
  set_coe_service_type bytes v = write_field bytes 15 12 (discriminant v)

  unfoldable pub set_size_indicator : List ℕ → Bool → Option (List ℕ)
  set_size_indicator bytes v = write_flag bytes 0 v

  unfoldable pub transfer_type : List ℕ → Option Bool
  transfer_type bytes = read_flag bytes 1

  unfoldable pub set_transfer_type : List ℕ → Bool → Option (List ℕ)
  set_transfer_type bytes v = write_flag bytes 1 v

  unfoldable pub data_set_size : List ℕ → Option ℕ
  data_set_size bytes = read_field bytes 3 2

  unfoldable pub set_data_set_size : List ℕ → ℕ → Option (List ℕ)
  set_data_set_size bytes v = write_field bytes 3 2 v

  unfoldable pub set_complete_access : List ℕ → Bool → Option (List ℕ)
  set_complete_access bytes v = write_flag bytes 4 v

  unfoldable pub command_specifier : List ℕ → Option ℕ
  command_specifier bytes = read_field bytes 7 5

  unfoldable pub set_command_specifier : List ℕ → ℕ → Option (List ℕ)
  set_command_specifier bytes v = write_field bytes 7 5 v

  unfoldable pub index : List ℕ → Option ℕ
  index bytes = read_field bytes 23 8

  unfoldable pub set_index : List ℕ → ℕ → Option (List ℕ)
  set_index bytes v = write_field bytes 23 8 v

  unfoldable pub sub_index : List ℕ → Option ℕ
  sub_index bytes = read_field bytes 31 24

  unfoldable pub set_sub_index : List ℕ → ℕ → Option (List ℕ)
  set_sub_index bytes v = write_field bytes 31 24 v

  unfoldable pub set_complete_size : List ℕ → ℕ → Option (List ℕ)
  set_complete_size bytes v = write_field bytes 31 0 v
