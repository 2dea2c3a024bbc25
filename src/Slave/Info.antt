-- ===== src/Slave/Info.antt =====
-- src/slave/slave.rs: what the master knows of a slave.
use ethercat.Base.{ℕ, ◌+◌, ◌%◌, ◌^◌, Bool, false, Option, none, some, List, [], ◌∷◌, replicate}
use ethercat.Interface.{SlaveAddress, station_address}
use ethercat.Slave.{AlState, SyncManager, invalid_or_mixed}
use ethercat.Slave.Config.{FmmuConfig, SlaveId}

-- `PortPhysics` of src/register/datalink.rs.
pub data PortPhysics : Type 0 where
  mii ebus : PortPhysics

pub data SyncManagerType : Type 0 where
  mailbox_rx mailbox_tx : SyncManager → SyncManagerType
  process_data_rx process_data_tx : SyncManagerType

-- The arrays of four have four elements.
pub record SlaveInfo : Type 0 where
  pub configured_address : ℕ
  pub id : SlaveId
  pub linked_ports : List Bool
  pub ports : List (Option PortPhysics)
  pub ram_size_kb : ℕ
  pub number_of_fmmu : ℕ
  pub number_of_sm : ℕ
  pub pdo_start_address : Option ℕ
  pub pdo_ram_size : ℕ
  pub sm : List (Option SyncManagerType)
  pub support_dc : Bool
  pub support_fmmu_bit_operation : Bool
  pub support_coe : Bool
  pub strict_al_control : Bool

-- `SlaveInfo::default()`.
abbrev pub no_info : SlaveInfo
no_info = record {
  configured_address = 0;
  id = record { vender_id = 0; product_code = 0; revision_number = 0 };
  linked_ports = replicate 4 false;
  ports = replicate 4 none;
  ram_size_kb = 0;
  number_of_fmmu = 0;
  number_of_sm = 0;
  pdo_start_address = none;
  pdo_ram_size = 0;
  sm = replicate 4 none;
  support_dc = false;
  support_fmmu_bit_operation = false;
  support_coe = false;
  strict_al_control = false;
}

unfoldable pub slave_address : SlaveInfo → SlaveAddress
slave_address info = station_address info.configured_address

-- The loop over the sync managers of `mailbox_rx_sm`.
find_mailbox_rx : List (Option SyncManagerType) → Option SyncManager
find_mailbox_rx [] = none
find_mailbox_rx (some (mailbox_rx sm) ∷ sms) = some sm
find_mailbox_rx (some (mailbox_tx _) ∷ sms) = find_mailbox_rx sms
find_mailbox_rx (some process_data_rx ∷ sms) = find_mailbox_rx sms
find_mailbox_rx (some process_data_tx ∷ sms) = find_mailbox_rx sms
find_mailbox_rx (none ∷ sms) = find_mailbox_rx sms

unfoldable pub mailbox_rx_sm : SlaveInfo → Option SyncManager
unfolding find_mailbox_rx
mailbox_rx_sm info = find_mailbox_rx info.sm

find_mailbox_tx : List (Option SyncManagerType) → Option SyncManager
find_mailbox_tx [] = none
find_mailbox_tx (some (mailbox_tx sm) ∷ sms) = some sm
find_mailbox_tx (some (mailbox_rx _) ∷ sms) = find_mailbox_tx sms
find_mailbox_tx (some process_data_rx ∷ sms) = find_mailbox_tx sms
find_mailbox_tx (some process_data_tx ∷ sms) = find_mailbox_tx sms
find_mailbox_tx (none ∷ sms) = find_mailbox_tx sms

unfoldable pub mailbox_tx_sm : SlaveInfo → Option SyncManager
unfolding find_mailbox_tx
mailbox_tx_sm info = find_mailbox_tx info.sm

find_process_data_rx : ℕ → List (Option SyncManagerType) → Option ℕ
find_process_data_rx i [] = none
find_process_data_rx i (some process_data_rx ∷ sms) = some (i % 2 ^ 8)
find_process_data_rx i (some process_data_tx ∷ sms) = find_process_data_rx (i + 1) sms
find_process_data_rx i (some (mailbox_rx _) ∷ sms) = find_process_data_rx (i + 1) sms
find_process_data_rx i (some (mailbox_tx _) ∷ sms) = find_process_data_rx (i + 1) sms
find_process_data_rx i (none ∷ sms) = find_process_data_rx (i + 1) sms

unfoldable pub process_data_rx_sm_number : SlaveInfo → Option ℕ
unfolding find_process_data_rx
process_data_rx_sm_number info = find_process_data_rx 0 info.sm

find_process_data_tx : ℕ → List (Option SyncManagerType) → Option ℕ
find_process_data_tx i [] = none
find_process_data_tx i (some process_data_tx ∷ sms) = some (i % 2 ^ 8)
find_process_data_tx i (some process_data_rx ∷ sms) = find_process_data_tx (i + 1) sms
find_process_data_tx i (some (mailbox_rx _) ∷ sms) = find_process_data_tx (i + 1) sms
find_process_data_tx i (some (mailbox_tx _) ∷ sms) = find_process_data_tx (i + 1) sms
find_process_data_tx i (none ∷ sms) = find_process_data_tx (i + 1) sms

unfoldable pub process_data_tx_sm_number : SlaveInfo → Option ℕ
unfolding find_process_data_tx
process_data_tx_sm_number info = find_process_data_tx 0 info.sm

pub record DcContext : Type 0 where
  pub parent_port : Option (ℕ × ℕ)
  pub current_port : ℕ
  pub latched_local_sys_time : ℕ
  pub recieved_port_time : List ℕ
  pub delay : ℕ
  pub offset : ℕ

-- `fmmu` holds the outputs, the inputs and the state of the mailbox.
pub record Slave : Type 0 where
  pub info : SlaveInfo
  pub fmmu : List (Option FmmuConfig)
  pub al_state : AlState
  pub mailbox_count : ℕ
  pub dc_context : DcContext

-- `Slave::default()`.
abbrev pub new_slave : Slave
new_slave = record {
  info = no_info;
  fmmu = replicate 3 none;
  al_state = invalid_or_mixed;
  mailbox_count = 0;
  dc_context = record {
    parent_port = none;
    current_port = 0;
    latched_local_sys_time = 0;
    recieved_port_time = replicate 4 0;
    delay = 0;
    offset = 0;
  };
}
