-- ===== src/Slave/Config.antt =====
-- src/slave/slave.rs and src/slave/config.rs: `FmmuConfig` and `PdoEntry`, which hold `LogicalBits` and hand on to
-- them, and the configuration of a slave.
use ethercat.Base.{ℕ, ◌%◌, ◌^◌, Bool, true, false, Option, none, List, []}
use ethercat.Slave.LogicalBits
use ethercat.Slave.LogicalBits.{LogicalBits}

pub data Direction : Type 0 where
  input output : Direction

unfoldable pub is_output : Direction → Bool
is_output output = true
is_output input = false

pub record FmmuConfig : Type 0 where
  pub logical_bits : LogicalBits
  pub physical_address : ℕ
  pub direction : Direction

unfoldable pub new_fmmu : ℕ → ℕ → Direction → FmmuConfig
unfolding LogicalBits.new
new_fmmu physical_address bit_length direction = record {
  logical_bits = record LogicalBits.new { bit_length = bit_length };
  physical_address = physical_address;
  direction = direction;
}

unfoldable pub read_fmmu : FmmuConfig → ℕ → List ℕ → List ℕ → Option (Option (List ℕ))
read_fmmu c offset image buf = LogicalBits.read_to_buffer c.logical_bits offset image buf

unfoldable pub write_fmmu : FmmuConfig → ℕ → List ℕ → List ℕ → Option (Option (List ℕ))
write_fmmu c offset image buf = LogicalBits.write_from_buffer c.logical_bits offset image buf

pub record PdoEntry : Type 0 where
  pub logical_bits : LogicalBits
  pub index : ℕ
  pub sub_index : ℕ

unfoldable pub new_entry : ℕ → ℕ → ℕ → PdoEntry
unfolding LogicalBits.new
new_entry index sub_index bit_length = record {
  logical_bits = record LogicalBits.new { bit_length = bit_length };
  index = index;
  sub_index = sub_index;
}

-- The length as a `u8`.
unfoldable pub bit_length : PdoEntry → ℕ
bit_length e = e.logical_bits.bit_length % 2 ^ 8

unfoldable pub read_entry : PdoEntry → ℕ → List ℕ → List ℕ → Option (Option (List ℕ))
read_entry e offset image buf = LogicalBits.read_to_buffer e.logical_bits offset image buf

unfoldable pub write_entry : PdoEntry → ℕ → List ℕ → List ℕ → Option (Option (List ℕ))
write_entry e offset image buf = LogicalBits.write_from_buffer e.logical_bits offset image buf

pub record PdoMapping : Type 0 where
  pub is_fixed : Bool
  pub index : ℕ
  pub entries : List PdoEntry

pub data SyncMode : Type 0 where
  free_run sync_manager_event sync0_event sync1_event : SyncMode

pub data CycleTime : Type 0 where
  default_value : CycleTime
  specified_value : ℕ → CycleTime

-- `SlaveId` of src/slave/slave.rs.
pub record SlaveId : Type 0 where
  pub vender_id : ℕ
  pub product_code : ℕ
  pub revision_number : ℕ

pub record SlaveConfig : Type 0 where
  pub input_pdo_mappings : List PdoMapping
  pub output_pdo_mappings : List PdoMapping
  pub expectec_id : Option SlaveId
  pub sync_mode : SyncMode
  pub cycle_time_ns : CycleTime

-- `SlaveConfig::default()`.
abbrev pub default_config : SlaveConfig
default_config = record {
  input_pdo_mappings = [];
  output_pdo_mappings = [];
  expectec_id = none;
  sync_mode = free_run;
  cycle_time_ns = default_value;
}
