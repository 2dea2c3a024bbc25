-- ===== src/Interface.antt =====
-- src/interface/pdu_if.rs: commands and the addresses of slaves, and the error of the network device.
pub mod Laws
pub mod Socket
pub mod PduIf
pub mod Poll
use ethercat.Base.{
  ℕ, zero, suc, ◌+◌, ◌-◌, ◌*◌, ◌/◌, ◌%◌, ◌^◌, Bool, true, false, ◌&&◌, List, ◌==◌, if◌then◌else◌,
}

-- `CommandType` of src/frame/ethercat.rs.
pub data CommandType : Type 0 where
  nop aprd apwr aprw fprd fpwr fprw brd bwr brw lrd lwr lrw armw frmw invalid : CommandType

-- `c as u8`, by which the derived `==` compares too.
unfoldable pub discriminant : CommandType → ℕ
discriminant nop = 0
discriminant aprd = 1
discriminant apwr = 2
discriminant aprw = 3
discriminant fprd = 4
discriminant fpwr = 5
discriminant fprw = 6
discriminant brd = 7
discriminant bwr = 8
discriminant brw = 9
discriminant lrd = 10
discriminant lwr = 11
discriminant lrw = 12
discriminant armw = 13
discriminant frmw = 14
discriminant invalid = 15

pub data PhyError : Type 0 where
  tx_error rx_error tx_not_available rx_not_available : PhyError

pub record Command : Type 0 where
  pub c_type : CommandType
  pub adp : ℕ
  pub ado : ℕ

-- `Command::default()`.
abbrev pub no_command : Command
no_command = record { c_type = aprd; adp = 0; ado = 0 }

pub data SlaveAddress : Type 0 where
  station_address : ℕ → SlaveAddress
  slave_position : ℕ → SlaveAddress

pub data TargetSlave : Type 0 where
  single : SlaveAddress → TargetSlave
  all : ℕ → TargetSlave

-- `TargetSlave::default()`.
abbrev pub no_target : TargetSlave
no_target = single (slave_position 0)

-- The position is a `u16`, so neither subtraction passes 0.
unfoldable pub get_ap_adp : ℕ → ℕ
get_ap_adp slave_number = if slave_number == 0 then 0 else 0xFFFF - (slave_number - 1)

unfoldable pub get_adp : SlaveAddress → ℕ
unfolding get_ap_adp
get_adp (station_address addr) = addr
get_adp (slave_position pos) = get_ap_adp pos

unfoldable pub num_targets : TargetSlave → ℕ
num_targets (all num) = num
num_targets (single _) = 1

unfoldable pub new_read : TargetSlave → ℕ → Command
unfolding get_ap_adp
new_read (single (slave_position adp)) ado = record {
  c_type = aprd;
  adp = get_ap_adp adp;
  ado = ado;
}
new_read (single (station_address adp)) ado = record { c_type = fprd; adp = adp; ado = ado }
new_read (all _) ado = record { c_type = brd; adp = 0; ado = ado }

unfoldable pub new_write : TargetSlave → ℕ → Command
unfolding get_ap_adp
new_write (single (slave_position adp)) ado = record {
  c_type = apwr;
  adp = get_ap_adp adp;
  ado = ado;
}
new_write (single (station_address adp)) ado = record { c_type = fpwr; adp = adp; ado = ado }
new_write (all _) ado = record { c_type = bwr; adp = 0; ado = ado }

-- `logical_address` is a `u32`: its low half is the mask with 0xffff, its high half the shift by 16.
unfoldable pub new_logical_read_write : ℕ → Command
new_logical_read_write logical_address = record {
  c_type = lrw;
  adp = logical_address % 2 ^ 16;
  ado = logical_address / 2 ^ 16;
}

-- A received PDU of src/interface/socket_if.rs.
pub record Pdu : Type 0 where
  pub command : Command
  pub bytes : List ℕ
  pub wkc : ℕ

-- `command.c_type == self.command.c_type && command.ado == self.command.ado`, the test by which a task
-- recognises the answer to what it sent.
unfoldable pub answers : Command → Command → Bool
answers received sent =
    (discriminant received.c_type == discriminant sent.c_type) && (received.ado == sent.ado)
