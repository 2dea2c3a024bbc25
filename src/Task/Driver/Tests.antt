-- ===== src/Task/Driver/Tests.antt =====
-- `block_on` over the sockets of the program, on a device over which every frame comes back.
use ethercat.Base.{ℕ, ◌+◌, ◌<◌, ap, Option, none, some, List, [], ◌∷◌, replicate}
use ethercat.Foreign.Lsb0.{lsb0, msb0}
use ethercat.Foreign.Codes.{al_status_codes}
use ethercat.Foreign.Commands.{command_types}
use ethercat.IndexSet.{exist, next_free_index}
use ethercat.Interface.{single, station_address}
use ethercat.Interface.Socket
use ethercat.Interface.PduIf
use ethercat.Interface.PduIf.Wire.{Wire}
use ethercat.Interface.Poll.{Sockets}
use ethercat.Register.AlStatus
use ethercat.Slave.{operational}
use ethercat.Task.AlTransfer

abbrev sockets : Sockets Wire
sockets = record {
  iface = PduIf.new [] (replicate 64 0);
  socket_set = record {
    free_index = 1;
    items = exist (Socket.new (replicate 16 0)) ∷ next_free_index 2 ∷ [];
  };
  lost_frame_count = 0;
}

abbrev task : AlTransfer.AlStateTransferTask
task = AlTransfer.start AlTransfer.new (single (station_address 1)) operational
