-- ===== src/Master/MailboxManager/Tests.antt =====
-- The laws of `MailboxManager` at a slave whose mailbox is full, and at a reading that failed.
use ethercat.Base.{
  ℕ, ◌≡◌, refl, false, true, Option, none, some, List, [], ◌∷◌, replicate, Result, ok, err, ◌>>=◌,
  arith,
}
use ethercat.Foreign.Lsb0.{lsb0}
use ethercat.Interface.{slave_position}
use ethercat.Interface.Socket.{PduSocket}
use ethercat.Slave.Config.{default_config, FmmuConfig, input}
use ethercat.Slave.Info.{Slave, new_slave, no_info, mailbox_tx}
use ethercat.Slave.Network.{Network}
use ethercat.Task.Driver
use ethercat.Task.Mailbox
use ethercat.Task.Mailbox.{MailboxTask}
use ethercat.Master.MailboxManager.{
  MailboxManager, process_one_step, find_slave_with_mailbox_from_process_data,
}
use ethercat.Master.MailboxManager.Laws.{find_slave-process_one_step}

-- The state of the sync manager 1 lies in the image at 0x1000.
abbrev status_bits : FmmuConfig
status_bits = record {
  logical_bits = record { logical_address = some 0x1000; start_bit = 0; bit_length = 8 };
  physical_address = 0x080D;
  direction = input;
}

abbrev with_mailbox : Slave
with_mailbox = record new_slave {
  fmmu = none ∷ none ∷ some status_bits ∷ [];
  info = record no_info {
    sm =
        none
        ∷ some (mailbox_tx (record { number = 1; size = 128; start_address = 0x1080 }))
        ∷ none
        ∷ none
        ∷ [];
  };
}

abbrev network : Network
network = record { slaves = (some with_mailbox, default_config) ∷ []; push_count = 1 }

abbrev idle : MailboxManager
idle = record {
  task = record { state = Mailbox.idle; inner = Mailbox.new.inner };
  slave_with_mailbox = some (slave_position 0);
}

abbrev socket : PduSocket
socket = record {
  command = none;
  data_buf = replicate 16 0;
  wkc = 0;
  data_length = 0;
  recv_flag = false;
}

-- The bit 3 says that the mailbox is full.
find_slave-process_one_step_example :
    process_one_step (record idle { slave_with_mailbox = none }) network socket 0 ≡ (
      Driver.process_one_step Mailbox.task socket idle.task 0 >>= λ r.
      some (record { task = r.1; slave_with_mailbox = none }, r.0))
unfolding find_slave_with_mailbox_from_process_data ethercat.Slave.Network.slaves_of
    ethercat.Slave.Info.mailbox_tx_sm ethercat.Slave.Config.read_fmmu
    ethercat.Slave.LogicalBits.read_to_buffer ethercat.Slave.LogicalBits.byte_length
    ethercat.Base.Bytes.shr ethercat.Base.Slices.set_at
    ethercat.Register.SyncManagerStatus.is_mailbox_full ethercat.Foreign.Bits.read_flag
    ethercat.Foreign.Bits.read_field
find_slave-process_one_step_example =
    find_slave-process_one_step idle network 0x1000 (8 ∷ []) socket 0 refl
