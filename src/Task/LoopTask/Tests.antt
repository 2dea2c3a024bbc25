-- ===== src/Task/LoopTask/Tests.antt =====
-- The laws of the cycle's tasks at concrete answers.
use ethercat.Interface.{new_read}
use ethercat.Foreign.Bits.{read_field}
use ethercat.Foreign.Bits.{read_flag}
use ethercat.Base.{ℕ, ◌+◌, ◌-◌, ◌≡◌, refl, some, List, [], ◌∷◌, ◌>>=◌, min, arith}
use ethercat.Foreign.Lsb0.{lsb0}
use ethercat.Foreign.Codes.{al_status_codes}
use ethercat.Interface.{Pdu, no_command, num_targets, aprd}
use ethercat.Register.AlStatus
use ethercat.Register.DcSystemTime
use ethercat.Slave.{from_u8}
use ethercat.Task.Reach.{Reach, here, Reach-exchange}
use ethercat.Task.LoopTask.{saturating_suc}
use ethercat.Task.LoopTask.AlStateRead
use ethercat.Task.LoopTask.AlStateRead.{AlStateReadTask}
use ethercat.Task.LoopTask.DcSync
use ethercat.Task.LoopTask.DcSync.{i64_max}
use ethercat.Task.LoopTask.Laws.{dc_sync_offset_unsigned}

-- The working counter 7 is wrong.
abbrev once_read : AlStateReadTask
once_read = record AlStateRead.new {
  command = record { c_type = aprd; adp = 0; ado = 0x0130 };
  last_al_state = some (from_u8 8);
  invalid_wkc_count = 1;
}

abbrev status : List ℕ
status = 8 ∷ 0 ∷ 0 ∷ 0 ∷ 0 ∷ 0 ∷ []

started_reads : Reach AlStateRead.task AlStateRead.new once_read
unfolding AlStateRead.next_pdu AlStateRead.recieve_and_process AlStatus.state read_field
    AlStatus.change_err read_flag AlStateRead.new num_targets new_read saturating_suc
started_reads =
    Reach-exchange AlStateRead.task 7 (0 ∷ 0 ∷ 0 ∷ 0 ∷ 0 ∷ 0 ∷ []) status 0 {u = AlStateRead.new}
      here refl

abbrev failed : Pdu
failed = record { command = no_command; bytes = 0x14 ∷ 0 ∷ 0 ∷ 0 ∷ 0x1b ∷ 0 ∷ []; wkc = 1 }

abbrev clock : Pdu
clock = record { command = no_command; bytes = 100 ∷ 0 ∷ 0 ∷ 0 ∷ 0 ∷ 0 ∷ 0 ∷ 0 ∷ []; wkc = 1 }

dc_sync_offset_unsigned_example :
    (DcSync.recieve_and_process (DcSync.new 0 1) clock (100 + 30)
      ≡ DcSync.recieve_and_process (DcSync.new 0 1) clock (100 - 30))
    × ((DcSync.recieve_and_process (DcSync.new 0 1) clock (100 + 30) >>= λ t'.
          some t'.sys_time_offset)
        ≡ some (min 30 i64_max))
unfolding DcSystemTime.local_system_time read_field
dc_sync_offset_unsigned_example =
    dc_sync_offset_unsigned (DcSync.new 0 1) clock 100 30 refl (omega arith)
