-- ===== src/Task/LoopTask/DcSync.antt =====
-- src/task/loop_task/dc_drift_comp.rs: `DcSyncTask`, which spreads the time of the first slave with a
-- distributed clock and measures how far the master's clock is from it.
use ethercat.Base.{
  ℕ, ◌-◌, ◌^◌, Bool, false, Option, some, List, ◌==◌, ltb, if◌then◌else◌, ◌>>=◌, fill,
}
use ethercat.Foreign.{Bitfield}
use ethercat.Interface.{Command, armw, Pdu, slave_position, get_adp}
use ethercat.Register.DcSystemTime
use ethercat.Task.{EtherCatSystemTime, Sent, CyclicTask}
use ethercat.Task.LoopTask.{saturating_suc}

-- The offset is an `i64` that only ever gets values that are not negative.
pub record DcSyncTask : Type 0 where
  pub sys_time_offset : ℕ
  pub last_dc_time : EtherCatSystemTime
  pub first_dc_slave : ℕ
  pub dc_slave_count : ℕ
  pub invalid_wkc_count : ℕ
  pub last_wkc : ℕ

unfoldable pub new : ℕ → ℕ → DcSyncTask
new first_dc_slave_pos num_dc_slaves = record {
  sys_time_offset = 0;
  last_dc_time = 0;
  first_dc_slave = first_dc_slave_pos;
  dc_slave_count = num_dc_slaves;
  invalid_wkc_count = 0;
  last_wkc = 0;
}

abbrev pub i64_max : ℕ
i64_max = 2 ^ 63 - 1

unfoldable pub is_busy : DcSyncTask → Bool
is_busy t = false

unfoldable pub next_pdu : DcSyncTask → List ℕ → Option (Sent DcSyncTask)
next_pdu t buf = do
  let command : Command = record {
    c_type = armw;
    adp = get_adp (slave_position t.first_dc_slave);
    ado = DcSystemTime.address;
  }
  buf ← fill DcSystemTime.size 0 buf
  some (t, buf, some (command, DcSystemTime.size))

-- `.min(i64::MAX as u64)`.
clamped : ℕ → ℕ
clamped n = if ltb i64_max n then i64_max else n

module _ ⦃bf : Bitfield⦄ where
  unfoldable pub recieve_and_process : DcSyncTask → Pdu → EtherCatSystemTime → Option DcSyncTask
  unfolding clamped
  recieve_and_process t pdu systime = do
    let t =
        if pdu.wkc == t.dc_slave_count
        then t
        else record t { invalid_wkc_count = saturating_suc t.invalid_wkc_count }
    slave_systime ← DcSystemTime.local_system_time pdu.bytes
    let t = record t { last_dc_time = slave_systime }
    some (
        if ltb systime slave_systime
        then record t { sys_time_offset = clamped (slave_systime - systime) }
        else record t { sys_time_offset = clamped (systime - slave_systime) })

  abbrev pub task : CyclicTask DcSyncTask
  task = record {
    next_pdu = next_pdu;
    recieve_and_process = recieve_and_process;
    is_busy = is_busy;
  }
