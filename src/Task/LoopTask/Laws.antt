-- ===== src/Task/LoopTask/Laws.antt =====
-- src/task/loop_task: what the tasks of the cycle record.
use ethercat.Base.{
  ℕ, ◌+◌, ◌-◌, ◌≡◌, ◌≤◌, refl, Bool, true, false, Option, none, some, List, ◌==◌, if◌then◌else◌,
  ◌>>=◌, arith, min,
}
use ethercat.Foreign.{Bitfield, TryFromPrimitive}
use ethercat.Interface.{Command, Pdu, num_targets}
use ethercat.Register.AlStatus
use ethercat.Register.AlStatusCode
use ethercat.Register.AlStatusCode.{AlStatusCode}
use ethercat.Register.DcSystemTime
use ethercat.Slave.{from_u8}
use ethercat.Task.{EtherCatSystemTime}
use ethercat.Task.Reach.{Reach, Reach-invariant}
use ethercat.Task.LoopTask.{usize_max, saturating_suc}
use ethercat.Task.LoopTask.AlStateRead
use ethercat.Task.LoopTask.AlStateRead.{AlStateReadTask}
use ethercat.Task.LoopTask.Process
use ethercat.Task.LoopTask.Process.{ProcessTask}
use ethercat.Task.LoopTask.DcSync
use ethercat.Task.LoopTask.DcSync.{DcSyncTask, i64_max}

record Inv (t : AlStateReadTask) : Type 0 where
  counter_unset : t.last_wkc ≡ 0
  count_fits : t.invalid_wkc_count ≤ usize_max

saturating_suc_le : (n : ℕ) → saturating_suc n ≤ usize_max
unfolding saturating_suc
saturating_suc_le n = ground arith

module _ ⦃bf : Bitfield⦄ ⦃codes : TryFromPrimitive AlStatusCode AlStatusCode.discriminant⦄ where
  send-Inv :
      (t t' : AlStateReadTask) (buf buf' : List ℕ) (out : Option (Command × ℕ))
      → Inv t
      → AlStateRead.next_pdu t buf ≡ some (t', buf', out)
      → Inv t'
  unfolding AlStateRead.next_pdu
  send-Inv t t' buf buf' out h e = ground arith

  recieve-Inv :
      (t t' : AlStateReadTask) (pdu : Pdu) (time : EtherCatSystemTime)
      → Inv t
      → AlStateRead.recieve_and_process t pdu time ≡ some t'
      → Inv t'
  unfolding AlStateRead.recieve_and_process
  recieve-Inv t t' pdu time h e = ground (arith, saturating_suc_le t.invalid_wkc_count)

  -- On every run of the task that reads the AL state, the working counter it keeps for its user stays 0,
  -- whatever counters come back, and the count of wrong ones stays a `usize`.
  pub al_state_read_last_wkc :
      (t' : AlStateReadTask)
      → Reach AlStateRead.task AlStateRead.new t'
      → (t'.last_wkc ≡ 0) × (t'.invalid_wkc_count ≤ usize_max)
  unfolding AlStateRead.new
  al_state_read_last_wkc t' r =
      let i = Reach-invariant AlStateRead.task Inv send-Inv recieve-Inv start r in
      (i.counter_unset, i.count_fits)
    where
      start : Inv AlStateRead.new
      start = ground arith

  -- An answer with a state and a code that exists is recorded as that state, with that code exactly
  -- under the error flag; the count goes up exactly for a wrong working counter, unless it is at its
  -- limit.
  pub al_state_read_records :
      (t : AlStateReadTask) (pdu : Pdu) (time : EtherCatSystemTime) (v : ℕ) (failed : Bool)
      (code : AlStatusCode)
      → AlStatus.state pdu.bytes ≡ some v
      → AlStatus.change_err pdu.bytes ≡ some failed
      → AlStatus.al_status_code pdu.bytes ≡ some (AlStatusCode.discriminant code)
      → AlStateRead.recieve_and_process t pdu time
        ≡ some (record t {
          last_al_state = some (from_u8 v);
          last_al_status_code = if failed then some code else none;
          invalid_wkc_count =
              if pdu.wkc == num_targets t.target
              then t.invalid_wkc_count
              else saturating_suc t.invalid_wkc_count;
        })
  unfolding AlStateRead.recieve_and_process
  al_state_read_records t pdu time v true code hs he hc =
      ground (arith, codes.try_from-discriminant code)
  al_state_read_records t pdu time v false code hs he hc = ground arith

module _ ⦃bf : Bitfield⦄ where
  -- The offset that is measured is the distance of the two clocks, as far as an `i64` holds it: a master
  -- that is ahead of the slaves by some time and one that is behind by as much record the same offset.
  pub dc_sync_offset_unsigned :
      (t : DcSyncTask) (pdu : Pdu) (time distance : ℕ)
      → DcSystemTime.local_system_time pdu.bytes ≡ some time
      → distance ≤ time
      → (DcSync.recieve_and_process t pdu (time + distance)
          ≡ DcSync.recieve_and_process t pdu (time - distance))
        × ((DcSync.recieve_and_process t pdu (time + distance) >>= λ t'. some t'.sys_time_offset)
            ≡ some (min distance i64_max))
  unfolding DcSync.recieve_and_process
  dc_sync_offset_unsigned t pdu time distance e h = (ground arith, ground arith)

-- Without an expected working counter the process data is not sent, else the whole image is, to the logical
-- address that the task was made with, also after another address was set.
pub process_task_address :
    (start start' expected size : ℕ) (buf : List ℕ)
    → (t : ProcessTask) × (Process.next_pdu
          (Process.set_start_logical_address (Process.new start expected size) start')
          buf
        ≡ some (
          t,
          buf,
          if expected == 0 then none else some ((Process.new start expected size).command, size),
        ))
      × (t.start_logical_address ≡ start')
unfolding Process.next_pdu Process.set_start_logical_address Process.new
process_task_address start start' expected size buf =
    (Process.set_start_logical_address (Process.new start expected size) start', ground arith, refl)
