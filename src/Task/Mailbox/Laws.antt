-- ===== src/Task/Mailbox/Laws.antt =====
-- src/task/mailbox.rs: a `MailboxTask` reports what its reader or writer reports, but for an error found on
-- sending.
use ethercat.Base.{
  ℕ, ◌≡◌, ◌⊎◌, ◌<◌, refl, Bool, true, Option, none, some, List, Result, ok, err, arith, length, inl,
  inr, >>=-eq-some,
}
use ethercat.Foreign.{Bitfield}
use ethercat.Interface.{Command, Pdu, SlaveAddress, single, new_read}
use ethercat.Slave.{SyncManager}
use ethercat.Task.{TaskError, task_specific, EtherCatSystemTime}
use ethercat.Task.MailboxError.{MailboxTaskError, buffer_small}
use ethercat.Task.Reach.{Reach, Reach-invariant}
use ethercat.Task.MailboxRead
use ethercat.Task.MailboxRead.{MailboxReadTask}
use ethercat.Task.MailboxWrite
use ethercat.Task.MailboxWrite.{MailboxWriteTask}
use ethercat.Task.Mailbox.{
  MailboxTask, Inner, reader, writer, State, error, idle, complete, processing, start_to_read,
  start_to_write, wait, is_busy, next_pdu, recieve_and_process, task, send_in, process_in,
  inner_next, inner_recieve, wait_in, outcome,
}

abbrev pub inner_wait : Inner → Option (Result (Unit {0}) (TaskError MailboxTaskError))
inner_wait (reader r) = MailboxRead.wait r
inner_wait (writer w) = MailboxWrite.wait w

-- What is reported is the inner task's outcome.
record Inv (t : MailboxTask) : Type 0 where
  reported :
      (r : Result (Unit {0}) (TaskError MailboxTaskError))
      → wait_in t.state ≡ some r
      → inner_wait t.inner ≡ some r

outcome-reported :
    (o : Option (Result (Unit {0}) (TaskError MailboxTaskError)))
    (r : Result (Unit {0}) (TaskError MailboxTaskError))
    → wait_in (outcome processing o) ≡ some r
    → o ≡ some r
unfolding wait_in outcome
outcome-reported none r h = absurd (cc)
outcome-reported (some (ok tt)) r h = h
outcome-reported (some (err e)) r h = h

module _ ⦃bf : Bitfield⦄ where
  send-Inv :
      (s : State) (t t' : MailboxTask) (buf buf' : List ℕ) (out : Option (Command × ℕ))
      → t.state ≡ s
      → Inv t
      → send_in s t buf ≡ some (t', buf', out)
      → Inv t'
  unfolding send_in wait_in
  send-Inv idle t t' buf buf' out s h e = ground arith
  send-Inv complete t t' buf buf' out s h e = ground arith
  send-Inv (error _) t t' buf buf' out s h e = ground arith
  send-Inv processing t t' buf buf' out s h e = go t.inner e
    where
      go : (i : Inner) → inner_next i t buf ≡ some (t', buf', out) → Inv t'
      go (reader r) e = let (v, q, x) = >>=-eq-some (MailboxRead.next_pdu r buf) _ e in ground arith
      go (writer w) e =
          let (v, q, x) = >>=-eq-some (MailboxWrite.next_pdu w buf) _ e in ground arith

  process-Inv :
      (s : State) (t t' : MailboxTask) (pdu : Pdu) (time : EtherCatSystemTime)
      → t.state ≡ s
      → Inv t
      → process_in s t pdu time ≡ some t'
      → Inv t'
  unfolding process_in
  process-Inv idle t t' pdu time s h e = ground arith
  process-Inv complete t t' pdu time s h e = ground arith
  process-Inv (error _) t t' pdu time s h e = ground arith
  process-Inv processing t t' pdu time s h e = go t.inner e
    where
      go : (i : Inner) → inner_recieve i t pdu time ≡ some t' → Inv t'
      go (reader r) e =
          let (v, q, x) = >>=-eq-some (MailboxRead.recieve_and_process r pdu time) _ e in
          ground (arith, outcome-reported (MailboxRead.wait v))
      go (writer w) e =
          let (v, q, x) = >>=-eq-some (MailboxWrite.recieve_and_process w pdu time) _ e in
          ground (arith, outcome-reported (MailboxWrite.wait v))

  next-Inv :
      (t t' : MailboxTask) (buf buf' : List ℕ) (out : Option (Command × ℕ))
      → Inv t
      → next_pdu t buf ≡ some (t', buf', out)
      → Inv t'
  unfolding next_pdu
  next-Inv t t' buf buf' out h e = send-Inv t.state t t' buf buf' out refl h e

  recieve-Inv :
      (t t' : MailboxTask) (pdu : Pdu) (time : EtherCatSystemTime)
      → Inv t
      → recieve_and_process t pdu time ≡ some t'
      → Inv t'
  unfolding recieve_and_process
  recieve-Inv t t' pdu time h e = process-Inv t.state t t' pdu time refl h e

  read-Inv :
      (t : MailboxTask) (a : SlaveAddress) (sm : SyncManager) (w : Bool)
      → Inv (start_to_read t a sm w)
  unfolding start_to_read wait_in
  read-Inv t a sm w = ground arith

  write-Inv :
      (t : MailboxTask) (a : SlaveAddress) (sm : SyncManager) (w : Bool)
      → Inv (start_to_write t a sm w)
  unfolding start_to_write wait_in
  write-Inv t a sm w = ground arith

  -- On every run from `start_to_read` or `start_to_write`, what the task reports is what its reader or its
  -- writer reports.
  pub mailbox_wait-inner :
      (t t' : MailboxTask) (a : SlaveAddress) (sm : SyncManager) (w : Bool)
      (r : Result (Unit {0}) (TaskError MailboxTaskError))
      → Reach task (start_to_read t a sm w) t' ⊎ Reach task (start_to_write t a sm w) t'
      → wait t' ≡ some r
      → inner_wait t'.inner ≡ some r
  unfolding wait
  mailbox_wait-inner t t' a sm w r (inl p) e =
      (Reach-invariant task Inv next-Inv recieve-Inv (read-Inv t a sm w) p).reported r e
  mailbox_wait-inner t t' a sm w r (inr p) e =
      (Reach-invariant task Inv next-Inv recieve-Inv (write-Inv t a sm w) p).reported r e

  -- A reader that is about to read a mailbox that the socket's buffer cannot hold fails with
  -- `BufferSmall` and sends nothing, but the task does not take the error over: it stays busy and reports
  -- nothing, and the next PDU is again none, with the task unchanged.
  pub mailbox_small_buffer_stuck :
      (t : MailboxTask) (r : MailboxReadTask) (buf : List ℕ)
      → t.state ≡ processing
      → t.inner ≡ reader r
      → r.state ≡ MailboxRead.read
      → length buf < r.sm_size
      → (t' : MailboxTask) × (next_pdu t buf ≡ some (t', buf, none))
        × (inner_wait t'.inner ≡ some (err (task_specific buffer_small)))
        × (is_busy t' ≡ true)
        × (wait t' ≡ none)
        × (next_pdu t' buf ≡ some (t', buf, none))
  unfolding next_pdu is_busy wait MailboxRead.next_pdu MailboxRead.wait
  mailbox_small_buffer_stuck t r buf s i rs h = (
    record {
      state = processing;
      inner = reader (record r {
        command = new_read (single r.slave_address) r.sm_start_address;
        state = MailboxRead.error (task_specific buffer_small);
      });
    },
    ground arith,
    refl,
    refl,
    refl,
    refl,
  )
