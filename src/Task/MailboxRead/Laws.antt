-- ===== src/Task/MailboxRead/Laws.antt =====
-- src/task/mailbox_read.rs: what a `MailboxReadTask` reports, and that it does so in time.
use ethercat.Base.{
  ℕ, ◌+◌, ◌*◌, ◌≡◌, ◌≢◌, ◌<◌, refl, true, Option, some, List, ok, err, arith, Option-cases, inl,
  inr,
}
use ethercat.Foreign.{Bitfield}
use ethercat.Interface.{Command, Pdu, SlaveAddress, answers}
use ethercat.Slave.{SyncManager}
use ethercat.Task.{task_specific, timeout, EtherCatSystemTime}
use ethercat.Task.MailboxError.{MailboxTaskError, mailbox_empty, mailbox_already_existed}
use ethercat.Task.Reach.{Reach, Reach-invariant}
use ethercat.Task.MailboxRead.{
  MailboxReadTask, State, error, complete, read, check_mailbox_already_existed, start, wait,
  is_busy, next_pdu, recieve_and_process, task, send_in, process_in, check, expire,
  retry_timeout_ms,
}

-- No state of a task that waits for the mailbox to fill reports an empty one, and none reports a full one.
abbrev Patient : State → Type 0
Patient (check_mailbox_already_existed _ wait_full) = wait_full ≡ true
Patient (error (task_specific e)) = (e ≢ mailbox_empty) × (e ≢ mailbox_already_existed)
Patient _ = Unit

record Inv (t : MailboxReadTask) : Type 0 where
  patient : Patient t.state

module _ ⦃bf : Bitfield⦄ where
  send-Inv :
      (t t' : MailboxReadTask) (buf buf' : List ℕ) (out : Option (Command × ℕ))
      → Inv t
      → next_pdu t buf ≡ some (t', buf', out)
      → Inv t'
  unfolding next_pdu
  send-Inv t t' buf buf' out h e = go t.state refl e
    where
      go : (s : State) → t.state ≡ s → send_in s t buf ≡ some (t', buf', out) → Inv t'
      go _ w e = ground arith

  process-Inv :
      (s : State) (t t' : MailboxReadTask) (pdu : Pdu) (time : EtherCatSystemTime)
      → t.state ≡ s
      → Inv t
      → process_in s t pdu time ≡ some t'
      → Inv t'
  unfolding process_in
  process-Inv _ t t' pdu time w h e = ground arith

  check-Inv : (t : MailboxReadTask) (pdu : Pdu) → Inv t → Inv (check t pdu)
  unfolding check
  check-Inv t pdu h = ground arith

  expire-Inv : (t : MailboxReadTask) (time : EtherCatSystemTime) → Inv t → Inv (expire t time)
  unfolding expire
  expire-Inv t time h = ground arith

  -- The answer in its three stages.
  recieve-stages :
      (t t' : MailboxReadTask) (pdu : Pdu) (time : EtherCatSystemTime)
      → recieve_and_process t pdu time ≡ some t'
      → (u : MailboxReadTask) × (process_in (check t pdu).state (check t pdu) pdu time ≡ some u)
        × (expire u time ≡ t')
  unfolding recieve_and_process
  recieve-stages t t' pdu time e =
      elim (Option-cases (process_in (check t pdu).state (check t pdu) pdu time)) [
        | inl q ↦ absurd (cc)
        | inr (u, q) ↦ (u, q, cc)
      ]

  recieve-Inv :
      (t t' : MailboxReadTask) (pdu : Pdu) (time : EtherCatSystemTime)
      → Inv t
      → recieve_and_process t pdu time ≡ some t'
      → Inv t'
  recieve-Inv t t' pdu time h e =
      let (u, p, x) = recieve-stages t t' pdu time e in
      rw⁻¹ x (
        expire-Inv u time
          (process-Inv (check t pdu).state (check t pdu) u pdu time refl (check-Inv t pdu h) p))

  start-Inv : (t : MailboxReadTask) (a : SlaveAddress) (sm : SyncManager) → Inv (start t a sm true)
  unfolding start
  start-Inv t a sm = ground arith

  -- A task started to wait until the mailbox is full never reports that the mailbox is empty, nor that a
  -- message is already in it, whatever it is answered and when.
  pub mailbox_read_patient :
      (t t' : MailboxReadTask) (a : SlaveAddress) (sm : SyncManager) (e : MailboxTaskError)
      → Reach task (start t a sm true) t'
      → wait t' ≡ some (err (task_specific e))
      → (e ≢ mailbox_empty) × (e ≢ mailbox_already_existed)
  unfolding wait
  mailbox_read_patient t t' a sm e r w =
      ground (arith, Reach-invariant task Inv send-Inv recieve-Inv (start-Inv t a sm) r)

  expire-late :
      (u t' : MailboxReadTask) (time : EtherCatSystemTime)
      → expire u time ≡ t'
      → t'.timer_start + retry_timeout_ms * 1000000 < time
      → wait t' ≡ some (err timeout)
  unfolding expire wait
  expire-late u t' time x late = ground arith

  expire-complete :
      (u t' : MailboxReadTask) (time : EtherCatSystemTime)
      → expire u time ≡ t'
      → wait t' ≡ some (ok tt)
      → u.state ≡ complete
  unfolding expire wait
  expire-complete u t' time x w = ground arith

  process-complete :
      (t u : MailboxReadTask) (pdu : Pdu) (time : EtherCatSystemTime) (s : State)
      → (check t pdu).state ≡ s
      → is_busy t ≡ true
      → process_in s (check t pdu) pdu time ≡ some u
      → u.state ≡ complete
      → (t.state ≡ read) × (pdu.wkc ≡ 1) × (answers pdu.command t.command ≡ true)
  unfolding process_in check is_busy
  process-complete t u pdu time _ w b p c = ground arith

  -- After an answer that comes more than the timeout after the start of the timer, the task reports the
  -- timeout, in whatever state it was.
  pub mailbox_read_deadline :
      (t t' : MailboxReadTask) (pdu : Pdu) (time : EtherCatSystemTime)
      → recieve_and_process t pdu time ≡ some t'
      → t'.timer_start + retry_timeout_ms * 1000000 < time
      → wait t' ≡ some (err timeout)
  mailbox_read_deadline t t' pdu time e late =
      let (u, p, x) = recieve-stages t t' pdu time e in expire-late u t' time x late

  -- A busy task turns to success only with the answer to its reading of the mailbox, with a working
  -- counter of 1.
  pub mailbox_read_success :
      (t t' : MailboxReadTask) (pdu : Pdu) (time : EtherCatSystemTime)
      → recieve_and_process t pdu time ≡ some t'
      → is_busy t ≡ true
      → wait t' ≡ some (ok tt)
      → (t.state ≡ read) × (pdu.wkc ≡ 1) × (answers pdu.command t.command ≡ true)
  mailbox_read_success t t' pdu time e b w =
      let (u, p, x) = recieve-stages t t' pdu time e in
      process-complete t u pdu time (check t pdu).state refl b p (expire-complete u t' time x w)
