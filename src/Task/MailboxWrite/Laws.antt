-- ===== src/Task/MailboxWrite/Laws.antt =====
-- src/task/mailbox_write.rs: what a `MailboxWriteTask` reports, and that it does so in time.
use ethercat.Base.{
  ℕ, ◌+◌, ◌*◌, ◌≡◌, ◌≢◌, ◌<◌, refl, true, Option, some, List, ok, err, arith, Option-cases, inl,
  inr,
}
use ethercat.Foreign.{Bitfield}
use ethercat.Interface.{Command, Pdu, SlaveAddress, answers}
use ethercat.Slave.{SyncManager}
use ethercat.Task.{task_specific, timeout, EtherCatSystemTime}
use ethercat.Task.MailboxError.{MailboxTaskError, mailbox_empty, mailbox_already_existed}
use ethercat.Task.Reach.{Reach, Reach-invariant}
use ethercat.Task.MailboxWrite.{
  MailboxWriteTask, State, error, complete, write, check_mailbox_empty, start, wait, is_busy,
  next_pdu, recieve_and_process, task, send_in, process_in, check, expire, retry_timeout_ms,
}

-- No state of a task that waits for the mailbox to be read reports a full one, and none reports an empty one.
abbrev Patient : State → Type 0
Patient (check_mailbox_empty _ wait_empty) = wait_empty ≡ true
Patient (error (task_specific e)) = (e ≢ mailbox_empty) × (e ≢ mailbox_already_existed)
Patient _ = Unit

record Inv (t : MailboxWriteTask) : Type 0 where
  patient : Patient t.state

module _ ⦃bf : Bitfield⦄ where
  send-Inv :
      (t t' : MailboxWriteTask) (buf buf' : List ℕ) (out : Option (Command × ℕ))
      → Inv t
      → next_pdu t buf ≡ some (t', buf', out)
      → Inv t'
  unfolding next_pdu
  send-Inv t t' buf buf' out h e = go t.state refl e
    where
      go : (s : State) → t.state ≡ s → send_in s t buf ≡ some (t', buf', out) → Inv t'
      go _ w e = ground arith

  process-Inv :
      (s : State) (t t' : MailboxWriteTask) (pdu : Pdu) (time : EtherCatSystemTime)
      → t.state ≡ s
      → Inv t
      → process_in s t pdu time ≡ some t'
      → Inv t'
  unfolding process_in
  process-Inv _ t t' pdu time w h e = ground arith

  check-Inv : (t : MailboxWriteTask) (pdu : Pdu) → Inv t → Inv (check t pdu)
  unfolding check
  check-Inv t pdu h = ground arith

  expire-Inv : (t : MailboxWriteTask) (time : EtherCatSystemTime) → Inv t → Inv (expire t time)
  unfolding expire
  expire-Inv t time h = ground arith

  -- The answer in its three stages.
  recieve-stages :
      (t t' : MailboxWriteTask) (pdu : Pdu) (time : EtherCatSystemTime)
      → recieve_and_process t pdu time ≡ some t'
      → (u : MailboxWriteTask) × (process_in (check t pdu).state (check t pdu) pdu time ≡ some u)
        × (expire u time ≡ t')
  unfolding recieve_and_process
  recieve-stages t t' pdu time e =
      elim (Option-cases (process_in (check t pdu).state (check t pdu) pdu time)) [
        | inl q ↦ absurd (cc)
        | inr (u, q) ↦ (u, q, cc)
      ]

  recieve-Inv :
      (t t' : MailboxWriteTask) (pdu : Pdu) (time : EtherCatSystemTime)
      → Inv t
      → recieve_and_process t pdu time ≡ some t'
      → Inv t'
  recieve-Inv t t' pdu time h e =
      let (u, p, x) = recieve-stages t t' pdu time e in
      rw⁻¹ x (
        expire-Inv u time
          (process-Inv (check t pdu).state (check t pdu) u pdu time refl (check-Inv t pdu h) p))

  start-Inv : (t : MailboxWriteTask) (a : SlaveAddress) (sm : SyncManager) → Inv (start t a sm true)
  unfolding start
  start-Inv t a sm = ground arith

  -- A task started to wait until the mailbox is empty never reports that a message is already in it, nor
  -- that the mailbox is empty, whatever it is answered and when.
  pub mailbox_write_patient :
      (t t' : MailboxWriteTask) (a : SlaveAddress) (sm : SyncManager) (e : MailboxTaskError)
      → Reach task (start t a sm true) t'
      → wait t' ≡ some (err (task_specific e))
      → (e ≢ mailbox_empty) × (e ≢ mailbox_already_existed)
  unfolding wait
  mailbox_write_patient t t' a sm e r w =
      ground (arith, Reach-invariant task Inv send-Inv recieve-Inv (start-Inv t a sm) r)

  expire-late :
      (u t' : MailboxWriteTask) (time : EtherCatSystemTime)
      → expire u time ≡ t'
      → t'.timer_start + retry_timeout_ms * 1000000 < time
      → wait t' ≡ some (err timeout)
  unfolding expire wait
  expire-late u t' time x late = ground arith

  expire-complete :
      (u t' : MailboxWriteTask) (time : EtherCatSystemTime)
      → expire u time ≡ t'
      → wait t' ≡ some (ok tt)
      → u.state ≡ complete
  unfolding expire wait
  expire-complete u t' time x w = ground arith

  process-complete :
      (t u : MailboxWriteTask) (pdu : Pdu) (time : EtherCatSystemTime) (s : State)
      → (check t pdu).state ≡ s
      → is_busy t ≡ true
      → process_in s (check t pdu) pdu time ≡ some u
      → u.state ≡ complete
      → (t.state ≡ write) × (pdu.wkc ≡ 1) × (answers pdu.command t.command ≡ true)
  unfolding process_in check is_busy
  process-complete t u pdu time _ w b p c = ground arith

  -- After an answer that comes more than the timeout after the start of the timer, the task reports the
  -- timeout, in whatever state it was.
  pub mailbox_write_deadline :
      (t t' : MailboxWriteTask) (pdu : Pdu) (time : EtherCatSystemTime)
      → recieve_and_process t pdu time ≡ some t'
      → t'.timer_start + retry_timeout_ms * 1000000 < time
      → wait t' ≡ some (err timeout)
  mailbox_write_deadline t t' pdu time e late =
      let (u, p, x) = recieve-stages t t' pdu time e in expire-late u t' time x late

  -- A busy task turns to success only with the answer to its writing of the mailbox, with a working
  -- counter of 1.
  pub mailbox_write_success :
      (t t' : MailboxWriteTask) (pdu : Pdu) (time : EtherCatSystemTime)
      → recieve_and_process t pdu time ≡ some t'
      → is_busy t ≡ true
      → wait t' ≡ some (ok tt)
      → (t.state ≡ write) × (pdu.wkc ≡ 1) × (answers pdu.command t.command ≡ true)
  mailbox_write_success t t' pdu time e b w =
      let (u, p, x) = recieve-stages t t' pdu time e in
      process-complete t u pdu time (check t pdu).state refl b p (expire-complete u t' time x w)
