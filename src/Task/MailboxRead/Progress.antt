-- ===== src/Task/MailboxRead/Progress.antt =====
-- src/task/mailbox_read.rs: what a `MailboxReadTask` sends, and the run that reads a full mailbox.
use ethercat.Base.{
  ℕ, ◌+◌, ◌*◌, ◌≡◌, ◌≤◌, refl, Bool, true, false, not, some, List, [], ◌∷◌, ok, ◌==◌, ltb, arith,
  length, ◌>>=◌, fill-some, overwrite, length-overwrite,
}
use ethercat.Foreign.{Bitfield}
use ethercat.Foreign.Bits.{read_flag-some, write_flag-Written, Written}
use ethercat.Interface.{SlaveAddress, single, new_read}
use ethercat.Interface.Laws.{answers_self}
use ethercat.Register.SyncManagerStatus
use ethercat.Register.SyncManagerActivation
use ethercat.Slave.{SyncManager}
use ethercat.Task.{EtherCatSystemTime}
use ethercat.Task.Reach.{exchange}
use ethercat.Task.Sending.{SendsWithin, SendsWithin->>=, fill-Written}
use ethercat.Task.MailboxRead.{
  MailboxReadTask, State, error, idle, complete, read, check_mailbox_already_existed,
  request_repeat, wait_repeat_ack, start, wait, is_busy, busy_in, next_pdu, recieve_and_process,
  task, send_in, retry_timeout_ms, copy_into,
}

copy_into-Written : (buf src : List ℕ) → length src ≤ length buf → Written buf (copy_into buf src)
unfolding copy_into
copy_into-Written buf src h = (overwrite buf src, ground arith, length-overwrite buf src)

module _ ⦃bf : Bitfield⦄ where
  -- With a buffer of at least two bytes that holds the mailbox, and one byte kept of the activation
  -- register, sending does not panic: a busy task sends a PDU whose data lies in the buffer.
  pub mailbox_read-SendsWithin :
      (t : MailboxReadTask) (buf : List ℕ)
      → 2 ≤ length buf
      → t.sm_size ≤ length buf
      → length t.activation_buf ≡ 1
      → is_busy t ≡ true
      → SendsWithin buf (next_pdu t buf)
  unfolding next_pdu is_busy SyncManagerActivation.repeat SyncManagerActivation.set_repeat
  mailbox_read-SendsWithin t buf h m a b = go t.state b
    where
      sized : (b : Bool) → b ≡ ltb (length buf) t.sm_size → b ≡ false
      sized b e = ground arith

      go : (s : State) → busy_in s ≡ true → SendsWithin buf (send_in s t buf)
      go (check_mailbox_already_existed x y) b =
          SendsWithin->>= buf buf _ _ refl (fill-Written 2 buf h) λ b l. (l, h)
      go read b =
          rw (sized (ltb (length buf) t.sm_size) refl)
            (SendsWithin->>= buf buf _ _ refl (fill-Written t.sm_size buf m) λ b l. (l, m))
      go request_repeat b =
          let (c, e, l) =
            write_flag-Written t.activation_buf 1
              (not (not (bf.bit_range t.activation_buf 1 1 == 0))) (omega arith) in
          let (d, e', l') = copy_into-Written buf c (omega arith) in
          rw (read_flag-some t.activation_buf 1 (omega arith), e, e') (l', omega arith)
      go wait_repeat_ack b =
          SendsWithin->>= buf buf _ _ refl (fill-Written 1 buf (omega arith))
            λ b l. (l, omega arith)
      go idle b = absurd (cc)
      go complete b = absurd (cc)
      go (error x) b = absurd (cc)

  exchange_check :
      (t : MailboxReadTask) (status activation : ℕ) (buf : List ℕ) (time : EtherCatSystemTime)
      (w : Bool)
      → t.state ≡ check_mailbox_already_existed true w
      → length t.activation_buf ≡ 1
      → 2 ≤ length buf
      → SyncManagerStatus.is_mailbox_full (status ∷ activation ∷ []) ≡ some true
      → exchange task 1 buf (status ∷ activation ∷ []) time t
        ≡ some (record t {
          timer_start = time;
          command = new_read (single t.slave_address) (SyncManagerStatus.address + t.sm_ado_offset);
          activation_buf = activation ∷ [];
          state = read;
        })
  unfolding next_pdu recieve_and_process
  exchange_check t status activation buf time w s a h full = ground (
    arith,
    fill-some 2 0 buf,
    answers_self (new_read (single t.slave_address) (SyncManagerStatus.address + t.sm_ado_offset)),
  )

  exchange_data :
      (t : MailboxReadTask) (buf bytes : List ℕ) (time : EtherCatSystemTime)
      → t.state ≡ read
      → t.sm_size ≤ length buf
      → time ≤ t.timer_start + retry_timeout_ms * 1000000
      → exchange task 1 buf bytes time t
        ≡ some (record t {
          command = new_read (single t.slave_address) t.sm_start_address;
          state = complete;
        })
  unfolding next_pdu recieve_and_process
  exchange_data t buf bytes time s h late = ground (
    arith,
    fill-some t.sm_size 0 buf h,
    answers_self (new_read (single t.slave_address) t.sm_start_address),
  )

  -- A full mailbox is read in two exchanges: with one byte kept of the activation register, a buffer of
  -- two bytes or more that holds the mailbox, and answers of which the second comes within the timeout
  -- of the first, the task succeeds whatever is in the mailbox.
  pub mailbox_read_completes :
      (t : MailboxReadTask) (a : SlaveAddress) (sm : SyncManager) (w : Bool) (status activation : ℕ)
      (buf bytes : List ℕ) (time time' : EtherCatSystemTime)
      → length t.activation_buf ≡ 1
      → 2 ≤ length buf
      → sm.size ≤ length buf
      → SyncManagerStatus.is_mailbox_full (status ∷ activation ∷ []) ≡ some true
      → time' ≤ time + retry_timeout_ms * 1000000
      → (exchange task 1 buf (status ∷ activation ∷ []) time (start t a sm w)
          >>= exchange task 1 buf bytes time'
          >>= wait)
        ≡ some (ok tt)
  unfolding start wait
  mailbox_read_completes t a sm w status activation buf bytes time time' l h m full late =
      rw (exchange_check (start t a sm w) status activation buf time w refl l h full) (
        rw
          (exchange_data
            (record (start t a sm w) {
              timer_start = time;
              command =
                  new_read (single a) (SyncManagerStatus.address + (start t a sm w).sm_ado_offset);
              activation_buf = activation ∷ [];
              state = read;
            })
            buf bytes time' refl m late)
          refl)
