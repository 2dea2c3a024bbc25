-- ===== src/Task/MailboxWrite/Progress.antt =====
-- src/task/mailbox_write.rs: what a `MailboxWriteTask` does with the message in the socket's buffer.
use ethercat.Base.{
  ℕ, ◌+◌, ◌*◌, ◌≡◌, ◌≤◌, refl, ap, ◌∙◌, Bool, true, false, Option, none, some, List, [], ◌∷◌, arith,
  length, if◌then◌else◌, ◌>>=◌, overwrite,
}
use ethercat.Foreign.{Bitfield}
use ethercat.Interface.{SlaveAddress, single, new_read, new_write}
use ethercat.Interface.Laws.{answers_self}
use ethercat.Register.SyncManagerStatus
use ethercat.Slave.{SyncManager}
use ethercat.Task.{EtherCatSystemTime}
use ethercat.Task.MailboxWrite.{
  MailboxWriteTask, State, send_in, write, check_mailbox_empty, start, next_pdu,
  recieve_and_process, retry_timeout_ms, check_size,
}

-- The socket copies an answer into its buffer before the next PDU is sent.
abbrev pub check_exchange :
    ⦃bf : Bitfield⦄
    → List ℕ
    → EtherCatSystemTime
    → MailboxWriteTask × List ℕ
    → Option (MailboxWriteTask × List ℕ)
check_exchange bytes time (t, buf) = elim (next_pdu t buf) [
  | none ↦ none
  | some (t', buf', none) ↦ some (t', buf')
  | some (t', buf', some (command, n)) ↦ do
    t'' ← recieve_and_process t' (record { command = command; bytes = bytes; wkc = 1 }) time
    some (t'', overwrite buf' bytes)
]

overwrite_nothing : (xs : List ℕ) → overwrite xs [] ≡ xs
overwrite_nothing [] = refl
overwrite_nothing (x ∷ xs) = refl

module _ ⦃bf : Bitfield⦄ where
  -- The task after a check was sent, and what the check found.
  abbrev saved : MailboxWriteTask → ℕ → ℕ → MailboxWriteTask
  saved t b₀ b₁ = record t {
    command = new_read (single t.slave_address) (SyncManagerStatus.address + t.sm_ado_offset);
    empty_check_buffer = b₀ ∷ b₁ ∷ [];
  }

  abbrev found : Bool → State
  found true = check_mailbox_empty false true
  found false = write

  send_check :
      (t : MailboxWriteTask) (x y b₀ b₁ : ℕ) (rest : List ℕ) (f w : Bool)
      → t.state ≡ check_mailbox_empty f w
      → t.empty_check_buffer ≡ x ∷ y ∷ []
      → next_pdu t (b₀ ∷ b₁ ∷ rest)
        ≡ some (saved t b₀ b₁, 0 ∷ 0 ∷ rest, some ((saved t b₀ b₁).command, check_size))
  unfolding next_pdu
  send_check t x y b₀ b₁ rest f w e m =
      ap (λ s. send_in s t (b₀ ∷ b₁ ∷ rest)) e
      ∙ ap
          (λ old. some (
            record (saved t b₀ b₁) { empty_check_buffer = overwrite old (b₀ ∷ b₁ ∷ rest) },
            0 ∷ 0 ∷ rest,
            some ((saved t b₀ b₁).command, check_size),
          ))
          m

  recieve_check :
      (t : MailboxWriteTask) (bytes : List ℕ) (time : EtherCatSystemTime) (f w full : Bool)
      → t.state ≡ check_mailbox_empty f w
      → SyncManagerStatus.is_mailbox_full bytes ≡ some full
      → (full ≡ true → w ≡ true)
      → (f ≡ false → time ≤ t.timer_start + retry_timeout_ms * 1000000)
      → recieve_and_process t (record { command = t.command; bytes = bytes; wkc = 1 }) time
        ≡ some (record t { timer_start = if f then time else t.timer_start; state = found full })
  unfolding recieve_and_process
  recieve_check t bytes time f w full e h p late = ground (arith, answers_self t.command)

  check_found :
      (t : MailboxWriteTask) (x y s a b₀ b₁ : ℕ) (rest : List ℕ) (time : EtherCatSystemTime)
      (f w full : Bool)
      → t.state ≡ check_mailbox_empty f w
      → t.empty_check_buffer ≡ x ∷ y ∷ []
      → SyncManagerStatus.is_mailbox_full (s ∷ a ∷ []) ≡ some full
      → (full ≡ true → w ≡ true)
      → (f ≡ false → time ≤ t.timer_start + retry_timeout_ms * 1000000)
      → check_exchange (s ∷ a ∷ []) time (t, b₀ ∷ b₁ ∷ rest)
        ≡ some (
          record (saved t b₀ b₁) {
            timer_start = if f then time else t.timer_start;
            state = found full;
          },
          s ∷ a ∷ rest,
        )
  check_found t x y s a b₀ b₁ rest time f w full e m h p late =
      rw (send_check t x y b₀ b₁ rest f w e m, check_exchange)
        (rw
          (
            recieve_check (saved t b₀ b₁) (s ∷ a ∷ []) time f w full e h p late,
            overwrite_nothing rest,
          )
          refl)

  -- If the mailbox fits the buffer and the first check finds it empty, it is written with the message
  -- that was in the buffer before the check, of which the check has overwritten the first two bytes:
  -- the PDU that goes out carries the buffer as it was, with the size of the mailbox.
  pub mailbox_write_restores :
      (t : MailboxWriteTask) (addr : SlaveAddress) (sm : SyncManager) (x y s a b₀ b₁ : ℕ)
      (rest : List ℕ) (time : EtherCatSystemTime) (w : Bool)
      → t.empty_check_buffer ≡ x ∷ y ∷ []
      → SyncManagerStatus.is_mailbox_full (s ∷ a ∷ []) ≡ some false
      → sm.size ≤ length (b₀ ∷ b₁ ∷ rest)
      → (t' : MailboxWriteTask) × ((check_exchange
              (s ∷ a ∷ [])
              time
              (start t addr sm w, b₀ ∷ b₁ ∷ rest)
            >>= λ u. next_pdu u.0 u.1)
          ≡ some (t', b₀ ∷ b₁ ∷ rest, some (new_write (single addr) sm.start_address, sm.size)))
        × (t'.state ≡ write)
  unfolding start next_pdu
  mailbox_write_restores t addr sm x y s a b₀ b₁ rest time w m empty h = (
    record (start t addr sm w) {
      timer_start = time;
      command = new_write (single addr) sm.start_address;
      empty_check_buffer = b₀ ∷ b₁ ∷ [];
      state = write;
    },
    rw
        (check_found (start t addr sm w) x y s a b₀ b₁ rest time true w false refl m empty
          (λ q. absurd (cc)) (λ q. absurd (cc)))
        (ground (arith, overwrite_nothing rest)),
    refl,
  )

  -- A task that waits and finds the mailbox full at its first check saves, at the second check, the
  -- answer to the first one in place of the message: if the second check comes within the timeout and
  -- finds the mailbox empty, and the mailbox fits the buffer, the PDU that goes out starts with the two
  -- bytes of the first answer in place of the first two of the message.
  pub mailbox_write_loses_message :
      (t : MailboxWriteTask) (addr : SlaveAddress) (sm : SyncManager) (x y s a s' a' b₀ b₁ : ℕ)
      (rest : List ℕ) (time time' : EtherCatSystemTime)
      → t.empty_check_buffer ≡ x ∷ y ∷ []
      → SyncManagerStatus.is_mailbox_full (s ∷ a ∷ []) ≡ some true
      → SyncManagerStatus.is_mailbox_full (s' ∷ a' ∷ []) ≡ some false
      → sm.size ≤ length (b₀ ∷ b₁ ∷ rest)
      → time' ≤ time + retry_timeout_ms * 1000000
      → (t' : MailboxWriteTask) × ((check_exchange
              (s ∷ a ∷ [])
              time
              (start t addr sm true, b₀ ∷ b₁ ∷ rest)
            >>= check_exchange (s' ∷ a' ∷ []) time'
            >>= λ u. next_pdu u.0 u.1)
          ≡ some (t', s ∷ a ∷ rest, some (new_write (single addr) sm.start_address, sm.size)))
        × (t'.state ≡ write)
  unfolding start next_pdu
  mailbox_write_loses_message t addr sm x y s a s' a' b₀ b₁ rest time time' m full empty h late = (
    record checked {
      command = new_write (single addr) sm.start_address;
      empty_check_buffer = s ∷ a ∷ [];
      state = write;
    },
    rw
        (check_found (start t addr sm true) x y s a b₀ b₁ rest time true true true refl m full
          (λ _. refl) (λ q. absurd (cc)))
        (rw
          (check_found checked b₀ b₁ s' a' s a rest time' false true false refl refl empty
            (λ q. absurd (cc)) (λ _. late))
          (ground (arith, overwrite_nothing rest))),
    refl,
  )
    where
      checked : MailboxWriteTask
      checked = record (start t addr sm true) {
        timer_start = time;
        command = new_read (single addr) (SyncManagerStatus.address + sm.number * 8);
        empty_check_buffer = b₀ ∷ b₁ ∷ [];
        state = check_mailbox_empty false true;
      }
