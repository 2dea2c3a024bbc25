-- ===== src/Task/AlTransfer/Progress.antt =====
-- An `AlStateTransferTask` gets there, or says why not.
use ethercat.Base.{
  ℕ, ◌+◌, ◌*◌, ◌≡◌, ◌≢◌, ◌≤◌, refl, Bool, true, false, none, some, List, ok, arith, length, ◌==◌,
  ◌&&◌, leb, if◌then◌else◌, ◌>>=◌, fill, fill-some, ◌∙◌,
}
use ethercat.Foreign.{Bitfield, TryFromPrimitive}
use ethercat.Foreign.Bits.{Written, write_field-Written, write_flag-Written}
use ethercat.Interface.{Pdu, TargetSlave, answers, new_read, new_write}
use ethercat.Interface.Laws.{answers_self}
use ethercat.Register.AlStatusCode
use ethercat.Register.AlStatusCode.{AlStatusCode}
use ethercat.Register.AlStatus
use ethercat.Register.AlControl
use ethercat.Register.SiiAccess
use ethercat.Slave
use ethercat.Slave.{AlState, same_state, from_u8}
use ethercat.Task.{timeout, EtherCatSystemTime, expected_wkc}
use ethercat.Task.Reach.{exchange}
use ethercat.Task.Sending.{SendsWithin, SendsWithin->>=, fill-Written}
use ethercat.Task.AlTransfer.{
  AlStateTransferTask, State, error, complete, poll, read, request, reset_sii_ownership, start,
  wait, is_busy, next_pdu, recieve_and_process, task, send_in, transition_timeout_ms, control,
  busy_in, required_buffer_size, idle, off_ack, reset_error,
}

module _ ⦃bf : Bitfield⦄ where
  control-Written :
      (buf : List ℕ) (al : AlState) (acknowledge : Bool)
      → 1 ≤ length buf
      → Written buf (control buf al acknowledge)
  unfolding control AlControl.set_state AlControl.set_acknowledge
  control-Written buf al acknowledge h =
      let (b, e, l) = write_field-Written buf 3 0 (Slave.discriminant al) h in
      let (b', e', l') = write_flag-Written b 4 acknowledge (omega arith) in (b', rw e e', l' ∙ l)

  -- With the buffer that the task requires, sending does not panic: a busy task sends a PDU whose data
  -- lies in the buffer.
  pub next_pdu-SendsWithin :
      (t : AlStateTransferTask) (buf : List ℕ)
      → required_buffer_size ≤ length buf
      → is_busy t ≡ true
      → SendsWithin buf (next_pdu t buf)
  unfolding next_pdu is_busy AlControl.set_state SiiAccess.set_owner SiiAccess.set_reset_access
  next_pdu-SendsWithin t buf h b = go t.state b
    where
      status : Written buf (fill AlStatus.size 0 buf)
      status = fill-Written 6 buf h

      two : Written buf (fill 2 0 buf)
      two = fill-Written 2 buf (omega arith)

      go : (s : State) → busy_in s ≡ true → SendsWithin buf (send_in s t buf)
      go read b = SendsWithin->>= buf buf _ _ refl status λ b l. (l, h)
      go poll b = SendsWithin->>= buf buf _ _ refl status λ b l. (l, h)
      go (reset_error al) b = SendsWithin->>= buf buf _ _ refl status λ b l.
          SendsWithin->>= buf b _ _ l (control-Written b al true (omega arith))
            λ b' l'. (l', omega arith)
      go (off_ack al) b = SendsWithin->>= buf buf _ _ refl two λ b l.
          SendsWithin->>= buf b _ _ l (control-Written b al false (omega arith))
            λ b' l'. (l', omega arith)
      go reset_sii_ownership b = SendsWithin->>= buf buf _ _ refl two λ b l.
          SendsWithin->>= buf b _ _ l (write_flag-Written b 0 true (omega arith)) λ b' l'.
            SendsWithin->>= buf b' _ _ l' (write_flag-Written b' 1 false (omega arith))
              λ b'' l''. (l'', omega arith)
      go request b = SendsWithin->>= buf buf _ _ refl two λ b l.
          SendsWithin->>= buf b _ _ l
            (write_field-Written b 3 0 (Slave.discriminant t.target_al) (omega arith))
            λ b' l'. (l', omega arith)
      go idle b = absurd (cc)
      go complete b = absurd (cc)
      go (error x) b = absurd (cc)

module _ ⦃bf : Bitfield⦄ ⦃codes : TryFromPrimitive AlStatusCode AlStatusCode.discriminant⦄ where
  exchange_read :
      (t : AlStateTransferTask) (buf bytes : List ℕ) (time : EtherCatSystemTime) (v : ℕ)
      → t.state ≡ read
      → 6 ≤ length buf
      → AlStatus.state bytes ≡ some v
      → AlStatus.change_err bytes ≡ some false
      → same_state (from_u8 v) t.target_al ≡ false
      → exchange task (expected_wkc t.slave_address) buf bytes time t
        ≡ some (record t {
          command = new_read t.slave_address AlStatus.address;
          current_al_state = from_u8 v;
          state = reset_sii_ownership;
        })
  unfolding next_pdu recieve_and_process
  exchange_read t buf bytes time v s lb hs he hn =
      ground (arith, fill-some 6 0 buf, answers_self (new_read t.slave_address AlStatus.address))

  exchange_reset_sii_ownership :
      (t : AlStateTransferTask) (buf bytes : List ℕ) (time : EtherCatSystemTime)
      → t.state ≡ reset_sii_ownership
      → 6 ≤ length buf
      → exchange task (expected_wkc t.slave_address) buf bytes time t
        ≡ some (record t { command = new_write t.slave_address SiiAccess.address; state = request })
  unfolding next_pdu recieve_and_process SiiAccess.set_owner SiiAccess.set_reset_access
  exchange_reset_sii_ownership t buf bytes time s lb =
      let (b, e, l) = fill-Written 2 buf (omega arith) in
      let (b', e', l') = write_flag-Written b 0 true (omega arith) in
      let (b'', e'', l'') = write_flag-Written b' 1 false (omega arith) in
      ground (arith, e, e', e'', answers_self (new_write t.slave_address SiiAccess.address))

  exchange_request :
      (t : AlStateTransferTask) (buf bytes : List ℕ) (time : EtherCatSystemTime)
      → t.state ≡ request
      → 6 ≤ length buf
      → exchange task (expected_wkc t.slave_address) buf bytes time t
        ≡ some (record t {
          command = new_write t.slave_address AlControl.address;
          timeout_ms = transition_timeout_ms t.current_al_state t.target_al;
          timer_start = time;
          state = poll;
        })
  unfolding next_pdu recieve_and_process AlControl.set_state
  exchange_request t buf bytes time s lb =
      let (b, e, l) = fill-Written 2 buf (omega arith) in
      let (b', e', l') = write_field-Written b 3 0 (Slave.discriminant t.target_al) (omega arith) in
      ground (arith, e, e', answers_self (new_write t.slave_address AlControl.address))

  exchange_poll :
      (t : AlStateTransferTask) (buf bytes : List ℕ) (time : EtherCatSystemTime) (v : ℕ)
      → t.state ≡ poll
      → 6 ≤ length buf
      → AlStatus.state bytes ≡ some v
      → same_state t.target_al (from_u8 v) ≡ true
      → exchange task (expected_wkc t.slave_address) buf bytes time t
        ≡ some (record t {
          command = new_read t.slave_address AlStatus.address;
          current_al_state = from_u8 v;
          state = complete;
        })
  unfolding next_pdu recieve_and_process
  exchange_poll t buf bytes time v s lb hs hn =
      ground (arith, fill-some 6 0 buf, answers_self (new_read t.slave_address AlStatus.address))

  -- Slaves that answer every PDU, report another state without an error first and the target when polled
  -- for the first time are brought to the target in four exchanges: read, take the EEPROM back, request
  -- and poll. The buffer has the size that the task requires.
  pub exchange_to_target :
      (t : AlStateTransferTask) (a : TargetSlave) (target : AlState)
      (buf before after ack₁ ack₂ : List ℕ) (t₁ t₂ t₃ t₄ : EtherCatSystemTime) (v w : ℕ)
      → required_buffer_size ≤ length buf
      → AlStatus.state before ≡ some v
      → AlStatus.change_err before ≡ some false
      → same_state (from_u8 v) target ≡ false
      → AlStatus.state after ≡ some w
      → same_state target (from_u8 w) ≡ true
      → (exchange task (expected_wkc a) buf before t₁ (start t a target)
          >>= exchange task (expected_wkc a) buf ack₁ t₂
          >>= exchange task (expected_wkc a) buf ack₂ t₃
          >>= exchange task (expected_wkc a) buf after t₄
          >>= wait)
        ≡ some (ok (from_u8 w))
  unfolding start wait
  exchange_to_target t a target buf before after ack₁ ack₂ t₁ t₂ t₃ t₄ v w lb hv he hn hw ht =
      let s₀ : AlStateTransferTask = start t a target in
      let s₁ : AlStateTransferTask = record s₀ {
        command = new_read a AlStatus.address;
        current_al_state = from_u8 v;
        state = reset_sii_ownership;
      } in
      let s₂ : AlStateTransferTask = record s₁ {
        command = new_write a SiiAccess.address;
        state = request;
      } in
      let s₃ : AlStateTransferTask = record s₂ {
        command = new_write a AlControl.address;
        timeout_ms = transition_timeout_ms (from_u8 v) target;
        timer_start = t₃;
        state = poll;
      } in
      rw (exchange_read s₀ buf before t₁ v refl lb hv he hn) (
        rw (exchange_reset_sii_ownership s₁ buf ack₁ t₂ refl lb) (
          rw (exchange_request s₂ buf ack₂ t₃ refl lb)
            (rw (exchange_poll s₃ buf after t₄ w refl lb hw ht) refl)))

  -- If a polled slave answers with another state than the target, its error flag and a code that
  -- `AlStatusCode` does not name, the master panics.
  pub recieve_unknown_code :
      (t : AlStateTransferTask) (pdu : Pdu) (time : EtherCatSystemTime) (v n : ℕ)
      → t.state ≡ poll
      → (answers pdu.command t.command && (pdu.wkc == expected_wkc t.slave_address)) ≡ true
      → AlStatus.state pdu.bytes ≡ some v
      → same_state t.target_al (from_u8 v) ≡ false
      → AlStatus.change_err pdu.bytes ≡ some true
      → AlStatus.al_status_code pdu.bytes ≡ some n
      → ((c : AlStatusCode) → AlStatusCode.discriminant c ≢ n)
      → recieve_and_process t pdu time ≡ none
  unfolding recieve_and_process
  recieve_unknown_code t pdu time v n s accepted hv hn he hc unknown =
      ground (arith, codes.try_from-none n unknown)

  -- An answer to a poll that reports neither the target nor an error ends the task with a timeout exactly
  -- when more than `timeout_ms * 1000000000` nanoseconds have passed since the request; until then the
  -- task polls on.
  pub recieve_poll_deadline :
      (t : AlStateTransferTask) (pdu : Pdu) (time : EtherCatSystemTime) (v : ℕ)
      → t.state ≡ poll
      → (answers pdu.command t.command && (pdu.wkc == expected_wkc t.slave_address)) ≡ true
      → AlStatus.state pdu.bytes ≡ some v
      → same_state t.target_al (from_u8 v) ≡ false
      → AlStatus.change_err pdu.bytes ≡ some false
      → recieve_and_process t pdu time
        ≡ some (record t {
          current_al_state = from_u8 v;
          state =
              if leb time (t.timer_start + t.timeout_ms * 1000000000) then poll else error timeout;
        })
  unfolding recieve_and_process
  recieve_poll_deadline t pdu time v s accepted hv hn he = ground arith
