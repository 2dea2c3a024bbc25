-- ===== src/Task/SiiRead/Progress.antt =====
-- src/task/sii_read.rs: what a `SiiReader` sends, and how it goes on after an answer.
use ethercat.Base.{
  ℕ, ◌/◌, ◌^◌, ◌||◌, ◌≡◌, ◌≤◌, refl, ap, ◌∙◌, Bool, true, false, not, some, List, arith, length,
  ◌==◌, ◌&&◌, if◌then◌else◌,
}
use ethercat.Foreign.{Bitfield}
use ethercat.Foreign.Bits.{write_field-Written, write_flag-Written, read_flag-some}
use ethercat.Interface.Laws.{answers_self}
use ethercat.Register.SiiControl
use ethercat.Register.SiiAccess
use ethercat.Register.SiiAddress
use ethercat.Task.{EtherCatSystemTime}
use ethercat.Task.Sending.{SendsWithin, SendsWithin->>=, fill-Written}
use ethercat.Task.SiiRead.{
  SiiReader, State, error, idle, init, complete, is_busy, busy_in, next_pdu, recieve_and_process,
  send_in, process_in, set_ownership, check_ownership, set_address, set_read_operation, wait_busy,
  read, required_buffer_size, fail_if, busy, address_size_over, device_info_error, check_sum_error,
}

-- The state that the errors were written into is assigned again.
overwritten :
    (b c d e : Bool) (t : SiiReader) (n : ℕ)
    → record (fail_if b busy
        (fail_if c address_size_over (fail_if d device_info_error (fail_if e check_sum_error t)))) {
          read_size = n;
          state = set_ownership;
        }
      ≡ record t { read_size = n; state = set_ownership }
unfolding fail_if
overwritten b c d e t n = ground arith

module _ ⦃bf : Bitfield⦄ where
  -- With the buffer that the task requires, sending does not panic: a busy task sends a PDU whose data
  -- lies in the buffer.
  pub sii_next_pdu-SendsWithin :
      (t : SiiReader) (buf : List ℕ)
      → required_buffer_size ≤ length buf
      → is_busy t ≡ true
      → SendsWithin buf (next_pdu t buf)
  unfolding next_pdu is_busy SiiAccess.set_owner SiiAccess.set_reset_access
      SiiAddress.set_sii_address SiiControl.set_read_operation
  sii_next_pdu-SendsWithin t buf h b = go t.state b
    where
      go : (s : State) → busy_in s ≡ true → SendsWithin buf (send_in s t buf)
      go init b =
          SendsWithin->>= buf buf _ _ refl (fill-Written 2 buf (omega arith))
            λ b l. (l, omega arith)
      go set_ownership b =
          SendsWithin->>= buf buf _ _ refl (fill-Written 2 buf (omega arith)) λ b l.
            SendsWithin->>= buf b _ _ l (write_flag-Written b 0 false (omega arith)) λ b' l'.
              SendsWithin->>= buf b' _ _ l' (write_flag-Written b' 1 true (omega arith))
                λ b'' l''. (l'', omega arith)
      go check_ownership b =
          SendsWithin->>= buf buf _ _ refl (fill-Written 2 buf (omega arith))
            λ b l. (l, omega arith)
      go set_address b = SendsWithin->>= buf buf _ _ refl (fill-Written 4 buf (omega arith)) λ b l.
          SendsWithin->>= buf b _ _ l (write_field-Written b 31 0 t.sii_address (omega arith))
            λ b' l'. (l', omega arith)
      go set_read_operation b =
          SendsWithin->>= buf buf _ _ refl (fill-Written 2 buf (omega arith)) λ b l.
            SendsWithin->>= buf b _ _ l (write_flag-Written b 8 true (omega arith))
              λ b' l'. (l', omega arith)
      go wait_busy b =
          SendsWithin->>= buf buf _ _ refl (fill-Written 2 buf (omega arith))
            λ b l. (l, omega arith)
      go read b =
          SendsWithin->>= buf buf _ _ refl (fill-Written 8 buf (omega arith))
            λ b l. (l, omega arith)
      go idle b = absurd (cc)
      go complete b = absurd (cc)
      go (error x) b = absurd (cc)

  abbrev pub size_of : List ℕ → ℕ
  size_of control = if not (bf.bit_range control 6 6 == 0) then 8 else 4

  abbrev pub flag : List ℕ → ℕ → Bool
  flag control i = not (bf.bit_range control i i == 0)

  abbrev pub busy_flags : List ℕ → Bool
  busy_flags control = flag control 15 || (flag control 8 || (flag control 9 || flag control 10))

  pub process_init :
      (t : SiiReader) (control : List ℕ) (time : EtherCatSystemTime)
      → 2 ≤ length control
      → process_in init t control time
        ≡ some (record t { read_size = size_of control; state = set_ownership })
  unfolding process_in SiiControl.check_sum_error SiiControl.device_info_error
      SiiControl.address_algorithm SiiControl.busy SiiControl.read_operation
      SiiControl.write_operation SiiControl.reload_operation SiiControl.read_size
  process_init t control time h = rw (read_flag-some control 11 (omega arith)) (
      rw (read_flag-some control 12 (omega arith)) (
        rw (read_flag-some control 7 (omega arith)) (
          rw (read_flag-some control 15 (omega arith)) (
            rw (read_flag-some control 8 (omega arith)) (
              rw (read_flag-some control 9 (omega arith)) (
                rw (read_flag-some control 10 (omega arith)) (
                  rw (read_flag-some control 6 (omega arith)) (
                    ap some (
                      overwritten (busy_flags control)
                        (not (flag control 7)
                          && not (
                              (fail_if (flag control 12) device_info_error
                                  (fail_if (flag control 11) check_sum_error t)).sii_address
                                / 2 ^ 8
                              == 0))
                        (flag control 12) (flag control 11) t (size_of control))))))))))

  pub process_check_ownership :
      (t : SiiReader) (access : List ℕ) (time : EtherCatSystemTime)
      → 2 ≤ length access
      → process_in check_ownership t access time ≡ some (record t { state = set_address })
  unfolding process_in SiiAccess.owner SiiAccess.pdi_accessed
  process_check_ownership t access time h =
      rw (read_flag-some access 0 (omega arith))
        (rw (read_flag-some access 8 (omega arith)) (ground arith))

  pub recieve_accepted :
      (t : SiiReader) (bytes : List ℕ) (time : EtherCatSystemTime)
      → recieve_and_process t (record { command = t.command; bytes = bytes; wkc = 1 }) time
        ≡ process_in t.state t bytes time
  unfolding recieve_and_process
  recieve_accepted t bytes time = ground (arith, answers_self t.command)

  -- In its first state a `SiiReader` takes any answer of at least two bytes with a working counter of one as
  -- leave to go on, whatever error bits the answer carries, with the read size the answer names.
  pub recieve_init :
      (t : SiiReader) (control : List ℕ) (time : EtherCatSystemTime)
      → t.state ≡ init
      → 2 ≤ length control
      → recieve_and_process t (record { command = t.command; bytes = control; wkc = 1 }) time
        ≡ some (record t { read_size = size_of control; state = set_ownership })
  recieve_init t control time e h =
      recieve_accepted t control time
      ∙ (ap (λ s. process_in s t control time) e ∙ process_init t control time h)

  -- An answer of at least two bytes on the ownership takes the task to the address, even where it says
  -- that the PDI holds the interface.
  pub recieve_check_ownership :
      (t : SiiReader) (access : List ℕ) (time : EtherCatSystemTime)
      → t.state ≡ check_ownership
      → 2 ≤ length access
      → recieve_and_process t (record { command = t.command; bytes = access; wkc = 1 }) time
        ≡ some (record t { state = set_address })
  recieve_check_ownership t access time e h =
      recieve_accepted t access time
      ∙ (ap (λ s. process_in s t access time) e ∙ process_check_ownership t access time h)
