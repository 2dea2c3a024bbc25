-- ===== src/Task/SiiRead/Completion.antt =====
-- src/task/sii_read.rs: the seven exchanges in which a `SiiReader` reads a word.
use ethercat.Base.{
  ℕ, ◌≡◌, ◌≤◌, refl, ap, ◌∙◌, true, false, Option, some, List, ok, length, ◌>>=◌, overwrite, arith,
}
use ethercat.Foreign.{Bitfield}
use ethercat.Foreign.Bits.{write_flag-Written, write_field-Written}
use ethercat.Interface.{Command, SlaveAddress, single, new_read, new_write}
use ethercat.Register.SiiControl
use ethercat.Register.SiiAccess
use ethercat.Register.SiiAddress
use ethercat.Register.SiiData
use ethercat.Task.{EtherCatSystemTime}
use ethercat.Task.Reach.{exchange}
use ethercat.Task.Sending.{fill-Written}
use ethercat.Task.SiiRead.{
  SiiReader, State, init, set_ownership, check_ownership, set_address, set_read_operation,
  wait_busy, read, complete, start, wait, next_pdu, task, send_in, process_in, required_buffer_size,
}
use ethercat.Task.SiiRead.Progress.{
  recieve_accepted, process_init, process_check_ownership, size_of,
}

module _ ⦃bf : Bitfield⦄ where
  -- An exchange in a state, from what is sent there and how the answer is taken there.
  exchange_in :
      (t : SiiReader) (s : State) (buf buf' bytes : List ℕ) (time : EtherCatSystemTime)
      (c : Command) (n : ℕ) (r : Option SiiReader)
      → t.state ≡ s
      → send_in s t buf ≡ some (record t { command = c }, buf', some (c, n))
      → process_in s (record t { command = c }) bytes time ≡ r
      → exchange task 1 buf bytes time t ≡ r
  unfolding next_pdu
  exchange_in t s buf buf' bytes time c n r e send recv =
      let sent : next_pdu t buf ≡ some (record t { command = c }, buf', some (c, n)) =
        ap (λ s. send_in s t buf) e ∙ send in
      rw (sent, exchange)
        (recieve_accepted (record t { command = c }) bytes time
          ∙ (ap (λ s. process_in s (record t { command = c }) bytes time) e ∙ recv))

  -- The commands of the task, to its slave.
  abbrev read_command : SiiReader → ℕ → Command
  read_command t ado = new_read (single t.slave_address) ado

  abbrev write_command : SiiReader → ℕ → Command
  write_command t ado = new_write (single t.slave_address) ado

  module _ (buf : List ℕ) (h : required_buffer_size ≤ length buf) (t : SiiReader) (bytes : List ℕ)
      (time : EtherCatSystemTime) where
    exchange-init :
        t.state ≡ init
        → 2 ≤ length bytes
        → exchange task 1 buf bytes time t
          ≡ some (record t {
            command = read_command t SiiControl.address;
            read_size = size_of bytes;
            state = set_ownership;
          })
    unfolding send_in
    exchange-init e l =
        let (b, f, l₀) = fill-Written 2 buf (omega arith) in
        exchange_in t init buf b bytes time (read_command t SiiControl.address) 2 _ e (rw f refl)
          (process_init (record t { command = read_command t SiiControl.address }) bytes time l)

    exchange-set_ownership :
        t.state ≡ set_ownership
        → exchange task 1 buf bytes time t
          ≡ some (record t { command = write_command t SiiAccess.address; state = check_ownership })
    unfolding send_in process_in SiiAccess.set_owner SiiAccess.set_reset_access
    exchange-set_ownership e =
        let (b, f, l₀) = fill-Written 2 buf (omega arith) in
        let (b', f', l₁) = write_flag-Written b 0 false (omega arith) in
        let (b'', f'', l₂) = write_flag-Written b' 1 true (omega arith) in
        exchange_in t set_ownership buf b'' bytes time (write_command t SiiAccess.address) 2 _ e
          (rw (f, f', f'') refl) refl

    exchange-check_ownership :
        t.state ≡ check_ownership
        → 2 ≤ length bytes
        → exchange task 1 buf bytes time t
          ≡ some (record t { command = read_command t SiiAccess.address; state = set_address })
    unfolding send_in
    exchange-check_ownership e l =
        let (b, f, l₀) = fill-Written 2 buf (omega arith) in
        exchange_in t check_ownership buf b bytes time (read_command t SiiAccess.address) 2 _ e
          (rw f refl)
          (process_check_ownership (record t { command = read_command t SiiAccess.address }) bytes
            time l)

    exchange-set_address :
        t.state ≡ set_address
        → exchange task 1 buf bytes time t
          ≡ some (record t {
            command = write_command t SiiAddress.address;
            state = set_read_operation;
          })
    unfolding send_in process_in SiiAddress.set_sii_address
    exchange-set_address e =
        let (b, f, l₀) = fill-Written 4 buf (omega arith) in
        let (b', f', l₁) = write_field-Written b 31 0 t.sii_address (omega arith) in
        exchange_in t set_address buf b' bytes time (write_command t SiiAddress.address) 4 _ e
          (rw (f, f') refl) refl

    exchange-set_read_operation :
        t.state ≡ set_read_operation
        → exchange task 1 buf bytes time t
          ≡ some (record t {
            command = write_command t SiiControl.address;
            state = wait_busy;
            timer_start = time;
          })
    unfolding send_in process_in SiiControl.set_read_operation
    exchange-set_read_operation e =
        let (b, f, l₀) = fill-Written 2 buf (omega arith) in
        let (b', f', l₁) = write_flag-Written b 8 true (omega arith) in
        exchange_in t set_read_operation buf b' bytes time (write_command t SiiControl.address) 2 _
          e (rw (f, f') refl) refl

    exchange-wait_busy :
        t.state ≡ wait_busy
        → SiiControl.command_error bytes ≡ some false
        → SiiControl.busy bytes ≡ some false
        → SiiControl.read_operation bytes ≡ some false
        → exchange task 1 buf bytes time t
          ≡ some (record t { command = read_command t SiiControl.address; state = read })
    unfolding send_in process_in
    exchange-wait_busy e c y r =
        let (b, f, l₀) = fill-Written 2 buf (omega arith) in
        exchange_in t wait_busy buf b bytes time (read_command t SiiControl.address) 2 _ e
          (rw f refl) (rw (c, y, r) refl)

    exchange-read :
        t.state ≡ read
        → exchange task 1 buf bytes time t
          ≡ some (record t {
            command = read_command t SiiData.address;
            sii_data = overwrite t.sii_data bytes;
            state = complete;
          })
    unfolding send_in process_in
    exchange-read e =
        let (b, f, l₀) = fill-Written 8 buf h in
        exchange_in t read buf b bytes time (read_command t SiiData.address) 8 _ e (rw f refl) refl

  -- With the buffer that the task requires and a slave that answers every PDU, with at least two bytes of
  -- the control and access registers, and is done with the reading when asked for the first time, a
  -- started task gives in seven exchanges the data of the last answer, in the size of the first.
  pub sii_read_completes :
      (t : SiiReader) (a : SlaveAddress) (sii_address : ℕ)
      (buf control access status content w₁ w₂ w₃ : List ℕ)
      (t₁ t₂ t₃ t₄ t₅ t₆ t₇ : EtherCatSystemTime)
      → required_buffer_size ≤ length buf
      → 2 ≤ length control
      → 2 ≤ length access
      → SiiControl.command_error status ≡ some false
      → SiiControl.busy status ≡ some false
      → SiiControl.read_operation status ≡ some false
      → (exchange task 1 buf control t₁ (start t a sii_address)
          >>= exchange task 1 buf w₁ t₂
          >>= exchange task 1 buf access t₃
          >>= exchange task 1 buf w₂ t₄
          >>= exchange task 1 buf w₃ t₅
          >>= exchange task 1 buf status t₆
          >>= exchange task 1 buf content t₇
          >>= wait)
        ≡ some (ok (overwrite t.sii_data content, size_of control))
  unfolding start wait
  sii_read_completes t a sii_address buf control access status content w₁ w₂ w₃ t₁ t₂ t₃ t₄ t₅ t₆ t₇
        h lc la c y r =
      let s₀ : SiiReader = start t a sii_address in
      let s₁ : SiiReader = record s₀ {
        command = read_command s₀ SiiControl.address;
        read_size = size_of control;
        state = set_ownership;
      } in
      let s₂ : SiiReader = record s₁ {
        command = write_command s₀ SiiAccess.address;
        state = check_ownership;
      } in
      let s₃ : SiiReader = record s₂ {
        command = read_command s₀ SiiAccess.address;
        state = set_address;
      } in
      let s₄ : SiiReader = record s₃ {
        command = write_command s₀ SiiAddress.address;
        state = set_read_operation;
      } in
      let s₅ : SiiReader = record s₄ {
        command = write_command s₀ SiiControl.address;
        state = wait_busy;
        timer_start = t₅;
      } in
      let s₆ : SiiReader = record s₅ {
        command = read_command s₀ SiiControl.address;
        state = read;
      } in
      rw (exchange-init buf h s₀ control t₁ refl lc) (
        rw (exchange-set_ownership buf h s₁ w₁ t₂ refl) (
          rw (exchange-check_ownership buf h s₂ access t₃ refl la) (
            rw (exchange-set_address buf h s₃ w₂ t₄ refl) (
              rw (exchange-set_read_operation buf h s₄ w₃ t₅ refl) (
                rw (exchange-wait_busy buf h s₅ status t₆ refl c y r)
                  (rw (exchange-read buf h s₆ content t₇ refl) refl))))))
