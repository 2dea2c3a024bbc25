-- ===== src/Task/SiiRead/Outcomes.antt =====
-- What a `SiiReader` can report, and which errors it cannot.
use ethercat.Base.{
  ℕ, ◌≡◌, ◌⊎◌, refl, false, Option, some, List, ok, err, arith, length, ◌==◌, ◌&&◌, if◌then◌else◌,
  length-overwrite,
}
use ethercat.Foreign.{Bitfield}
use ethercat.Interface.{Command, Pdu, SlaveAddress, answers}
use ethercat.Task.{unexpected_command, unexpected_wkc, task_specific, EtherCatSystemTime}
use ethercat.Task.Reach.{Reach, Reach-invariant}
use ethercat.Task.SiiRead.{
  SiiReader, SiiTaskError, command_error, State, error, idle, init, start, wait, next_pdu,
  recieve_and_process, task, process_in, check, read,
}

-- No error of the task's own is in the state but `command_error`.
abbrev OnlyCommandError : State → Type 0
OnlyCommandError (error (task_specific e)) = e ≡ command_error
OnlyCommandError _ = Unit

-- Once the first answer is read, the data is 4 or 8 bytes wide; the buffer keeps its 8 bytes.
abbrev SizeKnown : State → SiiReader → Type 0
SizeKnown idle t = Unit
SizeKnown init t = Unit
SizeKnown (error _) t = Unit
SizeKnown _ t = (t.read_size ≡ 4) ⊎ (t.read_size ≡ 8)

record Inv (n : ℕ) (t : SiiReader) : Type 0 where
  only_command_error : OnlyCommandError t.state
  size_known : SizeKnown t.state t
  width : length t.sii_data ≡ n

module _ ⦃bf : Bitfield⦄ where
  send-Inv :
      (n : ℕ) (t t' : SiiReader) (buf buf' : List ℕ) (out : Option (Command × ℕ))
      → Inv n t
      → next_pdu t buf ≡ some (t', buf', out)
      → Inv n t'
  unfolding next_pdu
  send-Inv n t t' buf buf' out h e = ground arith

  check-Inv : (n : ℕ) (t : SiiReader) (pdu : Pdu) → Inv n t → Inv n (check t pdu)
  unfolding check
  check-Inv n t pdu h = ground arith

  process-Inv :
      (n : ℕ) (s : State) (t t' : SiiReader) (bytes : List ℕ) (time : EtherCatSystemTime)
      → t.state ≡ s
      → Inv n t
      → process_in s t bytes time ≡ some t'
      → Inv n t'
  unfolding process_in
  process-Inv n read t t' bytes time w h e = ground (arith, length-overwrite t.sii_data bytes)
  process-Inv n init t t' bytes time w h e = ground arith
  process-Inv n _ t t' bytes time w h e = ground arith

  recieve-Inv :
      (n : ℕ) (t t' : SiiReader) (pdu : Pdu) (time : EtherCatSystemTime)
      → Inv n t
      → recieve_and_process t pdu time ≡ some t'
      → Inv n t'
  unfolding recieve_and_process
  recieve-Inv n t t' pdu time h e =
      process-Inv n (check t pdu).state (check t pdu) t' pdu.bytes time refl (check-Inv n t pdu h) e

  start-Inv :
      (t : SiiReader) (a : SlaveAddress) (sii_address : ℕ)
      → Inv (length t.sii_data) (start t a sii_address)
  unfolding start
  start-Inv t a sii_address = ground arith

  -- On every run from `start` the only error of its own that the task ever reports is `command_error`:
  -- a denied access, a wide address, a busy interface and the two EEPROM errors are never reported.
  pub wait_only_command_error :
      (t t' : SiiReader) (a : SlaveAddress) (sii_address : ℕ) (e : SiiTaskError)
      → Reach task (start t a sii_address) t'
      → wait t' ≡ some (err (task_specific e))
      → e ≡ command_error
  unfolding wait
  wait_only_command_error t t' a sii_address e r w = ground (
    arith,
    Reach-invariant task (Inv (length t.sii_data)) (send-Inv (length t.sii_data))
        (recieve-Inv (length t.sii_data)) (start-Inv t a sii_address) r,
  )

  -- On every run from `start` a result is as many bytes as the task holds, of which 4 or 8 count.
  pub wait_size :
      (t t' : SiiReader) (a : SlaveAddress) (sii_address : ℕ) (content : List ℕ) (size : ℕ)
      → Reach task (start t a sii_address) t'
      → wait t' ≡ some (ok (content, size))
      → (length content ≡ length t.sii_data) × ((size ≡ 4) ⊎ (size ≡ 8))
  unfolding wait
  wait_size t t' a sii_address content size r w = ground (
    arith,
    Reach-invariant task (Inv (length t.sii_data)) (send-Inv (length t.sii_data))
        (recieve-Inv (length t.sii_data)) (start-Inv t a sii_address) r,
  )

  -- An answer with another working counter than 1, or to another command, stops the task in whatever state
  -- it is, and changes nothing else; the wrong counter is the error reported first.
  pub sii_recieve_rejected :
      (t : SiiReader) (pdu : Pdu) (time : EtherCatSystemTime)
      → (answers pdu.command t.command && (pdu.wkc == 1)) ≡ false
      → recieve_and_process t pdu time
        ≡ some (record t {
          state = error (
              if pdu.wkc == 1
              then unexpected_command
              else unexpected_wkc (record { expected = 1; recieved = pdu.wkc }));
        })
  unfolding recieve_and_process
  sii_recieve_rejected t pdu time h = ground arith
