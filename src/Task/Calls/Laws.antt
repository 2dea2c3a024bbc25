-- ===== src/Task/Calls/Laws.antt =====
-- src/task/mod.rs: what the calls of `SocketInterface` return.
use ethercat.Base.{
  ◌<◌, Outcome, returned, panicked, out_of_fuel, ℕ, suc, ◌+◌, ◌≡◌, ◌≢◌, ◌≤◌, ◌⊎◌, refl, true, false,
  Option, some, List, length, leb, Result, ok, err, Option-cases, Bool-cases, inl, inr, arith,
  fill-some,
}
use ethercat.Foreign.{Bitfield, TryFromPrimitive}
use ethercat.Interface.{SlaveAddress, TargetSlave}
use ethercat.Interface.Socket.{PduSocket, get_recieved_pdu}
use ethercat.Register.AlStatusCode
use ethercat.Register.AlStatusCode.{AlStatusCode}
use ethercat.Slave.{AlState}
use ethercat.Task.{TaskError}
use ethercat.Task.AlTransfer
use ethercat.Task.AlTransfer.{AlStateTransferTaskError}
use ethercat.Task.AlTransfer.Safety.{wait-target}
use ethercat.Task.SiiRead
use ethercat.Task.SiiRead.{SiiTaskError}
use ethercat.Task.SiiRead.Outcomes.{wait_size}
use ethercat.Task.LoopTask.AlStateRead
use ethercat.Task.Driver.{SocketInterface, block_on, polled, max_count, process_one_step}
use ethercat.Task.Driver.Laws.{block_on_finished, block_on_returns, repetitions}
use ethercat.Task.Calls.{concluded, with_socket, change_al_state, read_sii, read_al_state}

-- A call that returned a value came from a `block_on` that succeeded and a task that reports the value.
concluded-ok :
    {I Task A E : Type 0} (wait : Task → Option (Result A (TaskError E)))
    (o : Outcome (I × Task × Result (Unit {0}) (TaskError E))) (i' : I) (a : A)
    → concluded wait o ≡ returned (i', ok a)
    → (t' : Task) × (o ≡ returned (i', t', ok tt)) × (wait t' ≡ some (ok a))
unfolding concluded
concluded-ok wait (returned (i, t, ok tt)) i' a e = elim (Option-cases (wait t)) [
  | inl q ↦ absurd (cc)
  | inr (r, q) ↦ (t, cc, cc)
]
concluded-ok wait (returned (i, t, err x)) i' a e = absurd (cc)
concluded-ok wait panicked i' a e = absurd (cc)
concluded-ok wait out_of_fuel i' a e = absurd (cc)

concluded-fuel :
    {I Task A E : Type 0} (wait : Task → Option (Result A (TaskError E)))
    (o : Outcome (I × Task × Result (Unit {0}) (TaskError E)))
    → o ≢ out_of_fuel
    → concluded wait o ≢ out_of_fuel
unfolding concluded
concluded-fuel wait (returned (i, t, ok u)) h e = elim (Option-cases (wait t)) [
  | inl q ↦ absurd (cc)
  | inr (r, q) ↦ absurd (cc)
]
concluded-fuel wait (returned (i, t, err x)) h e = cc
concluded-fuel wait panicked h e = cc
concluded-fuel wait out_of_fuel h e = h refl

module _ {I A : Type 0} (si : SocketInterface I) (i : I) (size : ℕ) (o : Outcome A) where
  with_socket-ok : (a : A) → with_socket si i size (λ s. o) ≡ returned a → o ≡ returned a
  unfolding with_socket
  with_socket-ok a e = elim (Option-cases (si.get_socket i)) [
    | inl q ↦ absurd (cc)
    | inr (s, q) ↦ elim (Bool-cases (leb size (length s.data_buf))) [
      | inl b ↦ cc
      | inr b ↦ absurd (cc)
    ]
  ]

  with_socket-fuel : o ≢ out_of_fuel → with_socket si i size (λ s. o) ≢ out_of_fuel
  unfolding with_socket
  with_socket-fuel h e = elim (Option-cases (si.get_socket i)) [
    | inl q ↦ absurd (cc)
    | inr (s, q) ↦ elim (Bool-cases (leb size (length s.data_buf))) [
      | inl b ↦ h (cc)
      | inr b ↦ absurd (cc)
    ]
  ]

module _ {I : Type 0} ⦃bf : Bitfield⦄ (si : SocketInterface I) (fuel : ℕ) where
  -- What `read_sii` returns is eight bytes, of which 4 or 8 count, whatever the slaves answer.
  read_sii_size :
      (i i' : I) (slave_address : SlaveAddress) (sii_address : ℕ) (content : List ℕ) (size : ℕ)
      → read_sii si fuel i slave_address sii_address ≡ returned (i', ok (content, size))
      → (length content ≡ 8) × ((size ≡ 4) ⊎ (size ≡ 8))
  unfolding read_sii SiiRead.new
  read_sii_size i i' slave_address sii_address content size e =
      let run =
        block_on SiiTaskError si SiiRead.task fuel i
          (SiiRead.start SiiRead.new slave_address sii_address) in
      let (t', o, w) =
        concluded-ok SiiRead.wait run i' (content, size)
          (with_socket-ok si i SiiRead.required_buffer_size (concluded SiiRead.wait run)
            (i', ok (content, size)) e) in
      wait_size SiiRead.new t' slave_address sii_address content size
        (block_on_finished SiiTaskError si SiiRead.task fuel i i'
          (SiiRead.start SiiRead.new slave_address sii_address) t' o).0
        w

module _ {I : Type 0} ⦃bf : Bitfield⦄
    ⦃codes : TryFromPrimitive AlStatusCode AlStatusCode.discriminant⦄ (si : SocketInterface I) where
  -- If `change_al_state` returns a state, it is the one that was asked for, whatever the slaves answer.
  pub change_al_state_target :
      (fuel : ℕ) (i i' : I) (target_slave : TargetSlave) (target al : AlState)
      → change_al_state si fuel i target_slave target ≡ returned (i', ok al)
      → al ≡ target
  unfolding change_al_state
  change_al_state_target fuel i i' target_slave target al e =
      let run =
        block_on AlStateTransferTaskError si AlTransfer.task fuel i
          (AlTransfer.start AlTransfer.new target_slave target) in
      let (t', o, w) = concluded-ok AlTransfer.wait run i' al (
        with_socket-ok si i AlTransfer.required_buffer_size (concluded AlTransfer.wait run)
          (i', ok al) e) in
      wait-target AlTransfer.new t' target_slave target al
        (block_on_finished AlStateTransferTaskError si AlTransfer.task fuel i i'
          (AlTransfer.start AlTransfer.new target_slave target) t' o).0
        w

  -- `change_al_state` ends within rounds that are more by at least 100001 than its repetitions.
  change_al_state_returns :
      (fuel : ℕ) (i : I) (target_slave : TargetSlave) (target : AlState)
      → repetitions AlStateTransferTaskError si AlTransfer.task fuel 0 i
            (AlTransfer.start AlTransfer.new target_slave target)
          + max_count
        < fuel
      → change_al_state si fuel i target_slave target ≢ out_of_fuel
  unfolding change_al_state
  change_al_state_returns fuel i target_slave target w =
      let run =
        block_on AlStateTransferTaskError si AlTransfer.task fuel i
          (AlTransfer.start AlTransfer.new target_slave target) in
      with_socket-fuel si i AlTransfer.required_buffer_size (concluded AlTransfer.wait run) (
        concluded-fuel AlTransfer.wait run (
          block_on_returns AlStateTransferTaskError si AlTransfer.task fuel i
            (AlTransfer.start AlTransfer.new target_slave target) w))

  -- `read_al_state` panics once its first turn of the sockets succeeds, if no answer lies in the socket
  -- then and its buffer has the required size: the task is never busy, so `block_on` stops after the
  -- PDU is put into the socket, and the state that was never read is unwrapped.
  pub read_al_state_panics :
      (fuel : ℕ) (i i' : I) (s s' : PduSocket) (target_slave : TargetSlave)
      → si.get_socket i ≡ some s
      → si.poll_tx_rx i ≡ some (i', ok true)
      → si.get_socket i' ≡ some s'
      → s'.recv_flag ≡ false
      → AlStateRead.required_buffer_size ≤ length s'.data_buf
      → read_al_state si (suc fuel) i target_slave ≡ panicked
  unfolding read_al_state block_on polled process_one_step get_recieved_pdu AlStateRead.next_pdu
      AlStateRead.is_busy AlStateRead.set_target AlStateRead.new
  read_al_state_panics fuel i i' s s' target_slave g p g' f h =
      ground (arith, fill-some 6 0 s'.data_buf h)
