-- ===== src/Task/AlTransfer/Safety.antt =====
-- What an `AlStateTransferTask` reports is true.
use ethercat.Base.{
  ℕ, ◌≡◌, ◌&&◌, ◌==◌, if◌then◌else◌, refl, true, false, Option, some, List, ok, arith, Option-cases,
  inl, inr,
}
use ethercat.Foreign.{Bitfield, TryFromPrimitive}
use ethercat.Interface.{Command, Pdu, TargetSlave, answers}
use ethercat.Register.AlStatusCode
use ethercat.Register.AlStatus
use ethercat.Register.AlStatusCode.{AlStatusCode}
use ethercat.Slave.{AlState, same_state, from_u8}
use ethercat.Task.{unexpected_command, unexpected_wkc, EtherCatSystemTime, expected_wkc}
use ethercat.Task.Reach.{Reach, Reach-invariant}
use ethercat.Task.AlTransfer.{
  AlStateTransferTask, State, error, complete, poll, read, start, wait, next_pdu,
  recieve_and_process, task, process_in, check,
}

pub same_state-eq : (a b : AlState) → same_state a b ≡ true → a ≡ b
unfolding same_state
same_state-eq a b h = ground arith

-- A completed change has reached its target, and the target stays what was asked for.
record Inv (target : AlState) (t : AlStateTransferTask) : Type 0 where
  asked : t.target_al ≡ target
  reached : t.state ≡ complete → t.current_al_state ≡ target

module _ ⦃bf : Bitfield⦄ ⦃codes : TryFromPrimitive AlStatusCode AlStatusCode.discriminant⦄ where
  send-Inv :
      (target : AlState) (t t' : AlStateTransferTask) (buf buf' : List ℕ)
      (out : Option (Command × ℕ))
      → Inv target t
      → next_pdu t buf ≡ some (t', buf', out)
      → Inv target t'
  unfolding next_pdu
  send-Inv target t t' buf buf' out h e = ground arith

  process-Inv :
      (target : AlState) (s : State) (t t' : AlStateTransferTask) (bytes : List ℕ)
      (time : EtherCatSystemTime)
      → t.state ≡ s
      → Inv target t
      → process_in s t bytes time ≡ some t'
      → Inv target t'
  unfolding process_in
  process-Inv target read t t' bytes time w h e = elim (Option-cases (AlStatus.state bytes)) [
    | inl q ↦ ground (arith, q)
    | inr (v, q) ↦ ground (arith, q, same_state-eq (from_u8 v) t.target_al)
  ]
  process-Inv target poll t t' bytes time w h e = elim (Option-cases (AlStatus.state bytes)) [
    | inl q ↦ ground (arith, q)
    | inr (v, q) ↦ ground (arith, q, same_state-eq t.target_al (from_u8 v))
  ]
  process-Inv target _ t t' bytes time w h e = ground arith

  check-Inv :
      (target : AlState) (t : AlStateTransferTask) (pdu : Pdu)
      → Inv target t
      → Inv target (check t pdu)
  unfolding check
  check-Inv target t pdu h = ground arith

  recieve-Inv :
      (target : AlState) (t t' : AlStateTransferTask) (pdu : Pdu) (time : EtherCatSystemTime)
      → Inv target t
      → recieve_and_process t pdu time ≡ some t'
      → Inv target t'
  unfolding recieve_and_process
  recieve-Inv target t t' pdu time h e =
      process-Inv target (check t pdu).state (check t pdu) t' pdu.bytes time refl
        (check-Inv target t pdu h) e

  -- On every run from `start`, whatever the slaves answer and when: if `wait` reports success, it reports
  -- the state that was asked for.
  pub wait-target :
      (t t' : AlStateTransferTask) (slave_address : TargetSlave) (target al : AlState)
      → Reach task (start t slave_address target) t'
      → wait t' ≡ some (ok al)
      → al ≡ target
  unfolding wait start
  wait-target t t' slave_address target al r w = ground (
    arith,
    Reach-invariant task (Inv target) (send-Inv target) (recieve-Inv target)
        (started t slave_address target) r,
  )
    where
      started :
          (t : AlStateTransferTask) (a : TargetSlave) (target : AlState)
          → Inv target (start t a target)
      started t a target = ground arith

  -- An answer with another working counter than the target must give, or to another command, stops the
  -- task in whatever state it is, and changes nothing else; the wrong counter is the error reported first.
  pub recieve_rejected :
      (t : AlStateTransferTask) (pdu : Pdu) (time : EtherCatSystemTime)
      → (answers pdu.command t.command && (pdu.wkc == expected_wkc t.slave_address)) ≡ false
      → recieve_and_process t pdu time
        ≡ some (record t {
          state = error (
              if pdu.wkc == expected_wkc t.slave_address
              then unexpected_command
              else unexpected_wkc
                  (record { expected = expected_wkc t.slave_address; recieved = pdu.wkc }));
        })
  unfolding recieve_and_process
  recieve_rejected t pdu time h = ground arith
