-- ===== src/Task/Calls.antt =====
-- src/task/mod.rs: the calls of `SocketInterface` that run a task to its end and give its result.
pub mod Laws
mod Tests
use ethercat.Base.{
  Outcome, returned, panicked, out_of_fuel, ℕ, ◌+◌, Bool, true, false, Option, none, some, List,
  length, leb, Result, ok, err, ◌==◌, if◌then◌else◌,
}
use ethercat.Foreign.{Bitfield, TryFromPrimitive}
use ethercat.Interface.{SlaveAddress, TargetSlave}
use ethercat.Interface.Socket.{PduSocket, slice_to}
use ethercat.Register.AlStatusCode
use ethercat.Register.AlStatusCode.{AlStatusCode}
use ethercat.Slave.{AlState}
use ethercat.Task.{TaskError, unexpected_wkc, CyclicTask, expected_wkc}
use ethercat.Task.AddressAccess
use ethercat.Task.AddressAccess.{AddressAccessTask}
use ethercat.Task.AlTransfer
use ethercat.Task.AlTransfer.{AlStateTransferTask, AlStateTransferTaskError}
use ethercat.Task.SiiRead
use ethercat.Task.SiiRead.{SiiReader, SiiTaskError}
use ethercat.Task.LoopTask.AlStateRead
use ethercat.Task.LoopTask.AlStateRead.{AlStateReadTask}
use ethercat.Task.Driver.{SocketInterface, block_on}

-- `unit.wait().unwrap()`.
abbrev unwrapped :
    {I A E : Type 0} → I → Option (Result A (TaskError E)) → Outcome (I × Result A (TaskError E))
unwrapped i (some r) = returned (i, r)
unwrapped i none = panicked

-- `self.block_on(..)?; unit.wait().unwrap()`.
concluded :
    {I Task A E : Type 0}
    → (Task → Option (Result A (TaskError E)))
    → Outcome (I × Task × Result (Unit {0}) (TaskError E))
    → Outcome (I × Result A (TaskError E))
concluded wait (returned (i, t, ok _)) = unwrapped i (wait t)
concluded wait (returned (i, t, err e)) = returned (i, err e)
concluded wait panicked = panicked
concluded wait out_of_fuel = out_of_fuel

-- The socket, and the assertion that its buffer is at least that long.
with_socket : {I A : Type 0} → SocketInterface I → I → ℕ → (PduSocket → Outcome A) → Outcome A
with_socket si i size k = elim (si.get_socket i) [
  | none ↦ panicked
  | some s ↦ if leb size (length s.data_buf) then k s else panicked
]

module _ {I : Type 0} (si : SocketInterface I) (fuel : ℕ) where
  -- The slice of the socket's buffer that a reading returns.
  register_data :
      ℕ
      → Outcome (I × Result (Unit {0}) (TaskError (Unit {0})))
      → Outcome (I × Result (List ℕ) (TaskError (Unit {0})))
  register_data data_size (returned (i, ok _)) = elim (si.get_socket i) [
    | none ↦ panicked
    | some s ↦ elim (slice_to data_size s.data_buf) [
      | none ↦ panicked
      | some bytes ↦ returned (i, ok bytes)
    ]
  ]
  register_data data_size (returned (i, err e)) = returned (i, err e)
  register_data data_size panicked = panicked
  register_data data_size out_of_fuel = out_of_fuel

  unfoldable pub read_register :
      I → TargetSlave → ℕ → ℕ → Outcome (I × Result (List ℕ) (TaskError (Unit {0})))
  unfolding with_socket concluded register_data
  read_register i target_slave register_address data_size = with_socket si i data_size λ s.
      register_data data_size (
        concluded AddressAccess.wait (
          block_on (Unit {0}) si AddressAccess.task fuel i (
            AddressAccess.start_to_read AddressAccess.new target_slave register_address data_size)))

  unfoldable pub write_register :
      I → TargetSlave → ℕ → List ℕ → Outcome (I × Result (Unit {0}) (TaskError (Unit {0})))
  unfolding with_socket concluded
  write_register i target_slave register_address bytes = with_socket si i (length bytes) λ s.
      elim (AddressAccess.start_to_write AddressAccess.new target_slave register_address bytes
        s.data_buf) [
          | none ↦ panicked
          | some (t, buf) ↦ concluded AddressAccess.wait (
              block_on (Unit {0}) si AddressAccess.task fuel
                (si.set_socket i (record s { data_buf = buf })) t)
        ]

module _ {I : Type 0} ⦃bf : Bitfield⦄ (si : SocketInterface I) (fuel : ℕ) where
  unfoldable pub read_sii :
      I → SlaveAddress → ℕ → Outcome (I × Result (List ℕ × ℕ) (TaskError SiiTaskError))
  unfolding with_socket concluded
  read_sii i slave_address sii_address = with_socket si i SiiRead.required_buffer_size λ s.
      concluded SiiRead.wait (
        block_on SiiTaskError si SiiRead.task fuel i
          (SiiRead.start SiiRead.new slave_address sii_address))

module _ {I : Type 0} ⦃bf : Bitfield⦄
    ⦃codes : TryFromPrimitive AlStatusCode AlStatusCode.discriminant⦄ (si : SocketInterface I)
    (fuel : ℕ) where
  unfoldable pub change_al_state :
      I → TargetSlave → AlState → Outcome (I × Result AlState (TaskError AlStateTransferTaskError))
  unfolding with_socket concluded
  change_al_state i target_slave al_state = with_socket si i AlTransfer.required_buffer_size λ s.
      concluded AlTransfer.wait (
        block_on AlStateTransferTaskError si AlTransfer.task fuel i
          (AlTransfer.start AlTransfer.new target_slave al_state))

  -- `last_al_state`, of which the state is unwrapped.
  last_al_state :
      I
      → Option AlState
      → Option AlStatusCode
      → Outcome (I × Result (AlState × Option AlStatusCode) (TaskError (Unit {0})))
  last_al_state i (some al) code = returned (i, ok (al, code))
  last_al_state i none code = panicked

  state_read :
      Outcome (I × AlStateReadTask × Result (Unit {0}) (TaskError (Unit {0})))
      → Outcome (I × Result (AlState × Option AlStatusCode) (TaskError (Unit {0})))
  unfolding last_al_state
  state_read (returned (i, t, ok _)) =
      if t.invalid_wkc_count == 0
      then last_al_state i t.last_al_state t.last_al_status_code
      else returned (
        i,
        err (unexpected_wkc (record { expected = expected_wkc t.target; recieved = t.last_wkc })),
      )
  state_read (returned (i, t, err e)) = returned (i, err e)
  state_read panicked = panicked
  state_read out_of_fuel = out_of_fuel

  unfoldable pub read_al_state :
      I → TargetSlave → Outcome (I × Result (AlState × Option AlStatusCode) (TaskError (Unit {0})))
  unfolding with_socket state_read
  read_al_state i target_slave = with_socket si i AlStateRead.required_buffer_size λ s. state_read (
      block_on (Unit {0}) si AlStateRead.task fuel i
        (AlStateRead.set_target AlStateRead.new target_slave))
