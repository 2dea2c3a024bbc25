-- ===== src/Task/AddressAccess/Laws.antt =====
-- src/task/address_access_task.rs: one exchange decides an `AddressAccessTask`.
use ethercat.Base.{
  ℕ, ◌≤◌, ◌≡◌, refl, ap, false, ◌&&◌, some, List, [], ◌∷◌, ok, ◌==◌, length, if◌then◌else◌, ◌>>=◌,
  overwrite, take, arith,
}
use ethercat.Interface.{Pdu, no_command, TargetSlave, answers, new_read, new_write}
use ethercat.Interface.Laws.{answers_self}
use ethercat.Task.{unexpected_command, unexpected_wkc, EtherCatSystemTime, expected_wkc}
use ethercat.Task.Reach.{exchange}
use ethercat.Task.AddressAccess.{
  AddressAccessTask, error, write, start_to_read, start_to_write, wait, next_pdu,
  recieve_and_process, task,
}

take-overwrite :
    (buf bytes : List ℕ)
    → length bytes ≤ length buf
    → take (length bytes) (overwrite buf bytes) ≡ bytes
take-overwrite [] [] h = refl
take-overwrite [] (y ∷ ys) h = absurd (omega arith)
take-overwrite (x ∷ xs) [] h = refl
take-overwrite (x ∷ xs) (y ∷ ys) h = ap (λ zs. y ∷ zs) (take-overwrite xs ys (omega arith))

-- A read that is answered with the working counter of its target is done after one exchange.
pub access_read_completes :
    (t : AddressAccessTask) (a : TargetSlave) (ado n : ℕ) (buf bytes : List ℕ)
    (time : EtherCatSystemTime)
    → (exchange task (expected_wkc a) buf bytes time (start_to_read t a ado n) >>= wait)
      ≡ some (ok tt)
unfolding start_to_read next_pdu recieve_and_process wait
access_read_completes t a ado n buf bytes time = ground (arith, answers_self (new_read a ado))

abbrev writing : AddressAccessTask → TargetSlave → ℕ → ℕ → AddressAccessTask
writing t a ado n = record t {
  slave_address = a;
  state = write;
  command = no_command;
  data_size = n;
  ado = ado;
}

-- A write whose data fits the buffer puts that data first in the buffer, sends a write command with as many
-- bytes, and is done after one exchange that the target's working counter confirms.
pub access_write_completes :
    (t : AddressAccessTask) (a : TargetSlave) (ado : ℕ) (buf bytes bytes' : List ℕ)
    (time : EtherCatSystemTime)
    → length bytes ≤ length buf
    → (t' : AddressAccessTask) × (buf' : List ℕ) × (start_to_write t a ado bytes buf
        ≡ some (t', buf'))
      × (take (length bytes) buf' ≡ bytes)
      × (next_pdu t' buf'
          ≡ some
              (record t' { command = new_write a ado }, buf', some (new_write a ado, length bytes)))
      × ((exchange task (expected_wkc a) buf' bytes' time t' >>= wait) ≡ some (ok tt))
unfolding start_to_write next_pdu recieve_and_process wait
access_write_completes t a ado buf bytes bytes' time h = (
  writing t a ado (length bytes),
  overwrite buf bytes,
  ground arith,
  take-overwrite buf bytes h,
  refl,
  ground (arith, answers_self (new_write a ado)),
)

-- An answer with another working counter than the target must give, or to another command, stops the
-- task in whatever state it is, and changes nothing else; the wrong counter is the error reported first.
pub access_recieve_rejected :
    (t : AddressAccessTask) (pdu : Pdu) (time : EtherCatSystemTime)
    → (answers pdu.command t.command && (pdu.wkc == expected_wkc t.slave_address)) ≡ false
    → recieve_and_process t pdu time
      ≡ some (record t {
        state = error (
            if pdu.wkc == expected_wkc t.slave_address
            then unexpected_command
            else unexpected_wkc
                (record { expected = expected_wkc t.slave_address; recieved = pdu.wkc }));
      })
unfolding recieve_and_process
access_recieve_rejected t pdu time h = ground arith
