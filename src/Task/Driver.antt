-- ===== src/Task/Driver.antt =====
-- src/task/mod.rs: how a task is driven: `process_one_step` hands it the answer and takes its next PDU, and
-- `block_on` repeats that until the task is done. The sockets are what `SocketInterface` offers to it.
pub mod Laws
mod Tests
use ethercat.Base.{
  ℕ, zero, suc, ◌+◌, Bool, true, false, Option, none, some, List, Result, ok, err, ltb,
  if◌then◌else◌, ◌>>=◌, Outcome, returned, panicked, out_of_fuel,
}
use ethercat.Interface.{
  Command, Pdu, PhyError, tx_error, rx_error, tx_not_available, rx_not_available,
}
use ethercat.Interface.Socket.{PduSocket, set_pdu, get_recieved_pdu}
use ethercat.Task.{TaskError, interface, timeout, EtherCatSystemTime, Sent, CyclicTask}

module _ {Task : Type 0} (c : CyclicTask Task) where
  receive_if : Option Pdu → Task → EtherCatSystemTime → Option Task
  receive_if none t sys_time = some t
  receive_if (some pdu) t sys_time = c.recieve_and_process t pdu sys_time

  unfoldable pub process_one_step :
      PduSocket → Task → EtherCatSystemTime → Option (PduSocket × Task)
  unfolding receive_if
  process_one_step socket t sys_time = do
    recv_data ← get_recieved_pdu socket
    t ← receive_if recv_data t sys_time
    (t, buf, out) ← c.next_pdu t socket.data_buf
    some (set_pdu socket buf out, t)

-- What `block_on` uses of `SocketInterface`: one turn of all sockets, and the socket of the handle, which
-- `none` is missing.
pub record SocketInterface (Interface : Type 0) : Type 0 where
  pub poll_tx_rx : Interface → Option (Interface × Result Bool PhyError)
  pub get_socket : Interface → Option PduSocket
  pub set_socket : Interface → PduSocket → Interface

abbrev pub max_count : ℕ
max_count = 100000

pub data Polled (Interface : Type 0) : Type 0 where
  again ready : Interface → Polled Interface
  failed : Interface → PhyError → Polled Interface
  poll_panicked : Polled Interface

-- The `match` on the result of `poll_tx_rx`.
unfoldable pub polled :
    {Interface : Type 0} → Option (Interface × Result Bool PhyError) → Polled Interface
polled none = poll_panicked
polled (some (i, ok true)) = ready i
polled (some (i, ok false)) = again i
polled (some (i, err tx_not_available)) = again i
polled (some (i, err rx_not_available)) = again i
polled (some (i, err tx_error)) = failed i tx_error
polled (some (i, err rx_error)) = failed i rx_error

-- How a round of the loop leaves it: by `continue`, by going on to the next count, or for good.
pub data Round (Interface Task E : Type 0) : Type 0 where
  crashes : Round Interface Task E
  repeats : Interface → Round Interface Task E
  goes_on : Interface → Task → Round Interface Task E
  ends : Interface × Task × Result (Unit {0}) (TaskError E) → Round Interface Task E

module _ {Interface Task : Type 0} (si : SocketInterface Interface) (c : CyclicTask Task) where
  stepped : Interface → Task → ℕ → Option (Interface × Task)
  stepped i t count = do
    socket ← si.get_socket i
    (socket, t) ← process_one_step c socket t count
    some (si.set_socket i socket, t)

module _ {Interface Task : Type 0} (E : Type 0) (si : SocketInterface Interface)
    (c : CyclicTask Task) where
  after_step : ℕ → Option (Interface × Task) → Round Interface Task E
  after_step count none = crashes
  after_step count (some (i, t)) =
      if c.is_busy t
      then if ltb max_count (count + 1) then ends (i, t, err timeout) else goes_on i t
      else ends (i, t, ok tt)

  after_poll : ℕ → Polled Interface → Task → Round Interface Task E
  unfolding stepped after_step
  after_poll count poll_panicked t = crashes
  after_poll count (again i) t = repeats i
  after_poll count (failed i e) t = ends (i, t, err (interface e))
  after_poll count (ready i) t = after_step count (stepped si c i t count)

  -- The body of `loop`, once for each unit of fuel.
  unfoldable pub block_on_loop :
      ℕ → ℕ → Interface → Task → Outcome (Interface × Task × Result (Unit {0}) (TaskError E))
  unfolding after_poll
  block_on_loop zero count i t = out_of_fuel
  block_on_loop (suc fuel) count i t = elim (after_poll count (polled (si.poll_tx_rx i)) t) [
    | crashes ↦ panicked
    | repeats i ↦ block_on_loop fuel count i t
    | ends r ↦ returned r
    | goes_on i t ↦ block_on_loop fuel (count + 1) i t
  ]

  unfoldable pub block_on :
      ℕ → Interface → Task → Outcome (Interface × Task × Result (Unit {0}) (TaskError E))
  unfolding block_on_loop
  block_on fuel i t = block_on_loop fuel 0 i t
