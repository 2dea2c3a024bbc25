-- ===== src/Interface/Poll.antt =====
-- src/interface/socket_if.rs: `SocketInterface`, a turn of which puts the PDUs of all sockets into a frame, sends it
-- and hands the answers back to the sockets.
pub mod Pending
pub mod Delivery
pub mod Slots
pub mod Laws
mod Tests
use ethercat.Base.{
  ℕ, zero, suc, ◌+◌, ◌%◌, ◌^◌, Bool, true, false, ◌&&◌, Option, none, some, List, [], ◌∷◌,
  overwrite, Result, ok, err, ltb, if◌then◌else◌, ◌>>=◌,
}
use ethercat.Foreign.{Bitfield, Msb0, FromPrimitive}
use ethercat.IndexSet
use ethercat.IndexSet.{
  IndexSet, IndexOption, exist, next_free_index, get_item, get_item_mut, add_item, remove_item,
}
use ethercat.Interface.{CommandType, discriminant, invalid, Command, Pdu, PhyError}
use ethercat.Interface.Socket.{PduSocket, data_length, take_pdu, recieve}
use ethercat.Interface.PduIf.{
  PduInterface, RawEthernetDevice, remainig_pdu_data_capacity, add_pdu, consume_pdus,
  transmit_one_frame, receive_one_frame, payload,
}
use ethercat.Frame.EtherCatPdu
use ethercat.Task.Driver.{SocketInterface}

-- The source's `SocketInterface`, whose handles are the indexes of the set.
pub record Sockets (D : Type 0) : Type 0 where
  pub iface : PduInterface D
  pub socket_set : IndexSet PduSocket
  pub lost_frame_count : ℕ

module _ ⦃bf : Bitfield⦄ ⦃ct : FromPrimitive CommandType discriminant invalid⦄ where
  or_zero : Option ℕ → ℕ
  or_zero none = 0
  or_zero (some wkc) = wkc

  -- The answer that a PDU of the buffer carries.
  unfoldable pub answer_of : List ℕ → Option Pdu
  unfolding or_zero
  answer_of pdu = do
    wkc ← EtherCatPdu.wkc pdu
    c_type ← EtherCatPdu.command_type pdu
    adp ← EtherCatPdu.adp pdu
    ado ← EtherCatPdu.ado pdu
    bytes ← payload pdu
    let command : Command = record { c_type = ct.from c_type; adp = adp; ado = ado }
    let answer : Pdu = record { command = command; bytes = bytes; wkc = or_zero wkc }
    some answer

  hand_over : IndexSet PduSocket → ℕ → List ℕ → Option PduSocket → Option (IndexSet PduSocket)
  unfolding answer_of
  hand_over set index pdu none = some set
  hand_over set index pdu (some _) = do
    recv_data ← answer_of pdu
    some (get_item_mut set index (λ socket. recieve socket recv_data))

  pub hand_out : IndexSet PduSocket → List (List ℕ) → Option (IndexSet PduSocket)
  unfolding hand_over
  hand_out set [] = some set
  hand_out set (pdu ∷ pdus) = do
    index ← EtherCatPdu.index pdu
    set ← hand_over set index pdu (get_item set index)
    hand_out set pdus

module _ {D : Type 0} where
  unfoldable pub new : PduInterface D → ℕ → Sockets D
  unfolding IndexSet.new
  new iface n = record { iface = iface; socket_set = IndexSet.new n; lost_frame_count = 0 }

  unfoldable pub add_socket : Sockets D → PduSocket → Option (Sockets D × Result ℕ PduSocket)
  add_socket s socket = do
    (socket_set, handle) ← add_item s.socket_set socket
    some (record s { socket_set = socket_set }, handle)

  unfoldable pub remove_socket : Sockets D → ℕ → Sockets D × Option PduSocket
  remove_socket s handle = (
    record s { socket_set = (remove_item s.socket_set handle).0 },
    (remove_item s.socket_set handle).1,
  )

  unfoldable pub get_socket : Sockets D → ℕ → Option PduSocket
  get_socket s handle = get_item s.socket_set handle

  -- A write through the reference that `get_socket_mut` returns.
  unfoldable pub get_socket_mut : Sockets D → ℕ → (PduSocket → PduSocket) → Sockets D
  get_socket_mut s handle f = record s { socket_set = get_item_mut s.socket_set handle f }

  module _ ⦃bf : Bitfield⦄ where
    -- `add_pdu(..).expect(..)`.
    expected : PduInterface D × Result (Unit {0}) Command → Option (PduInterface D)
    expected (s, ok _) = some s
    expected (s, err _) = none

    -- The index of the PDU is the place of the socket among those that exist.
    enqueue : ℕ → PduInterface D → ℕ → Option Pdu → Option (PduInterface D)
    unfolding expected
    enqueue i s len none = some s
    enqueue i s len (some pdu) =
        add_pdu s (i % 2 ^ 8) pdu.command len (λ buf. overwrite buf pdu.bytes) >>= expected

    -- The loop over `items_mut().enumerate()`, with whether it was not left by `break`.
    pub enqueue_slots :
        ℕ
        → PduInterface D
        → List (IndexOption PduSocket)
        → Option (PduInterface D × List (IndexOption PduSocket) × Bool)
    unfolding enqueue
    enqueue_slots i s [] = some (s, [], true)
    enqueue_slots i s (next_free_index n ∷ slots) = do
      (s, slots, complete) ← enqueue_slots i s slots
      some (s, next_free_index n ∷ slots, complete)
    enqueue_slots i s (exist socket ∷ slots) = do
      free ← remainig_pdu_data_capacity s
      if ltb free (data_length socket) then some (s, exist socket ∷ slots, false) else (do
        (taken, pdu) ← take_pdu socket
        s ← enqueue i s (data_length socket) pdu
        (s, slots, complete) ← enqueue_slots (i + 1) s slots
        some (s, exist taken ∷ slots, complete))

    unfoldable pub enqueue_pdus : Sockets D → Option (Sockets D × Bool)
    unfolding enqueue_slots
    enqueue_pdus s = do
      (iface, items, complete) ← enqueue_slots 0 s.iface s.socket_set.items
      some
          (record s { iface = iface; socket_set = record s.socket_set { items = items } }, complete)

  module _ ⦃bf : Bitfield⦄ ⦃ct : FromPrimitive CommandType discriminant invalid⦄ where
    unfoldable pub take_answers : Sockets D → Bool → Option (Sockets D × Result Bool PhyError)
    unfolding hand_out
    take_answers s false = some (s, ok false)
    take_answers s true = do
      (iface, pdus) ← consume_pdus s.iface
      socket_set ← hand_out s.socket_set pdus
      some (record s { iface = iface; socket_set = socket_set }, ok true)

    module _ (device : RawEthernetDevice D) ⦃m : Msb0⦄ where
      after_receive :
          Sockets D
          → Bool
          → PduInterface D × Result Bool PhyError
          → Option (Sockets D × Result Bool PhyError)
      unfolding take_answers
      after_receive s is_tx_ok (iface, err e) = some (record s { iface = iface }, err e)
      after_receive s is_tx_ok (iface, ok is_rx_ok) =
          take_answers (record s { iface = iface }) (is_tx_ok && is_rx_ok)

      after_transmit :
          Sockets D
          → PduInterface D × Result Bool PhyError
          → Option (Sockets D × Result Bool PhyError)
      unfolding after_receive
      after_transmit s (iface, err e) = some (record s { iface = iface }, err e)
      after_transmit s (iface, ok is_tx_ok) =
          receive_one_frame device iface >>= after_receive s is_tx_ok

      unfoldable pub transmit_and_receive : Sockets D → Option (Sockets D × Result Bool PhyError)
      unfolding after_transmit
      transmit_and_receive s = transmit_one_frame device s.iface >>= after_transmit s

      both_done : Bool → Sockets D × Result Bool PhyError → Sockets D × Result Bool PhyError
      both_done enqueued (s, ok processed) = (s, ok (enqueued && processed))
      both_done enqueued (s, err e) = (s, err e)

      unfoldable pub poll_tx_rx : Sockets D → Option (Sockets D × Result Bool PhyError)
      unfolding both_done
      poll_tx_rx s = do
        (s, enqueued) ← enqueue_pdus s
        done ← transmit_and_receive s
        some (both_done enqueued done)

      -- The sockets as `block_on` uses them, with the handle that it is called with.
      unfoldable pub socket_interface : ℕ → SocketInterface (Sockets D)
      socket_interface handle = record {
        poll_tx_rx = poll_tx_rx;
        get_socket = λ s. get_socket s handle;
        set_socket = λ s socket. get_socket_mut s handle (λ _. socket);
      }
