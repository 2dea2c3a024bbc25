-- ===== src/Interface/PduIf.antt =====
-- src/interface/pdu_if.rs: `PduInterface`, the buffer in which PDUs wait for the next frame and into which the
-- answers are copied back. The network device of src/interface/hal.rs is a parameter.
pub mod Codec
pub mod Queue
pub mod Laws
pub mod Turns
pub mod Counts
pub mod Wire
mod Tests
use ethercat.Base.{
  ℕ, zero, suc, ◌+◌, ◌-◌, ◌%◌, ◌^◌, min, Bool, true, false, not, Option, none, some, List, [], ◌∷◌,
  ◌++◌, length, take, drop, replicate, slice, copy_at, set_at, Result, ok, err, ltb, leb, ◌==◌,
  if◌then◌else◌, ◌>>=◌,
}
use ethercat.Foreign.{Bitfield, Msb0, FromPrimitive}
use ethercat.Interface.{
  CommandType, Command, discriminant, invalid, PhyError, tx_error, rx_error, tx_not_available,
  rx_not_available,
}
use ethercat.Interface.Socket.{slice_to}
use ethercat.Frame.{
  pdu_header_size, wkc_length, ethernet_header_size, ethercat_header_size, max_ethercat_datagram,
  max_pdu_datagram, src_mac, ethercat_type,
}
use ethercat.Frame.EtherCatPdu
use ethercat.Frame.EtherCatPdu.{without_header}
use ethercat.Frame.Ethernet
use ethercat.Frame.Pdus
use ethercat.Frame.Pdus.{pdus_of}
use ethercat.Frame.Util
use ethercat.Frame.Util.{EtherCatFrameUtil, add_command}

-- What `transmit` and the token's `consume` come to: no token, a token that fails before it calls the closure,
-- or a buffer for the closure to fill, and whether it could be sent then.
pub data Transmit (D : Type 0) : Type 0 where
  no_tx_token tx_refused : D → Transmit D
  tx_token : List ℕ → (List ℕ → D × Bool) → Transmit D

pub data Receive (D : Type 0) : Type 0 where
  no_rx_token rx_refused : D → Receive D
  rx_token : List ℕ → D × Bool → Receive D

-- `RawEthernetDevice`, with the size of the frame that `consume` is called with.
pub record RawEthernetDevice (D : Type 0) : Type 0 where
  pub transmit : D → ℕ → Transmit D
  pub receive : D → Receive D

pub record PduInterface (D : Type 0) : Type 0 where
  pub ethdev : D
  pub buffer : List ℕ
  pub pdus_total_size : ℕ
  pub pdu_count : ℕ
  pub tx_count : ℕ
  pub capacity : ℕ
  pub recv_data_size : ℕ

-- A subtraction of `usize`, which panics below 0.
abbrev pub minus : ℕ → ℕ → Option ℕ
minus a b = if ltb a b then none else some (a - b)

module _ {D : Type 0} where
  unfoldable pub new : D → List ℕ → PduInterface D
  new ethdev buffer = record {
    ethdev = ethdev;
    buffer = buffer;
    pdus_total_size = 0;
    pdu_count = 0;
    tx_count = 0;
    capacity = min (length buffer) max_ethercat_datagram;
    recv_data_size = 0;
  }

  unfoldable pub remainig_pdu_data_capacity : PduInterface D → Option ℕ
  remainig_pdu_data_capacity s = do
    free ← minus s.capacity s.pdus_total_size
    free ← minus free pdu_header_size
    minus free wkc_length

module _ ⦃bf : Bitfield⦄ where
  unfoldable pub header : ℕ → Command → ℕ → Option (List ℕ)
  header pdu_index command data_size = do
    pdu ← EtherCatPdu.set_index (replicate pdu_header_size 0) pdu_index
    pdu ← EtherCatPdu.set_command_type pdu (discriminant command.c_type)
    pdu ← EtherCatPdu.set_adp pdu command.adp
    pdu ← EtherCatPdu.set_ado pdu command.ado
    EtherCatPdu.set_length pdu (data_size % 2 ^ 16)

  -- The writes into the buffer from `total` on. `data_writer` is applied to the bytes of the data.
  unfoldable pub write_pdu : List ℕ → ℕ → ℕ → Command → ℕ → (List ℕ → List ℕ) → Option (List ℕ)
  unfolding header
  write_pdu buffer total pdu_index command data_size data_writer = do
    header ← header pdu_index command data_size
    buffer ← copy_at total header buffer
    room ← slice (total + pdu_header_size) (total + pdu_header_size + data_size) buffer
    buffer ← copy_at (total + pdu_header_size) (data_writer room) buffer
    buffer ← set_at (total + pdu_header_size + data_size + 1) 0 buffer
    set_at (total + pdu_header_size + data_size + 2) 0 buffer

module _ {D : Type 0} ⦃bf : Bitfield⦄ where
  unfoldable pub add_pdu :
      PduInterface D
      → ℕ
      → Command
      → ℕ
      → (List ℕ → List ℕ)
      → Option (PduInterface D × Result (Unit {0}) Command)
  unfolding write_pdu
  add_pdu s pdu_index command data_size data_writer =
      if ltb s.capacity (s.pdus_total_size + pdu_header_size + data_size + wkc_length)
      then some (s, err command)
      else if ltb max_pdu_datagram data_size
      then some (s, err command)
      else (do
        buffer ← write_pdu s.buffer s.pdus_total_size pdu_index command data_size data_writer
        some (
          record s {
            buffer = buffer;
            pdus_total_size = s.pdus_total_size + (pdu_header_size + data_size + wkc_length);
            pdu_count = s.pdu_count + 1;
          },
          ok tt,
        ))

  unfoldable pub consume_pdus : PduInterface D → Option (PduInterface D × List (List ℕ))
  consume_pdus s = do
    pdus ← pdus_of (Pdus.new s.buffer s.pdus_total_size 0)
    some (record s { pdus_total_size = 0; recv_data_size = 0 }, pdus)

  unfoldable pub counted : PduInterface D → PduInterface D × Result Bool PhyError
  counted s = (s, ok (not (ltb s.tx_count s.pdu_count)))

module _ ⦃bf : Bitfield⦄ where
  -- `pdu.without_header()[..pdu.length()]`.
  unfoldable pub payload : List ℕ → Option (List ℕ)
  payload pdu = do bytes ← without_header pdu; len ← EtherCatPdu.length pdu; slice_to len bytes

module _ ⦃bf : Bitfield⦄ ⦃ct : FromPrimitive CommandType discriminant invalid⦄ where
  add_pdu_to : EtherCatFrameUtil → List ℕ → Option (EtherCatFrameUtil × Bool)
  unfolding payload
  add_pdu_to u pdu = do
    index ← EtherCatPdu.index pdu
    c_type ← EtherCatPdu.command_type pdu
    adp ← EtherCatPdu.adp pdu
    ado ← EtherCatPdu.ado pdu
    payload ← payload pdu
    add_command u (ct.from c_type) adp ado payload (some index)

  -- The counts `tx_count` and `pdu_count` come along.
  pub add_pdus_to : EtherCatFrameUtil → List (List ℕ) → ℕ → ℕ → Option (EtherCatFrameUtil × ℕ × ℕ)
  unfolding add_pdu_to
  add_pdus_to u [] tx_count pdu_count = some (u, tx_count, pdu_count)
  add_pdus_to u (pdu ∷ pdus) tx_count pdu_count = do
    (u, added) ← add_pdu_to u pdu
    pdu_count ← (if added then minus pdu_count 1 else none)
    add_pdus_to u pdus (tx_count + 1) pdu_count

  module _ ⦃m : Msb0⦄ where
    -- The closure that fills the buffer of the frame.
    unfoldable pub fill_frame : List ℕ → List ℕ → ℕ → ℕ → ℕ → Option (EtherCatFrameUtil × ℕ × ℕ)
    unfolding add_pdus_to
    fill_frame tx_buffer buffer total tx_count pdu_count = do
      ec_frame ← Util.new_unchecked tx_buffer
      ec_frame ← Util.init ec_frame
      pdus ← pdus_of (Pdus.new buffer total 0)
      add_pdus_to ec_frame pdus tx_count pdu_count

module _ {D : Type 0} (device : RawEthernetDevice D) where
  module _ ⦃bf : Bitfield⦄ ⦃ct : FromPrimitive CommandType discriminant invalid⦄ ⦃m : Msb0⦄ where
    sent : PduInterface D → D × Bool → Option (PduInterface D × Result Bool PhyError)
    unfolding counted
    sent s (d, true) = some (counted (record s { ethdev = d }))
    sent s (d, false) = some (record s { ethdev = d }, err tx_error)

    transmit_by :
        PduInterface D → List ℕ → Transmit D → Option (PduInterface D × Result Bool PhyError)
    unfolding fill_frame sent
    transmit_by s pdus (no_tx_token d) = some (record s { ethdev = d }, err tx_not_available)
    transmit_by s pdus (tx_refused d) = some (record s { ethdev = d }, err tx_error)
    transmit_by s pdus (tx_token tx_buffer send) = do
      (ec_frame, tx_count, pdu_count) ←
          fill_frame tx_buffer pdus s.pdus_total_size s.tx_count s.pdu_count
      sent (record s { tx_count = tx_count; pdu_count = pdu_count }) (send ec_frame.buffer)

    unfoldable pub transmit_one_frame :
        PduInterface D → Option (PduInterface D × Result Bool PhyError)
    unfolding transmit_by
    transmit_one_frame s = if s.pdu_count == 0 then some (s, ok true) else (do
      pdus ← slice 0 s.pdus_total_size s.buffer
      transmit_by s pdus (
          device.transmit s.ethdev
            (ethernet_header_size + ethercat_header_size + s.pdus_total_size)))

  module _ ⦃bf : Bitfield⦄ ⦃m : Msb0⦄ where
    pub store_pdus : PduInterface D → List (List ℕ) → Option (PduInterface D)
    store_pdus s [] = some s
    store_pdus s (pdu ∷ pdus) = do
      len ← EtherCatPdu.length pdu
      buffer ← copy_at s.recv_data_size pdu s.buffer
      tx_count ← minus s.tx_count 1
      store_pdus
          (record s {
            buffer = buffer;
            recv_data_size = s.recv_data_size + (pdu_header_size + len + wkc_length);
            tx_count = tx_count;
          })
          pdus

    store_frame : PduInterface D → List ℕ → Option (PduInterface D)
    unfolding store_pdus
    store_frame s frame = do
      ec_frame ← Util.new_unchecked frame
      pdus ← Util.dlpdus ec_frame
      store_pdus s pdus

    -- The closure that reads a frame: the master's own frames and those of other protocols are passed over.
    unfoldable pub read_frame : PduInterface D → List ℕ → Option (PduInterface D)
    unfolding store_frame
    read_frame s frame = do
      source ← Ethernet.source frame
      if source == src_mac then some s else (do
        ether_type ← Ethernet.ether_type frame
        if ether_type == ethercat_type then store_frame s frame else some s)

    received : PduInterface D → D × Bool → PduInterface D × Result Bool PhyError
    received s (d, true) = (record s { ethdev = d }, ok (not (ltb 0 s.tx_count)))
    received s (d, false) = (record s { ethdev = d }, err rx_error)

    receive_by : PduInterface D → Receive D → Option (PduInterface D × Result Bool PhyError)
    unfolding read_frame received
    receive_by s (no_rx_token d) = some (record s { ethdev = d }, err rx_not_available)
    receive_by s (rx_refused d) = some (record s { ethdev = d }, err rx_error)
    receive_by s (rx_token frame after) = do s ← read_frame s frame; some (received s after)

    unfoldable pub receive_one_frame :
        PduInterface D → Option (PduInterface D × Result Bool PhyError)
    unfolding receive_by
    receive_one_frame s =
        if s.tx_count == 0 then some (s, ok true) else receive_by s (device.receive s.ethdev)
