-- ===== src/Interface/Poll/Tests.antt =====
-- A turn of one socket over a device that answers each frame at once.
use ethercat.Base.{
  ℕ, zero, suc, inl, get_elem?, ◌≡◌, refl, true, Option, none, some, List, [], ◌∷◌, replicate,
  Result, ok,
}
use mathlib.Core.Option
use ethercat.Foreign.Lsb0.{lsb0, msb0}
use ethercat.Foreign.Commands.{command_types}
use ethercat.IndexSet.{IndexSet, get_item, exist, next_free_index}
use ethercat.Interface.{Command, fprd, PhyError}
use ethercat.Interface.Socket
use ethercat.Interface.Socket.{PduSocket, set_pdu}
use ethercat.Interface.PduIf
use ethercat.Interface.PduIf.Wire.{Wire, wire, or_else}
use ethercat.Interface.Poll.Delivery.{delivered, hand_out-delivered}
use ethercat.Interface.Poll.{hand_out, Sockets, poll_tx_rx}
use ethercat.Interface.Poll.Laws.{Emptied, poll_tx_rx_done}

abbrev command : Command
command = record { c_type = fprd; adp = 0x1001; ado = 0x0130 }

abbrev socket : PduSocket
socket = set_pdu (Socket.new (0 ∷ 0 ∷ 0 ∷ [])) (7 ∷ 8 ∷ 0 ∷ []) (some (command, 2))

abbrev before : Sockets Wire
before = record {
  iface = PduIf.new [] (replicate 64 0);
  socket_set = record { free_index = 1; items = exist socket ∷ next_free_index 2 ∷ [] };
  lost_frame_count = 0;
}

abbrev after : Sockets Wire
after = (or_else (poll_tx_rx wire before) (before, ok true)).0

a_turn : poll_tx_rx wire before ≡ some (after, ok true)
unfolding ethercat.Frame.EtherCatPdu.set_index ethercat.Foreign.Bits.write_field
    ethercat.Frame.EtherCatPdu.set_command_type ethercat.Frame.EtherCatPdu.set_adp
    ethercat.Frame.EtherCatPdu.set_ado ethercat.Frame.EtherCatPdu.set_length
    ethercat.Base.Slices.copy_at ethercat.Base.Slices.slice ethercat.Base.Slices.set_at
    ethercat.Frame.Util.new_unchecked ethercat.Base.Slices.slice_from
    ethercat.Frame.Ethernet.frame_length ethercat.Foreign.Bits.read_field ethercat.Frame.Util.init
    ethercat.Base.Slices.at_from ethercat.Foreign.Bits.write_flag ethercat.Frame.EtherCatPdu.ado
    ethercat.Frame.EtherCatPdu.adp ethercat.Frame.EtherCatPdu.command_type
    ethercat.Frame.EtherCatPdu.index ethercat.Frame.EtherCatPdu.length
    ethercat.Frame.EtherCatPdu.set_has_next ethercat.Frame.EtherCatPdu.set_irq
    ethercat.Frame.EtherCatPdu.set_is_circulated ethercat.Frame.EtherCatPdu.without_header
    ethercat.Frame.Ethernet.set_destination ethercat.Frame.Ethernet.set_ether_type
    ethercat.Frame.Ethernet.set_ethercat_default ethercat.Frame.Ethernet.set_ethercat_type
    ethercat.Frame.Ethernet.set_frame_length ethercat.Frame.Ethernet.set_source
    ethercat.Frame.Pdus.indexes_from ethercat.Frame.Pdus.indexes_of ethercat.Frame.Pdus.new
    ethercat.Frame.Pdus.new_for_ethercat_frame ethercat.Frame.Pdus.next
    ethercat.Frame.Pdus.next_index ethercat.Frame.Pdus.pdus_from ethercat.Frame.Pdus.pdus_of
    ethercat.Frame.Util.add_command ethercat.Frame.Util.dlpdu_indexes ethercat.Frame.Util.dlpdus
    ethercat.Frame.Ethernet.source ethercat.Frame.Ethernet.ether_type
    ethercat.Interface.PduIf.fill_frame ethercat.Interface.PduIf.header
    ethercat.Interface.PduIf.payload ethercat.Interface.PduIf.write_pdu
    ethercat.Interface.PduIf.counted ethercat.Interface.PduIf.read_frame
    ethercat.Interface.Socket.slice_to ethercat.Interface.discriminant
    ethercat.Foreign.Commands.find_type ethercat.Interface.PduIf.new
    ethercat.Interface.PduIf.transmit_one_frame ethercat.Interface.PduIf.receive_one_frame
    ethercat.Interface.PduIf.add_pdu ethercat.Interface.PduIf.consume_pdus
    ethercat.Interface.PduIf.remainig_pdu_data_capacity poll_tx_rx ethercat.IndexSet.get_item
    ethercat.IndexSet.get_item_mut ethercat.Interface.Socket.set_pdu ethercat.Interface.Socket.new
    ethercat.Interface.Socket.data_length ethercat.Interface.Socket.take_pdu
    ethercat.Interface.Socket.recieve ethercat.Frame.EtherCatPdu.wkc
    ethercat.Interface.Poll.enqueue_pdus ethercat.Interface.Poll.transmit_and_receive
    ethercat.Interface.Poll.answer_of ethercat.Interface.Poll.take_answers
a_turn = refl

poll_tx_rx_done_example : Emptied wire before after
poll_tx_rx_done_example = poll_tx_rx_done wire before a_turn

-- The answer to a read of two bytes, for the socket with the handle 0.
abbrev answered : List ℕ
answered = 4 ∷ 0 ∷ 1 ∷ 16 ∷ 48 ∷ 1 ∷ 2 ∷ 0 ∷ 0 ∷ 0 ∷ 7 ∷ 8 ∷ 1 ∷ 0 ∷ []

abbrev handed : IndexSet PduSocket
handed = or_else (hand_out before.socket_set (answered ∷ [])) before.socket_set

handing : hand_out before.socket_set (answered ∷ []) ≡ some handed
unfolding ethercat.Frame.EtherCatPdu.index ethercat.Foreign.Bits.read_field
    ethercat.Frame.EtherCatPdu.wkc ethercat.Frame.EtherCatPdu.command_type
    ethercat.Frame.EtherCatPdu.adp ethercat.Frame.EtherCatPdu.ado ethercat.Interface.PduIf.payload
    ethercat.Frame.EtherCatPdu.without_header ethercat.Frame.EtherCatPdu.length
    ethercat.Interface.Socket.slice_to ethercat.Foreign.Commands.find_type
    ethercat.IndexSet.get_item ethercat.IndexSet.get_item_mut ethercat.Interface.Socket.recieve
    ethercat.Interface.discriminant ethercat.Base.Slices.slice_from
    ethercat.Interface.Poll.answer_of ethercat.Interface.Socket.set_pdu
    ethercat.Interface.Socket.new hand_out
handing = refl

hand_out-delivered_example :
    get_item handed 0 ≡ Option.map (delivered 0 (answered ∷ [])) (get_item before.socket_set 0)
hand_out-delivered_example = hand_out-delivered before.socket_set (answered ∷ []) 0 handing
