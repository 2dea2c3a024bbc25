-- ===== src/Interface/PduIf/Tests.antt =====
-- The laws of `PduInterface` over a device that answers each frame at once.
use ethercat.Base.{
  ℕ, ◌==◌, ◌≡◌, ◌<◌, refl, true, Option, none, some, List, [], ◌∷◌, length, replicate, Result, ok,
  arith,
}
use ethercat.Foreign.Lsb0.{lsb0, msb0}
use ethercat.Foreign.Commands.{command_types}
use ethercat.Interface.{Command, fprd}
use ethercat.Interface.PduIf.{
  PduInterface, RawEthernetDevice, no_rx_token, rx_token, tx_token, new, add_pdu, consume_pdus,
  transmit_one_frame, receive_one_frame,
}
use ethercat.Interface.PduIf.Wire.{Wire, wire, or_else}
use ethercat.Interface.PduIf.Queue.{Waiting, AllCarry}
use ethercat.Interface.PduIf.Laws.{
  IsValid, Fits, new-IsValid, add_pdu_lem, add_pdu_full_panics, consume_pdus_lem,
}
use ethercat.Interface.PduIf.Turns.{Kept, transmit_one_frame-Kept}

abbrev read_status : Waiting
read_status = record {
  index = 3;
  command = record { c_type = fprd; adp = 0x1001; ado = 0x0130 };
  bytes = 7 ∷ 8 ∷ [];
}

abbrev write_two : List ℕ → List ℕ
write_two buf = 7 ∷ 8 ∷ []

read_status-Fits : Fits read_status
read_status-Fits = record {
  index_fits = omega arith;
  adp_fits = omega arith;
  ado_fits = omega arith;
  size_fits = omega arith;
}

abbrev fresh : PduInterface Wire
fresh = new [] (replicate 64 0)

abbrev small : PduInterface Wire
small = new [] (replicate 14 0)

add_pdu_lem_example :
    (s' : PduInterface Wire) × (add_pdu fresh 3 read_status.command 2 write_two ≡ some (s', ok tt))
    × IsValid s' (read_status ∷ [])
    × (s'.pdus_total_size ≡ 14)
    × (s'.pdu_count ≡ 1)
    × (s'.ethdev ≡ [])
    × (s'.tx_count ≡ 0)
    × (s'.recv_data_size ≡ 0)
    × (s'.capacity ≡ 64)
    × (length s'.buffer ≡ 64)
unfolding new
add_pdu_lem_example =
    add_pdu_lem fresh [] read_status write_two (new-IsValid [] (replicate 64 0)) read_status-Fits
      (λ room e. refl) (omega arith) (omega arith)

add_pdu_full_panics_example : add_pdu small 3 read_status.command 2 write_two ≡ none
unfolding new
add_pdu_full_panics_example =
    add_pdu_full_panics small [] read_status write_two (new-IsValid [] (replicate 14 0))
      read_status-Fits (λ room e. refl) refl (omega arith)

abbrev one_waiting : PduInterface Wire
one_waiting = add_pdu_lem_example.0

consume_pdus_lem_example :
    (pdus : List (List ℕ)) × (consume_pdus one_waiting
      ≡ some (record one_waiting { pdus_total_size = 0; recv_data_size = 0 }, pdus))
    × AllCarry pdus (read_status ∷ [])
consume_pdus_lem_example =
    consume_pdus_lem one_waiting (read_status ∷ []) add_pdu_lem_example.2 (omega arith, tt)

abbrev loaded : PduInterface Wire
loaded = (or_else (add_pdu fresh 3 read_status.command 2 write_two) (fresh, ok tt)).0

abbrev underway : PduInterface Wire
underway = (or_else (transmit_one_frame wire loaded) (fresh, ok true)).0

abbrev answered : PduInterface Wire
answered = (or_else (receive_one_frame wire underway) (fresh, ok true)).0

transmit_one_frame-Kept_example : Kept wire loaded underway
unfolding transmit_one_frame receive_one_frame add_pdu new ethercat.Frame.EtherCatPdu.set_index
    ethercat.Foreign.Bits.write_field ethercat.Frame.EtherCatPdu.set_command_type
    ethercat.Frame.EtherCatPdu.set_adp ethercat.Frame.EtherCatPdu.set_ado
    ethercat.Frame.EtherCatPdu.set_length ethercat.Base.Slices.copy_at ethercat.Base.Slices.slice
    ethercat.Base.Slices.set_at ethercat.Frame.Util.new_unchecked ethercat.Base.Slices.slice_from
    ethercat.Frame.Ethernet.frame_length ethercat.Foreign.Bits.read_field ethercat.Frame.Util.init
    ethercat.Base.Slices.at_from ethercat.Foreign.Bits.write_flag ethercat.Frame.EtherCatPdu.ado
    ethercat.Frame.EtherCatPdu.adp ethercat.Frame.EtherCatPdu.command_type
    ethercat.Frame.EtherCatPdu.index ethercat.Frame.EtherCatPdu.length
    ethercat.Frame.EtherCatPdu.set_has_next ethercat.Frame.EtherCatPdu.set_irq
    ethercat.Frame.EtherCatPdu.set_is_circulated ethercat.Frame.EtherCatPdu.without_header
    ethercat.Frame.Ethernet.set_destination ethercat.Frame.Ethernet.set_ether_type
    ethercat.Frame.Ethernet.set_ethercat_default ethercat.Frame.Ethernet.set_ethercat_type
    ethercat.Frame.Ethernet.set_frame_length ethercat.Frame.Ethernet.set_source
    ethercat.Frame.Pdus.indexes_from ethercat.Frame.Pdus.indexes_of ethercat.Frame.Pdus.new
    ethercat.Frame.Pdus.new_for_ethercat_frame ethercat.Frame.Pdus.next
    ethercat.Frame.Pdus.next_index ethercat.Frame.Pdus.pdus_from ethercat.Frame.Pdus.pdus_of
    ethercat.Frame.Util.add_command ethercat.Frame.Util.dlpdu_indexes ethercat.Frame.Util.dlpdus
    ethercat.Frame.Ethernet.source ethercat.Frame.Ethernet.ether_type
    ethercat.Interface.PduIf.fill_frame ethercat.Interface.PduIf.header
    ethercat.Interface.PduIf.payload ethercat.Interface.PduIf.write_pdu
    ethercat.Interface.PduIf.counted ethercat.Interface.PduIf.read_frame
    ethercat.Interface.Socket.slice_to ethercat.Interface.discriminant
    ethercat.Foreign.Commands.find_type
transmit_one_frame-Kept_example =
    transmit_one_frame-Kept wire loaded {s' = underway} {r = ok true} refl

-- One of the two PDUs in the buffer was sent before.
two_in_buffer : (s' : PduInterface Wire) × IsValid s' (read_status ∷ read_status ∷ [])
two_in_buffer =
    let (s, _, v, total, _, _, _, _, capacity, same) = add_pdu_lem_example in
    let (s', _, v', _, _, _, _, _, _, _) =
      add_pdu_lem s (read_status ∷ []) read_status write_two v read_status-Fits (λ room e. refl)
        (omega (arith, total, capacity)) (omega (arith, total, same)) in
    (s', v')

abbrev sent_before : PduInterface Wire
sent_before = record two_in_buffer.0 { pdu_count = 1 }
