-- ===== src/Interface/Socket/Tests.antt =====
-- The laws of `PduSocket` at concrete PDUs.
use ethercat.Base.{◌≡◌, none, some, [], ◌∷◌, false, arith}
use ethercat.Interface.{Command, Pdu, fprd}
use ethercat.Interface.Socket.{PduSocket, set_pdu, take_pdu, get_recieved_pdu}
use ethercat.Interface.Socket.Laws.{set_pdu-take_pdu}

abbrev command : Command
command = record { c_type = fprd; adp = 1; ado = 0x0130 }

abbrev socket : PduSocket
socket = record {
  command = none;
  data_buf = 5 ∷ 6 ∷ 7 ∷ [];
  wkc = 0;
  data_length = 2;
  recv_flag = false;
}

abbrev answer : Pdu
answer = record { command = command; bytes = 8 ∷ 9 ∷ []; wkc = 1 }

set_pdu-take_pdu_example :
    (s' : PduSocket) × (take_pdu (set_pdu socket (5 ∷ 6 ∷ 7 ∷ []) (some (command, 2)))
      ≡ some (s', some (record { command = command; bytes = 5 ∷ 6 ∷ []; wkc = 0 })))
    × (take_pdu s' ≡ some (s', none))
    × (get_recieved_pdu (set_pdu socket (5 ∷ 6 ∷ 7 ∷ []) (some (command, 2))) ≡ some none)
    × (get_recieved_pdu s' ≡ some none)
set_pdu-take_pdu_example = set_pdu-take_pdu socket (5 ∷ 6 ∷ 7 ∷ []) command 2 (omega arith)
