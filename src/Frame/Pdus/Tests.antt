-- ===== src/Frame/Pdus/Tests.antt =====
-- The end of the iteration over PDUs at a buffer with one of them.
use ethercat.Base.{◌≢◌, out_of_fuel, [], ◌∷◌, arith}
use ethercat.Foreign.Lsb0.{lsb0}
use ethercat.Frame.Pdus.{EtherCatPdus, pdus_from, indexes_from}
use ethercat.Frame.Pdus.Laws.{iterations_end}

-- A PDU with two bytes of data, of 14 bytes.
abbrev one_pdu : EtherCatPdus
one_pdu = record {
  buffer = 4 ∷ 3 ∷ 1 ∷ 16 ∷ 48 ∷ 1 ∷ 2 ∷ 0 ∷ 0 ∷ 0 ∷ 7 ∷ 8 ∷ 0 ∷ 0 ∷ [];
  offset = 0;
  length = 14;
}

iterations_end_example :
    (pdus_from 15 one_pdu ≢ out_of_fuel) × (indexes_from 15 one_pdu ≢ out_of_fuel)
iterations_end_example = iterations_end 14 one_pdu (omega arith)
