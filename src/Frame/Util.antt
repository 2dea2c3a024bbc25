-- ===== src/Frame/Util.antt =====
-- src/frame/frame_util.rs: `EtherCatFrameUtil`, which builds a frame in a buffer, one command at a time.
use ethercat.Base.{
  ℕ, ◌+◌, ◌-◌, ◌%◌, ◌^◌, Bool, true, false, Option, none, some, List, [], ◌∷◌, length, replicate,
  slice_from, copy_at, at_from, set_at, slice, ltb, if◌then◌else◌, ◌>>=◌,
}
use ethercat.Foreign.{Bitfield, Msb0}
use ethercat.Interface.{CommandType, discriminant}
use ethercat.Frame.{pdu_header_size, wkc_length, ethernet_header_size, ethercat_header_size}
use ethercat.Frame.EtherCatPdu
use ethercat.Frame.Ethernet.{
  frame_length, set_frame_length, set_ethercat_type, set_ethercat_default,
}
use ethercat.Frame.Pdus.{new_for_ethercat_frame, pdus_of, indexes_of}

pub record EtherCatFrameUtil : Type 0 where
  pub buffer : List ℕ
  pub free_offset : ℕ
  pub index : ℕ

abbrev header_length : ℕ
header_length = ethercat_header_size + ethernet_header_size

last {ℓ} : {A : Type ℓ} → List A → Option A
last [] = none
last (x ∷ []) = some x
last (x ∷ y ∷ xs) = last (y ∷ xs)

module _ ⦃bf : Bitfield⦄ where
  unfoldable pub new_unchecked : List ℕ → Option EtherCatFrameUtil
  new_unchecked buffer = do
    ec_packet ← slice_from ethernet_header_size buffer
    length ← frame_length ec_packet
    let made : EtherCatFrameUtil = record {
      buffer = buffer;
      free_offset = header_length + length;
      index = 0;
    }
    some made

  -- The outer `none` would be a panic.
  unfoldable pub new : List ℕ → Option (Option EtherCatFrameUtil)
  unfolding new_unchecked
  new buffer =
      if ltb (length buffer) header_length
      then some none
      else (do made ← new_unchecked buffer; some (some made))

  unfoldable pub inner : EtherCatFrameUtil → Option (List ℕ)
  inner u = slice 0 u.free_offset u.buffer

  unfoldable pub dlpdus : EtherCatFrameUtil → Option (List (List ℕ))
  dlpdus u = pdus_of (new_for_ethercat_frame u.buffer (length u.buffer))

  unfoldable pub dlpdu_indexes : EtherCatFrameUtil → Option (List ℕ)
  dlpdu_indexes u = indexes_of (new_for_ethercat_frame u.buffer (length u.buffer))

  unfoldable pub init : ⦃m : Msb0⦄ → EtherCatFrameUtil → Option EtherCatFrameUtil
  init u = do
    buffer ← set_ethercat_default (replicate (length u.buffer) 0)
    buffer ← at_from ethernet_header_size (λ bytes. set_frame_length bytes 0) buffer
    buffer ← at_from ethernet_header_size (λ bytes. set_ethercat_type bytes 1) buffer
    let fresh : EtherCatFrameUtil = record {
      buffer = buffer;
      free_offset = ethernet_header_size + ethercat_header_size;
      index = 0;
    }
    some fresh

  -- `set_has_next(true)` in the PDU that was the last one.
  link_last : Option ℕ → List ℕ → Option (List ℕ)
  link_last none buffer = some buffer
  link_last (some pre) buffer = do
    bytes ← slice_from pre buffer
    if ltb (pdu_header_size - 1) (length bytes)
        then at_from pre (λ bytes. EtherCatPdu.set_has_next bytes true) buffer
        else some buffer

  set_header : CommandType → ℕ → ℕ → ℕ → ℕ → List ℕ → Option (List ℕ)
  set_header command adp ado index data_len bytes = do
    bytes ← EtherCatPdu.set_command_type bytes (discriminant command)
    bytes ← EtherCatPdu.set_adp bytes adp
    bytes ← EtherCatPdu.set_ado bytes ado
    bytes ← EtherCatPdu.set_index bytes index
    bytes ← EtherCatPdu.set_is_circulated bytes false
    bytes ← EtherCatPdu.set_has_next bytes false
    bytes ← EtherCatPdu.set_irq bytes 0
    EtherCatPdu.set_length bytes (data_len % 2 ^ 16)

  index_or : Option ℕ → ℕ → ℕ
  index_or (some index) own = index
  index_or none own = own

  -- The update of the length in the header of the frame.
  grow : ℕ → List ℕ → Option (List ℕ)
  grow dlpdu_len bytes = do
    ec_frame_len ← frame_length bytes
    set_frame_length bytes ((ec_frame_len + dlpdu_len) % 2 ^ 16)

  append_command :
      EtherCatFrameUtil → CommandType → ℕ → ℕ → List ℕ → ℕ → Option (EtherCatFrameUtil × Bool)
  unfolding link_last set_header grow dlpdu_indexes last
  append_command u command adp ado payload index = do
    let start = u.free_offset + pdu_header_size
    let data_len = length payload
    indexes ← dlpdu_indexes u
    buffer ← link_last (last indexes) u.buffer
    buffer ← at_from u.free_offset (set_header command adp ado index data_len) buffer
    buffer ← copy_at start payload buffer
    buffer ← set_at (start + data_len) 0 buffer
    buffer ← set_at (start + data_len + 1) 0 buffer
    buffer ← at_from ethernet_header_size (grow (data_len + pdu_header_size + wkc_length)) buffer
    some (
      record u {
        buffer = buffer;
        free_offset = u.free_offset + (data_len + pdu_header_size + wkc_length);
      },
      true,
    )

  -- The first test panics if `free_offset` lies past the buffer.
  unfoldable pub add_command :
      EtherCatFrameUtil
      → CommandType
      → ℕ
      → ℕ
      → List ℕ
      → Option ℕ
      → Option (EtherCatFrameUtil × Bool)
  unfolding append_command index_or
  add_command u command adp ado payload index =
      if ltb (length u.buffer) u.free_offset
      then none
      else if ltb (length u.buffer - u.free_offset) (length payload + pdu_header_size + wkc_length)
      then some (u, false)
      else append_command u command adp ado payload (index_or index u.index)
