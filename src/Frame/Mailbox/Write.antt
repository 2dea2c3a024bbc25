-- ===== src/Frame/Mailbox/Write.antt =====
-- src/frame/ethercat.rs: `MailboxFrame::set_mailbox`, which writes a message into a mailbox.
use ethercat.Base.{
  ℕ, ◌+◌, ◌%◌, ◌^◌, Bool, true, false, Option, none, some, List, length, slice_from, at_from,
  overwrite, ltb, assert, ◌>>◌, ◌>>=◌,
}
use ethercat.Foreign.{Bitfield}
use ethercat.Frame.Coe
use ethercat.Frame.Coe.{
  CoeServiceType, coe_header_size, sdo_header_size, download_header_size, emmergency_size,
}
use ethercat.Frame.MailboxFrame
use ethercat.Frame.MailboxFrame.{header_size, message}
use ethercat.Frame.Mailbox.{
  discriminant, coe_type, CoeIndex, SdoReq, download, upload, abort, other_req, emmergency, sdo_req,
  sdo_res, unsupported_type, Mailbox, error, coe_message, unsupported_protocol,
}

module _ ⦃bf : Bitfield⦄ where
  unfoldable pub set_coe_header : List ℕ → Option (List ℕ)
  set_coe_header bytes = do
    bytes ← Coe.set_number bytes 0
    Coe.set_coe_service_type bytes CoeServiceType.sdo_req

  unfoldable pub set_sdo_header : ℕ → Bool → CoeIndex → List ℕ → Option (List ℕ)
  set_sdo_header specifier size_indicator i bytes = do
    bytes ← Coe.set_complete_access bytes false
    bytes ← Coe.set_data_set_size bytes 0
    bytes ← Coe.set_command_specifier bytes specifier
    bytes ← Coe.set_transfer_type bytes false
    bytes ← Coe.set_size_indicator bytes size_indicator
    bytes ← Coe.set_index bytes i.index
    Coe.set_sub_index bytes i.sub_index

  -- The payload of the requests, with its length.
  unfoldable pub set_request : SdoReq → CoeIndex → List ℕ → Option (List ℕ × ℕ)
  unfolding set_sdo_header
  set_request (download bytes) i sdo_frame = do
    let payload_length = coe_header_size + sdo_header_size + download_header_size + length bytes
    sdo_frame ← set_sdo_header 1 true i sdo_frame
    sdo_frame ←
        at_from sdo_header_size (λ b. Coe.set_complete_size b (length bytes % 2 ^ 32)) sdo_frame
    assert (ltb payload_length (2 ^ 16)) >> (do
      sdo_frame ←
          at_from (sdo_header_size + download_header_size) (λ b. some (overwrite b bytes)) sdo_frame
      some (sdo_frame, payload_length))
  set_request upload i sdo_frame = do
    sdo_frame ← set_sdo_header 2 false i sdo_frame
    some (sdo_frame, coe_header_size + sdo_header_size + 4)
  set_request (abort _) i sdo_frame = none
  set_request (other_req _) i sdo_frame = none

  unfoldable pub set_sdo_req : CoeIndex → SdoReq → List ℕ → Option (List ℕ)
  unfolding set_coe_header set_request
  set_sdo_req i req bytes = do
    bytes ← MailboxFrame.set_mailbox_type bytes (discriminant coe_type)
    bytes ← at_from header_size set_coe_header bytes
    sdo_frame ← slice_from (header_size + coe_header_size) bytes
    (sdo_frame, payload_length) ← set_request req i sdo_frame
    bytes ← at_from (header_size + coe_header_size) (λ _. some sdo_frame) bytes
    MailboxFrame.set_payload_length bytes payload_length

  -- `MailboxFrame::set_mailbox`, which never gives an error. `none` is a panic, `unimplemented!()` among them.
  unfoldable pub set_mailbox : Mailbox → List ℕ → Option (List ℕ)
  unfolding set_sdo_req
  set_mailbox (coe_message i (sdo_req req)) bytes = set_sdo_req i req bytes
  set_mailbox (coe_message i (emmergency _)) bytes = none
  set_mailbox (coe_message i (sdo_res _)) bytes = none
  set_mailbox (coe_message i (unsupported_type _)) bytes = none
  set_mailbox (error _) bytes = none
  set_mailbox (unsupported_protocol _) bytes = none
