-- ===== src/Frame/Mailbox.antt =====
-- src/frame/ethercat.rs: the messages of a mailbox, which Parse reads from a `MailboxFrame` and Write puts into one.
pub mod Parse
pub mod Write
pub mod Upload
pub mod Laws
pub mod Returns
mod Tests
use ethercat.Base.{
  ℕ, zero, suc, ◌+◌, ◌-◌, ◌*◌, ◌%◌, ◌^◌, Bool, true, false, Option, none, some, List, [], ◌∷◌,
  length, take, drop, slice, slice_from, at_from, overwrite, Result, ok, err, ltb, leb, assert,
  ◌>>◌, ◌==◌, if◌then◌else◌, ◌>>=◌,
}
use ethercat.Foreign.{Bitfield, FromPrimitive}
use ethercat.Foreign.Bits.{read_field}
use ethercat.Frame.AbortCode
use ethercat.Frame.AbortCode.{AbortCode}
use ethercat.Frame.Coe
use ethercat.Frame.Coe.{
  CoeServiceType, coe_header_size, sdo_header_size, download_header_size, emmergency_size,
}
use ethercat.Frame.MailboxFrame
use ethercat.Frame.MailboxFrame.{header_size, message}

pub data MailboxType : Type 0 where
  error_type aoe_type eoe_type coe_type foe_type soe_type voe_type other_type : MailboxType

-- `mb_type as u8`.
unfoldable pub discriminant : MailboxType → ℕ
discriminant error_type = 0
discriminant aoe_type = 1
discriminant eoe_type = 2
discriminant coe_type = 3
discriminant foe_type = 4
discriminant soe_type = 5
discriminant voe_type = 15
discriminant other_type = 16

pub data MailboxErrorDetail : Type 0 where
  unspecified syntax unsupported_protocol_error invalid_channel service_not_supported invalid_header
        size_too_short no_more_memory invalid_size :
      MailboxErrorDetail

-- The numbers of the details.
unfoldable pub detail_number : MailboxErrorDetail → ℕ
detail_number unspecified = 0
detail_number syntax = 1
detail_number unsupported_protocol_error = 2
detail_number invalid_channel = 3
detail_number service_not_supported = 4
detail_number invalid_header = 5
detail_number size_too_short = 6
detail_number no_more_memory = 7
detail_number invalid_size = 8

pub record CoeIndex : Type 0 where
  pub index : ℕ
  pub sub_index : ℕ

pub data SdoReq : Type 0 where
  download : List ℕ → SdoReq
  upload : SdoReq
  abort : AbortCode → SdoReq
  other_req : ℕ → SdoReq

pub data SdoRes : Type 0 where
  downloaded : SdoRes
  uploaded : List ℕ → SdoRes
  other_res : ℕ → SdoRes

pub data CoeMessage : Type 0 where
  emmergency : List ℕ → CoeMessage
  sdo_req : SdoReq → CoeMessage
  sdo_res : SdoRes → CoeMessage
  unsupported_type : CoeServiceType → CoeMessage

pub data Mailbox : Type 0 where
  error : MailboxErrorDetail → Mailbox
  coe_message : CoeIndex → CoeMessage → Mailbox
  unsupported_protocol : MailboxType → Mailbox

pub data LengthError : Type 0 where
  length_error : LengthError

unfoldable pub new_sdo_download_request : ℕ → ℕ → List ℕ → Mailbox
new_sdo_download_request index sub_index bytes =
    coe_message (record { index = index; sub_index = sub_index }) (sdo_req (download bytes))

unfoldable pub new_sdo_upload_request : ℕ → ℕ → Mailbox
new_sdo_upload_request index sub_index =
    coe_message (record { index = index; sub_index = sub_index }) (sdo_req upload)

unfoldable pub sdo_upload_response : Mailbox → Option (List ℕ)
sdo_upload_response (coe_message _ (sdo_res (uploaded bytes))) = some bytes
sdo_upload_response (coe_message _ (sdo_res downloaded)) = none
sdo_upload_response (coe_message _ (sdo_res (other_res _))) = none
sdo_upload_response (coe_message _ (emmergency _)) = none
sdo_upload_response (coe_message _ (sdo_req _)) = none
sdo_upload_response (coe_message _ (unsupported_type _)) = none
sdo_upload_response (error _) = none
sdo_upload_response (unsupported_protocol _) = none

unfoldable pub is_sdo_download_response : Mailbox → Bool
is_sdo_download_response (coe_message _ (sdo_res downloaded)) = true
is_sdo_download_response (coe_message _ (sdo_res (uploaded _))) = false
is_sdo_download_response (coe_message _ (sdo_res (other_res _))) = false
is_sdo_download_response (coe_message _ (emmergency _)) = false
is_sdo_download_response (coe_message _ (sdo_req _)) = false
is_sdo_download_response (coe_message _ (unsupported_type _)) = false
is_sdo_download_response (error _) = false
is_sdo_download_response (unsupported_protocol _) = false
