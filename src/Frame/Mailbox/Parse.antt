-- ===== src/Frame/Mailbox/Parse.antt =====
-- src/frame/ethercat.rs: `MailboxFrame::mailbox`, which reads the message of a mailbox.
use ethercat.Base.{
  ℕ, ◌+◌, ◌*◌, ◌^◌, Option, none, some, List, [], ◌∷◌, length, take, slice, slice_from, Result, ok,
  err, ltb, leb, ◌==◌, if◌then◌else◌, ◌>>=◌,
}
use ethercat.Foreign.{Bitfield, FromPrimitive}
use ethercat.Foreign.Bits.{read_field}
use ethercat.Frame.AbortCode
use ethercat.Frame.AbortCode.{AbortCode}
use ethercat.Frame.Coe
use ethercat.Frame.Coe.{
  CoeServiceType, coe_header_size, sdo_header_size, download_header_size, emmergency_size,
}
use ethercat.Frame.MailboxFrame
use ethercat.Frame.MailboxFrame.{header_size, message}
use ethercat.Frame.Mailbox.{
  MailboxType, discriminant, error_type, aoe_type, eoe_type, coe_type, foe_type, soe_type, voe_type,
  other_type, MailboxErrorDetail, detail_number, unspecified, CoeIndex, download, upload, abort,
  other_req, downloaded, uploaded, other_res, CoeMessage, emmergency, sdo_req, sdo_res,
  unsupported_type, Mailbox, error, coe_message, unsupported_protocol, LengthError, length_error,
}

-- `u32::from_le_bytes`.
pub from_le_bytes : List ℕ → ℕ
from_le_bytes [] = 0
from_le_bytes (byte ∷ bytes) = byte + 2 ^ 8 * from_le_bytes bytes

abbrev pub Parsed : Type 0 → Type 0
Parsed A = Option (Result A LengthError)

-- `get(n - 1).ok_or(LengthError)?` and `[from..n]`. The subtraction panics at 0.
unfoldable pub part : ℕ → ℕ → List ℕ → Parsed (List ℕ)
part from n bytes =
    if n == 0
    then none
    else if leb n (length bytes)
    then (do found ← slice from n bytes; some (ok found))
    else some (err length_error)

unfoldable pub with_part : {A : Type 0} → (List ℕ → A) → Parsed (List ℕ) → Parsed A
with_part f none = none
with_part f (some (err e)) = some (err e)
with_part f (some (ok bytes)) = some (ok (f bytes))

-- The size of the data of an expedited transfer.
unfoldable pub expedited_size : ℕ → ℕ
expedited_size set_size =
    if set_size == 0
    then 4
    else if set_size == 1
    then 3
    else if set_size == 2
    then 2
    else if set_size == 3
    then 1
    else 0

unfoldable pub normal_part : List ℕ → Parsed (List ℕ)
unfolding part from_le_bytes
normal_part sdo_payload =
    if leb 4 (length sdo_payload)
    then part 4 (from_le_bytes (take 4 sdo_payload) + 4) sdo_payload
    else some (err length_error)

module _ ⦃bf : Bitfield⦄ where
  -- The data of a download request and of an upload response.
  unfoldable pub transferred : List ℕ → List ℕ → Parsed (List ℕ)
  unfolding part expedited_size normal_part
  transferred sdo_frame sdo_payload = do
    expedited ← Coe.transfer_type sdo_frame
    if expedited
        then (do
          set_size ← Coe.data_set_size sdo_frame
          part 0 (expedited_size set_size) sdo_payload)
        else normal_part sdo_payload

  unfoldable pub parse_req :
      ⦃ac : FromPrimitive AbortCode AbortCode.discriminant AbortCode.unknown_abort_code⦄
      → List ℕ
      → List ℕ
      → ℕ
      → Parsed CoeMessage
  unfolding transferred with_part part from_le_bytes
  parse_req ⦃ac⦄ sdo_frame sdo_payload specifier =
      if specifier == 1
      then with_part (λ bytes. sdo_req (download bytes)) (transferred sdo_frame sdo_payload)
      else if specifier == 2
      then some (ok (sdo_req upload))
      else if specifier == 4
      then with_part (λ bytes. sdo_req (abort (ac.from (from_le_bytes bytes)))) (part 4 8 sdo_frame)
      else some (ok (sdo_req (other_req specifier)))

  unfoldable pub parse_res : List ℕ → List ℕ → ℕ → Parsed CoeMessage
  unfolding transferred with_part
  parse_res sdo_frame sdo_payload specifier =
      if specifier == 2
      then with_part (λ bytes. sdo_res (uploaded bytes)) (transferred sdo_frame sdo_payload)
      else if specifier == 3
      then some (ok (sdo_res downloaded))
      else some (ok (sdo_res (other_res specifier)))

  unfoldable pub parse_coe :
      ⦃ac : FromPrimitive AbortCode AbortCode.discriminant AbortCode.unknown_abort_code⦄
      → CoeServiceType
      → List ℕ
      → List ℕ
      → Parsed CoeMessage
  unfolding parse_req parse_res part with_part
  parse_coe CoeServiceType.emmergency sdo_frame sdo_payload =
      if leb emmergency_size (length sdo_payload)
      then some (ok (emmergency sdo_payload))
      else some (err length_error)
  parse_coe CoeServiceType.sdo_req sdo_frame sdo_payload = do
    specifier ← Coe.command_specifier sdo_frame
    parse_req sdo_frame sdo_payload specifier
  parse_coe CoeServiceType.sdo_res sdo_frame sdo_payload = do
    specifier ← Coe.command_specifier sdo_frame
    parse_res sdo_frame sdo_payload specifier
  parse_coe CoeServiceType.tx_pdo _ _ = some (ok (unsupported_type CoeServiceType.tx_pdo))
  parse_coe CoeServiceType.rx_pdo _ _ = some (ok (unsupported_type CoeServiceType.rx_pdo))
  parse_coe CoeServiceType.tx_pdo_remote_req _ _ =
      some (ok (unsupported_type CoeServiceType.tx_pdo_remote_req))
  parse_coe CoeServiceType.rx_pdo_remote_req _ _ =
      some (ok (unsupported_type CoeServiceType.rx_pdo_remote_req))
  parse_coe CoeServiceType.sdo_info _ _ = some (ok (unsupported_type CoeServiceType.sdo_info))
  parse_coe CoeServiceType.other _ _ = some (ok (unsupported_type CoeServiceType.other))

  unfoldable pub with_index : CoeIndex → Parsed CoeMessage → Parsed Mailbox
  with_index i none = none
  with_index i (some (err e)) = some (err e)
  with_index i (some (ok c)) = some (ok (coe_message i c))

module _ ⦃bf : Bitfield⦄ ⦃mt : FromPrimitive MailboxType discriminant other_type⦄
    ⦃ed : FromPrimitive MailboxErrorDetail detail_number unspecified⦄
    ⦃st : FromPrimitive CoeServiceType Coe.discriminant CoeServiceType.other⦄
    ⦃ac : FromPrimitive AbortCode AbortCode.discriminant AbortCode.unknown_abort_code⦄ where
  unfoldable pub parse_sdo : List ℕ → Parsed Mailbox
  unfolding parse_coe with_index
  parse_sdo coe_frame = do
    sdo_frame ← slice_from coe_header_size coe_frame
    sdo_payload ← slice_from sdo_header_size sdo_frame
    index ← Coe.index sdo_frame
    sub_index ← Coe.sub_index sdo_frame
    service ← Coe.service_type coe_frame
    with_index (record { index = index; sub_index = sub_index })
        (parse_coe (st.from service) sdo_frame sdo_payload)

  unfoldable pub parse : MailboxType → List ℕ → List ℕ → Parsed Mailbox
  unfolding parse_sdo
  parse error_type bytes coe_frame =
      if leb 4 (length coe_frame)
      then (do detail ← read_field coe_frame 31 16; some (ok (error (ed.from detail))))
      else some (err length_error)
  parse coe_type bytes coe_frame =
      if ltb (length bytes) (header_size + coe_header_size + sdo_header_size)
      then some (err length_error)
      else parse_sdo coe_frame
  parse aoe_type bytes coe_frame = some (ok (unsupported_protocol aoe_type))
  parse eoe_type bytes coe_frame = some (ok (unsupported_protocol eoe_type))
  parse foe_type bytes coe_frame = some (ok (unsupported_protocol foe_type))
  parse soe_type bytes coe_frame = some (ok (unsupported_protocol soe_type))
  parse voe_type bytes coe_frame = some (ok (unsupported_protocol voe_type))
  parse other_type bytes coe_frame = some (ok (unsupported_protocol other_type))

  -- `MailboxFrame::mailbox`. The outer `none` is a panic.
  unfoldable pub mailbox : List ℕ → Parsed Mailbox
  unfolding parse
  mailbox bytes = if ltb (length bytes) header_size then some (err length_error) else (do
    coe_frame ← message bytes
    mb_type ← MailboxFrame.mailbox_type bytes
    parse (mt.from mb_type) bytes coe_frame)
