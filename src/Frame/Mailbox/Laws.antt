-- ===== src/Frame/Mailbox/Laws.antt =====
-- src/frame/ethercat.rs: a request that was put into a mailbox message is read from it again.
use ethercat.Base.{
  ℕ, ◌^◌, ◌≤◌, ◌<◌, ◌≡◌, refl, ap, sym, ◌∙◌, false, some, List, ◌++◌, length, length-append,
  split_at, slice_from, slice_from-append, ltb, ok, arith,
}
use ethercat.Foreign.{Bitfield, FromPrimitive}
use ethercat.Foreign.Bits.{read_field-some}
use ethercat.Frame.AbortCode
use ethercat.Frame.AbortCode.{AbortCode}
use ethercat.Frame.Coe
use ethercat.Frame.Coe.{CoeServiceType}
use ethercat.Frame.MailboxFrame
use ethercat.Frame.MailboxFrame.{message}
use ethercat.Frame.Mailbox.{
  MailboxType, discriminant, coe_type, other_type, MailboxErrorDetail, detail_number, unspecified,
  CoeIndex, upload, sdo_req, coe_message, new_sdo_upload_request,
}
use ethercat.Frame.Mailbox.Parse.{parse, parse_sdo, parse_coe, parse_req, with_index, mailbox}
use ethercat.Frame.Mailbox.Write.{set_mailbox}
use ethercat.Frame.Mailbox.Upload.{UploadFrame-set}

ltb-false : (a b : ℕ) → b ≤ a → ltb a b ≡ false
ltb-false a b h = ground arith

module _ ⦃bf : Bitfield⦄ ⦃mt : FromPrimitive MailboxType discriminant other_type⦄
    ⦃ed : FromPrimitive MailboxErrorDetail detail_number unspecified⦄
    ⦃st : FromPrimitive CoeServiceType Coe.discriminant CoeServiceType.other⦄
    ⦃ac : FromPrimitive AbortCode AbortCode.discriminant AbortCode.unknown_abort_code⦄ where
  service_two : st.from 2 ≡ CoeServiceType.sdo_req
  unfolding Coe.discriminant
  service_two = st.from-discriminant CoeServiceType.sdo_req

  type_three : mt.from 3 ≡ coe_type
  unfolding discriminant
  type_three = mt.from-discriminant coe_type

  parse_sdo-upload :
      (c t : List ℕ) (i : CoeIndex)
      → length c ≡ 2
      → 4 ≤ length t
      → bf.bit_range c 15 12 ≡ 2
      → bf.bit_range t 7 5 ≡ 2
      → bf.bit_range t 23 8 ≡ i.index
      → bf.bit_range t 31 24 ≡ i.sub_index
      → parse_sdo (c ++ t) ≡ some (ok (coe_message i (sdo_req upload)))
  unfolding parse_sdo parse_coe parse_req with_index Coe.index Coe.sub_index Coe.service_type
      Coe.command_specifier
  parse_sdo-upload c t i lc lt service specifier index sub_index =
      let (x, y, e, lx) = split_at 4 t lt in
      rw
        (
          slice_from-append c t 2 (sym lc),
          ap (slice_from 4) e ∙ slice_from-append x y 4 (sym lx),
          read_field-some t 23 8 (omega arith) ∙ ap some index,
          read_field-some t 31 24 (omega arith) ∙ ap some sub_index,
          read_field-some (c ++ t) 15 12 (omega (arith, length-append c t, lc))
              ∙ ap some (bf.bit_range-append c t 15 12 (omega (arith, lc)) ∙ service),
          service_two,
          read_field-some t 7 5 (omega arith) ∙ ap some specifier,
        )
        refl

  mailbox-upload :
      (i : CoeIndex) (m c t : List ℕ)
      → length m ≡ 6
      → length c ≡ 2
      → 4 ≤ length t
      → bf.bit_range m 43 40 ≡ 3
      → parse_sdo (c ++ t) ≡ some (ok (coe_message i (sdo_req upload)))
      → mailbox (m ++ (c ++ t)) ≡ some (ok (coe_message i (sdo_req upload)))
  unfolding mailbox parse message MailboxFrame.mailbox_type
  mailbox-upload i m c t lm lc lt type_is e =
      let l1 = length-append m (c ++ t) in
      let l2 = length-append c t in
      rw
        (
          ltb-false (length (m ++ (c ++ t))) 6 (omega (arith, l1, lm)),
          slice_from-append m (c ++ t) 6 (sym lm),
          read_field-some (m ++ (c ++ t)) 43 40 (omega (arith, l1, lm))
              ∙ ap some (bf.bit_range-append m (c ++ t) 43 40 (omega (arith, lm)) ∙ type_is),
          type_three,
          ltb-false (length (m ++ (c ++ t))) 12 (omega (arith, l1, l2, lm, lc)),
        )
        e

  -- An upload request that is put into a buffer of at least 12 bytes is read from it again, whatever was in the
  -- buffer, which keeps its length.
  pub set_mailbox-mailbox :
      (b : List ℕ) (index sub_index : ℕ)
      → 12 ≤ length b
      → index < 2 ^ 16
      → sub_index < 2 ^ 8
      → (frame : List ℕ) × (set_mailbox (new_sdo_upload_request index sub_index) b ≡ some frame)
        × (mailbox frame ≡ some (ok (new_sdo_upload_request index sub_index)))
        × (length frame ≡ length b)
  unfolding new_sdo_upload_request
  set_mailbox-mailbox b index sub_index h hi hs =
      let i : CoeIndex = record { index = index; sub_index = sub_index } in
      let (frame, e, u, l) = UploadFrame-set b i h hi hs in
      (
        frame,
        e,
        ap mailbox u.parts
            ∙ mailbox-upload i u.head u.middle u.body u.six u.two u.four u.mailbox_type_is (
                parse_sdo-upload u.middle u.body i u.two u.four u.service_is u.specifier_is
                  u.index_is u.sub_index_is),
        l,
      )
