-- ===== src/Frame/Mailbox/Returns.antt =====
-- src/frame/ethercat.rs: reading a message never panics, whatever the bytes are.
use ethercat.Base.{
  ℕ, ◌+◌, ◌-◌, ◌≤◌, ◌<◌, ◌≡◌, refl, ap, ◌∙◌, Bool, true, false, Option, some, List, length,
  length-drop, take, drop, slice, slice_from, slice-some, slice_from-some, Result, ok, err, ltb,
  leb, ◌==◌, if◌then◌else◌, ◌>>=◌, not, arith,
}
use ethercat.Foreign.{Bitfield, FromPrimitive}
use ethercat.Foreign.Bits.{read_field, read_field-some, read_flag, read_flag-some}
use ethercat.Frame.AbortCode
use ethercat.Frame.AbortCode.{AbortCode}
use ethercat.Frame.Coe
use ethercat.Frame.Coe.{CoeServiceType}
use ethercat.Frame.MailboxFrame
use ethercat.Frame.MailboxFrame.{message}
use ethercat.Frame.Mailbox.{
  MailboxType, discriminant, error_type, aoe_type, eoe_type, coe_type, foe_type, soe_type, voe_type,
  other_type, MailboxErrorDetail, detail_number, unspecified, CoeIndex, CoeMessage, coe_message,
  Mailbox, LengthError,
}
use ethercat.Frame.Mailbox.Parse.{
  Parsed, part, with_part, normal_part, transferred, parse_req, parse_res, parse_coe, with_index,
  parse_sdo, parse, mailbox, from_le_bytes, expedited_size,
}

-- The code gives a result, an error among them.
abbrev Returns : {A : Type 0} → Option A → Type 0
Returns {A = A} o = (r : A) × (o ≡ some r)

if-Returns :
    {A : Type 0} (b : Bool) (x y : Option A)
    → (b ≡ true → Returns x)
    → (b ≡ false → Returns y)
    → Returns (if b then x else y)
if-Returns true x y h k = h refl
if-Returns false x y h k = k refl

bind-Returns :
    {A B : Type 0} (o : Option A) (a : A) (f : A → Option B)
    → o ≡ some a
    → Returns (f a)
    → Returns (o >>= f)
bind-Returns o a f e (r, h) = (r, ap (λ o. o >>= f) e ∙ h)

part-Returns : (from n : ℕ) (bytes : List ℕ) → from ≤ n → 0 < n → Returns (part from n bytes)
unfolding part
part-Returns from n bytes h k =
    if-Returns (n == 0) _ _ (λ e. absurd (ground arith))
      (λ _.
        if-Returns (leb n (length bytes)) _ _
          (λ e.
            bind-Returns (slice from n bytes) (take (n - from) (drop from bytes)) _
              (slice-some from n bytes h (ground arith)) (_, refl))
          (λ _. (_, refl)))

expedited_size-positive : (set_size : ℕ) → set_size < 4 → 0 < expedited_size set_size
unfolding expedited_size
expedited_size-positive set_size h = ground arith

with_part-Returns :
    {A : Type 0} (f : List ℕ → A) (o : Parsed (List ℕ)) → Returns o → Returns (with_part f o)
unfolding with_part
with_part-Returns f o (err e, h) = (err e, ap (with_part f) h)
with_part-Returns f o (ok bytes, h) = (ok (f bytes), ap (with_part f) h)

normal_part-Returns : (bytes : List ℕ) → Returns (normal_part bytes)
unfolding normal_part
normal_part-Returns bytes =
    if-Returns (leb 4 (length bytes)) _ _
      (λ _. part-Returns 4 (from_le_bytes (take 4 bytes) + 4) bytes (omega arith) (omega arith))
      (λ _. (_, refl))

module _ ⦃bf : Bitfield⦄
    ⦃ac : FromPrimitive AbortCode AbortCode.discriminant AbortCode.unknown_abort_code⦄ where
  with_index-Returns : (i : CoeIndex) (o : Parsed CoeMessage) → Returns o → Returns (with_index i o)
  unfolding with_index
  with_index-Returns i o (err e, h) = (err e, ap (with_index i) h)
  with_index-Returns i o (ok c, h) = (ok (coe_message i c), ap (with_index i) h)

  transferred-Returns :
      (sdo_frame sdo_payload : List ℕ)
      → 0 < length sdo_frame
      → Returns (transferred sdo_frame sdo_payload)
  unfolding transferred Coe.transfer_type Coe.data_set_size
  transferred-Returns sdo_frame sdo_payload h =
      bind-Returns (read_flag sdo_frame 1) _ _ (read_flag-some sdo_frame 1 (omega arith)) (
        if-Returns (not (bf.bit_range sdo_frame 1 1 == 0)) _ _
          (λ _.
            bind-Returns (read_field sdo_frame 3 2) _ _
              (read_field-some sdo_frame 3 2 (omega arith))
              (part-Returns 0 (expedited_size (bf.bit_range sdo_frame 3 2)) sdo_payload
                (omega arith)
                (expedited_size-positive (bf.bit_range sdo_frame 3 2)
                  (bf.bit_range-lt sdo_frame 3 2))))
          (λ _. normal_part-Returns sdo_payload))

  parse_req-Returns :
      (sdo_frame sdo_payload : List ℕ) (specifier : ℕ)
      → 0 < length sdo_frame
      → Returns (parse_req sdo_frame sdo_payload specifier)
  unfolding parse_req
  parse_req-Returns sdo_frame sdo_payload specifier h =
      if-Returns (specifier == 1) _ _
        (λ _. with_part-Returns _ _ (transferred-Returns sdo_frame sdo_payload h))
        (λ _.
          if-Returns (specifier == 2) _ _ (λ _. (_, refl))
            (λ _.
              if-Returns (specifier == 4) _ _
                (λ _.
                  with_part-Returns _ _ (part-Returns 4 8 sdo_frame (omega arith) (omega arith)))
                (λ _. (_, refl))))

  parse_res-Returns :
      (sdo_frame sdo_payload : List ℕ) (specifier : ℕ)
      → 0 < length sdo_frame
      → Returns (parse_res sdo_frame sdo_payload specifier)
  unfolding parse_res
  parse_res-Returns sdo_frame sdo_payload specifier h =
      if-Returns (specifier == 2) _ _
        (λ _. with_part-Returns _ _ (transferred-Returns sdo_frame sdo_payload h))
        (λ _. if-Returns (specifier == 3) _ _ (λ _. (_, refl)) (λ _. (_, refl)))

  parse_coe-Returns :
      (service : CoeServiceType) (sdo_frame sdo_payload : List ℕ)
      → 0 < length sdo_frame
      → Returns (parse_coe service sdo_frame sdo_payload)
  unfolding parse_coe Coe.command_specifier
  parse_coe-Returns CoeServiceType.emmergency sdo_frame sdo_payload h =
      if-Returns (leb 8 (length sdo_payload)) _ _ (λ _. (_, refl)) (λ _. (_, refl))
  parse_coe-Returns CoeServiceType.sdo_req sdo_frame sdo_payload h =
      bind-Returns (read_field sdo_frame 7 5) _ _ (read_field-some sdo_frame 7 5 (omega arith))
        (parse_req-Returns sdo_frame sdo_payload (bf.bit_range sdo_frame 7 5) h)
  parse_coe-Returns CoeServiceType.sdo_res sdo_frame sdo_payload h =
      bind-Returns (read_field sdo_frame 7 5) _ _ (read_field-some sdo_frame 7 5 (omega arith))
        (parse_res-Returns sdo_frame sdo_payload (bf.bit_range sdo_frame 7 5) h)
  parse_coe-Returns CoeServiceType.tx_pdo _ _ _ = (_, refl)
  parse_coe-Returns CoeServiceType.rx_pdo _ _ _ = (_, refl)
  parse_coe-Returns CoeServiceType.tx_pdo_remote_req _ _ _ = (_, refl)
  parse_coe-Returns CoeServiceType.rx_pdo_remote_req _ _ _ = (_, refl)
  parse_coe-Returns CoeServiceType.sdo_info _ _ _ = (_, refl)
  parse_coe-Returns CoeServiceType.other _ _ _ = (_, refl)

module _ ⦃bf : Bitfield⦄ ⦃mt : FromPrimitive MailboxType discriminant other_type⦄
    ⦃ed : FromPrimitive MailboxErrorDetail detail_number unspecified⦄
    ⦃st : FromPrimitive CoeServiceType Coe.discriminant CoeServiceType.other⦄
    ⦃ac : FromPrimitive AbortCode AbortCode.discriminant AbortCode.unknown_abort_code⦄ where
  parse_sdo-Returns : (coe_frame : List ℕ) → 6 ≤ length coe_frame → Returns (parse_sdo coe_frame)
  unfolding parse_sdo Coe.index Coe.sub_index Coe.service_type
  parse_sdo-Returns coe_frame h =
      let sdo_frame = drop 2 coe_frame in
      let l = length-drop 2 coe_frame in
      bind-Returns (slice_from 2 coe_frame) sdo_frame _ (slice_from-some 2 coe_frame (omega arith))
        (bind-Returns (slice_from 4 sdo_frame) _ _ (slice_from-some 4 sdo_frame (omega (arith, l)))
          (bind-Returns (read_field sdo_frame 23 8) _ _
            (read_field-some sdo_frame 23 8 (omega (arith, l)))
            (bind-Returns (read_field sdo_frame 31 24) _ _
              (read_field-some sdo_frame 31 24 (omega (arith, l)))
              (bind-Returns (read_field coe_frame 15 12) _ _
                (read_field-some coe_frame 15 12 (omega arith))
                (with_index-Returns
                  (record {
                    index = bf.bit_range sdo_frame 23 8;
                    sub_index = bf.bit_range sdo_frame 31 24;
                  })
                  _
                  (parse_coe-Returns (st.from (bf.bit_range coe_frame 15 12)) sdo_frame
                    (drop 4 sdo_frame) (omega (arith, l))))))))

  parse-Returns :
      (t : MailboxType) (bytes coe_frame : List ℕ)
      → length bytes ≤ 6 + length coe_frame
      → Returns (parse t bytes coe_frame)
  unfolding parse
  parse-Returns error_type bytes coe_frame h =
      if-Returns (leb 4 (length coe_frame)) _ _
        (λ e.
          bind-Returns (read_field coe_frame 31 16) _ _
            (read_field-some coe_frame 31 16 (ground arith)) (_, refl))
        (λ _. (_, refl))
  parse-Returns coe_type bytes coe_frame h =
      if-Returns (ltb (length bytes) 12) _ _ (λ _. (_, refl))
        (λ e. parse_sdo-Returns coe_frame (ground arith))
  parse-Returns aoe_type _ _ _ = (_, refl)
  parse-Returns eoe_type _ _ _ = (_, refl)
  parse-Returns foe_type _ _ _ = (_, refl)
  parse-Returns soe_type _ _ _ = (_, refl)
  parse-Returns voe_type _ _ _ = (_, refl)
  parse-Returns other_type _ _ _ = (_, refl)

  -- Whatever the bytes of a message are, reading it does not panic: it gives a message or a length error.
  pub mailbox_returns :
      (bytes : List ℕ) → (r : Result Mailbox LengthError) × (mailbox bytes ≡ some r)
  unfolding mailbox message MailboxFrame.mailbox_type
  mailbox_returns bytes =
      let l = length-drop 6 bytes in
      if-Returns (ltb (length bytes) 6) _ _ (λ _. (_, refl))
        (λ e.
          let long : 6 ≤ length bytes = ground arith in
          bind-Returns (slice_from 6 bytes) _ _ (slice_from-some 6 bytes long) (
            bind-Returns (read_field bytes 43 40) _ _ (read_field-some bytes 43 40 (omega arith)) (
              parse-Returns (mt.from (bf.bit_range bytes 43 40)) bytes (drop 6 bytes)
                (omega (arith, l)))))
