-- ===== src/Frame/Mailbox/Upload.antt =====
-- src/frame/ethercat.rs: what a message with an upload request holds after it was written.
use ethercat.Base.{
  ℕ, ◌^◌, ◌≤◌, ◌<◌, ◌≡◌, inl, inr, refl, ap, sym, ◌∙◌, false, some, List, ◌++◌, length,
  length-append, split_at, slice_from-append, at_from-append, append_assoc, arith,
}
use ethercat.Foreign.{Bitfield}
use ethercat.Foreign.Bits.{write_field-some, write_flag-some}
use ethercat.Frame.Coe
use ethercat.Frame.Coe.{CoeServiceType}
use ethercat.Frame.MailboxFrame
use ethercat.Frame.MailboxFrame.{message}
use ethercat.Frame.Mailbox.{discriminant, CoeIndex, upload, sdo_req, coe_message}
use ethercat.Frame.Mailbox.Write.{
  set_coe_header, set_sdo_header, set_request, set_sdo_req, set_mailbox,
}

module _ ⦃bf : Bitfield⦄ where
  -- The header of a request, with the fields that are read from it again.
  record SdoHeader (specifier : ℕ) (i : CoeIndex) (before after : List ℕ) : Type 0 where
    same_length : length after ≡ length before
    specifier_is : bf.bit_range after 7 5 ≡ specifier
    index_is : bf.bit_range after 23 8 ≡ i.index
    sub_index_is : bf.bit_range after 31 24 ≡ i.sub_index

  t1 : List ℕ → List ℕ
  t1 t = bf.set_bit_range t 4 4 0

  t2 : List ℕ → List ℕ
  t2 t = bf.set_bit_range (t1 t) 3 2 0

  t3 : List ℕ → ℕ → List ℕ
  t3 t n = bf.set_bit_range (t2 t) 7 5 n

  t4 : List ℕ → ℕ → List ℕ
  t4 t n = bf.set_bit_range (t3 t n) 1 1 0

  t5 : List ℕ → ℕ → List ℕ
  t5 t n = bf.set_bit_range (t4 t n) 0 0 0

  t6 : List ℕ → ℕ → CoeIndex → List ℕ
  t6 t n i = bf.set_bit_range (t5 t n) 23 8 i.index

  t7 : List ℕ → ℕ → CoeIndex → List ℕ
  t7 t n i = bf.set_bit_range (t6 t n i) 31 24 i.sub_index

  set_sdo_header-SdoHeader :
      (n : ℕ) (i : CoeIndex) (t : List ℕ)
      → n < 8
      → i.index < 2 ^ 16
      → i.sub_index < 2 ^ 8
      → 4 ≤ length t
      → (t' : List ℕ) × (set_sdo_header n false i t ≡ some t') × SdoHeader n i t t'
  unfolding set_sdo_header Coe.set_complete_access Coe.set_data_set_size Coe.set_command_specifier
      Coe.set_transfer_type Coe.set_size_indicator Coe.set_index Coe.set_sub_index t1 t2 t3 t4 t5 t6
      t7
  set_sdo_header-SdoHeader n i t hn hi hs h =
      let l1 = bf.length-set_bit_range t 4 4 0 in
      let l2 = bf.length-set_bit_range (t1 t) 3 2 0 ∙ l1 in
      let l3 = bf.length-set_bit_range (t2 t) 7 5 n ∙ l2 in
      let l4 = bf.length-set_bit_range (t3 t n) 1 1 0 ∙ l3 in
      let l5 = bf.length-set_bit_range (t4 t n) 0 0 0 ∙ l4 in
      let l6 = bf.length-set_bit_range (t5 t n) 23 8 i.index ∙ l5 in
      let l7 = bf.length-set_bit_range (t6 t n i) 31 24 i.sub_index ∙ l6 in
      (
        t7 t n i,
        rw
            (
              write_flag-some t 4 false (omega arith),
              write_field-some (t1 t) 3 2 0 (omega (arith, l1)),
              write_field-some (t2 t) 7 5 n (omega (arith, l2)),
              write_flag-some (t3 t n) 1 false (omega (arith, l3)),
              write_flag-some (t4 t n) 0 false (omega (arith, l4)),
              write_field-some (t5 t n) 23 8 i.index (omega (arith, l5)),
              write_field-some (t6 t n i) 31 24 i.sub_index (omega (arith, l6)),
            )
            refl,
        record {
          same_length = l7;
          specifier_is =
              bf.bit_range-set_bit_range_disjoint (t6 t n i) 31 24 i.sub_index 7 5
                (inr (omega arith))
              ∙ bf.bit_range-set_bit_range_disjoint (t5 t n) 23 8 i.index 7 5 (inr (omega arith))
              ∙ bf.bit_range-set_bit_range_disjoint (t4 t n) 0 0 0 7 5 (inl (omega arith))
              ∙ bf.bit_range-set_bit_range_disjoint (t3 t n) 1 1 0 7 5 (inl (omega arith))
              ∙ bf.bit_range-set_bit_range (t2 t) 7 5 n (omega arith) (omega (arith, l2)) hn;
          index_is =
              bf.bit_range-set_bit_range_disjoint (t6 t n i) 31 24 i.sub_index 23 8
                (inr (omega arith))
              ∙ bf.bit_range-set_bit_range (t5 t n) 23 8 i.index (omega arith) (omega (arith, l5))
                  hi;
          sub_index_is =
              bf.bit_range-set_bit_range (t6 t n i) 31 24 i.sub_index (omega arith)
                (omega (arith, l6)) hs;
        },
      )

  set_coe_header-some :
      (u : List ℕ)
      → 2 ≤ length u
      → (u' : List ℕ) × (set_coe_header u ≡ some u')
        × (length u' ≡ length u)
        × (bf.bit_range u' 15 12 ≡ 2)
  unfolding set_coe_header Coe.set_number Coe.set_coe_service_type Coe.discriminant
  set_coe_header-some u h =
      let u1 = bf.set_bit_range u 8 0 0 in
      let l1 = bf.length-set_bit_range u 8 0 0 in
      (
        bf.set_bit_range u1 15 12 2,
        rw (write_field-some u 8 0 0 (omega arith), write_field-some u1 15 12 2 (omega (arith, l1)))
            refl,
        bf.length-set_bit_range u1 15 12 2 ∙ l1,
        bf.bit_range-set_bit_range u1 15 12 2 (omega arith) (omega (arith, l1)) (omega arith),
      )

  -- The three parts of a message with an upload request.
  pub record UploadFrame (i : CoeIndex) (frame : List ℕ) : Type 0 where
    pub head : List ℕ
    pub middle : List ℕ
    pub body : List ℕ
    pub parts : frame ≡ head ++ (middle ++ body)
    pub six : length head ≡ 6
    pub two : length middle ≡ 2
    pub four : 4 ≤ length body
    pub mailbox_type_is : bf.bit_range head 43 40 ≡ 3
    pub service_is : bf.bit_range middle 15 12 ≡ 2
    pub specifier_is : bf.bit_range body 7 5 ≡ 2
    pub index_is : bf.bit_range body 23 8 ≡ i.index
    pub sub_index_is : bf.bit_range body 31 24 ≡ i.sub_index

  -- Setting the parts of a message, one after another.
  set_parts :
      (b m u u' c t t' : List ℕ) (i : CoeIndex)
      → 12 ≤ length b
      → bf.set_bit_range b 43 40 3 ≡ m ++ u
      → length m ≡ 6
      → set_coe_header u ≡ some u'
      → u' ≡ c ++ t
      → length c ≡ 2
      → set_sdo_header 2 false i t ≡ some t'
      → set_sdo_req i upload b ≡ some (bf.set_bit_range m 15 0 10 ++ (c ++ t'))
  unfolding set_sdo_req set_request MailboxFrame.set_mailbox_type MailboxFrame.set_payload_length
      discriminant
  set_parts b m u u' c t t' i h e1 lm e2 e3 lc e4 =
      let lmc = length-append m c in
      rw
        (
          write_field-some b 43 40 3 (omega arith),
          e1,
          at_from-append m u u' 6 set_coe_header (sym lm) e2,
          e3,
          sym (append_assoc m c t),
          slice_from-append (m ++ c) t 8 (omega (arith, lmc)),
          e4,
          at_from-append (m ++ c) t t' 8 (λ _. some t') (omega (arith, lmc)) refl,
          append_assoc m c t',
          write_field-some (m ++ (c ++ t')) 15 0 10 (omega (arith, length-append m (c ++ t'))),
          bf.set_bit_range-append m (c ++ t') 15 0 10 (omega (arith, lm)),
        )
        refl

  pub UploadFrame-set :
      (b : List ℕ) (i : CoeIndex)
      → 12 ≤ length b
      → i.index < 2 ^ 16
      → i.sub_index < 2 ^ 8
      → (frame : List ℕ) × (set_mailbox (coe_message i (sdo_req upload)) b ≡ some frame)
        × UploadFrame i frame
        × (length frame ≡ length b)
  unfolding set_mailbox
  UploadFrame-set b i h hi hs =
      let lb = bf.length-set_bit_range b 43 40 3 in
      let (m, u, e1, lm) = split_at 6 (bf.set_bit_range b 43 40 3) (omega (arith, lb)) in
      let lu = ap length e1 ∙ length-append m u in
      let (u', e2, lu', service) = set_coe_header-some u (omega (arith, lu, lb, lm)) in
      let (c, t, e3, lc) = split_at 2 u' (omega (arith, lu, lu', lb, lm)) in
      let lt = ap length e3 ∙ length-append c t in
      let (t', e4, header) =
        set_sdo_header-SdoHeader 2 i t (omega arith) hi hs
          (omega (arith, lt, lc, lu', lu, lb, lm)) in
      let m' = bf.set_bit_range m 15 0 10 in
      let lm' = bf.length-set_bit_range m 15 0 10 in
      (
        m' ++ (c ++ t'),
        set_parts b m u u' c t t' i h e1 lm e2 e3 lc e4,
        record {
          head = m';
          middle = c;
          body = t';
          parts = refl;
          six = lm' ∙ lm;
          two = lc;
          four = omega (arith, header.same_length, lt, lc, lu', lu, lb, lm);
          mailbox_type_is =
              bf.bit_range-set_bit_range_disjoint m 15 0 10 43 40 (inl (omega arith))
              ∙ sym (bf.bit_range-append m u 43 40 (omega (arith, lm)))
              ∙ ap (λ v. bf.bit_range v 43 40) (sym e1)
              ∙ bf.bit_range-set_bit_range b 43 40 3 (omega arith) (omega arith) (omega arith);
          service_is =
              sym (bf.bit_range-append c t 15 12 (omega (arith, lc)))
              ∙ ap (λ v. bf.bit_range v 15 12) (sym e3)
              ∙ service;
          specifier_is = header.specifier_is;
          index_is = header.index_is;
          sub_index_is = header.sub_index_is;
        },
        omega (
          arith,
          length-append m' (c ++ t'),
          length-append c t',
          header.same_length,
          lm',
          lt,
          lu',
          lu,
          lb,
        ),
      )
