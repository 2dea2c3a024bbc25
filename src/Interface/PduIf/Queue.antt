-- ===== src/Interface/PduIf/Queue.antt =====
-- src/interface/pdu_if.rs: the PDUs that wait in the buffer, as a list, and how the iterator over the buffer
-- gives them back.
use ethercat.Base.{
  returned, ℕ, zero, suc, ◌+◌, ◌≤◌, ◌<◌, ◌≡◌, refl, ap, sym, ◌∙◌, none, some, List, [], ◌∷◌, ◌++◌,
  length, length-append, length-drop, drop, slice, slice-append, slice_from-append, drop_append,
  take_append, append_assoc, append-nil, arith,
}
use ethercat.Foreign.{Bitfield}
use ethercat.Foreign.Bits.{read_field}
use ethercat.Interface.{Command, discriminant}
use ethercat.Interface.Socket.Laws.{slice_to-some}
use ethercat.Frame.EtherCatPdu
use ethercat.Frame.EtherCatPdu.{without_header}
use ethercat.Frame.Pdus
use ethercat.Frame.Pdus.Laws.{pdus_from-end, pdus_from-next}
use ethercat.Frame.Pdus.{EtherCatPdus, next, pdus_from}
use ethercat.Interface.PduIf.{payload}
use ethercat.Interface.PduIf.Codec.{IsHeader, read_field-append}

-- A PDU that waits, with the data it was given.
pub record Waiting : Type 0 where
  pub index : ℕ
  pub command : Command
  pub bytes : List ℕ

module _ ⦃bf : Bitfield⦄ where
  -- Header, data and working counter of a PDU.
  pub record IsFrame (frame : List ℕ) (e : Waiting) : Type 0 where
    pub header : List ℕ
    pub wkc : List ℕ
    pub parts : frame ≡ header ++ (e.bytes ++ wkc)
    pub fields : IsHeader header e.index e.command (length e.bytes)
    pub two : length wkc ≡ 2

  abbrev pub Encoded : List Waiting → List ℕ → Type 0
  Encoded [] bs = bs ≡ []
  Encoded (e ∷ es) bs =
      (frame : List ℕ) × (rest : List ℕ) × (bs ≡ frame ++ rest) × IsFrame frame e × Encoded es rest

  pub Encoded-snoc :
      (es : List Waiting) (e : Waiting) (bs frame : List ℕ)
      → Encoded es bs
      → IsFrame frame e
      → Encoded (es ++ (e ∷ [])) (bs ++ frame)
  Encoded-snoc [] e bs frame h f =
      (frame, [], ap (λ v. v ++ frame) h ∙ sym (append-nil frame), f, refl)
  Encoded-snoc (x ∷ es) e bs frame (first, rest, eq, g, h) f = (
    first,
    rest ++ frame,
    ap (λ v. v ++ frame) eq ∙ append_assoc first rest frame,
    g,
    Encoded-snoc es e rest frame h f,
  )

  pub length-IsFrame :
      (frame : List ℕ) (e : Waiting) → IsFrame frame e → length frame ≡ 12 + length e.bytes
  length-IsFrame frame e f = omega (
    arith,
    ap length f.parts,
    length-append f.header (e.bytes ++ f.wkc),
    length-append e.bytes f.wkc,
    f.fields.ten,
    f.two,
  )

  pub Encoded-length : (es : List Waiting) (bs : List ℕ) → Encoded es bs → length es ≤ length bs
  Encoded-length [] bs h = omega arith
  Encoded-length (e ∷ es) bs (frame, rest, eq, f, h) = omega (
    arith,
    ap length eq,
    length-append frame rest,
    length-IsFrame frame e f,
    Encoded-length es rest h,
  )

  -- A PDU in which the fields and the data of `e` are read.
  abbrev pub Carries : List ℕ → Waiting → Type 0
  Carries pdu e =
      (EtherCatPdu.index pdu ≡ some e.index)
      × (EtherCatPdu.command_type pdu ≡ some (discriminant e.command.c_type))
      × (EtherCatPdu.adp pdu ≡ some e.command.adp)
      × (EtherCatPdu.ado pdu ≡ some e.command.ado)
      × (payload pdu ≡ some e.bytes)

  abbrev pub AllCarry : List (List ℕ) → List Waiting → Type 0
  AllCarry [] [] = Unit
  AllCarry [] (e ∷ es) = ⊥
  AllCarry (pdu ∷ pdus) [] = ⊥
  AllCarry (pdu ∷ pdus) (e ∷ es) = Carries pdu e × AllCarry pdus es

  pub length-AllCarry :
      (pdus : List (List ℕ)) (es : List Waiting) → AllCarry pdus es → length pdus ≡ length es
  length-AllCarry [] [] c = refl
  length-AllCarry [] (e ∷ es) c = absurd c
  length-AllCarry (p ∷ ps) [] c = absurd c
  length-AllCarry (p ∷ ps) (e ∷ es) (_, c) = ap suc (length-AllCarry ps es c)

  length-IsHeader :
      (h rest : List ℕ) (i : ℕ) (c : Command) (n : ℕ)
      → IsHeader h i c n
      → EtherCatPdu.length (h ++ rest) ≡ some n
  unfolding EtherCatPdu.length
  length-IsHeader h rest i c n f =
      read_field-append h rest 58 48 (omega (arith, f.ten)) ∙ ap some f.size_is

  payload-IsFrame : (frame : List ℕ) (e : Waiting) → IsFrame frame e → payload frame ≡ some e.bytes
  unfolding payload without_header
  payload-IsFrame frame e f =
      rw
        (
          f.parts,
          slice_from-append f.header (e.bytes ++ f.wkc) 10 (sym f.fields.ten),
          length-IsHeader f.header (e.bytes ++ f.wkc) e.index e.command (length e.bytes) f.fields,
        )
        (slice_to-some (length e.bytes) (e.bytes ++ f.wkc)
            (omega (arith, length-append e.bytes f.wkc))
          ∙ ap some (take_append e.bytes f.wkc (length e.bytes) refl))

  IsFrame-Carries : (frame : List ℕ) (e : Waiting) → IsFrame frame e → Carries frame e
  unfolding EtherCatPdu.index EtherCatPdu.command_type EtherCatPdu.adp EtherCatPdu.ado
  IsFrame-Carries frame e f =
      let body = e.bytes ++ f.wkc in
      let ten = f.fields.ten in
      (
        ap (λ v. read_field v 15 8) f.parts
            ∙ read_field-append f.header body 15 8 (omega (arith, ten))
            ∙ ap some f.fields.index_is,
        ap (λ v. read_field v 7 0) f.parts
            ∙ read_field-append f.header body 7 0 (omega (arith, ten))
            ∙ ap some f.fields.type_is,
        ap (λ v. read_field v 31 16) f.parts
            ∙ read_field-append f.header body 31 16 (omega (arith, ten))
            ∙ ap some f.fields.adp_is,
        ap (λ v. read_field v 47 32) f.parts
            ∙ read_field-append f.header body 47 32 (omega (arith, ten))
            ∙ ap some f.fields.ado_is,
        payload-IsFrame frame e f,
      )

  -- At its end the iterator stops, whatever lies behind.
  next_end : (p : EtherCatPdus) → p.length ≤ p.offset → next p ≡ some none
  unfolding next EtherCatPdu.length read_field
  next_end p h = ground arith

  next_end-new :
      (buffer : List ℕ) (total offset : ℕ)
      → total ≤ offset
      → next (Pdus.new buffer total offset) ≡ some none
  unfolding Pdus.new
  next_end-new buffer total offset h = next_end (Pdus.new buffer total offset) h

  next_known :
      (p : EtherCatPdus) (n : ℕ) (frame : List ℕ)
      → EtherCatPdu.length (drop p.offset p.buffer) ≡ some n
      → 1 ≤ n
      → p.offset < p.length
      → p.offset + 12 + n ≤ length p.buffer
      → slice p.offset (p.offset + 10 + n + 2) p.buffer ≡ some frame
      → next p ≡ some (some (record p { offset = p.offset + 10 + n + 2 }, frame))
  unfolding next
  next_known p n frame e k l m s = rw e (rw s (ground (arith, length-drop p.offset p.buffer)))

  next-IsFrame :
      (pre frame rest : List ℕ) (e : Waiting) (total : ℕ)
      → IsFrame frame e
      → 1 ≤ length e.bytes
      → length pre < total
      → next (Pdus.new (pre ++ (frame ++ rest)) total (length pre))
        ≡ some (
            some (
              Pdus.new (pre ++ (frame ++ rest)) total (length pre + 10 + length e.bytes + 2),
              frame,
            ))
  unfolding Pdus.new
  next-IsFrame pre frame rest e total f k l =
      next_known (Pdus.new (pre ++ (frame ++ rest)) total (length pre)) (length e.bytes) frame
        (ap EtherCatPdu.length (
            drop_append pre (frame ++ rest) (length pre) refl
            ∙ ap (λ v. v ++ rest) f.parts
            ∙ append_assoc f.header (e.bytes ++ f.wkc) rest)
          ∙ length-IsHeader f.header ((e.bytes ++ f.wkc) ++ rest) e.index e.command (length e.bytes)
              f.fields)
        k l
        (omega (
          arith,
          length-append pre (frame ++ rest),
          length-append frame rest,
          length-IsFrame frame e f,
        ))
        (slice-append pre frame rest (length pre) (length pre + 10 + length e.bytes + 2) refl
          (omega (arith, length-IsFrame frame e f)))

  -- Each PDU carries data.
  abbrev pub AllFilled : List Waiting → Type 0
  AllFilled [] = Unit
  AllFilled (e ∷ es) = (1 ≤ length e.bytes) × AllFilled es

  pub pdus_from-Encoded :
      (es : List Waiting) (pre bs tail : List ℕ) (f total : ℕ)
      → Encoded es bs
      → AllFilled es
      → length es ≤ f
      → total ≡ length pre + length bs
      → (pdus : List (List ℕ)) × (pdus_from
            (suc f)
            (Pdus.new (pre ++ (bs ++ tail)) total (length pre))
          ≡ returned pdus)
        × AllCarry pdus es
  pdus_from-Encoded [] pre bs tail f total h k l t = (
    [],
    pdus_from-end f (Pdus.new (pre ++ (bs ++ tail)) total (length pre))
        (next_end-new (pre ++ (bs ++ tail)) total (length pre) (omega (arith, ap length h))),
    tt,
  )
  pdus_from-Encoded (e ∷ es) pre bs tail zero total h k l t = absurd (omega arith)
  pdus_from-Encoded (e ∷ es) pre bs tail (suc f) total (frame, rest, eq, g, h) (k, ks) l t =
      let n = length-IsFrame frame e g in
      let all = ap length eq ∙ length-append frame rest in
      let front = length-append pre frame in
      let (pdus, ends, carry) =
        pdus_from-Encoded es (pre ++ frame) rest tail f total h ks (omega arith)
          (omega (arith, n, all, front)) in
      (
        frame ∷ pdus,
        ap (λ b. pdus_from (suc (suc f)) (Pdus.new (pre ++ b) total (length pre)))
              (ap (λ v. v ++ tail) eq ∙ append_assoc frame rest tail)
            ∙ pdus_from-next (suc f) _ _ frame pdus
                (next-IsFrame pre frame (rest ++ tail) e total g k (omega (arith, n, all)))
                (ap
                    (λ b.
                      pdus_from (suc f) (Pdus.new b total (length pre + 10 + length e.bytes + 2)))
                    (sym (append_assoc pre frame (rest ++ tail)))
                  ∙ ap
                      (λ o. pdus_from (suc f) (Pdus.new ((pre ++ frame) ++ (rest ++ tail)) total o))
                      (omega (arith, n, front))
                  ∙ ends),
        (IsFrame-Carries frame e g, carry),
      )
