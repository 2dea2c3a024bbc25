-- ===== src/Interface/PduIf/Codec.antt =====
-- src/interface/pdu_if.rs: the bytes of a PDU, written by `add_pdu` and read by the iterator over the buffer.
use ethercat.Base.{
  ℕ, ◌/◌, ◌%◌, ◌^◌, ◌<◌, ◌≡◌, inl, inr, ap, ◌∙◌, some, List, ◌++◌, length, length-append, replicate,
  arith,
}
use ethercat.Foreign.{Bitfield}
use ethercat.Foreign.Bits.{read_field, read_field-some, write_field-some}
use ethercat.Interface.{Command, discriminant}
use ethercat.Frame.EtherCatPdu
use ethercat.Interface.PduIf.{header}

module _ ⦃bf : Bitfield⦄ where
  -- The bytes of a header with these fields.
  pub record IsHeader (h : List ℕ) (index : ℕ) (command : Command) (size : ℕ) : Type 0 where
    pub ten : length h ≡ 10
    pub index_is : bf.bit_range h 15 8 ≡ index
    pub type_is : bf.bit_range h 7 0 ≡ discriminant command.c_type
    pub adp_is : bf.bit_range h 31 16 ≡ command.adp
    pub ado_is : bf.bit_range h 47 32 ≡ command.ado
    pub size_is : bf.bit_range h 58 48 ≡ size

  -- A field of a header is read in a buffer that begins with it.
  pub read_field-append :
      (h rest : List ℕ) (msb lsb : ℕ)
      → msb / 8 < length h
      → read_field (h ++ rest) msb lsb ≡ some (bf.bit_range h msb lsb)
  read_field-append h rest msb lsb k =
      read_field-some (h ++ rest) msb lsb (omega (arith, length-append h rest))
      ∙ ap some (bf.bit_range-append h rest msb lsb (omega arith))

  discriminant-lt : (c : Command) → discriminant c.c_type < 2 ^ 8
  unfolding discriminant
  discriminant-lt c = ground arith

  h1 : ℕ → List ℕ
  h1 i = bf.set_bit_range (replicate 10 0) 15 8 i

  h2 : ℕ → Command → List ℕ
  h2 i c = bf.set_bit_range (h1 i) 7 0 (discriminant c.c_type)

  h3 : ℕ → Command → List ℕ
  h3 i c = bf.set_bit_range (h2 i c) 31 16 c.adp

  h4 : ℕ → Command → List ℕ
  h4 i c = bf.set_bit_range (h3 i c) 47 32 c.ado

  h5 : ℕ → Command → ℕ → List ℕ
  h5 i c n = bf.set_bit_range (h4 i c) 58 48 n

  -- The header that `add_pdu` makes has the fields it was given, if they fit.
  pub header-IsHeader :
      (i : ℕ) (c : Command) (n : ℕ)
      → i < 2 ^ 8
      → c.adp < 2 ^ 16
      → c.ado < 2 ^ 16
      → n < 2 ^ 11
      → (h : List ℕ) × (header i c n ≡ some h) × IsHeader h i c n
  unfolding header EtherCatPdu.set_index EtherCatPdu.set_command_type EtherCatPdu.set_adp
      EtherCatPdu.set_ado EtherCatPdu.set_length h1 h2 h3 h4 h5
  header-IsHeader i c n hi ha ho hn =
      let l1 = bf.length-set_bit_range (replicate 10 0) 15 8 i in
      let l2 = bf.length-set_bit_range (h1 i) 7 0 (discriminant c.c_type) ∙ l1 in
      let l3 = bf.length-set_bit_range (h2 i c) 31 16 c.adp ∙ l2 in
      let l4 = bf.length-set_bit_range (h3 i c) 47 32 c.ado ∙ l3 in
      let l5 = bf.length-set_bit_range (h4 i c) 58 48 n ∙ l4 in
      (
        h5 i c n,
        rw
            (
              write_field-some (replicate 10 0) 15 8 i (omega arith),
              write_field-some (h1 i) 7 0 (discriminant c.c_type) (omega (arith, l1)),
              write_field-some (h2 i c) 31 16 c.adp (omega (arith, l2)),
              write_field-some (h3 i c) 47 32 c.ado (omega (arith, l3)),
              write_field-some (h4 i c) 58 48 (n % 2 ^ 16) (omega (arith, l4)),
            )
            (ap (λ v. some (bf.set_bit_range (h4 i c) 58 48 v)) (omega arith)),
        record {
          ten = l5;
          index_is =
              bf.bit_range-set_bit_range_disjoint (h4 i c) 58 48 n 15 8 (inr (omega arith))
              ∙ bf.bit_range-set_bit_range_disjoint (h3 i c) 47 32 c.ado 15 8 (inr (omega arith))
              ∙ bf.bit_range-set_bit_range_disjoint (h2 i c) 31 16 c.adp 15 8 (inr (omega arith))
              ∙ bf.bit_range-set_bit_range_disjoint (h1 i) 7 0 (discriminant c.c_type) 15 8
                  (inl (omega arith))
              ∙ bf.bit_range-set_bit_range (replicate 10 0) 15 8 i (omega arith) (omega arith) hi;
          type_is =
              bf.bit_range-set_bit_range_disjoint (h4 i c) 58 48 n 7 0 (inr (omega arith))
              ∙ bf.bit_range-set_bit_range_disjoint (h3 i c) 47 32 c.ado 7 0 (inr (omega arith))
              ∙ bf.bit_range-set_bit_range_disjoint (h2 i c) 31 16 c.adp 7 0 (inr (omega arith))
              ∙ bf.bit_range-set_bit_range (h1 i) 7 0 (discriminant c.c_type) (omega arith)
                  (omega (arith, l1)) (discriminant-lt c);
          adp_is =
              bf.bit_range-set_bit_range_disjoint (h4 i c) 58 48 n 31 16 (inr (omega arith))
              ∙ bf.bit_range-set_bit_range_disjoint (h3 i c) 47 32 c.ado 31 16 (inr (omega arith))
              ∙ bf.bit_range-set_bit_range (h2 i c) 31 16 c.adp (omega arith) (omega (arith, l2))
                  ha;
          ado_is =
              bf.bit_range-set_bit_range_disjoint (h4 i c) 58 48 n 47 32 (inr (omega arith))
              ∙ bf.bit_range-set_bit_range (h3 i c) 47 32 c.ado (omega arith) (omega (arith, l3))
                  ho;
          size_is =
              bf.bit_range-set_bit_range (h4 i c) 58 48 n (omega arith) (omega (arith, l4)) hn;
        },
      )
