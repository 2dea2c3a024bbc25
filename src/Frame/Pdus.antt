-- ===== src/Frame/Pdus.antt =====
-- src/frame/frame_util.rs: the iterators over the PDUs that stand one after another in a buffer.
pub mod Laws
mod Tests
use ethercat.Base.{
  ℕ, zero, suc, ◌+◌, ◌-◌, Bool, ◌&&◌, Option, none, some, List, [], ◌∷◌, length, drop, slice, ltb,
  ◌==◌, if◌then◌else◌, ◌>>=◌, Outcome, returned, panicked, out_of_fuel,
}
use ethercat.Foreign.{Bitfield}
use ethercat.Frame.{pdu_header_size, wkc_length, ethernet_header_size, ethercat_header_size}
use ethercat.Frame.EtherCatPdu

-- `EtherCatPdus` and `EtherCatPduIndexes`.
pub record EtherCatPdus : Type 0 where
  pub buffer : List ℕ
  pub offset : ℕ
  pub length : ℕ

unfoldable pub new : List ℕ → ℕ → ℕ → EtherCatPdus
new buffer length frame_header_size = record {
  buffer = buffer;
  offset = frame_header_size;
  length = length;
}

unfoldable pub new_for_ethercat_frame : List ℕ → ℕ → EtherCatPdus
unfolding new
new_for_ethercat_frame buffer length =
    new buffer length (ethercat_header_size + ethernet_header_size)

go_on : {A : Type 0} → A → Outcome (List A) → Outcome (List A)
go_on a (returned xs) = returned (a ∷ xs)
go_on a panicked = panicked
go_on a out_of_fuel = out_of_fuel

and_rest :
    {A : Type 0}
    → (EtherCatPdus → Outcome (List A))
    → Option (Option (EtherCatPdus × A))
    → Outcome (List A)
unfolding go_on
and_rest rest none = panicked
and_rest rest (some none) = returned []
and_rest rest (some (some (p, a))) = go_on a (rest p)

-- The panic as `none`. Below, the fuel is enough.
ended : {A : Type 0} → Outcome A → Option A
ended (returned a) = some a
ended panicked = none
ended out_of_fuel = none

module _ ⦃bf : Bitfield⦄ where
  -- `get(offset)?` and `buffer[offset..].get(HEADER_SIZE - 1)?`.
  header_fits : EtherCatPdus → Bool
  header_fits p =
      ltb p.offset (length p.buffer) && ltb (pdu_header_size - 1) (length (drop p.offset p.buffer))

  next_by : EtherCatPdus → ℕ → Option (Option (EtherCatPdus × List ℕ))
  next_by p len =
      if len == 0
      then some none
      else if ltb p.offset p.length
      then (do
        bytes ← slice p.offset (p.offset + pdu_header_size + len + wkc_length) p.buffer
        some (some (record p { offset = p.offset + pdu_header_size + len + wkc_length }, bytes)))
      else some none

  -- `EtherCatPdus::next`. The outer `none` is the panic of the slice.
  unfoldable pub next : EtherCatPdus → Option (Option (EtherCatPdus × List ℕ))
  unfolding header_fits next_by
  next p =
      if header_fits p
      then (do len ← EtherCatPdu.length (drop p.offset p.buffer); next_by p len)
      else some none

  index_by : EtherCatPdus → ℕ → Option (EtherCatPdus × ℕ)
  index_by p len =
      if len == 0
      then none
      else if ltb p.offset p.length
      then some (record p { offset = p.offset + pdu_header_size + len + wkc_length }, p.offset)
      else none

  -- `EtherCatPduIndexes::next`, with the same layers.
  unfoldable pub next_index : EtherCatPdus → Option (Option (EtherCatPdus × ℕ))
  unfolding header_fits index_by
  next_index p =
      if header_fits p
      then (do len ← EtherCatPdu.length (drop p.offset p.buffer); some (index_by p len))
      else some none

  -- What a `for` loop over the iterator goes through.
  unfoldable pub pdus_from : ℕ → EtherCatPdus → Outcome (List (List ℕ))
  unfolding and_rest
  pdus_from zero p = out_of_fuel
  pdus_from (suc fuel) p = and_rest (λ q. pdus_from fuel q) (next p)

  unfoldable pub indexes_from : ℕ → EtherCatPdus → Outcome (List ℕ)
  unfolding and_rest
  indexes_from zero p = out_of_fuel
  indexes_from (suc fuel) p = and_rest (λ q. indexes_from fuel q) (next_index p)

  -- A PDU has more than 12 bytes, so there are fewer than the bytes of the buffer.
  unfoldable pub pdus_of : EtherCatPdus → Option (List (List ℕ))
  unfolding pdus_from ended
  pdus_of p = ended (pdus_from (suc (length p.buffer)) p)

  unfoldable pub indexes_of : EtherCatPdus → Option (List ℕ)
  unfolding indexes_from ended
  indexes_of p = ended (indexes_from (suc (length p.buffer)) p)
