-- ===== src/Frame/EtherCatPdu.antt =====
-- src/frame/ethercat.rs: the header of a PDU, `EtherCatPdu`, and what follows it.
use ethercat.Base.{ℕ, ◌+◌, ◌*◌, ◌^◌, Option, none, some, List, Bool, get_elem?, slice_from, ◌>>=◌}
use ethercat.Foreign.{Bitfield}
use ethercat.Foreign.Bits.{read_field, write_field, write_flag}
use ethercat.Frame.{pdu_header_size}

module _ ⦃bf : Bitfield⦄ where
  unfoldable pub command_type : List ℕ → Option ℕ
  command_type bytes = read_field bytes 7 0

  unfoldable pub set_command_type : List ℕ → ℕ → Option (List ℕ)
  set_command_type bytes v = write_field bytes 7 0 v

  unfoldable pub index : List ℕ → Option ℕ
  index bytes = read_field bytes 15 8

  unfoldable pub set_index : List ℕ → ℕ → Option (List ℕ)
  set_index bytes v = write_field bytes 15 8 v

  unfoldable pub adp : List ℕ → Option ℕ
  adp bytes = read_field bytes 31 16

  unfoldable pub set_adp : List ℕ → ℕ → Option (List ℕ)
  set_adp bytes v = write_field bytes 31 16 v

  unfoldable pub ado : List ℕ → Option ℕ
  ado bytes = read_field bytes 47 32

  unfoldable pub set_ado : List ℕ → ℕ → Option (List ℕ)
  set_ado bytes v = write_field bytes 47 32 v

  unfoldable pub length : List ℕ → Option ℕ
  length bytes = read_field bytes 58 48

  unfoldable pub set_length : List ℕ → ℕ → Option (List ℕ)
  set_length bytes v = write_field bytes 58 48 v

  unfoldable pub set_is_circulated : List ℕ → Bool → Option (List ℕ)
  set_is_circulated bytes v = write_flag bytes 62 v

  unfoldable pub set_has_next : List ℕ → Bool → Option (List ℕ)
  set_has_next bytes v = write_flag bytes 63 v

  unfoldable pub set_irq : List ℕ → ℕ → Option (List ℕ)
  set_irq bytes v = write_field bytes (64 + 15) 64 v

  both : Option ℕ → Option ℕ → Option ℕ
  both (some low) (some high) = some (high * 2 ^ 8 + low)
  both (some low) none = none
  both none high = none

  -- The outer `none` is the panic of `length`, the inner one that the slice ends before the counter.
  unfoldable pub wkc : List ℕ → Option (Option ℕ)
  unfolding length both
  wkc bytes = do
    len ← length bytes
    some (
        both (get_elem? bytes (pdu_header_size + len))
          (get_elem? bytes (pdu_header_size + len + 1)))

unfoldable pub without_header : List ℕ → Option (List ℕ)
without_header bytes = slice_from pdu_header_size bytes
