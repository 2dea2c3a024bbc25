-- ===== src/Frame/MailboxFrame.antt =====
-- src/frame/ethercat.rs: the header of a mailbox message, `MailboxFrame`.
use ethercat.Base.{ℕ, ◌≤◌, ◌≡◌, Option, some, List, length, slice_from, arith}
use ethercat.Foreign.{Bitfield}
use ethercat.Foreign.Bits.{read_field, write_field, read_field-some}

abbrev pub header_size : ℕ
header_size = 6

module _ ⦃bf : Bitfield⦄ where
  -- `MailboxFrame::length`.
  unfoldable pub payload_length : List ℕ → Option ℕ
  payload_length bytes = read_field bytes 15 0

  unfoldable pub set_payload_length : List ℕ → ℕ → Option (List ℕ)
  set_payload_length bytes v = write_field bytes 15 0 v

  unfoldable pub address : List ℕ → Option ℕ
  address bytes = read_field bytes 31 16

  unfoldable pub set_address : List ℕ → ℕ → Option (List ℕ)
  set_address bytes v = write_field bytes 31 16 v

  unfoldable pub prioriry : List ℕ → Option ℕ
  prioriry bytes = read_field bytes 39 38

  unfoldable pub set_prioriry : List ℕ → ℕ → Option (List ℕ)
  set_prioriry bytes v = write_field bytes 39 38 v

  unfoldable pub mailbox_type : List ℕ → Option ℕ
  mailbox_type bytes = read_field bytes 43 40

  unfoldable pub set_mailbox_type : List ℕ → ℕ → Option (List ℕ)
  set_mailbox_type bytes v = write_field bytes 43 40 v

  unfoldable pub count : List ℕ → Option ℕ
  count bytes = read_field bytes 46 44

  unfoldable pub set_count : List ℕ → ℕ → Option (List ℕ)
  set_count bytes v = write_field bytes 46 44 v

  pub count-some :
      (bytes : List ℕ) → 6 ≤ length bytes → count bytes ≡ some (bf.bit_range bytes 46 44)
  unfolding count
  count-some bytes h = read_field-some bytes 46 44 (omega arith)

-- `MailboxFrame::without_header`.
unfoldable pub message : List ℕ → Option (List ℕ)
message bytes = slice_from header_size bytes
