-- ===== src/Frame/Mailbox/Tests.antt =====
-- Runs of the messages of a mailbox.
use ethercat.Base.{Result, [], ◌∷◌, ℕ, ◌≡◌, some, List, replicate, length, ok, arith}
use ethercat.Foreign.Lsb0.{lsb0}
use ethercat.Foreign.Messages.{mailbox_types, details, service_types, abort_codes}
use ethercat.Frame.Mailbox.{Mailbox, LengthError, new_sdo_upload_request}
use ethercat.Frame.Mailbox.Parse.{mailbox}
use ethercat.Frame.Mailbox.Write.{set_mailbox}
use ethercat.Frame.Mailbox.Laws.{set_mailbox-mailbox}
use ethercat.Frame.Mailbox.Returns.{mailbox_returns}

set_mailbox-mailbox_example :
    (frame : List ℕ) × (set_mailbox (new_sdo_upload_request 0x6000 1) (replicate 16 0) ≡ some frame)
    × (mailbox frame ≡ some (ok (new_sdo_upload_request 0x6000 1)))
    × (length frame ≡ 16)
set_mailbox-mailbox_example =
    set_mailbox-mailbox (replicate 16 0) 0x6000 1 (omega arith) (omega arith) (omega arith)

-- A message of CANopen that ends before the data of the response that it announces.
abbrev cut_off : List ℕ
cut_off = 10 ∷ 0 ∷ 0 ∷ 0 ∷ 0 ∷ 3 ∷ 0 ∷ 48 ∷ 67 ∷ 0 ∷ 96 ∷ 1 ∷ 5 ∷ []

mailbox_returns_example : (r : Result Mailbox LengthError) × (mailbox cut_off ≡ some r)
mailbox_returns_example = mailbox_returns cut_off
