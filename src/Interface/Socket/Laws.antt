-- ===== src/Interface/Socket/Laws.antt =====
-- src/interface/socket_if.rs: a `PduSocket` hands on what was left in it, once.
use ethercat.Base.{
  ℕ, zero, suc, ◌≡◌, ◌≤◌, refl, ap, sym, ◌∙◌, Bool, true, false, Option, none, some, List, [], ◌∷◌,
  length, take, overwrite, length-overwrite, >>=-eq-some, some_inj, arith,
}
use ethercat.Interface.{Command, Pdu}
use ethercat.Interface.Socket.{
  PduSocket, set_pdu, get_recieved_pdu, take_pdu, taken, recieve, slice_to,
}

pub slice_to-some : (n : ℕ) (buf : List ℕ) → n ≤ length buf → slice_to n buf ≡ some (take n buf)
unfolding slice_to
slice_to-some n buf h = ground arith

-- A PDU left in a socket, with data that fits, is taken out as it is and only once, and until the answer
-- there is nothing to receive.
pub set_pdu-take_pdu :
    (s : PduSocket) (buf : List ℕ) (command : Command) (n : ℕ)
    → n ≤ length buf
    → (s' : PduSocket) × (take_pdu (set_pdu s buf (some (command, n)))
        ≡ some (s', some (record { command = command; bytes = take n buf; wkc = 0 })))
      × (take_pdu s' ≡ some (s', none))
      × (get_recieved_pdu (set_pdu s buf (some (command, n))) ≡ some none)
      × (get_recieved_pdu s' ≡ some none)
unfolding set_pdu take_pdu get_recieved_pdu
set_pdu-take_pdu s buf command n h = (
  record s { data_buf = buf; recv_flag = false; wkc = 0; command = none; data_length = n },
  rw (slice_to-some n buf h) refl,
  refl,
  refl,
  refl,
)

take_overwritten :
    (n : ℕ) (buf bytes : List ℕ)
    → length bytes ≡ n
    → n ≤ length buf
    → take n (overwrite buf bytes) ≡ bytes
take_overwritten zero [] [] e h = refl
take_overwritten (suc n) [] [] e h = absurd (omega arith)
take_overwritten zero (x ∷ xs) [] e h = refl
take_overwritten (suc n) (x ∷ xs) [] e h = absurd (omega arith)
take_overwritten n [] (y ∷ ys) e h = absurd (omega arith)
take_overwritten zero (x ∷ xs) (y ∷ ys) e h = absurd (omega arith)
take_overwritten (suc n) (x ∷ xs) (y ∷ ys) e h =
    ap (λ zs. y ∷ zs) (take_overwritten n xs ys (omega arith) (omega arith))

-- The answer that is put into a socket, with as much data as was sent, is found there as it is, and from
-- then on no PDU is taken out.
recieve-get_recieved_pdu :
    (s : PduSocket) (pdu : Pdu)
    → length pdu.bytes ≡ s.data_length
    → s.data_length ≤ length s.data_buf
    → (get_recieved_pdu (recieve s pdu) ≡ some (some pdu))
      × (take_pdu (recieve s pdu) ≡ some (recieve s pdu, none))
unfolding recieve get_recieved_pdu take_pdu
recieve-get_recieved_pdu s pdu e h = (
  rw
      (slice_to-some s.data_length (overwrite s.data_buf pdu.bytes)
        (omega (arith, length-overwrite s.data_buf pdu.bytes)))
      (rw (take_overwritten s.data_length s.data_buf pdu.bytes e h) refl),
  refl,
)

-- A PDU waits in a socket if it has a command that is not that of an answer.
unfoldable pub waits : Bool → Option Command → ℕ
waits true command = 0
waits false none = 0
waits false (some command) = 1

-- The number of PDUs that a socket gives away.
unfoldable pub sent_on : Option Pdu → ℕ
sent_on none = 0
sent_on (some pdu) = 1

pub take_pdu-waits :
    (s : PduSocket) {t : PduSocket} {pdu : Option Pdu}
    → take_pdu s ≡ some (t, pdu)
    → (waits s.recv_flag s.command ≡ sent_on pdu) × (waits t.recv_flag t.command ≡ 0)
unfolding take_pdu taken waits sent_on
take_pdu-waits s {t = t} {pdu = pdu} h = go s.recv_flag s.command refl refl h
  where
    go :
        (b : Bool) (c : Option Command)
        → s.recv_flag ≡ b
        → s.command ≡ c
        → taken b c s ≡ some (t, pdu)
        → (waits b c ≡ sent_on pdu) × (waits t.recv_flag t.command ≡ 0)
    go true c e f h =
        let k = some_inj h in
        (
          ap (λ o. sent_on o.1) k,
          ap (λ o. waits o.0.recv_flag o.0.command) (sym k) ∙ ap (λ b. waits b s.command) e,
        )
    go false none e f h =
        let k = some_inj h in
        (
          ap (λ o. sent_on o.1) k,
          ap (λ o. waits o.0.recv_flag o.0.command) (sym k) ∙ ap (λ b. waits b none) e,
        )
    go false (some c) e f h =
        let (bytes, _, h) = >>=-eq-some (slice_to s.data_length s.data_buf) _ h in
        let k = some_inj h in
        (
          ap (λ o. sent_on o.1) k,
          ap (λ o. waits o.0.recv_flag o.0.command) (sym k) ∙ ap (λ b. waits b none) e,
        )
