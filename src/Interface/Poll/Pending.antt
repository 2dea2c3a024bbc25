-- ===== src/Interface/Poll/Pending.antt =====
-- src/interface/socket_if.rs: how many sockets have a PDU that waits to be put into the buffer, and what a turn does to
-- their number and to the counts of the interface.
use ethercat.Base.{
  ℕ, zero, suc, ◌+◌, ◌≡◌, refl, ap, sym, ◌∙◌, Bool, true, Option, none, some, List, [], ◌∷◌, set,
  ltb, ◌>>=◌, >>=-eq-some, some_inj, none_ne_some, if-cases, inl, inr, arith,
}
use mathlib.Core.Path.{subst}
use ethercat.Foreign.{Bitfield, FromPrimitive}
use ethercat.IndexSet.{IndexSet, IndexOption, exist, next_free_index, get_item}
use ethercat.IndexSet.Shape.{get_item_mut-set}
use ethercat.Interface.{Command, CommandType, discriminant, invalid, Pdu}
use ethercat.Interface.Socket.{PduSocket, data_length, take_pdu, recieve}
use ethercat.Interface.Socket.Laws.{waits, sent_on, take_pdu-waits}
use ethercat.Interface.PduIf.{PduInterface, remainig_pdu_data_capacity, add_pdu, write_pdu}
use ethercat.Frame.EtherCatPdu
use ethercat.Interface.Poll.{expected, enqueue, enqueue_slots, hand_over, hand_out, answer_of}

-- The number of slots with a socket in which a PDU waits.
unfoldable pub pending : List (IndexOption PduSocket) → ℕ
unfolding waits
pending [] = 0
pending (next_free_index n ∷ slots) = pending slots
pending (exist socket ∷ slots) = waits socket.recv_flag socket.command + pending slots

module _ {D : Type 0} ⦃bf : Bitfield⦄ where
  -- A PDU that was added is counted.
  record Counted (n : ℕ) (s t : PduInterface D) : Type 0 where
    pub under_way : t.tx_count ≡ s.tx_count
    pub waiting : t.pdu_count ≡ s.pdu_count + n

  add_pdu-Counted :
      (s : PduInterface D) (i len : ℕ) (c : Command) (writer : List ℕ → List ℕ) {t : PduInterface D}
      → add_pdu s i c len writer >>= expected ≡ some t
      → Counted 1 s t
  unfolding add_pdu expected
  add_pdu-Counted s i len c writer h =
      let (o, e, k) = >>=-eq-some (add_pdu s i c len writer) expected h in
      elim (if-cases (ltb s.capacity (s.pdus_total_size + 10 + len + 2)) e) [
        | inl (_, e) ↦ absurd (none_ne_some (ap expected (some_inj e) ∙ k))
        | inr (_, e) ↦ elim (if-cases (ltb 1486 len) e) [
          | inl (_, e) ↦ absurd (none_ne_some (ap expected (some_inj e) ∙ k))
          | inr (_, e) ↦
              let (b, _, e) =
                >>=-eq-some (write_pdu s.buffer s.pdus_total_size i c len writer) _ e in
              subst (Counted 1 s) (some_inj (ap expected (some_inj e) ∙ k))
                (record { under_way = refl; waiting = refl })
        ]
      ]

  enqueue-Counted :
      (i len : ℕ) (s : PduInterface D) (pdu : Option Pdu) {t : PduInterface D}
      → enqueue i s len pdu ≡ some t
      → Counted (sent_on pdu) s t
  unfolding enqueue sent_on
  enqueue-Counted i len s none h =
      subst (Counted 0 s) (some_inj h) (record { under_way = refl; waiting = omega arith })
  enqueue-Counted i len s (some pdu) h = add_pdu-Counted s _ len pdu.command _ h

  -- What the sockets leave if all of them were asked: each PDU that waited is counted, and none waits.
  pub record AllAsked (s t : PduInterface D) (slots slots' : List (IndexOption PduSocket))
      : Type 0 where
    pub under_way : t.tx_count ≡ s.tx_count
    pub waiting : t.pdu_count ≡ s.pdu_count + pending slots
    pub none_pending : pending slots' ≡ 0

  pub enqueue_slots-Asked :
      (i : ℕ) (s : PduInterface D) (slots : List (IndexOption PduSocket))
      {o : PduInterface D × List (IndexOption PduSocket) × Bool}
      → enqueue_slots i s slots ≡ some o
      → o.2 ≡ true
      → AllAsked s o.0 slots o.1
  unfolding enqueue_slots pending
  enqueue_slots-Asked i s [] h =
      subst (λ o. o.2 ≡ true → AllAsked s o.0 [] o.1) (some_inj h)
        λ _. record { under_way = refl; waiting = omega arith; none_pending = refl }
  enqueue_slots-Asked i s (next_free_index n ∷ slots) h =
      let (o, e, h) = >>=-eq-some (enqueue_slots i s slots) _ h in
      let rest = enqueue_slots-Asked i s slots e in
      subst (λ o. o.2 ≡ true → AllAsked s o.0 (next_free_index n ∷ slots) o.1) (some_inj h)
        λ c. record {
          under_way = (rest c).under_way;
          waiting = (rest c).waiting;
          none_pending = (rest c).none_pending;
        }
  enqueue_slots-Asked i s (exist socket ∷ slots) h =
      let (free, _, h) = >>=-eq-some (remainig_pdu_data_capacity s) _ h in
      elim (if-cases (ltb free (data_length socket)) h) [
        | inl (_, h) ↦
            subst (λ o. o.2 ≡ true → AllAsked s o.0 (exist socket ∷ slots) o.1) (some_inj h)
              λ c. absurd (cc)
        | inr (_, h) ↦
            let (t, w, h) = >>=-eq-some (take_pdu socket) _ h in
            let (s', q, h) = >>=-eq-some (enqueue i s (data_length socket) t.1) _ h in
            let (o, e, h) = >>=-eq-some (enqueue_slots (i + 1) s' slots) _ h in
            let rest = enqueue_slots-Asked (i + 1) s' slots e in
            let (k, l) = take_pdu-waits socket w in
            let n = enqueue-Counted i (data_length socket) s t.1 q in
            subst (λ o. o.2 ≡ true → AllAsked s o.0 (exist socket ∷ slots) o.1) (some_inj h)
              λ c. record {
                under_way = (rest c).under_way ∙ n.under_way;
                waiting = omega (arith, (rest c).waiting, n.waiting, k);
                none_pending = omega (arith, (rest c).none_pending, l);
              }
      ]

pending-set :
    (slots : List (IndexOption PduSocket)) (i : ℕ) (s : PduSocket)
    → waits s.recv_flag s.command ≡ 0
    → pending slots ≡ 0
    → pending (set slots i (exist s)) ≡ 0
unfolding pending
pending-set [] i s w h = h
pending-set (next_free_index n ∷ slots) zero s w h = omega (arith, w, h)
pending-set (exist t ∷ slots) zero s w h = omega (arith, w, h)
pending-set (next_free_index n ∷ slots) (suc i) s w h = pending-set slots i s w h
pending-set (exist t ∷ slots) (suc i) s w h =
    omega (arith, h, pending-set slots i s w (omega (arith, h)))

module _ ⦃bf : Bitfield⦄ ⦃ct : FromPrimitive CommandType discriminant invalid⦄ where
  hand_over-pending :
      (set : IndexSet PduSocket) (index : ℕ) (pdu : List ℕ) (o : Option PduSocket)
      {t : IndexSet PduSocket}
      → get_item set index ≡ o
      → hand_over set index pdu o ≡ some t
      → pending set.items ≡ 0
      → pending t.items ≡ 0
  unfolding hand_over recieve waits
  hand_over-pending set index pdu none g h z = ap (λ t. pending t.items) (sym (some_inj h)) ∙ z
  hand_over-pending set index pdu (some socket) g h z =
      let (answer, _, h) = >>=-eq-some (answer_of pdu) _ h in
      ap (λ t. pending t.items) (sym (some_inj h))
      ∙ ap pending (get_item_mut-set set index socket (λ socket. recieve socket answer) g)
      ∙ pending-set set.items index (recieve socket answer) refl z

  -- An answer leaves no PDU to send behind.
  pub hand_out-pending :
      (set : IndexSet PduSocket) (pdus : List (List ℕ)) {t : IndexSet PduSocket}
      → hand_out set pdus ≡ some t
      → pending set.items ≡ 0
      → pending t.items ≡ 0
  unfolding hand_out
  hand_out-pending set [] h z = ap (λ t. pending t.items) (sym (some_inj h)) ∙ z
  hand_out-pending set (pdu ∷ pdus) h z =
      let (index, _, h) = >>=-eq-some (EtherCatPdu.index pdu) _ h in
      let (u, e, h) = >>=-eq-some (hand_over set index pdu (get_item set index)) _ h in
      hand_out-pending u pdus h (hand_over-pending set index pdu (get_item set index) refl e z)
