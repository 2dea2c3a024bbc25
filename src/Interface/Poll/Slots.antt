-- ===== src/Interface/Poll/Slots.antt =====
-- src/interface/socket_if.rs: a turn of the sockets leaves the free slots as they are.
use ethercat.Base.{
  ℕ, ◌+◌, ◌≡◌, refl, ap, sym, ◌∙◌, Bool, Option, none, some, List, [], ◌∷◌, ltb, >>=-eq-some,
  some_inj, if-cases, inl, inr,
}
use mathlib.Core.Path.{subst}
use ethercat.Foreign.{Bitfield, FromPrimitive}
use ethercat.IndexSet.{IndexSet, IndexOption, exist, next_free_index, get_item}
use ethercat.IndexSet.Laws.{IsValid}
use ethercat.IndexSet.Shape.{
  links_of, IsValid-links_of, links_of-get_item_mut, free_index-get_item_mut,
}
use ethercat.Interface.{CommandType, discriminant, invalid}
use ethercat.Interface.Socket.{PduSocket, data_length, take_pdu, recieve}
use ethercat.Interface.PduIf.{PduInterface, remainig_pdu_data_capacity}
use ethercat.Frame.EtherCatPdu
use ethercat.Interface.Poll.{enqueue, enqueue_slots, hand_over, hand_out, answer_of}

-- Another set with the same free slots.
pub record Similar (s t : IndexSet PduSocket) : Type 0 where
  pub same_links : links_of s.items ≡ links_of t.items
  pub same_free : s.free_index ≡ t.free_index

pub Similar-trans : {s t u : IndexSet PduSocket} → Similar s t → Similar t u → Similar s u
Similar-trans a b = record {
  same_links = a.same_links ∙ b.same_links;
  same_free = a.same_free ∙ b.same_free;
}

pub Similar-IsValid : (s t : IndexSet PduSocket) → Similar s t → IsValid s → IsValid t
Similar-IsValid s t a v =
    subst (λ f. IsValid (record t { free_index = f })) a.same_free
      (IsValid-links_of s t.items a.same_links v)

module _ {D : Type 0} ⦃bf : Bitfield⦄ where
  pub enqueue_slots-links :
      (i : ℕ) (s : PduInterface D) (slots : List (IndexOption PduSocket))
      {o : PduInterface D × List (IndexOption PduSocket) × Bool}
      → enqueue_slots i s slots ≡ some o
      → links_of slots ≡ links_of o.1
  unfolding enqueue_slots
  enqueue_slots-links i s [] h = ap (λ o. links_of o.1) (some_inj h)
  enqueue_slots-links i s (next_free_index n ∷ slots) h =
      let (o, e, h) = >>=-eq-some (enqueue_slots i s slots) _ h in
      ap (λ l. some n ∷ l) (enqueue_slots-links i s slots e) ∙ ap (λ o. links_of o.1) (some_inj h)
  enqueue_slots-links i s (exist socket ∷ slots) h =
      let (free, _, h) = >>=-eq-some (remainig_pdu_data_capacity s) _ h in
      elim (if-cases (ltb free (data_length socket)) h) [
        | inl (_, h) ↦ ap (λ o. links_of o.1) (some_inj h)
        | inr (_, h) ↦
            let (t, _, h) = >>=-eq-some (take_pdu socket) _ h in
            let (s', _, h) = >>=-eq-some (enqueue i s (data_length socket) t.1) _ h in
            let (o, e, h) = >>=-eq-some (enqueue_slots (i + 1) s' slots) _ h in
            ap (λ l. none ∷ l) (enqueue_slots-links (i + 1) s' slots e)
            ∙ ap (λ o. links_of o.1) (some_inj h)
      ]

module _ ⦃bf : Bitfield⦄ ⦃ct : FromPrimitive CommandType discriminant invalid⦄ where
  hand_over-Similar :
      (set : IndexSet PduSocket) (index : ℕ) (pdu : List ℕ) (o : Option PduSocket)
      {t : IndexSet PduSocket}
      → hand_over set index pdu o ≡ some t
      → Similar set t
  unfolding hand_over
  hand_over-Similar set index pdu none h =
      subst (Similar set) (some_inj h) (record { same_links = refl; same_free = refl })
  hand_over-Similar set index pdu (some socket) h =
      let (answer, _, h) = >>=-eq-some (answer_of pdu) _ h in
      let f : PduSocket → PduSocket = λ socket. recieve socket answer in
      subst (Similar set) (some_inj h) (record {
        same_links = sym (links_of-get_item_mut set index f);
        same_free = sym (free_index-get_item_mut set index f);
      })

  pub hand_out-Similar :
      (set : IndexSet PduSocket) (pdus : List (List ℕ)) {t : IndexSet PduSocket}
      → hand_out set pdus ≡ some t
      → Similar set t
  unfolding hand_out
  hand_out-Similar set [] h =
      subst (Similar set) (some_inj h) (record { same_links = refl; same_free = refl })
  hand_out-Similar set (pdu ∷ pdus) h =
      let (index, _, h) = >>=-eq-some (EtherCatPdu.index pdu) _ h in
      let (u, e, h) = >>=-eq-some (hand_over set index pdu (get_item set index)) _ h in
      let a = hand_over-Similar set index pdu (get_item set index) e in
      let b = hand_out-Similar u pdus h in Similar-trans a b
