-- ===== src/Interface/Poll/Delivery.antt =====
-- src/interface/socket_if.rs: which answers a socket finds after the PDUs of a frame were handed out.
use ethercat.Base.{
  ℕ, ◌≡◌, ◌≢◌, refl, ap, sym, ◌∙◌, Option, none, some, List, [], ◌∷◌, ◌==◌, if◌then◌else◌,
  >>=-eq-some, some_inj, arith,
}
use mathlib.Core.Option
use native.Mathlib.Decide.{ℕ_discrete}
use ethercat.Foreign.{Bitfield, FromPrimitive}
use ethercat.IndexSet.{IndexSet, get_item, get_item_mut}
use ethercat.IndexSet.Shape.{get_item-get_item_mut_self, get_item-get_item_mut_ne}
use ethercat.Interface.{CommandType, discriminant, invalid, Pdu}
use ethercat.Interface.Socket.{PduSocket, recieve}
use ethercat.Frame.EtherCatPdu
use ethercat.Interface.Poll.{hand_over, hand_out, answer_of}

-- What a socket with the handle `i` does with an answer to the PDU with an index.
deliver_to : ℕ → Option ℕ → Option Pdu → PduSocket → PduSocket
deliver_to i none answer socket = socket
deliver_to i (some index) none socket = socket
deliver_to i (some index) (some answer) socket =
    if index == i then recieve socket answer else socket

deliver_to_ne :
    (i index : ℕ) (o : Option Pdu) (socket : PduSocket)
    → index ≢ i
    → deliver_to i (some index) o socket ≡ socket
unfolding deliver_to
deliver_to_ne i index none socket h = refl
deliver_to_ne i index (some answer) socket h = ground arith

deliver_to_self :
    (i : ℕ) (answer : Pdu) (socket : PduSocket)
    → deliver_to i (some i) (some answer) socket ≡ recieve socket answer
unfolding deliver_to
deliver_to_self i answer socket = ground arith

map_id : {A : Type 0} (f : A → A) (o : Option A) → ((a : A) → f a ≡ a) → Option.map f o ≡ o
map_id f none h = refl
map_id f (some a) h = ap some (h a)

module _ ⦃bf : Bitfield⦄ ⦃ct : FromPrimitive CommandType discriminant invalid⦄ where
  -- The socket with the handle `i` after all these PDUs: it takes the answers whose index is its handle, one after
  -- another, and no other.
  unfoldable pub delivered : ℕ → List (List ℕ) → PduSocket → PduSocket
  unfolding deliver_to
  delivered i [] socket = socket
  delivered i (pdu ∷ pdus) socket =
      delivered i pdus (deliver_to i (EtherCatPdu.index pdu) (answer_of pdu) socket)

  hand_over-deliver_to :
      (set : IndexSet PduSocket) (index : ℕ) (pdu : List ℕ) (i : ℕ) (o : Option PduSocket)
      {t : IndexSet PduSocket}
      → get_item set index ≡ o
      → hand_over set index pdu o ≡ some t
      → get_item t i ≡ Option.map (deliver_to i (some index) (answer_of pdu)) (get_item set i)
  unfolding hand_over
  hand_over-deliver_to set index pdu i none g h =
      ap (λ t. get_item t i) (sym (some_inj h)) ∙ (elim (ℕ_discrete index i) [
        | yes q ↦
            let e : get_item set i ≡ none = ap (get_item set) (sym q) ∙ g in
            e ∙ sym (ap (Option.map (deliver_to i (some index) (answer_of pdu))) e)
        | no q ↦ sym (
            map_id (deliver_to i (some index) (answer_of pdu)) (get_item set i)
              (λ s. deliver_to_ne i index (answer_of pdu) s q))
      ])
  hand_over-deliver_to set index pdu i (some socket) g h =
      let (answer, e, h) = >>=-eq-some (answer_of pdu) _ h in
      let f : PduSocket → PduSocket = λ socket. recieve socket answer in
      ap (λ t. get_item t i) (sym (some_inj h)) ∙ (elim (ℕ_discrete index i) [
        | yes q ↦
            ap (get_item (get_item_mut set index f)) (sym q)
            ∙ get_item-get_item_mut_self set index socket f g
            ∙ ap some (sym (deliver_to_self index answer socket))
            ∙ ap (λ a. some (deliver_to index (some index) a socket)) (sym e)
            ∙ ap (λ j. some (deliver_to j (some index) (answer_of pdu) socket)) q
            ∙ ap (Option.map (deliver_to i (some index) (answer_of pdu)))
                (sym g ∙ ap (get_item set) q)
        | no q ↦
            get_item-get_item_mut_ne set index i socket f g q
            ∙ sym (
                map_id (deliver_to i (some index) (answer_of pdu)) (get_item set i)
                  (λ s. deliver_to_ne i index (answer_of pdu) s q))
      ])

  map_twice :
      {A : Type 0} (f g : A → A) (o : Option A)
      → Option.map f (Option.map g o) ≡ Option.map (λ a. f (g a)) o
  map_twice f g none = refl
  map_twice f g (some a) = refl

  -- If the PDUs of a frame are handed out without a panic, every socket has taken the answers whose index is its
  -- handle, in their order, and no others; a handle that stands for no socket still stands for none.
  pub hand_out-delivered :
      (set : IndexSet PduSocket) (pdus : List (List ℕ)) (i : ℕ) {t : IndexSet PduSocket}
      → hand_out set pdus ≡ some t
      → get_item t i ≡ Option.map (delivered i pdus) (get_item set i)
  unfolding hand_out delivered
  hand_out-delivered set [] i h =
      ap (λ t. get_item t i) (sym (some_inj h)) ∙ sym (map_id _ (get_item set i) (λ s. refl))
  hand_out-delivered set (pdu ∷ pdus) i h =
      let (index, x, h) = >>=-eq-some (EtherCatPdu.index pdu) _ h in
      let (u, e, h) = >>=-eq-some (hand_over set index pdu (get_item set index)) _ h in
      hand_out-delivered u pdus i h
      ∙ ap (Option.map (delivered i pdus))
          (hand_over-deliver_to set index pdu i (get_item set index) refl e)
      ∙ map_twice (delivered i pdus) (deliver_to i (some index) (answer_of pdu)) (get_item set i)
      ∙ ap
          (λ x.
            Option.map (λ s. delivered i pdus (deliver_to i x (answer_of pdu) s)) (get_item set i))
          (sym x)
