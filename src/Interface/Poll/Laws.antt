-- ===== src/Interface/Poll/Laws.antt =====
-- src/interface/socket_if.rs: what a turn of the sockets leaves.
use ethercat.Base.{
  ◌*◌, ◌≤◌, ℕ, ◌+◌, ◌≡◌, refl, ap, sym, ◌∙◌, Bool, true, false, ◌&&◌, some, Result, ok, err,
  >>=-eq-some, some_inj, arith,
}
use mathlib.Core.Path.{subst}
use ethercat.Foreign.{Bitfield, Msb0, FromPrimitive}
use ethercat.IndexSet.{IndexSet}
use ethercat.IndexSet.Laws.{IsValid}
use ethercat.Interface.{CommandType, discriminant, invalid, PhyError}
use ethercat.Interface.Socket.{PduSocket}
use ethercat.Interface.PduIf.{
  PduInterface, RawEthernetDevice, consume_pdus, transmit_one_frame, receive_one_frame,
}
use ethercat.Interface.PduIf.Turns.{receive_one_frame_complete}
use ethercat.Interface.PduIf.Counts.{receive_one_frame-pdu_count, Halved, transmit_one_frame-Halved}
use ethercat.Interface.Poll.Pending.{pending, AllAsked, enqueue_slots-Asked, hand_out-pending}
use ethercat.Frame.Pdus
use ethercat.Frame.Pdus.{pdus_of}
use ethercat.Interface.Poll.{
  Sockets, enqueue_slots, enqueue_pdus, hand_out, take_answers, after_receive, after_transmit,
  transmit_and_receive, both_done, poll_tx_rx,
}
use ethercat.Interface.Poll.Slots.{
  Similar, Similar-trans, Similar-IsValid, enqueue_slots-links, hand_out-Similar,
}

module _ {D : Type 0} (device : RawEthernetDevice D) ⦃bf : Bitfield⦄
    ⦃ct : FromPrimitive CommandType discriminant invalid⦄ ⦃m : Msb0⦄ where
  -- What a turn leaves that says true, where `complete` says whether all sockets were asked, and `total` is the number
  -- of PDUs that waited or were under way then.
  record Finished (complete : Bool) (total : ℕ) (s : Sockets D) : Type 0 where
    under_way : s.iface.tx_count ≡ 0
    waiting : s.iface.pdus_total_size ≡ 0
    received : s.iface.recv_data_size ≡ 0
    left : 2 * s.iface.pdu_count ≤ total
    asked : complete ≡ true → pending s.socket_set.items ≡ 0

  Done : Bool → ℕ → Sockets D × Result Bool PhyError → Type 0
  Done complete total (s, ok true) = Finished complete total s
  Done complete total (s, ok false) = Unit
  Done complete total (s, err e) = Unit

  record Turn (complete : Bool) (total : ℕ) (set : IndexSet PduSocket)
      (o : Sockets D × Result Bool PhyError) : Type 0 where
    similar : Similar set o.0.socket_set
    done : Done complete total o

  Turn-unfinished :
      (c : Bool) (n : ℕ) (s : Sockets D) (r : Result Bool PhyError)
      → Done c n (s, r)
      → Turn c n s.socket_set (s, r)
  Turn-unfinished c n s r d = record {
    similar = record { same_links = refl; same_free = refl };
    done = d;
  }

  take_answers-Turn :
      (c : Bool) (n : ℕ) (s : Sockets D) (b : Bool) {o : Sockets D × Result Bool PhyError}
      → ((b ≡ true) → (s.iface.tx_count ≡ 0) × (2 * s.iface.pdu_count ≤ n))
      → ((c ≡ true) → pending s.socket_set.items ≡ 0)
      → take_answers s b ≡ some o
      → Turn c n s.socket_set o
  unfolding take_answers consume_pdus Done
  take_answers-Turn c n s false z w h =
      subst (Turn c n s.socket_set) (some_inj h) (Turn-unfinished c n s (ok false) tt)
  take_answers-Turn c n s true z w h =
      let ((iface, pdus), e, h) = >>=-eq-some (consume_pdus s.iface) _ h in
      let (set, k, h) = >>=-eq-some (hand_out s.socket_set pdus) _ h in
      let (pdus', _, e) =
        >>=-eq-some (pdus_of (Pdus.new s.iface.buffer s.iface.pdus_total_size 0)) _ e in
      let same = some_inj e in
      subst (Turn c n s.socket_set) (some_inj h) (record {
        similar = hand_out-Similar s.socket_set pdus k;
        done = record {
          under_way = ap (λ o. o.0.tx_count) (sym same) ∙ (z refl).0;
          waiting = ap (λ o. o.0.pdus_total_size) (sym same);
          received = ap (λ o. o.0.recv_data_size) (sym same);
          left = subst (λ o. 2 * o.0.pdu_count ≤ n) same (z refl).1;
          asked = λ q. hand_out-pending s.socket_set pdus k (w q);
        };
      })

  after_receive-Turn :
      (c : Bool) (n : ℕ) (s : Sockets D) (is_tx_ok : Bool) (i : PduInterface D)
      (r : PduInterface D × Result Bool PhyError) {o : Sockets D × Result Bool PhyError}
      → ((is_tx_ok ≡ true) → 2 * i.pdu_count ≤ n)
      → ((c ≡ true) → pending s.socket_set.items ≡ 0)
      → receive_one_frame device i ≡ some r
      → after_receive device s is_tx_ok r ≡ some o
      → Turn c n s.socket_set o
  unfolding after_receive Done
  after_receive-Turn c n s is_tx_ok i (iface, err e) z w k h =
      subst (Turn c n s.socket_set) (some_inj h)
        (Turn-unfinished c n (record s { iface = iface }) (err e) tt)
  after_receive-Turn c n s is_tx_ok i (iface, ok is_rx_ok) z w k h =
      let e = receive_one_frame_complete device i k in
      let same = receive_one_frame-pdu_count device i k in
      take_answers-Turn c n (record s { iface = iface }) (is_tx_ok && is_rx_ok)
        (λ b.
          let (tx, rx) = both_true is_tx_ok is_rx_ok b in
          (ground (arith, e, rx), omega (arith, z tx, same)))
        w h
    where
      both_true : (a b : Bool) → (a && b) ≡ true → (a ≡ true) × (b ≡ true)
      both_true true true h = (refl, refl)
      both_true true false h = absurd (cc)
      both_true false b h = absurd (cc)

  after_transmit-Turn :
      (c : Bool) (s : Sockets D) (i : PduInterface D) (r : PduInterface D × Result Bool PhyError)
      {o : Sockets D × Result Bool PhyError}
      → Halved device i r
      → ((c ≡ true) → pending s.socket_set.items ≡ 0)
      → after_transmit device s r ≡ some o
      → Turn c (i.tx_count + i.pdu_count) s.socket_set o
  unfolding after_transmit Done
  after_transmit-Turn c s i (iface, err e) z w h =
      subst (Turn c (i.tx_count + i.pdu_count) s.socket_set) (some_inj h)
        (Turn-unfinished c (i.tx_count + i.pdu_count) (record s { iface = iface }) (err e) tt)
  after_transmit-Turn c s i (iface, ok true) z w h =
      let (r, k, h) = >>=-eq-some (receive_one_frame device iface) _ h in
      after_receive-Turn c (i.tx_count + i.pdu_count) s true iface r (λ _. z) w k h
  after_transmit-Turn c s i (iface, ok false) z w h =
      let (r, k, h) = >>=-eq-some (receive_one_frame device iface) _ h in
      after_receive-Turn c (i.tx_count + i.pdu_count) s false iface r (λ e. absurd (cc)) w k h

  -- The result is true only if all sockets were asked.
  Complete : Bool → ℕ → Sockets D × Result Bool PhyError → Type 0
  Complete c n (s, ok true) = (c ≡ true) × Finished c n s
  Complete c n (s, ok false) = Unit
  Complete c n (s, err e) = Unit

  both_done-Complete :
      (n : ℕ) (c : Bool) (o : Sockets D × Result Bool PhyError)
      → Done c n o
      → Complete c n (both_done device c o)
  unfolding both_done Done Complete
  both_done-Complete n true (s, ok true) t = (refl, t)
  both_done-Complete n false (s, ok true) t = tt
  both_done-Complete n true (s, ok false) t = tt
  both_done-Complete n false (s, ok false) t = tt
  both_done-Complete n c (s, err e) t = tt

  both_done-socket_set :
      (c : Bool) (o : Sockets D × Result Bool PhyError)
      → (both_done device c o).0.socket_set ≡ o.0.socket_set
  unfolding both_done
  both_done-socket_set c (s, ok b) = refl
  both_done-socket_set c (s, err e) = refl

  -- A turn in its two halves: the sockets are asked, and the rest follows.
  record Halves (s : Sockets D) (o : Sockets D × Result Bool PhyError) : Type 0 where
    middle : Sockets D
    complete : Bool
    result : Sockets D × Result Bool PhyError
    asked :
        complete ≡ true → AllAsked s.iface middle.iface s.socket_set.items middle.socket_set.items
    same_slots : Similar s.socket_set middle.socket_set
    turn : Turn complete (middle.iface.tx_count + middle.iface.pdu_count) middle.socket_set result
    result_is : both_done device complete result ≡ o

  poll_tx_rx-Halves :
      (s : Sockets D) {o : Sockets D × Result Bool PhyError}
      → poll_tx_rx device s ≡ some o
      → Halves s o
  unfolding poll_tx_rx enqueue_pdus transmit_and_receive
  poll_tx_rx-Halves s h =
      let ((s', c), e, h) = >>=-eq-some (enqueue_pdus s) _ h in
      let (result, k, h) = >>=-eq-some (transmit_and_receive device s') _ h in
      let (r, f, k) = >>=-eq-some (transmit_one_frame device s'.iface) _ k in
      let (q, l, e) = >>=-eq-some (enqueue_slots 0 s.iface s.socket_set.items) _ e in
      let all : c ≡ true → AllAsked s.iface s'.iface s.socket_set.items s'.socket_set.items =
        subst (λ p. p.1 ≡ true → AllAsked s.iface p.0.iface s.socket_set.items p.0.socket_set.items)
          (some_inj e) (enqueue_slots-Asked 0 s.iface s.socket_set.items l) in
      record {
        middle = s';
        complete = c;
        result = result;
        asked = all;
        same_slots =
            subst (λ p. Similar s.socket_set p.0.socket_set) (some_inj e)
              (record {
                same_links = enqueue_slots-links 0 s.iface s.socket_set.items l;
                same_free = refl;
              });
        turn =
            after_transmit-Turn c s' s'.iface r (transmit_one_frame-Halved device s'.iface f)
              (λ t. (all t).none_pending) k;
        result_is = some_inj h;
      }

  -- What a turn from `s` leaves that says true: nothing is under way or in the buffer, no socket has a PDU that waits
  -- to be sent, and of all PDUs that were to be sent at most half are still counted as waiting.
  pub record Emptied (s s' : Sockets D) : Type 0 where
    pub none_under_way : s'.iface.tx_count ≡ 0
    pub none_waiting : s'.iface.pdus_total_size ≡ 0
    pub none_received : s'.iface.recv_data_size ≡ 0
    pub none_pending : pending s'.socket_set.items ≡ 0
    pub few_left :
        2 * s'.iface.pdu_count ≤ s.iface.tx_count + s.iface.pdu_count + pending s.socket_set.items

  -- If `poll_tx_rx` says true, nothing is under way or in the buffer any more, no socket has a PDU that waits to be
  -- sent, and at most half of the PDUs that were to be sent, from the sockets or from before, are still counted as
  -- waiting.
  pub poll_tx_rx_done :
      (s : Sockets D) {s' : Sockets D} → poll_tx_rx device s ≡ some (s', ok true) → Emptied s s'
  unfolding Complete
  poll_tx_rx_done s {s' = s'} h =
      let a = poll_tx_rx-Halves s h in
      let n = a.middle.iface.tx_count + a.middle.iface.pdu_count in
      let (c, f) : Complete a.complete n (s', ok true) =
        subst (Complete a.complete n) a.result_is
          (both_done-Complete n a.complete a.result a.turn.done) in
      record {
        none_under_way = f.under_way;
        none_waiting = f.waiting;
        none_received = f.received;
        none_pending = f.asked c;
        few_left = omega (arith, f.left, (a.asked c).under_way, (a.asked c).waiting);
      }

  -- However a turn ends, by a result or an error of the device, it keeps the set of sockets well formed.
  poll_tx_rx-IsValid :
      (s : Sockets D) {s' : Sockets D} {r : Result Bool PhyError}
      → IsValid s.socket_set
      → poll_tx_rx device s ≡ some (s', r)
      → IsValid s'.socket_set
  poll_tx_rx-IsValid s {s' = s'} v h =
      let a = poll_tx_rx-Halves s h in
      let same : a.result.0.socket_set ≡ s'.socket_set =
        sym (both_done-socket_set a.complete a.result) ∙ ap (λ o. o.0.socket_set) a.result_is in
      Similar-IsValid s.socket_set s'.socket_set
        (Similar-trans a.same_slots (subst (Similar a.middle.socket_set) same a.turn.similar)) v
