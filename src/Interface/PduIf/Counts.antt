-- ===== src/Interface/PduIf/Counts.antt =====
-- src/interface/pdu_if.rs: what the results of sending and receiving say of the counts.
use ethercat.Base.{
  ◌*◌, not, ltb, copy_at, ℕ, ◌+◌, ◌≤◌, ◌≡◌, refl, ap, sym, ◌∙◌, Bool, true, false, some, List, [],
  ◌∷◌, slice, Result, ok, err, ◌==◌, >>=-eq-some, some_inj, if-cases, inl, inr, arith,
}
use mathlib.Core.Path.{subst}
use ethercat.Foreign.{Bitfield, Msb0, FromPrimitive}
use ethercat.Interface.{CommandType, discriminant, invalid, PhyError}
use ethercat.Frame.{src_mac, ethercat_type}
use ethercat.Frame.EtherCatPdu
use ethercat.Frame.Ethernet
use ethercat.Frame.Util
use ethercat.Frame.Util.{EtherCatFrameUtil}
use ethercat.Interface.PduIf.{
  PduInterface, sent, counted, transmit_by, received, receive_by, read_frame, store_frame,
  store_pdus, RawEthernetDevice, Transmit, Receive, tx_token, no_tx_token, tx_refused, no_rx_token,
  rx_refused, rx_token, minus, fill_frame, transmit_one_frame, receive_one_frame,
}
use ethercat.Interface.PduIf.Turns.{fill_frame-counts}

module _ {D : Type 0} (device : RawEthernetDevice D) where
  module _ ⦃bf : Bitfield⦄ ⦃ct : FromPrimitive CommandType discriminant invalid⦄ ⦃m : Msb0⦄ where
    -- Whether sending says true: then at most half of the PDUs are left to send.
    abbrev pub Halved : PduInterface D → PduInterface D × Result Bool PhyError → Type 0
    Halved s (s', ok true) = 2 * s'.pdu_count ≤ s.tx_count + s.pdu_count
    Halved s (s', ok false) = Unit
    Halved s (s', err e) = Unit

    sent-Halved :
        (s t : PduInterface D) (a : D × Bool) {o : PduInterface D × Result Bool PhyError}
        → t.tx_count + t.pdu_count ≡ s.tx_count + s.pdu_count
        → sent device t a ≡ some o
        → Halved s o
    unfolding sent counted
    sent-Halved s t (d, false) k h = subst (Halved s) (some_inj h) tt
    sent-Halved s t (d, true) k h =
        subst (Halved s) (some_inj h) (go (ltb t.tx_count t.pdu_count) refl)
      where
        go :
            (b : Bool)
            → ltb t.tx_count t.pdu_count ≡ b
            → Halved s (record t { ethdev = d }, ok (not b))
        go true e = tt
        go false e = ground (arith, k)

    transmit_by-Halved :
        (s : PduInterface D) (pdus : List ℕ) (t : Transmit D)
        {o : PduInterface D × Result Bool PhyError}
        → transmit_by device s pdus t ≡ some o
        → Halved s o
    unfolding transmit_by
    transmit_by-Halved s pdus (no_tx_token d) h = subst (Halved s) (some_inj h) tt
    transmit_by-Halved s pdus (tx_refused d) h = subst (Halved s) (some_inj h) tt
    transmit_by-Halved s pdus (tx_token tx_buffer send) h =
        let (o, e, h) =
          >>=-eq-some (fill_frame tx_buffer pdus s.pdus_total_size s.tx_count s.pdu_count) _ h in
        sent-Halved s (record s { tx_count = o.1; pdu_count = o.2 }) (send o.0.buffer)
          (fill_frame-counts device tx_buffer pdus s.pdus_total_size s.tx_count s.pdu_count e) h

    pub transmit_one_frame-Halved :
        (s : PduInterface D) {o : PduInterface D × Result Bool PhyError}
        → transmit_one_frame device s ≡ some o
        → Halved s o
    unfolding transmit_one_frame
    transmit_one_frame-Halved s h = elim (if-cases (s.pdu_count == 0) h) [
      | inl (z, e) ↦ subst (Halved s) (some_inj e) (ground arith)
      | inr (_, e) ↦
          let (pdus, _, e) = >>=-eq-some (slice 0 s.pdus_total_size s.buffer) _ e in
          transmit_by-Halved s pdus (device.transmit s.ethdev (16 + s.pdus_total_size)) e
    ]

    store_pdus-pdu_count :
        (s : PduInterface D) (pdus : List (List ℕ)) {t : PduInterface D}
        → store_pdus device s pdus ≡ some t
        → t.pdu_count ≡ s.pdu_count
    unfolding store_pdus
    store_pdus-pdu_count s [] h = ap (λ t. t.pdu_count) (sym (some_inj h))
    store_pdus-pdu_count s (pdu ∷ pdus) h =
        let (len, _, h) = >>=-eq-some (EtherCatPdu.length pdu) _ h in
        let (buffer, _, h) = >>=-eq-some (copy_at s.recv_data_size pdu s.buffer) _ h in
        let (tx_count, _, h) = >>=-eq-some (minus s.tx_count 1) _ h in
        store_pdus-pdu_count
          (record s {
            buffer = buffer;
            recv_data_size = s.recv_data_size + (10 + len + 2);
            tx_count = tx_count;
          })
          pdus h

    read_frame-pdu_count :
        (s : PduInterface D) (frame : List ℕ) {t : PduInterface D}
        → read_frame device s frame ≡ some t
        → t.pdu_count ≡ s.pdu_count
    unfolding read_frame store_frame
    read_frame-pdu_count s frame h =
        let (source, _, h) = >>=-eq-some (Ethernet.source frame) _ h in
        elim (if-cases (source == src_mac) h) [
          | inl (_, h) ↦ ap (λ t. t.pdu_count) (sym (some_inj h))
          | inr (_, h) ↦
              let (ether_type, _, h) = >>=-eq-some (Ethernet.ether_type frame) _ h in
              elim (if-cases (ether_type == ethercat_type) h) [
                | inl (_, h) ↦
                    let (u, _, h) = >>=-eq-some (Util.new_unchecked frame) _ h in
                    let (pdus, _, h) = >>=-eq-some (Util.dlpdus u) _ h in
                    store_pdus-pdu_count s pdus h
                | inr (_, h) ↦ ap (λ t. t.pdu_count) (sym (some_inj h))
              ]
        ]

    received-pdu_count :
        (s : PduInterface D) (a : D × Bool) → (received device s a).0.pdu_count ≡ s.pdu_count
    unfolding received
    received-pdu_count s (d, true) = refl
    received-pdu_count s (d, false) = refl

    receive_by-pdu_count :
        (s : PduInterface D) (t : Receive D) {o : PduInterface D × Result Bool PhyError}
        → receive_by device s t ≡ some o
        → o.0.pdu_count ≡ s.pdu_count
    unfolding receive_by
    receive_by-pdu_count s (no_rx_token d) h = ap (λ o. o.0.pdu_count) (sym (some_inj h))
    receive_by-pdu_count s (rx_refused d) h = ap (λ o. o.0.pdu_count) (sym (some_inj h))
    receive_by-pdu_count s (rx_token frame after) h =
        let (t, e, h) = >>=-eq-some (read_frame device s frame) _ h in
        ap (λ o. o.0.pdu_count) (sym (some_inj h))
        ∙ received-pdu_count t after
        ∙ read_frame-pdu_count s frame e

    pub receive_one_frame-pdu_count :
        (s : PduInterface D) {o : PduInterface D × Result Bool PhyError}
        → receive_one_frame device s ≡ some o
        → o.0.pdu_count ≡ s.pdu_count
    unfolding receive_one_frame
    receive_one_frame-pdu_count s h = elim (if-cases (s.tx_count == 0) h) [
      | inl (_, e) ↦ ap (λ o. o.0.pdu_count) (sym (some_inj e))
      | inr (_, e) ↦ receive_by-pdu_count s (device.receive s.ethdev) e
    ]
