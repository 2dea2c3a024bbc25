-- ===== src/Interface/PduIf/Turns.antt =====
-- src/interface/pdu_if.rs: sending and receiving count every PDU once.
use ethercat.Base.{
  ℕ, ◌+◌, ◌-◌, ◌≤◌, ◌<◌, ◌≡◌, ◌⊎◌, refl, ap, sym, ◌∙◌, Bool, true, false, none, some, List, [], ◌∷◌,
  length, slice, Result, ok, err, ◌==◌, >>=-eq-some, some_inj, none_ne_some, Option-cases, if-cases,
  inl, inr, arith,
}
use mathlib.Core.Path.{subst}
use native.Mathlib.Decide.{dec_lt}
use ethercat.Foreign.{Bitfield, Msb0, FromPrimitive}
use ethercat.Interface.{CommandType, discriminant, invalid, PhyError}
use ethercat.Frame.Pdus
use ethercat.Frame.Pdus.{pdus_of}
use ethercat.Frame.Util
use ethercat.Frame.Util.{EtherCatFrameUtil}
use ethercat.Interface.PduIf.{
  PduInterface, sent, counted, transmit_by, received, receive_by, read_frame, RawEthernetDevice,
  Transmit, Receive, tx_token, no_tx_token, tx_refused, no_rx_token, rx_refused, rx_token, minus,
  add_pdu_to, add_pdus_to, fill_frame, transmit_one_frame, receive_one_frame,
}

minus-none : (a b : ℕ) → a < b → minus a b ≡ none
minus-none a b h = ground arith

minus-some : (a b : ℕ) → b ≤ a → minus a b ≡ some (a - b)
minus-some a b h = ground arith

module _ ⦃bf : Bitfield⦄ ⦃ct : FromPrimitive CommandType discriminant invalid⦄ where
  -- What the rest of the PDUs start from, if the first goes into the frame.
  add_pdus_to-first :
      (u : EtherCatFrameUtil) (pdu : List ℕ) (pdus : List (List ℕ)) (tx waiting : ℕ)
      → (add_pdus_to u (pdu ∷ pdus) tx waiting ≡ none)
        ⊎ ((v : EtherCatFrameUtil) × (1 ≤ waiting)
            × (add_pdus_to u (pdu ∷ pdus) tx waiting ≡ add_pdus_to v pdus (tx + 1) (waiting - 1)))
  unfolding add_pdus_to
  add_pdus_to-first u pdu pdus tx waiting = elim (Option-cases (add_pdu_to u pdu)) [
    | inl e ↦ inl (rw e refl)
    | inr ((v, false), e) ↦ inl (rw e refl)
    | inr ((v, true), e) ↦ elim (dec_lt waiting 1) [
      | yes l ↦ inl (rw e (rw (minus-none waiting 1 l) refl))
      | no l ↦ inr (v, omega arith, rw e (rw (minus-some waiting 1 (omega arith)) refl))
    ]
  ]

  -- Each PDU that goes into the frame moves one from the count of those that wait to those that are under way.
  add_pdus_to-counts :
      (u : EtherCatFrameUtil) (pdus : List (List ℕ)) (tx waiting : ℕ)
      {o : EtherCatFrameUtil × ℕ × ℕ}
      → add_pdus_to u pdus tx waiting ≡ some o
      → (o.1 ≡ tx + length pdus) × (o.1 + o.2 ≡ tx + waiting)
  unfolding add_pdus_to
  add_pdus_to-counts u [] tx waiting h =
      let e = some_inj h in
      (omega (arith, ap (λ o. o.1) e), omega (arith, ap (λ o. o.1) e, ap (λ o. o.2) e))
  add_pdus_to-counts u (pdu ∷ pdus) tx waiting h = elim (add_pdus_to-first u pdu pdus tx waiting) [
    | inl e ↦ absurd (none_ne_some (sym e ∙ h))
    | inr (v, l, e) ↦
        let (a, b) = add_pdus_to-counts v pdus (tx + 1) (waiting - 1) (sym e ∙ h) in
        (omega arith, omega arith)
  ]

module _ {D : Type 0} (device : RawEthernetDevice D) where
  module _ ⦃bf : Bitfield⦄ ⦃ct : FromPrimitive CommandType discriminant invalid⦄ ⦃m : Msb0⦄ where
    -- What sending leaves as it was: the buffer, the size of what waits in it, and the sum of the PDUs that wait
    -- and those that are under way.
    pub record Kept (s s' : PduInterface D) : Type 0 where
      pub buffer_kept : s'.buffer ≡ s.buffer
      pub size_kept : s'.pdus_total_size ≡ s.pdus_total_size
      pub sum_kept : s'.tx_count + s'.pdu_count ≡ s.tx_count + s.pdu_count

    Kept-of :
        {s : PduInterface D} {o p : PduInterface D × Result Bool PhyError}
        → Kept s o.0
        → some o ≡ some p
        → Kept s p.0
    Kept-of {s = s} k h = subst (λ x. Kept s x.0) (some_inj h) k

    pub fill_frame-counts :
        (tx_buffer buffer : List ℕ) (total tx waiting : ℕ) {o : EtherCatFrameUtil × ℕ × ℕ}
        → fill_frame tx_buffer buffer total tx waiting ≡ some o
        → o.1 + o.2 ≡ tx + waiting
    unfolding fill_frame
    fill_frame-counts tx_buffer buffer total tx waiting h =
        let (u, _, h) = >>=-eq-some (Util.new_unchecked tx_buffer) _ h in
        let (u, _, h) = >>=-eq-some (Util.init u) _ h in
        let (pdus, _, h) = >>=-eq-some (pdus_of (Pdus.new buffer total 0)) _ h in
        (add_pdus_to-counts u pdus tx waiting h).1

    sent-Kept :
        (s t : PduInterface D) (a : D × Bool) {s' : PduInterface D} {r : Result Bool PhyError}
        → Kept s t
        → sent device t a ≡ some (s', r)
        → Kept s s'
    unfolding sent counted
    sent-Kept s t (d, true) k h =
        Kept-of
          (record { buffer_kept = k.buffer_kept; size_kept = k.size_kept; sum_kept = k.sum_kept }) h
    sent-Kept s t (d, false) k h =
        Kept-of
          (record { buffer_kept = k.buffer_kept; size_kept = k.size_kept; sum_kept = k.sum_kept }) h

    transmit_by-Kept :
        (s : PduInterface D) (pdus : List ℕ) (t : Transmit D) {s' : PduInterface D}
        {r : Result Bool PhyError}
        → transmit_by device s pdus t ≡ some (s', r)
        → Kept s s'
    unfolding transmit_by
    transmit_by-Kept s pdus (no_tx_token d) h =
        Kept-of (record { buffer_kept = refl; size_kept = refl; sum_kept = refl }) h
    transmit_by-Kept s pdus (tx_refused d) h =
        Kept-of (record { buffer_kept = refl; size_kept = refl; sum_kept = refl }) h
    transmit_by-Kept s pdus (tx_token tx_buffer send) h =
        let (o, e, h) =
          >>=-eq-some (fill_frame tx_buffer pdus s.pdus_total_size s.tx_count s.pdu_count) _ h in
        sent-Kept s (record s { tx_count = o.1; pdu_count = o.2 }) (send o.0.buffer)
          (record {
            buffer_kept = refl;
            size_kept = refl;
            sum_kept = fill_frame-counts tx_buffer pdus s.pdus_total_size s.tx_count s.pdu_count e;
          })
          h

    -- Whatever the device does, `transmit_one_frame` keeps the buffer and loses no PDU from the counts: what no
    -- longer waits is under way.
    pub transmit_one_frame-Kept :
        (s : PduInterface D) {s' : PduInterface D} {r : Result Bool PhyError}
        → transmit_one_frame device s ≡ some (s', r)
        → Kept s s'
    unfolding transmit_one_frame
    transmit_one_frame-Kept s h = elim (if-cases (s.pdu_count == 0) h) [
      | inl (_, e) ↦ Kept-of (record { buffer_kept = refl; size_kept = refl; sum_kept = refl }) e
      | inr (_, e) ↦
          let (pdus, _, e) = >>=-eq-some (slice 0 s.pdus_total_size s.buffer) _ e in
          transmit_by-Kept s pdus (device.transmit s.ethdev (16 + s.pdus_total_size)) e
    ]

    -- The result says whether nothing is under way any more.
    Complete : PduInterface D × Result Bool PhyError → Type 0
    Complete (s, ok done) = done ≡ (s.tx_count == 0)
    Complete (s, err e) = Unit

    receive_by-Complete :
        (s : PduInterface D) (t : Receive D) {o : PduInterface D × Result Bool PhyError}
        → receive_by device s t ≡ some o
        → Complete o
    unfolding receive_by received Complete
    receive_by-Complete s (no_rx_token d) h = subst Complete (some_inj h) tt
    receive_by-Complete s (rx_refused d) h = subst Complete (some_inj h) tt
    receive_by-Complete s (rx_token frame (d, true)) h =
        let (t, _, h) = >>=-eq-some (read_frame device s frame) _ h in
        subst Complete (some_inj h) (ground arith)
    receive_by-Complete s (rx_token frame (d, false)) h =
        let (t, _, h) = >>=-eq-some (read_frame device s frame) _ h in
        subst Complete (some_inj h) tt

    receive_one_frame-Complete :
        (s : PduInterface D) {o : PduInterface D × Result Bool PhyError}
        → receive_one_frame device s ≡ some o
        → Complete o
    unfolding receive_one_frame Complete
    receive_one_frame-Complete s h = elim (if-cases (s.tx_count == 0) h) [
      | inl (z, e) ↦ subst Complete (some_inj e) (sym z)
      | inr (_, e) ↦ receive_by-Complete s (device.receive s.ethdev) e
    ]

    -- `receive_one_frame` says true exactly when no PDU is under way any more.
    pub receive_one_frame_complete :
        (s : PduInterface D) {s' : PduInterface D} {done : Bool}
        → receive_one_frame device s ≡ some (s', ok done)
        → done ≡ (s'.tx_count == 0)
    unfolding Complete
    receive_one_frame_complete s h = receive_one_frame-Complete s h
