-- ===== src/Frame/Pdus/Laws.antt =====
-- src/frame/frame_util.rs: iteration over the PDUs of a buffer comes to an end.
use ethercat.Base.{
  ℕ, zero, suc, ◌+◌, ◌≤◌, ◌<◌, ◌≡◌, refl, ap, Option, none, some, List, [], ◌∷◌, length,
  length-drop, ◌≢◌, Outcome, returned, panicked, out_of_fuel, arith,
}
use ethercat.Foreign.{Bitfield}
use ethercat.Frame.EtherCatPdu
use ethercat.Frame.Pdus.{
  EtherCatPdus, next, next_index, pdus_from, indexes_from, pdus_of, and_rest, go_on, ended,
}

go_on-ends : {A : Type 0} (a : A) (o : Outcome (List A)) → o ≢ out_of_fuel → go_on a o ≢ out_of_fuel
unfolding go_on
go_on-ends a (returned xs) h = λ e. absurd (cc)
go_on-ends a panicked h = λ e. absurd (cc)
go_on-ends a out_of_fuel h = absurd (h refl)

and_rest-ends :
    {A : Type 0} (rest : EtherCatPdus → Outcome (List A)) (o : Option (Option (EtherCatPdus × A)))
    → ((q : EtherCatPdus) (a : A) → o ≡ some (some (q, a)) → rest q ≢ out_of_fuel)
    → and_rest rest o ≢ out_of_fuel
unfolding and_rest
and_rest-ends rest none h = λ e. absurd (cc)
and_rest-ends rest (some none) h = λ e. absurd (cc)
and_rest-ends rest (some (some (q, a))) h = go_on-ends a (rest q) (h q a refl)

-- What an iterator yields: it goes on in the same buffer, past a PDU that begins within it.
Advances : {A : Type 0} → EtherCatPdus → Option (EtherCatPdus × A) → Type 0
Advances p none = Unit
Advances p (some (q, a)) =
    (q.buffer ≡ p.buffer) × (p.offset + 12 ≤ q.offset) × (p.offset < length p.buffer)

less_left :
    {A : Type 0} (p q : EtherCatPdus) (a : A) (fuel : ℕ)
    → Advances p (some (q, a))
    → length p.buffer ≤ suc fuel + p.offset
    → length q.buffer ≤ fuel + q.offset
unfolding Advances
less_left p q a fuel (same, further, within) h = omega (arith, ap length same)

none_left :
    {A : Type 0} (p q : EtherCatPdus) (a : A)
    → Advances p (some (q, a))
    → p.offset < length p.buffer
unfolding Advances
none_left p q a (same, further, within) = within

module _ ⦃bf : Bitfield⦄ where
  next_moves :
      (p : EtherCatPdus) (o : Option (EtherCatPdus × List ℕ)) → next p ≡ some o → Advances p o
  unfolding next Advances EtherCatPdu.length
  next_moves p none h = tt
  next_moves p (some (q, bytes)) h = ground (arith, length-drop p.offset p.buffer)

  next_index_moves :
      (p : EtherCatPdus) (o : Option (EtherCatPdus × ℕ)) → next_index p ≡ some o → Advances p o
  unfolding next_index Advances EtherCatPdu.length
  next_index_moves p none h = tt
  next_index_moves p (some (q, i)) h = ground (arith, length-drop p.offset p.buffer)

  pdus_from_ends :
      (fuel : ℕ) (p : EtherCatPdus)
      → length p.buffer ≤ fuel + p.offset
      → pdus_from (suc fuel) p ≢ out_of_fuel
  unfolding pdus_from
  pdus_from_ends zero p h =
      and_rest-ends (λ q. pdus_from zero q) (next p)
        λ q a e. absurd (omega (arith, none_left p q a (next_moves p _ e)))
  pdus_from_ends (suc fuel) p h =
      and_rest-ends _ (next p)
        λ q a e. pdus_from_ends fuel q (less_left p q a fuel (next_moves p _ e) h)

  indexes_from_ends :
      (fuel : ℕ) (p : EtherCatPdus)
      → length p.buffer ≤ fuel + p.offset
      → indexes_from (suc fuel) p ≢ out_of_fuel
  unfolding indexes_from
  indexes_from_ends zero p h =
      and_rest-ends (λ q. indexes_from zero q) (next_index p)
        λ q a e. absurd (omega (arith, none_left p q a (next_index_moves p _ e)))
  indexes_from_ends (suc fuel) p h =
      and_rest-ends _ (next_index p)
        λ q a e. indexes_from_ends fuel q (less_left p q a fuel (next_index_moves p _ e) h)

  -- Both iterations, over PDUs and over their places, come to an end, by their own test or in a panic, within one
  -- round for each byte of the buffer from the offset on and one more.
  pub iterations_end :
      (fuel : ℕ) (p : EtherCatPdus)
      → length p.buffer ≤ fuel + p.offset
      → (pdus_from (suc fuel) p ≢ out_of_fuel) × (indexes_from (suc fuel) p ≢ out_of_fuel)
  iterations_end fuel p h = (pdus_from_ends fuel p h, indexes_from_ends fuel p h)

  pub pdus_from-end :
      (f : ℕ) (p : EtherCatPdus) → next p ≡ some none → pdus_from (suc f) p ≡ returned []
  unfolding pdus_from and_rest
  pdus_from-end f p e = rw e refl

  pub pdus_from-next :
      (f : ℕ) (p q : EtherCatPdus) (pdu : List ℕ) (pdus : List (List ℕ))
      → next p ≡ some (some (q, pdu))
      → pdus_from f q ≡ returned pdus
      → pdus_from (suc f) p ≡ returned (pdu ∷ pdus)
  unfolding pdus_from and_rest go_on
  pdus_from-next f p q pdu pdus e r = rw (e, r) refl

  pub pdus_of-returned :
      (p : EtherCatPdus) (pdus : List (List ℕ))
      → pdus_from (suc (length p.buffer)) p ≡ returned pdus
      → pdus_of p ≡ some pdus
  unfolding pdus_of ended
  pdus_of-returned p pdus e = rw e refl
