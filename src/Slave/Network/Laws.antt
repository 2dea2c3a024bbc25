-- ===== src/Slave/Network/Laws.antt =====
-- src/slave/network.rs: slaves are looked up at the positions at which they were pushed.
use ethercat.Base.{
  ℕ, zero, suc, ◌+◌, ◌≤◌, ◌<◌, ◌≡◌, refl, ap, sym, ◌∙◌, none, some, List, [], ◌∷◌, length,
  length-set, get_elem?, get_elem?-set_self, get_elem?-set_ne, set, ok, ◌⊎◌, inl, inr, arith,
}
use native.Mathlib.Decide.{ℕ_discrete, dec_lt}
use ethercat.Interface.{slave_position, station_address}
use ethercat.Slave.Config.{SlaveConfig}
use ethercat.Slave.Info.{Slave}
use ethercat.Slave.Network.{
  Network, Place, new, push_slave, num_slaves, slave, at_position, unwrapped, position_of, put,
}

-- There is a slave at each position that was pushed to.
pub record IsValid (n : Network) : Type 0 where
  pub in_range : n.push_count ≤ length n.slaves
  pub filled :
      (i : ℕ)
      → i < n.push_count
      → (s : Slave) × (c : SlaveConfig) × (get_elem? n.slaves i ≡ some (some s, c))

pub new-IsValid : (slave_buf : List Place) → IsValid (new slave_buf)
unfolding new
new-IsValid slave_buf = record { in_range = omega arith; filled = λ i h. absurd (omega arith) }

in_bounds :
    (places : List Place) (i : ℕ) → i < length places → (p : Place) × (get_elem? places i ≡ some p)
in_bounds [] i h = absurd (omega arith)
in_bounds (p ∷ ps) zero h = (p, refl)
in_bounds (p ∷ ps) (suc i) h = in_bounds ps i (omega arith)

slave-found :
    (n : Network) (i : ℕ) (s : Slave) (c : SlaveConfig)
    → i < n.push_count
    → get_elem? n.slaves i ≡ some (some s, c)
    → slave n (slave_position i) ≡ some (some (s, c))
unfolding slave at_position unwrapped position_of
slave-found n i s c h e = rw e (ground arith)

slave-missing : (n : Network) (i : ℕ) → n.push_count ≤ i → slave n (slave_position i) ≡ some none
unfolding slave at_position position_of
slave-missing n i h = ground arith

-- A slave that is pushed where there is room is found at the next position, and those before it stay where they are.
pub push_slave_lem :
    (n : Network) (s : Slave)
    → IsValid n
    → n.push_count < length n.slaves
    → n.push_count < 65535
    → (n' : Network) × (push_slave n s ≡ some (n', ok tt))
      × IsValid n'
      × (num_slaves n' ≡ num_slaves n + 1)
      × ((c : SlaveConfig) × (slave n' (slave_position n.push_count) ≡ some (some (s, c))))
      × ((i : ℕ) → i < n.push_count → slave n' (slave_position i) ≡ slave n (slave_position i))
unfolding push_slave put num_slaves
push_slave_lem n s v h k =
    let (p, e) = in_bounds n.slaves n.push_count h in
    let n' : Network = record {
      slaves = set n.slaves n.push_count (some s, p.1);
      push_count = n.push_count + 1;
    } in
    let at_end : get_elem? n'.slaves n.push_count ≡ some (some s, p.1) =
      get_elem?-set_self n.slaves n.push_count (some s, p.1) h in
    (
      n',
      rw e (ground arith),
      record {
        in_range = omega (arith, length-set n.slaves n.push_count (some s, p.1));
        filled = λ i l. elim (ℕ_discrete i n.push_count) [
          | yes q ↦ (s, p.1, ap (get_elem? n'.slaves) q ∙ at_end)
          | no q ↦
              let (t, c, f) = v.filled i (omega arith) in
              (
                t,
                c,
                get_elem?-set_ne n.slaves {i = n.push_count} {j = i} (some s, p.1) (omega arith)
                    ∙ f,
              )
        ];
      },
      refl,
      (p.1, slave-found n' n.push_count s p.1 (omega arith) at_end),
      λ i l.
          let (t, c, f) = v.filled i l in
          slave-found n' i t c (omega arith)
            (get_elem?-set_ne n.slaves {i = n.push_count} {j = i} (some s, p.1) (omega arith) ∙ f)
          ∙ sym (slave-found n i t c l f),
    )

-- In a network with a slave at each position that was pushed to, `slave` does not panic: below the number of slaves it
-- gives the slave that lies there, with its configuration, and from there on nothing; a station address is the position
-- before it, and 0 is none.
pub slave_lem :
    (n : Network) (i : ℕ)
    → IsValid n
    → (((i < num_slaves n)
          × ((s : Slave) × (c : SlaveConfig) × (get_elem? n.slaves i ≡ some (some s, c))
              × (slave n (slave_position i) ≡ some (some (s, c)))))
        ⊎ ((num_slaves n ≤ i) × (slave n (slave_position i) ≡ some none)))
      × (slave n (station_address (suc i)) ≡ slave n (slave_position i))
      × (slave n (station_address 0) ≡ some none)
unfolding slave position_of at_position num_slaves
slave_lem n i v = (
  elim (dec_lt i n.push_count) [
    | yes l ↦ let (s, c, f) = v.filled i l in inl (l, (s, c, f, slave-found n i s c l f))
    | no l ↦ inr (omega arith, slave-missing n i (omega arith))
  ],
  refl,
  refl,
)
