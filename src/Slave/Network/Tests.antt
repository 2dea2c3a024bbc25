-- ===== src/Slave/Network/Tests.antt =====
-- The laws of `Network` and the walk over the ports at a network of three slaves.
use ethercat.Base.{
  ◌<◌, ◌≤◌, ◌⊎◌, get_elem?, ℕ, ◌+◌, ◌<◌, ◌≡◌, refl, Bool, true, false, none, some, List, [], ◌∷◌,
  ok, arith,
}
use ethercat.Interface.{slave_position, station_address}
use ethercat.Slave.Config.{SlaveConfig, default_config}
use ethercat.Slave.Info.{Slave, new_slave, no_info}
use ethercat.Slave.Network.{
  Network, RecievedPort, new, push_slave, num_slaves, slave, recieved_ports, ports_from,
}
use ethercat.Slave.Network.Laws.{IsValid, new-IsValid, push_slave_lem, slave_lem}

abbrev empty : Network
empty = new ((none, default_config) ∷ (none, default_config) ∷ [])

push_slave_lem_example :
    (n' : Network) × (push_slave empty new_slave ≡ some (n', ok tt))
    × IsValid n'
    × (num_slaves n' ≡ num_slaves empty + 1)
    × ((c : SlaveConfig) × (slave n' (slave_position empty.push_count)
          ≡ some (some (new_slave, c))))
    × ((i : ℕ)
        → i < empty.push_count
        → slave n' (slave_position i) ≡ slave empty (slave_position i))
unfolding new
push_slave_lem_example =
    push_slave_lem empty new_slave
      (new-IsValid ((none, default_config) ∷ (none, default_config) ∷ [])) (omega arith)
      (omega arith)

abbrev one_pushed : Network
one_pushed = push_slave_lem_example.0

slave_lem_example :
    (((0 < num_slaves one_pushed)
        × ((s : Slave) × (c : SlaveConfig) × (get_elem? one_pushed.slaves 0 ≡ some (some s, c))
            × (slave one_pushed (slave_position 0) ≡ some (some (s, c)))))
      ⊎ ((num_slaves one_pushed ≤ 0) × (slave one_pushed (slave_position 0) ≡ some none)))
    × (slave one_pushed (station_address 1) ≡ slave one_pushed (slave_position 0))
    × (slave one_pushed (station_address 0) ≡ some none)
slave_lem_example = slave_lem one_pushed 0 push_slave_lem_example.2

abbrev with_ports : List Bool → Slave
with_ports ports = record new_slave { info = record no_info { linked_ports = ports } }

-- The first slave has the second and the third at its ports 1 and 2.
abbrev fork : Network
fork = record {
  slaves =
      (some (with_ports (true ∷ true ∷ true ∷ false ∷ [])), default_config)
      ∷ (some (with_ports (true ∷ false ∷ false ∷ false ∷ [])), default_config)
      ∷ (some (with_ports (true ∷ false ∷ false ∷ false ∷ [])), default_config)
      ∷ [];
  push_count = 3;
}

abbrev at : ℕ → ℕ → RecievedPort
at pos port = record { slave_position = pos; port = port }

-- The walk ends before the third slave: after the first slave's port 2 it goes to the second slave again.
walk_of_fork : ports_from 20 (recieved_ports fork) ≡ some (at 0 0 ∷ at 1 0 ∷ at 0 1 ∷ [])
unfolding ports_from recieved_ports ethercat.Slave.Network.next_port
    ethercat.Slave.Network.slaves_of
walk_of_fork = refl
