-- ===== src/Slave/Network.antt =====
-- src/slave/network.rs: `Network`, the slaves that were found, in the order of their positions, and the walk over
-- their ports.
pub mod Laws
mod Tests
use ethercat.Base.{
  ℕ, zero, suc, ◌+◌, ◌-◌, ◌%◌, ◌^◌, Bool, true, false, ◌&&◌, Option, none, some, List, [], ◌∷◌, map,
  length, get_elem?, set, Result, ok, err, ltb, leb, ◌==◌, if◌then◌else◌, ◌>>=◌,
}
use ethercat.Interface.{SlaveAddress, slave_position, station_address}
use ethercat.Slave.Config.{SlaveConfig}
use ethercat.Slave.Info.{Slave}

abbrev pub Place : Type 0
Place = Option Slave × SlaveConfig

pub record Network : Type 0 where
  pub slaves : List Place
  pub push_count : ℕ

unfoldable pub new : List Place → Network
new slave_buf = record { slaves = slave_buf; push_count = 0 }

unfoldable pub clear : Network → Network
clear n = record { slaves = map (λ p. (none, p.1)) n.slaves; push_count = 0 }

put : Network → Slave → Option Place → Option (Network × Result (Unit {0}) Slave)
put n slave none = none
put n slave (some p) = some (
  record { slaves = set n.slaves n.push_count (some slave, p.1); push_count = n.push_count + 1 },
  ok tt,
)

-- `none` is a panic, here and below. `push_count` is a `u16`, which overflows past as many slaves.
unfoldable pub push_slave : Network → Slave → Option (Network × Result (Unit {0}) Slave)
unfolding put
push_slave n slave =
    if leb (length n.slaves) n.push_count
    then some (n, err slave)
    else if n.push_count == 2 ^ 16 - 1
    then none
    else put n slave (get_elem? n.slaves n.push_count)

unfoldable pub num_slaves : Network → ℕ
num_slaves n = n.push_count

position_of : SlaveAddress → Option ℕ
position_of (slave_position n) = some n
position_of (station_address zero) = none
position_of (station_address (suc n)) = some n

unwrapped : Option Place → Option (Option (Slave × SlaveConfig))
unwrapped (some (some slave, config)) = some (some (slave, config))
unwrapped (some (none, config)) = none
unwrapped none = none

at_position : Network → Option ℕ → Option (Option (Slave × SlaveConfig))
unfolding unwrapped
at_position n none = some none
at_position n (some addr) =
    if ltb addr n.push_count then unwrapped (get_elem? n.slaves addr) else some none

-- The inner `none` is the `None` of the source.
unfoldable pub slave : Network → SlaveAddress → Option (Option (Slave × SlaveConfig))
unfolding position_of at_position
slave n addr = at_position n (position_of addr)

present : List Place → List (Slave × SlaveConfig)
present [] = []
present ((some slave, config) ∷ places) = (slave, config) ∷ present places
present ((none, config) ∷ places) = present places

-- The `filter` and `map` of `slaves` and `slaves_mut`.
unfoldable pub slaves_of : Network → List (Slave × SlaveConfig)
unfolding present
slaves_of n = present n.slaves

-- The walk over the ports. `position` and `length` are its own; the current port of each slave stands in the slave.
pub record RecievedPorts : Type 0 where
  pub slaves : List Place
  pub position : ℕ
  pub length : ℕ

pub record RecievedPort : Type 0 where
  pub slave_position : ℕ
  pub port : ℕ

-- `position(|p| *p)` among the ports after the first `from`, counted from `i` on.
next_port_from : ℕ → ℕ → List Bool → Option ℕ
next_port_from i from [] = none
next_port_from i from (has_port ∷ ports) =
    let rest = next_port_from (i + 1) from ports in if has_port && leb from i then some i else rest

or_four : Option ℕ → ℕ
or_four (some port) = port
or_four none = 4

set_port : Slave → ℕ → Slave
set_port s port = record s { dc_context = record s.dc_context { current_port = port } }

start_ports : List Place → List Place
unfolding next_port_from or_four set_port
start_ports [] = []
start_ports ((some s, config) ∷ places) =
    (some (set_port s (or_four (next_port_from 0 0 s.info.linked_ports))), config)
    ∷ start_ports places
start_ports ((none, config) ∷ places) = (none, config) ∷ start_ports places

unfoldable pub recieved_ports : Network → RecievedPorts
unfolding start_ports
recieved_ports n = record {
  slaves = start_ports n.slaves;
  position = 0;
  length = length (slaves_of n);
}

move : RecievedPorts → Slave → SlaveConfig → Option ℕ → RecievedPorts
unfolding set_port
move r s config (some next_port) = record r {
  slaves = set r.slaves r.position (some (set_port s next_port), config);
  position = r.position + 1;
}
move r s config none = record r {
  slaves = set r.slaves r.position (some (set_port s 4), config);
  position = if leb 1 r.position then r.position - 1 else r.position;
}

found : RecievedPorts → Slave → Option RecievedPort
found r s =
    if ltb r.position r.length && ltb s.dc_context.current_port 4
    then (let here : RecievedPort = record {
      slave_position = r.position;
      port = s.dc_context.current_port;
    } in
        some here)
    else none

step : RecievedPorts → Option Place → Option (RecievedPorts × Option RecievedPort)
unfolding next_port_from move found
step r (some (some s, config)) = some (
  move r s config (next_port_from 0 (s.dc_context.current_port + 1) s.info.linked_ports),
  found r s,
)
step r (some (none, config)) = none
step r none = none

unfoldable pub next_port : RecievedPorts → Option (RecievedPorts × Option RecievedPort)
unfolding step
next_port r = step r (get_elem? r.slaves r.position)

and_then_ports :
    (RecievedPorts → Option (List RecievedPort))
    → RecievedPorts × Option RecievedPort
    → Option (List RecievedPort)
and_then_ports rest (r, none) = some []
and_then_ports rest (r, some port) = do ports ← rest r; some (port ∷ ports)

-- What a loop over the iterator goes through, as far as the fuel goes.
unfoldable pub ports_from : ℕ → RecievedPorts → Option (List RecievedPort)
unfolding and_then_ports
ports_from zero r = some []
ports_from (suc fuel) r = next_port r >>= and_then_ports (λ q. ports_from fuel q)
