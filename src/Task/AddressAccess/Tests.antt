-- ===== src/Task/AddressAccess/Tests.antt =====
-- The laws of `AddressAccessTask` at concrete answers.
use ethercat.Base.{ℕ, List, [], ◌∷◌}
use ethercat.Interface.{TargetSlave, single, station_address}

abbrev slave : TargetSlave
slave = single (station_address 1)

abbrev payload : List ℕ
payload = 8 ∷ 9 ∷ []
