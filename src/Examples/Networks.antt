-- ===== src/Examples/Networks.antt =====
-- The addresses and the interface names at concrete inputs.
use aetheria.Prelude.{◌≢◌, arith}
use aetheria.Agent.Network.{bridge_ip}
use aetheria.Agent.Network.Addresses.{nth_ip, allocate_ip_distinct, allocate_ip_not_bridge}
use aetheria.Examples.Machine.{fresh_guest}

allocate_ip_distinct_example : nth_ip 0 fresh_guest ≢ nth_ip 252 fresh_guest
allocate_ip_distinct_example =
    allocate_ip_distinct fresh_guest 0 252 (omega arith) (omega arith) (omega arith)

allocate_ip_not_bridge_example : nth_ip 3 fresh_guest ≢ bridge_ip
allocate_ip_not_bridge_example = allocate_ip_not_bridge fresh_guest 3 (omega arith)
