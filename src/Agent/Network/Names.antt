-- ===== src/Agent/Network/Names.antt =====
-- The names of the two ends of a veth pair, cut to 15 bytes.
use aetheria.Prelude.{◌≤◌, ◌≡◌, ◌++◌, arith, Bytes, codes, length, take, length-take}
use aetheria.Agent.Network.{veth_host, peer_name}

-- Both interface names fit IFNAMSIZ, whatever the container's name.
pub veth_names_fit :
    (name : Bytes) → (length (veth_host name) ≤ 15) × (length (peer_name name) ≤ 15)
unfolding veth_host peer_name
veth_names_fit name =
    ground (arith, length-take 15 (codes "veth-" ++ name), length-take 15 (codes "vp-" ++ name))

-- Containers with names of at most ten bytes have different host interfaces.
pub veth_host-injective :
    (a b : Bytes) → length a ≤ 10 → length b ≤ 10 → veth_host a ≡ veth_host b → a ≡ b
unfolding veth_host
veth_host-injective a b ha hb h = ground arith

-- Two names of more than ten bytes that agree on the first ten have the same host interface.
pub veth_host_collision :
    (a b : Bytes)
    → 11 ≤ length a
    → 11 ≤ length b
    → take 10 a ≡ take 10 b
    → veth_host a ≡ veth_host b
unfolding veth_host
veth_host_collision a b ha hb h = ground arith
