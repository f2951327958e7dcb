-- ===== src/Agent/Network.antt =====
-- cmd/aetheria-agent/network.go: addresses, the bridge, and the veth pair of a container.
pub mod Addresses
pub mod Names
pub mod Failures
use aetheria.Prelude.{
  ℕ, ◌+◌, ◌%◌, Bool, true, false, List, [], ◌∷◌, ◌++◌, map, String, Bytes, codes, if◌then◌else◌,
  ltb, length, take, Exec, Result, ok, err, pure, raise, ◌>>=◌, ◌>>◌, continue,
}
use aetheria.Text.Decimal.{decimal}
use aetheria.Agent.Types.{
  Error, bridge_up, create_veth, attach_bridge, veth_up, move_veth, rename_veth, set_ip, eth_up,
  default_route,
}
use aetheria.Agent.Os.{Os, Guest, exited, not_run}
use aetheria.Prelude.Int.{is_zero}

abbrev pub bridge_name : Bytes
bridge_name = codes "br-aetheria"

abbrev pub bridge_subnet : Bytes
bridge_subnet = codes "10.42.0"

abbrev pub bridge_ip : Bytes
bridge_ip = bridge_subnet ++ codes ".1"

abbrev pub bridge_cidr : Bytes
bridge_cidr = bridge_ip ++ codes "/24"

-- `nextIP++` on a uint8, and the wrap behind 254
unfoldable pub next_address : ℕ → ℕ
next_address n = let m = (n + 1) % 256 in if ltb 254 m then 2 else m

unfoldable pub address : ℕ → Bytes
address n = bridge_subnet ++ codes "." ++ decimal n

unfoldable pub allocate_ip : {W : Type 0} → Guest W → Bytes × Guest W
unfolding next_address address
allocate_ip g = (address g.next_ip, record g { next_ip = next_address g.next_ip })

-- IFNAMSIZ: an interface name is cut to 15 bytes.
abbrev truncate : Bytes → Bytes
truncate s = if ltb 15 (length s) then take 15 s else s

unfoldable pub veth_host : Bytes → Bytes
veth_host name = truncate (codes "veth-" ++ name)

unfoldable pub peer_name : Bytes → Bytes
peer_name name = truncate (codes "vp-" ++ name)

abbrev pub nft : List String → List Bytes
nft args = codes "/usr/sbin/nft" ∷ map codes args

abbrev pub bridge_rule : Bytes
bridge_rule = bridge_subnet ++ codes ".0/24"

unfoldable pub nsenter : ℕ → List Bytes → List Bytes
nsenter pid args = map codes ("nsenter" ∷ "-t" ∷ []) ++ decimal pid ∷ codes "-n" ∷ codes "--" ∷ args

module _ (os : Os) where
  open os use {World}

  -- `run` fails unless the command exits with 0.
  unfoldable pub run : List Bytes → Guest World → Bool × Guest World
  run argv g =
      let (r, w) = os.run argv g.world in
      (elim r [ exited code _ _ ↦ is_zero code | not_run ↦ false ], record g { world = w })

  -- A command whose failure is logged or ignored.
  unfoldable pub attempt : List Bytes → Exec (Guest World) Error Unit
  unfolding run
  attempt argv g = (ok tt, (run argv g).1)

  -- A command whose failure ends the function with `e`.
  unfoldable pub require : Error → List Bytes → Exec (Guest World) Error Unit
  unfolding run
  require e argv g = let (done, g') = run argv g in (if done then ok tt else err e, g')

  unfoldable pub masquerade : Exec (Guest World) Error Unit
  unfolding run attempt
  masquerade g =
      let (done, g') =
        run
          (nft ("add" ∷ "rule" ∷ "ip" ∷ "aetheria_nat" ∷ "postrouting" ∷ "ip" ∷ "saddr" ∷ [])
            ++ bridge_rule ∷ codes "masquerade" ∷ [])
          g in
      let fallback =
        attempt
          (map codes ("/usr/sbin/iptables-legacy" ∷ "-t" ∷ "nat" ∷ "-A" ∷ "POSTROUTING" ∷ "-s" ∷ [])
            ++ bridge_rule
              ∷ codes "!"
              ∷ codes "-o"
              ∷ bridge_name
              ∷ codes "-j"
              ∷ codes "MASQUERADE"
              ∷ [])
          g' in
      if done then (ok tt, g') else fallback

  -- The function that `bridgeOnce` runs.
  unfoldable pub create_bridge : Exec (Guest World) Error Unit
  unfolding attempt require masquerade
  create_bridge = do
    attempt
        (map codes ("ip" ∷ "link" ∷ "add" ∷ []) ++ bridge_name ∷ map codes ("type" ∷ "bridge" ∷ []))
    attempt (map codes ("ip" ∷ "addr" ∷ "add" ∷ []) ++ bridge_cidr ∷ codes "dev" ∷ bridge_name ∷ [])
    require bridge_up (map codes ("ip" ∷ "link" ∷ "set" ∷ []) ++ bridge_name ∷ codes "up" ∷ [])
    attempt (map codes ("sh" ∷ "-c" ∷ "echo 1 > /proc/sys/net/ipv4/ip_forward" ∷ []))
    attempt (nft ("add" ∷ "table" ∷ "ip" ∷ "aetheria_nat" ∷ []))
    attempt (
        nft (
          "add" ∷ "chain" ∷ "ip" ∷ "aetheria_nat" ∷ "postrouting"
          ∷ "{ type nat hook postrouting priority 100 ; }" ∷ []))
    masquerade
    attempt (
        nft (
          "add" ∷ "chain" ∷ "ip" ∷ "aetheria_nat" ∷ "forward"
          ∷ "{ type filter hook forward priority 0 ; }" ∷ []))
    attempt (
        nft ("add" ∷ "rule" ∷ "ip" ∷ "aetheria_nat" ∷ "forward" ∷ "iifname" ∷ [])
        ++ bridge_name ∷ codes "accept" ∷ [])
    attempt (
        nft ("add" ∷ "rule" ∷ "ip" ∷ "aetheria_nat" ∷ "forward" ∷ "oifname" ∷ [])
        ++ bridge_name ∷ map codes ("ct" ∷ "state" ∷ "established,related" ∷ "accept" ∷ []))

  -- sync.Once: the first call runs the function and returns its error; later calls return nil.
  unfoldable pub ensure_bridge : Exec (Guest World) Error Unit
  ensure_bridge g =
      if g.bridge_done then (ok tt, g) else create_bridge (record g { bridge_done = true })

  unfoldable pub fresh_ip : Exec (Guest World) Error Bytes
  fresh_ip g = let (ip, g') = allocate_ip g in (ok ip, g')

  unfoldable pub connect_veth : Bytes → ℕ → Bytes → Exec (Guest World) Error Bytes
  unfolding require attempt nsenter
  connect_veth name pid ip = do
    require create_veth (
        map codes ("ip" ∷ "link" ∷ "add" ∷ [])
        ++ veth_host name ∷ map codes ("type" ∷ "veth" ∷ "peer" ∷ "name" ∷ [])
        ++ peer_name name ∷ [])
    require attach_bridge (
        map codes ("ip" ∷ "link" ∷ "set" ∷ [])
        ++ veth_host name ∷ codes "master" ∷ bridge_name ∷ [])
    require veth_up (map codes ("ip" ∷ "link" ∷ "set" ∷ []) ++ veth_host name ∷ codes "up" ∷ [])
    require move_veth (
        map codes ("ip" ∷ "link" ∷ "set" ∷ []) ++ peer_name name ∷ codes "netns" ∷ decimal pid ∷ [])
    require rename_veth (
        nsenter pid (
          map codes ("ip" ∷ "link" ∷ "set" ∷ [])
          ++ peer_name name ∷ codes "name" ∷ codes "eth0" ∷ []))
    require set_ip (
        nsenter pid (
          map codes ("ip" ∷ "addr" ∷ "add" ∷ [])
          ++ (ip ++ codes "/24") ∷ codes "dev" ∷ codes "eth0" ∷ []))
    attempt (nsenter pid (map codes ("ip" ∷ "link" ∷ "set" ∷ "lo" ∷ "up" ∷ [])))
    require eth_up (nsenter pid (map codes ("ip" ∷ "link" ∷ "set" ∷ "eth0" ∷ "up" ∷ [])))
    require default_route (
        nsenter pid (map codes ("ip" ∷ "route" ∷ "add" ∷ "default" ∷ "via" ∷ []) ++ bridge_ip ∷ []))
    pure ip

  unfoldable pub setup_bridge_network : Bytes → ℕ → Exec (Guest World) Error Bytes
  setup_bridge_network name pid = do ensure_bridge; ip ← fresh_ip; connect_veth name pid ip

  unfoldable pub teardown_bridge_network : Bytes → Guest World → Guest World
  teardown_bridge_network name g =
      (run (map codes ("ip" ∷ "link" ∷ "del" ∷ []) ++ veth_host name ∷ []) g).1
