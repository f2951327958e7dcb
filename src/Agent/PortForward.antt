-- ===== src/Agent/PortForward.antt =====
-- Port forwarding (portforward.go): which container a host port belongs to, and the tunnel to it.
pub mod Lookup
pub mod Tunnel
pub mod Bridge
use aetheria.Prelude.{
  ℕ, Bool, true, false, Option, none, some, List, [], ◌∷◌, ◌++◌, map, Bytes, codes, if◌then◌else◌,
  same, ◌==◌, values, Result, ok, err, Exec, ◌>>=◌, ◌>>◌,
}
use aetheria.Text.Decimal.{decimal}
use aetheria.Agent.Types.{
  PortMapping, Container, net_host, Error, no_ip, no_mapping, dial_container, dial_vsock,
  write_header,
}
use aetheria.Agent.Container.{Agent, Manager, is_running}

-- Where a host port leads to: the container's name, its port and its address.
pub record Target : Type 0 where
  pub name : Bytes
  pub port : ℕ
  pub ip : Bytes

unfoldable pub find_port : ℕ → List PortMapping → Option PortMapping
find_port host_port [] = none
find_port host_port (p ∷ ps) = if p.host_port == host_port then some p else find_port host_port ps

abbrev pub localhost : Bytes
localhost = codes "127.0.0.1"

unfoldable pub target_of : Container → PortMapping → Result Error Target
target_of c p =
    if same c.ip []
    then (if same c.network net_host
        then ok (record { name = c.name; port = p.container_port; ip = localhost })
        else err (no_ip c.name c.network))
    else ok (record { name = c.name; port = p.container_port; ip = c.ip })

-- The loop of lookupPortForward, over the containers in the order of the iteration
unfoldable pub find_target : ℕ → List Container → Result Error Target
find_target host_port [] = err (no_mapping host_port)
find_target host_port (c ∷ cs) =
    let rest = find_target host_port cs in
    if is_running c
    then elim (find_port host_port c.ports) [ none ↦ rest | some p ↦ target_of c p ]
    else rest

abbrev pub containers_of : Manager → List Container
containers_of m = map m.heap (values m.containers)

-- lookupPortForward
unfoldable pub lookup_port_forward : ℕ → Manager → Result Error Target
lookup_port_forward host_port m = find_target host_port (containers_of m)

-- One entry of handlePortForwardList
pub record Forward : Type 0 where
  pub container : Bytes
  pub host_port : ℕ
  pub container_port : ℕ
  pub container_ip : Bytes

abbrev pub forwards_of : Container → List Forward
forwards_of c =
    map
      (λ p. record {
        container = c.name;
        host_port = p.host_port;
        container_port = p.container_port;
        container_ip = c.ip;
      })
      c.ports

unfoldable pub list_forwards : List Container → List Forward
list_forwards [] = []
list_forwards (c ∷ cs) = forwards_of c ++ list_forwards cs

-- The sockets that the connect handler uses; a connection is a number. `bridge` hands two
-- connections to the goroutines that copy between them and close them.
pub record Sockets (W : Type 0) : Type 0 where
  pub dial : Bytes → W → Option ℕ × W
  pub dial_vsock : ℕ → ℕ → W → Option ℕ × W
  pub write : ℕ → Bytes → W → Bool × W
  pub close : ℕ → W → W
  pub bridge : ℕ → ℕ → W → W

abbrev pub host_cid : ℕ
host_cid = 2

abbrev pub vsock_port : ℕ
vsock_port = 1026

module _ {W : Type 0} (net : Sockets W) where
  -- The header names the host port, and then the tunnel is handed over.
  unfoldable pub hand_over : ℕ → ℕ → ℕ → Exec W Error Unit
  hand_over host_port c v w =
      let (written, w₁) = net.write v (decimal host_port ++ codes "\n") w in
      if written
      then (ok tt, net.bridge v c w₁)
      else (err write_header, net.close v (net.close c w₁))

  unfoldable pub open_vsock : ℕ → ℕ → Exec W Error Unit
  open_vsock host_port c w =
      let (r, w₁) = net.dial_vsock host_cid vsock_port w in
      elim r [ none ↦ (err dial_vsock, net.close c w₁) | some v ↦ hand_over host_port c v w₁ ]

  unfoldable pub open_tunnel : ℕ → Target → Exec W Error Unit
  open_tunnel host_port t w =
      let (r, w₁) = net.dial (t.ip ++ codes ":" ++ decimal t.port) w in
      elim r [ none ↦ (err dial_container, w₁) | some c ↦ open_vsock host_port c w₁ ]

  -- A lookup that fails ends the request.
  abbrev pub tunnel_to : ℕ → Result Error Target → Exec W Error Unit
  tunnel_to host_port (err e) w = (err e, w)
  tunnel_to host_port (ok t) w = open_tunnel host_port t w

  -- handlePortForwardConnect, behind the decoding of its parameters
  unfoldable pub connect_forward : ℕ → Manager → Exec W Error Unit
  connect_forward host_port m = tunnel_to host_port (lookup_port_forward host_port m)
