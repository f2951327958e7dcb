-- ===== src/Agent/PortForward/Lookup.antt =====
-- Which container a forwarded port leads to.
use aetheria.Prelude.{
  ℕ, ◌≡◌, ◌≢◌, ◌⊎◌, inl, inr, true, some, List, [], ◌∷◌, arith, Bytes, ok, Bool-cases, Option-cases,
  ℕ_discrete, bytes_dec,
}
use aetheria.Agent.Types.{PortMapping, Container, net_host}
use aetheria.Agent.Container.{is_running, Manager}
use aetheria.Agent.PortForward.{
  Target, find_port, target_of, find_target, containers_of, lookup_port_forward, localhost,
}

abbrev pub Publishes : ℕ → List PortMapping → ℕ → Type 0
Publishes hp [] cp = ⊥
Publishes hp (p ∷ ps) cp = ((p.host_port ≡ hp) × (p.container_port ≡ cp)) ⊎ Publishes hp ps cp

-- The target's address: the container's own, or the machine's if the container shares its network.
abbrev pub IsAddress : Container → Bytes → Type 0
IsAddress c ip = ((ip ≡ c.ip) × (ip ≢ [])) ⊎ ((ip ≡ localhost) × (c.network ≡ net_host))

-- A running container of the list that publishes the port, with its name and its address.
abbrev pub Serves : ℕ → Target → Container → Type 0
Serves hp t c =
    (is_running c ≡ true) × (t.name ≡ c.name) × Publishes hp c.ports t.port × IsAddress c t.ip

abbrev pub Served : ℕ → Target → List Container → Type 0
Served hp t [] = ⊥
Served hp t (c ∷ cs) = Serves hp t c ⊎ Served hp t cs

find_port-Publishes :
    (hp : ℕ) (ps : List PortMapping) (p : PortMapping)
    → find_port hp ps ≡ some p
    → Publishes hp ps p.container_port
unfolding find_port
find_port-Publishes hp [] p h = cc
find_port-Publishes hp (q ∷ ps) p h = elim (ℕ_discrete q.host_port hp) [
  | yes e ↦ inl (e, ground arith)
  | no n ↦ inr (find_port-Publishes hp ps p (ground arith))
]

target_of-Serves :
    (hp : ℕ) (c : Container) (p : PortMapping) (t : Target)
    → is_running c ≡ true
    → find_port hp c.ports ≡ some p
    → target_of c p ≡ ok t
    → Serves hp t c
unfolding target_of
target_of-Serves hp c p t runs found h = elim (bytes_dec c.ip []) [
  | yes e ↦ ground (arith, find_port-Publishes hp c.ports p found)
  | no n ↦ ground (arith, find_port-Publishes hp c.ports p found)
]

find_target-Served :
    (hp : ℕ) (cs : List Container) (t : Target) → find_target hp cs ≡ ok t → Served hp t cs
unfolding find_target
find_target-Served hp [] t h = cc
find_target-Served hp (c ∷ cs) t h = elim (Bool-cases (is_running c)) [
  | inl runs ↦ elim (Option-cases (find_port hp c.ports)) [
    | inl e ↦ inr (find_target-Served hp cs t (ground arith))
    | inr (p, e) ↦ inl (target_of-Serves hp c p t runs e (ground arith))
  ]
  | inr idle ↦ inr (find_target-Served hp cs t (ground arith))
]

-- A host port leads only to a running container that publishes the port: the name and the port are
-- that container's, and the address is its own, or 127.0.0.1 where it shares the machine's network.
pub lookup_port_forward-Served :
    (hp : ℕ) (m : Manager) (t : Target)
    → lookup_port_forward hp m ≡ ok t
    → Served hp t (containers_of m)
unfolding lookup_port_forward
lookup_port_forward-Served hp m t h = find_target-Served hp (containers_of m) t h
