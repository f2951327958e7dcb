-- ===== src/Host/Values/Ports.antt =====
-- Which port mappings are accepted, and what is made of them.
use aetheria.Prelude.{
  ℕ, ◌^◌, ◌<◌, ◌≡◌, refl, false, Option, none, some, List, [], ◌∷◌, ◌++◌, arith, Bytes, ok,
  append-nil, subst,
}
use aetheria.Text.{split_n, cut-append}
use aetheria.Text.Decimal.{IsDigit-Lacks, decimal, decimal-IsDigit, starts_digit}
use aetheria.Text.Scan.{scan_uint16, scan_uint16-decimal, scan_uint16-bound}
use aetheria.Agent.Types.{PortMapping}
use aetheria.Host.Values.{parse_port_mapping, tcp, ports_of, port_parts}

abbrev pub IsPort : ℕ → Type 0
IsPort n = (0 < n) × (n < 2 ^ 16)

-- `host:container` is read back as a tcp mapping for all ports from 1 to 65535, whatever stands
-- behind the container port, if that does not begin with a digit.
pub parse_port_mapping-decimal :
    (hp cp : ℕ) (rest : Bytes)
    → IsPort hp
    → IsPort cp
    → starts_digit rest ≡ false
    → parse_port_mapping (decimal hp ++ b':' ∷ (decimal cp ++ rest))
      ≡ ok (record { host_port = hp; container_port = cp; protocol = tcp })
unfolding parse_port_mapping split_n
parse_port_mapping-decimal hp cp rest h c end = ground (
  arith,
  cut-append (decimal hp) (decimal cp ++ rest) b':'
      (IsDigit-Lacks b':' (decimal hp) refl (decimal-IsDigit hp)),
  scan_uint16-decimal hp [] refl h.1,
  append-nil (decimal hp),
  scan_uint16-decimal cp rest end c.1,
)

pub parse_port_mapping-show :
    (hp cp : ℕ)
    → IsPort hp
    → IsPort cp
    → parse_port_mapping (decimal hp ++ b':' ∷ decimal cp)
      ≡ ok (record { host_port = hp; container_port = cp; protocol = tcp })
parse_port_mapping-show hp cp h c =
    subst
      (λ t.
        parse_port_mapping (decimal hp ++ b':' ∷ t)
        ≡ ok (record { host_port = hp; container_port = cp; protocol = tcp }))
      (append-nil (decimal cp)) (parse_port_mapping-decimal hp cp [] h c refl)

abbrev Fits : Option ℕ → Type 0
Fits o = (n : ℕ) → o ≡ some n → n < 2 ^ 16

abbrev GoodMapping : PortMapping → Type 0
GoodMapping pm = IsPort pm.host_port × IsPort pm.container_port × (pm.protocol ≡ tcp)

ports_of-IsPort :
    (a b : Bytes) (x y : Option ℕ)
    → Fits x
    → Fits y
    → (pm : PortMapping) → ports_of a b x y ≡ ok pm
    → GoodMapping pm
ports_of-IsPort a b none y fx fy pm h = cc
ports_of-IsPort a b (some hp) none fx fy pm h = cc
ports_of-IsPort a b (some hp) (some cp) fx fy pm h = ground (arith, fx hp refl, fy cp refl)

port_parts-IsPort : (l : List Bytes) (pm : PortMapping) → port_parts l ≡ ok pm → GoodMapping pm
port_parts-IsPort [] pm h = cc
port_parts-IsPort (a ∷ []) pm h = cc
port_parts-IsPort (a ∷ b ∷ []) pm h =
    ports_of-IsPort a b (scan_uint16 a) (scan_uint16 b) (scan_uint16-bound a) (scan_uint16-bound b)
      pm h
port_parts-IsPort (a ∷ b ∷ c ∷ l) pm h = cc

-- Every mapping that is accepted has both ports from 1 to 65535.
pub parse_port_mapping-IsPort :
    (s : Bytes) (pm : PortMapping)
    → parse_port_mapping s ≡ ok pm
    → IsPort pm.host_port × IsPort pm.container_port × (pm.protocol ≡ tcp)
unfolding parse_port_mapping
parse_port_mapping-IsPort s pm h = port_parts-IsPort (split_n s b':' 2) pm h
