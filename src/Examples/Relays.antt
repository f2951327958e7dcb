-- ===== src/Examples/Relays.antt =====
-- A request to stop forwards.
use aetheria.Prelude.{
  ℕ, Bool, true, false, Option, none, some, List, [], ◌∷◌, Bytes, codes, if◌then◌else◌, ◌==◌,
}
use aetheria.Agent.Types.{PortMapping}
use aetheria.Host.Daemon.{Request, Response, SendError, Wire}
use aetheria.Host.Relay.{Listeners, Relay}

-- The state tells which listeners are open.
abbrev net : Listeners (ℕ → Bool)
net = record { listen = λ address w. (none, w); close = λ ln w d. if d == ln then false else w d }

abbrev no_wire : Wire (ℕ → Bool)
no_wire = record { write = λ line w. (false, w); read_line = λ w. (none, w) }

abbrev web_port : PortMapping
web_port = record { host_port = 8080; container_port = 80; protocol = codes "tcp" }

abbrev stop_web : Request
stop_web = record { method = codes "_daemon.portforward.stop"; params = []; id = 0 }

abbrev relay : Relay (ℕ → Bool)
relay = record {
  daemon = record { connected = true; id_counter = 6; world = λ d. true };
  listeners = (443, 2) ∷ (8080, 3) ∷ [];
}

abbrev unmarshal : Bytes → Option Request
unmarshal line = some stop_web

abbrev ports_of : Bytes → Option (List PortMapping)
ports_of params = some (web_port ∷ [])

abbrev text_of : SendError → Bytes
text_of e = codes "error"

abbrev marshal : Response → Option Bytes
marshal r = some r.result

abbrev encode : Request → Option Bytes
encode q = none

abbrev decode : Bytes → Option Response
decode line = none
