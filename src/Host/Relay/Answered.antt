-- ===== src/Host/Relay/Answered.antt =====
-- What a request to stop forwards does (main.go): handleDaemonPortForwardStop and stopPortForwards.
use aetheria.Prelude.{ℕ, Bool, false, ◌||◌, List, [], ◌∷◌, ◌==◌}
use aetheria.Agent.Types.{PortMapping}
use aetheria.Host.Relay.{Relay}

unfoldable pub has_port : ℕ → List PortMapping → Bool
has_port port [] = false
has_port port (p ∷ ps) = p.host_port == port || has_port port ps
