-- ===== src/Examples/Requests.antt =====
-- Requests to the agent, and a forwarded connection.
use aetheria.Prelude.{
  ℕ, ◌≡◌, refl, Bool, true, false, ◌&&◌, none, some, [], ◌∷◌, codes, ok, err, ◌==◌, if◌then◌else◌,
  values, bytes_dec, ℕ_discrete, raise, arith, same,
}
use aetheria.Prelude.Int.{pos}
use aetheria.Agent.Types.{Container, running, dial_vsock, cmd_required}
use aetheria.Agent.Container.{Manager, Agent}
use aetheria.Agent.PortForward.{
  Sockets, Target, lookup_port_forward, find_target, find_port, target_of, connect_forward,
  open_tunnel, open_vsock, containers_of, localhost,
}
use aetheria.Agent.PortForward.Lookup.{lookup_port_forward-Served, Served}
use aetheria.Agent.PortForward.Tunnel.{Tracks, connect_forward-closes}
use aetheria.Agent.Rpc.{Codec, Request, Services, handle_request}
use aetheria.Agent.Rpc.Entries.{HasEntries, handle_request-HasEntries}
use aetheria.Examples.Machine.{calm, no_config, zero_quota, prepared, web_params, empty_agent}

abbrev pub web : Container
web = record {
  name = codes "web";
  rootfs = codes "/srv/web";
  pid = 7;
  status = running;
  image = [];
  network = codes "host";
  ip = [];
  ports = web_params.ports;
  resources = web_params.resources;
  restart = codes "no";
  env = [];
  volumes = [];
  cmd = some 7;
}

abbrev pub web_manager : Manager
web_manager = record { heap = λ p. web; next = 1; containers = (codes "web", 0) ∷ [] }

abbrev web_target : Target
web_target = record { name = codes "web"; port = 80; ip = localhost }

web_found : lookup_port_forward 8080 web_manager ≡ ok web_target
unfolding lookup_port_forward find_target find_port target_of values bytes_dec ℕ_discrete
web_found = refl

lookup_port_forward-Served_example : Served 8080 web_target (containers_of web_manager)
lookup_port_forward-Served_example =
    lookup_port_forward-Served 8080 web_manager web_target web_found

-- One connection can be dialed, and the host answers on no vsock. The state tells whether connection 0
-- is open.
abbrev one_socket : Sockets Bool
one_socket = record {
  dial = λ addr open_now. if open_now then (none, open_now) else (some 0, true);
  dial_vsock = λ cid port open_now. (none, open_now);
  write = λ c b open_now. (false, open_now);
  close = λ c open_now. if c == 0 then false else open_now;
  bridge = λ v c open_now. open_now;
}

abbrev zero_open : ℕ → Bool → Bool
zero_open d open_now = open_now && d == 0

one_socket-Tracks : Tracks one_socket zero_open
one_socket-Tracks = record {
  refused = λ addr w h d. ground arith;
  dialed = λ addr w c h. (ground arith, λ d. ground arith);
  vsock_refused = λ cid port w h d. refl;
  vsock_dialed = λ cid port w c h. cc;
  written = λ c b w d. refl;
  closed = λ c w d. ground arith;
}

no_host : (connect_forward one_socket 8080 web_manager false).0 ≡ err dial_vsock
unfolding connect_forward open_tunnel open_vsock lookup_port_forward find_target find_port target_of
    values bytes_dec ℕ_discrete
no_host = refl

connect_forward-closes_example :
    zero_open 0 (connect_forward one_socket 8080 web_manager false).1 ≡ zero_open 0 false
connect_forward-closes_example =
    connect_forward-closes one_socket zero_open one_socket-Tracks 8080 web_manager false dial_vsock
      0 no_host

-- Every value decodes to the same parameters.
abbrev pub web_codec : Codec
web_codec = record {
  create_params = λ s. some web_params;
  name_params = λ s. some (codes "web");
  exec_params = λ s. none;
  logs_params = λ s. none;
  command_params = λ s. none;
  port_params = λ s. some 8080;
}

abbrev pub no_services : Services ℕ
no_services = record {
  shell = λ s m. raise cmd_required;
  image = λ m s. raise cmd_required;
  info = raise cmd_required;
}

abbrev pub no_sockets : Sockets ℕ
no_sockets = record {
  dial = λ addr w. (none, w);
  dial_vsock = λ cid port w. (none, w);
  write = λ c b w. (false, w);
  close = λ c w. w;
  bridge = λ v c w. w;
}

abbrev pub create_web : Request
create_web = record { method = codes "container.create"; params = []; id = pos 4 }

abbrev stop_web : Request
stop_web = record { method = codes "container.stop"; params = []; id = pos 5 }

abbrev web_agent : Agent ℕ
web_agent = record empty_agent { manager = web_manager }

no_removal : same stop_web.method (codes "container.remove") ≡ false
unfolding bytes_dec ℕ_discrete
no_removal = refl

handle_request-HasEntries_example :
    HasEntries web_agent
      (handle_request calm web_codec no_config zero_quota prepared no_sockets no_services stop_web
        web_agent).1
handle_request-HasEntries_example =
    handle_request-HasEntries calm web_codec no_config zero_quota prepared no_sockets no_services
      stop_web web_agent no_removal
