-- ===== src/Host/Relay.antt =====
-- The daemon between the command line and the agent (main.go): handleCLIConn with its port forwards,
-- writeJSONResponse and restorePortForwards.
pub mod Answered
use aetheria.Prelude.{
  ℕ, ◌%◌, Bool, true, false, ◌&&◌, Option, none, some, List, [], ◌∷◌, ◌++◌, Bytes, codes,
  if◌then◌else◌, same, ltb, ◌==◌, Result, ok, err,
}
use aetheria.Prelude.Int.{pos}
use aetheria.Text.Decimal.{decimal}
use aetheria.Agent.Types.{PortMapping}
use aetheria.Host.Daemon.{Daemon, Request, Response, SendError, Wire, send_to_agent}

-- net.Listen (`none` is an error) and Listener.Close
pub record Listeners (W : Type 0) : Type 0 where
  pub listen : Bytes → W → Option ℕ × W
  pub close : ℕ → W → W

-- The daemon with `pfListeners`: the listener of each host port, one for a port.
pub record Relay (W : Type 0) : Type 0 where
  pub daemon : Daemon W
  pub listeners : List (ℕ × ℕ)

unfoldable pub listener_of : ℕ → List (ℕ × ℕ) → Option ℕ
listener_of port [] = none
listener_of port ((p, ln) ∷ rest) =
    let later = listener_of port rest in if p == port then some ln else later

unfoldable pub without_port : ℕ → List (ℕ × ℕ) → List (ℕ × ℕ)
without_port port [] = []
without_port port ((p, ln) ∷ rest) =
    let kept = without_port port rest in if p == port then kept else (p, ln) ∷ kept

module _ {W : Type 0} (net : Listeners W) where
  abbrev pub at_world : W → Relay W → Relay W
  at_world w r = record r { daemon = record r.daemon { world = w } }

  abbrev pub keep_listener : ℕ → Option ℕ × W → Relay W → Relay W
  keep_listener port (none, w) r = at_world w r
  keep_listener port (some ln, w) r = record (at_world w r) {
    listeners = (port, ln) ∷ without_port port r.listeners;
  }

  -- listenPortForward up to its loop
  unfoldable pub listen_port_forward : ℕ → Relay W → Relay W
  listen_port_forward port r =
      keep_listener port (net.listen (codes "0.0.0.0:" ++ decimal port) r.daemon.world) r

  -- startPortForwards, with its goroutines one after the other
  unfoldable pub start_port_forwards : List PortMapping → Relay W → Relay W
  start_port_forwards [] r = r
  start_port_forwards (p ∷ ps) r = start_port_forwards ps (listen_port_forward p.host_port r)

  abbrev pub close_listener : ℕ → Option ℕ → Relay W → Relay W
  close_listener port none r = r
  close_listener port (some ln) r = record (at_world (net.close ln r.daemon.world) r) {
    listeners = without_port port r.listeners;
  }

  -- stopPortForwards
  unfoldable pub stop_port_forwards : List PortMapping → Relay W → Relay W
  stop_port_forwards [] r = r
  stop_port_forwards (p ∷ ps) r =
      stop_port_forwards ps (close_listener p.host_port (listener_of p.host_port r.listeners) r)

  -- A container of the list, as restorePortForwards reads it
  pub record Listed : Type 0 where
    pub status : Bytes
    pub ports : List (ℕ × ℕ)

  -- The ports are float64 numbers in the JSON value; a fraction cannot come from the agent.
  unfoldable pub restored_ports : List (ℕ × ℕ) → List PortMapping
  restored_ports [] = []
  restored_ports ((hp, cp) ∷ rest) =
      let more = restored_ports rest in
      if ltb 0 hp && ltb 0 cp
      then (record { host_port = hp % 65536; container_port = cp % 65536; protocol = [] }) ∷ more
      else more

  -- restorePortForwards, behind the request for the list
  unfoldable pub restore_listed : List Listed → Relay W → Relay W
  restore_listed [] r = r
  restore_listed (c ∷ cs) r = restore_listed cs (
      if same c.status (codes "running") then start_port_forwards (restored_ports c.ports) r else r)

  module _ (wire : Wire W) (encode : Request → Option Bytes)
      (decode : Bytes → Option Response) where
    abbrev pub list_request : Request
    list_request = record { method = codes "container.list"; params = []; id = 0 }

    abbrev pub with_list :
        (Bytes → Option (List Listed)) → Result SendError Response × Daemon W → Relay W → Relay W
    with_list parse (err e, d) r = record r { daemon = d }
    with_list parse (ok resp, d) r = elim (parse resp.result) [
      | none ↦ record r { daemon = d }
      | some cs ↦ restore_listed cs (record r { daemon = d })
    ]

    unfoldable pub restore_port_forwards : (Bytes → Option (List Listed)) → Relay W → Relay W
    restore_port_forwards parse r =
        with_list parse (send_to_agent wire encode decode list_request r.daemon) r

    -- `text_of` is the text of an error of sendToAgent, `marshal` is json.Marshal of a response.
    module _ (unmarshal : Bytes → Option Request) (ports_of : Bytes → Option (List PortMapping))
        (text_of : SendError → Bytes) (marshal : Response → Option Bytes) where
      abbrev pub line_or_error : Option Bytes → Bytes
      line_or_error none = codes "{\"error\":\"internal marshal error\"}\n"
      line_or_error (some t) = t ++ codes "\n"

      -- writeJSONResponse, as its one call of conn.Write
      unfoldable pub write_json_response : Response → Bytes
      write_json_response resp = line_or_error (marshal resp)

      abbrev pub error_response : Bytes → ℕ → Response
      error_response e id = record { result = []; error = e; id = pos id }

      abbrev pub done_response : ℕ → Response
      done_response id = record { result = codes "\"ok\""; error = []; id = pos id }

      -- handleDaemonPortForwardStart; the parameters of a request that was decoded are encoded again.
      unfoldable pub forwards_start_handler : Request → Relay W → Response × Relay W
      forwards_start_handler q r = elim (ports_of q.params) [
        | none ↦ (error_response (codes "invalid params") q.id, r)
        | some ps ↦ (done_response q.id, start_port_forwards ps r)
      ]

      abbrev pub ports_or_none : Option (List PortMapping) → List PortMapping
      ports_or_none none = []
      ports_or_none (some ps) = ps

      -- handleDaemonPortForwardStop, which does not look at the error
      unfoldable pub forwards_stop_handler : Request → Relay W → Response × Relay W
      forwards_stop_handler q r =
          (done_response q.id, stop_port_forwards (ports_or_none (ports_of q.params)) r)

      abbrev pub relayed : ℕ → Result SendError Response × Daemon W → Relay W → Response × Relay W
      relayed id (ok resp, d) r = (resp, record r { daemon = d })
      relayed id (err e, d) r = (error_response (text_of e) id, record r { daemon = d })

      unfoldable pub cli_response : Option Request → Relay W → Response × Relay W
      cli_response none r = (error_response (codes "invalid request") 0, r)
      cli_response (some q) r =
          if same q.method (codes "_daemon.portforward.start")
          then forwards_start_handler q r
          else if same q.method (codes "_daemon.portforward.stop")
          then forwards_stop_handler q r
          else relayed q.id (send_to_agent wire encode decode q r.daemon) r

      -- handleCLIConn, on the line that the scanner yields, `none` if it yields none: what is written
      unfoldable pub handle_cli_conn : Option Bytes → Relay W → List Bytes × Relay W
      handle_cli_conn none r = ([], r)
      handle_cli_conn (some line) r =
          let (resp, r') = cli_response (unmarshal line) r in (write_json_response resp ∷ [], r')
