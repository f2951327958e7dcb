-- ===== src/Host/Client/Through.antt =====
-- A command, the daemon and the agent (main.go): sendToDaemon with handleCLIConn and sendToAgent.
use aetheria.Prelude.{
  ◌<◌, ◌≡◌, refl, Bool, true, false, Option, none, some, List, [], ◌∷◌, ◌++◌, arith, Bytes, codes,
  same, length, Result, ok, err, append-nil, ap, ◌∙◌,
}
use aetheria.Text.{Lacks}
use aetheria.Agent.Types.{PortMapping}
use aetheria.Host.Daemon.{Daemon, Request, Response, SendError, Wire, send_to_agent}
use aetheria.Host.Relay.{
  Listeners, Relay, relayed, cli_response, write_json_response, line_or_error, handle_cli_conn,
}
use aetheria.Host.Client.{
  Socket, ClientJson, ClientError, read_daemon, Scanned, token, too_long, no_token, drop_cr,
  scan_line, read_answer, converse, send_to_daemon,
}
use aetheria.Host.Client.Scans.{scan_line-token}

-- The daemon as a command sees it over one connection, with what it has written to that
pub record Served (V : Type 0) : Type 0 where
  pub relay : Relay V
  pub arrived : Bytes

abbrev pub line_of : Scanned → Option Bytes
line_of (token line) = some line
line_of too_long = none
line_of no_token = none

abbrev pub joined : List Bytes → Bytes
joined [] = []
joined (x ∷ xs) = x ++ joined xs

abbrev pub some_byte : Bytes → Bool
some_byte [] = false
some_byte (b ∷ bs) = true

-- A text that goes over the connection as one line: encoded JSON has no line end in it.
pub record IsLine (text : Bytes) : Type 0 where
  pub one_line : Lacks b'\n' text
  pub short : length text < 65536
  pub no_cr : drop_cr text ≡ text

scan_line-IsLine : (text : Bytes) → IsLine text → scan_line [] (text ++ b'\n' ∷ []) ≡ token text
scan_line-IsLine text h =
    scan_line-token text [] h.one_line h.short ∙ ap (λ (s : Bytes). token s) h.no_cr

-- What sendToDaemon does when each of its steps succeeds
pub send_to_daemon-line :
    {W : Type 0} (socket : Socket W) (codec : ClientJson) (q : Request) (w w₁ w₂ w₃ : W)
    (text out : Bytes) (failed : Bool) (resp : Response)
    → socket.dial w ≡ (true, w₁)
    → codec.encode q ≡ some text
    → socket.write (text ++ b'\n' ∷ []) w₁ ≡ (true, w₂)
    → socket.receive w₂ ≡ ((out ++ b'\n' ∷ [], failed), w₃)
    → IsLine out
    → codec.decode out ≡ some resp
    → send_to_daemon socket codec q w ≡ (ok resp, socket.close w₃)
unfolding send_to_daemon converse read_answer
send_to_daemon-line socket codec q w w₁ w₂ w₃ text out failed resp up encoded sent came line
      decoded =
    ground (arith, scan_line-IsLine out line)

-- What sendToDaemon does when an error ends the connection before any byte came
pub send_to_daemon-none :
    {W : Type 0} (socket : Socket W) (codec : ClientJson) (q : Request) (w w₁ w₂ w₃ : W)
    (text : Bytes)
    → socket.dial w ≡ (true, w₁)
    → codec.encode q ≡ some text
    → socket.write (text ++ b'\n' ∷ []) w₁ ≡ (true, w₂)
    → socket.receive w₂ ≡ (([], true), w₃)
    → send_to_daemon socket codec q w ≡ (err read_daemon, socket.close w₃)
unfolding send_to_daemon converse read_answer scan_line
send_to_daemon-none socket codec q w w₁ w₂ w₃ text up encoded sent failed = ground arith

-- `in_time` tells of the state behind an answer whether that came before the deadline of sendToDaemon,
-- 30 s after the dial; the agent has up to ten minutes.
module _ {V : Type 0} (net : Listeners V) (wire : Wire V) (encode : Request → Option Bytes)
    (decode : Bytes → Option Response) (unmarshal : Bytes → Option Request)
    (ports_of : Bytes → Option (List PortMapping)) (text_of : SendError → Bytes)
    (marshal : Response → Option Bytes) (in_time : Relay V → Bool) where
  abbrev pub serve : Bytes → Served V → Bool × Served V
  serve line s =
      let (written, r) =
        handle_cli_conn net wire encode decode unmarshal ports_of text_of marshal
          (line_of (scan_line [] line)) s.relay in
      (true, record { relay = r; arrived = joined written })

  -- What comes before the deadline; the daemon does its work also where its answer is late.
  abbrev pub before_deadline : Bool → Bytes → Bytes × Bool
  before_deadline true arrived = (arrived, false)
  before_deadline false arrived = ([], true)

  -- A connection to a daemon that serves it with no other request in between
  abbrev pub daemon_socket : Socket (Served V)
  daemon_socket = record {
    dial = λ s. (true, record s { arrived = [] });
    write = serve;
    receive = λ s. (before_deadline (in_time s.relay) s.arrived, s);
    read_some = λ s. (some_byte s.arrived, s);
    close = λ s. s;
  }

  abbrev pub answer_of :
      Request → Result SendError Response × Daemon V → Relay V → Response × Relay V
  answer_of q r = relayed net wire encode decode unmarshal ports_of text_of marshal q.id r

  -- A request that is not for the daemon itself
  abbrev pub ForAgent : Request → Type 0
  ForAgent q =
      (same q.method (codes "_daemon.portforward.start") ≡ false)
      × (same q.method (codes "_daemon.portforward.stop") ≡ false)

  handle_cli_conn-relayed :
      (q : Request) (text : Bytes) (r : Relay V)
      → ForAgent q
      → unmarshal text ≡ some q
      → let (resp, r') = answer_of q (send_to_agent wire encode decode q r.daemon) r in
        handle_cli_conn net wire encode decode unmarshal ports_of text_of marshal (some text) r ≡ (
          line_or_error net wire encode decode unmarshal ports_of text_of marshal (marshal resp)
              ∷ [],
          r',
        )
  unfolding handle_cli_conn cli_response write_json_response
  handle_cli_conn-relayed q text r (no_start, no_stop) read_as =
      rw read_as (rw no_start (rw no_stop refl))

  serve-relayed :
      (q : Request) (text out : Bytes) (s : Served V)
      → ForAgent q
      → IsLine text
      → unmarshal text ≡ some q
      → let (resp, r') = answer_of q (send_to_agent wire encode decode q s.relay.daemon) s.relay in
        marshal resp ≡ some out
        → serve (text ++ b'\n' ∷ []) s ≡ (true, record { relay = r'; arrived = out ++ b'\n' ∷ [] })
  serve-relayed q text out s outside line read_as written = rw (scan_line-IsLine text line) (
      rw (handle_cli_conn-relayed q text s.relay outside read_as) (
        rw written (
          ap
            (λ (a : Bytes). (
              true,
              record s {
                relay = (answer_of q (send_to_agent wire encode decode q s.relay.daemon) s.relay).1;
                arrived = a;
              },
            ))
            (append-nil (out ++ codes "\n")))))

  module _ (codec : ClientJson) where
    -- What the daemon and a command make of a response on its way: the texts of both directions are
    -- lines of less than 64 KiB, and are read as what was written.
    pub record Carried (q : Request) (resp : Response) : Type 0 where
      pub text : Bytes
      pub out : Bytes
      pub encoded : codec.encode q ≡ some text
      pub text_line : IsLine text
      pub read_as : unmarshal text ≡ some q
      pub written : marshal resp ≡ some out
      pub out_line : IsLine out
      pub decoded : codec.decode out ≡ some resp

    -- A request that is not for the daemon itself gets what sendToAgent yields for it, its error as an
    -- error response, where the texts are carried over the connection, and leaves the daemon as
    -- sendToAgent does.
    pub send_to_daemon-relayed :
        (q : Request) (s : Served V)
        → ForAgent q
        → let (resp, r') =
            answer_of q (send_to_agent wire encode decode q s.relay.daemon) s.relay in
          Carried q resp
          → in_time r' ≡ true
          → ((send_to_daemon daemon_socket codec q s).0 ≡ ok resp)
            × ((send_to_daemon daemon_socket codec q s).1.relay ≡ r')
    send_to_daemon-relayed q s outside carried prompt =
        let s₁ : Served V = record s { arrived = [] } in
        let (resp, r') = answer_of q (send_to_agent wire encode decode q s.relay.daemon) s.relay in
        let s₂ : Served V = record { relay = r'; arrived = carried.out ++ b'\n' ∷ [] } in
        let e =
          send_to_daemon-line daemon_socket codec q s s₁ s₂ s₂ carried.text carried.out false resp
            refl carried.encoded
            (serve-relayed q carried.text carried.out s₁ outside carried.text_line carried.read_as
              carried.written)
            (ap (λ (b : Bool). (before_deadline b s₂.arrived, s₂)) prompt) carried.out_line
            carried.decoded in
        (
          ap (λ (x : Result ClientError Response × Served V). x.0) e,
          ap (λ (x : Result ClientError Response × Served V). x.1.relay) e,
        )

    -- Where the answer comes too late, the request fails, though the daemon has done it.
    pub send_to_daemon-late :
        (q : Request) (s : Served V)
        → ForAgent q
        → let (resp, r') =
            answer_of q (send_to_agent wire encode decode q s.relay.daemon) s.relay in
          Carried q resp
          → in_time r' ≡ false
          → ((send_to_daemon daemon_socket codec q s).0 ≡ err read_daemon)
            × ((send_to_daemon daemon_socket codec q s).1.relay ≡ r')
    send_to_daemon-late q s outside carried late =
        let s₁ : Served V = record s { arrived = [] } in
        let (resp, r') = answer_of q (send_to_agent wire encode decode q s.relay.daemon) s.relay in
        let s₂ : Served V = record { relay = r'; arrived = carried.out ++ b'\n' ∷ [] } in
        let e =
          send_to_daemon-none daemon_socket codec q s s₁ s₂ s₂ carried.text refl carried.encoded
            (serve-relayed q carried.text carried.out s₁ outside carried.text_line carried.read_as
              carried.written)
            (ap (λ (b : Bool). (before_deadline b s₂.arrived, s₂)) late) in
        (
          ap (λ (x : Result ClientError Response × Served V). x.0) e,
          ap (λ (x : Result ClientError Response × Served V). x.1.relay) e,
        )
