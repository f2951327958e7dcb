-- ===== src/Host/Client/Whole.antt =====
-- `aetheria exec` from the command line to the agent (main.go): cmdExec, handleCLIConn and sendToAgent.
use aetheria.Prelude.{
  ℕ, ◌+◌, ◌≡◌, refl, Bool, true, false, Option, some, List, [], ◌∷◌, ◌++◌, arith, Bytes, codes,
  Result, ok, err, append-nil, bytes_dec, sym, ap, subst, ◌∙◌,
}
use aetheria.Prelude.Int.{ℤ, pos}
use aetheria.Agent.Types.{PortMapping}
use aetheria.Host.Daemon.{Daemon, Request, Response, SendError, Wire, send_to_agent}
use aetheria.Host.Daemon.Answers.{InOrder, send_to_agent-answer}
use aetheria.Host.Relay.{Listeners, Relay, relayed}
use aetheria.Host.Client.{
  ClientError, read_daemon, ClientJson, Socket, new_request, with_cmd, send_to_daemon,
}
use aetheria.Host.Client.Plain.{
  Console, ExecResult, print, eprint, die, ask, print_result, exec_command,
}
use aetheria.Host.Client.Through.{
  Served, Carried, ForAgent, daemon_socket, send_to_daemon-relayed, send_to_daemon-late,
}

module _ {W : Type 0} (socket : Socket W) (codec : ClientJson) (text_of : ClientError → Bytes) where
  print_result_lem :
      (e : ExecResult) (c : Console W)
      → print_result socket codec text_of e c ≡ (
        err e.exit_code,
        record c { stdout = c.stdout ++ e.stdout; stderr = c.stderr ++ e.stderr },
      )
  unfolding print_result print eprint
  print_result_lem e c = ground (arith, append-nil c.stdout, append-nil c.stderr)

  exec_command-ok :
      (parse_result : Bytes → Option ExecResult) (bad : Bytes → Bytes) (command : Bytes)
      (c : Console W) (r : Response) (e : ExecResult)
      → (send_to_daemon socket codec
          (new_request codec (codes "exec") (with_cmd command))
          c.world).0
        ≡ ok r
      → r.error ≡ []
      → parse_result r.result ≡ some e
      → let w =
          (send_to_daemon socket codec
            (new_request codec (codes "exec") (with_cmd command))
            c.world).1 in
        exec_command socket codec text_of parse_result bad command c ≡ (
          err e.exit_code,
          record { world = w; stdout = c.stdout ++ e.stdout; stderr = c.stderr ++ e.stderr },
        )
  unfolding exec_command ask
  exec_command-ok parse_result bad command c r e answered fine parsed =
      let w =
        (send_to_daemon socket codec (new_request codec (codes "exec") (with_cmd command))
          c.world).1 in
      ground (arith, print_result_lem e (record c { world = w }))

  exec_command-err :
      (parse_result : Bytes → Option ExecResult) (bad : Bytes → Bytes) (command : Bytes)
      (c : Console W) (e : ClientError)
      → (send_to_daemon socket codec
          (new_request codec (codes "exec") (with_cmd command))
          c.world).0
        ≡ err e
      → let w =
          (send_to_daemon socket codec
            (new_request codec (codes "exec") (with_cmd command))
            c.world).1 in
        exec_command socket codec text_of parse_result bad command c ≡ (
          err (pos 1),
          record { world = w; stdout = c.stdout; stderr = c.stderr ++ (text_of e ++ codes "\n") },
        )
  unfolding exec_command ask die eprint
  exec_command-err parse_result bad command c e failed = ground arith

-- What a command leaves, from its start to its end: the result, or the message of a read that failed
abbrev pub Printed :
    {W : Type 0} → Bool → ExecResult → Bytes → Result ℤ (Unit {0}) → Console W → Console W → Type 0
Printed true e message status c c' =
    (status ≡ err e.exit_code)
    × (c'.stdout ≡ c.stdout ++ e.stdout)
    × (c'.stderr ≡ c.stderr ++ e.stderr)
Printed false e message status c c' =
    (status ≡ err (pos 1))
    × (c'.stdout ≡ c.stdout)
    × (c'.stderr ≡ c.stderr ++ (message ++ codes "\n"))

module _ {V : Type 0} (net : Listeners V) (wire : Wire V) (encode : Request → Option Bytes)
    (decode : Bytes → Option Response) (unmarshal : Bytes → Option Request)
    (ports_of : Bytes → Option (List PortMapping)) (text_of : SendError → Bytes)
    (marshal : Response → Option Bytes) (in_time : Relay V → Bool) (codec : ClientJson) where
  relayed-ok :
      (id : ℕ) (x : Result SendError Response × Daemon V) (relay : Relay V) (r : Response)
      → x.0 ≡ ok r
      → (relayed net wire encode decode unmarshal ports_of text_of marshal id x relay).0 ≡ r
  relayed-ok id (ok s, d) relay r h = ground arith
  relayed-ok id (err e, d) relay r h = cc h

  exec-ForAgent :
      (command : Bytes)
      → ForAgent net wire encode decode unmarshal ports_of text_of marshal in_time
          (new_request codec (codes "exec") (with_cmd command))
  unfolding bytes_dec
  exec-ForAgent command = (refl, refl)

  Printed-exec :
      (prompt : Bool) (say : ClientError → Bytes) (parse_result : Bytes → Option ExecResult)
      (bad : Bytes → Bytes) (command : Bytes) (c : Console (Served V)) (r : Response)
      (e : ExecResult)
      → let q = new_request codec (codes "exec") (with_cmd command) in
        let (resp, relay) =
          relayed net wire encode decode unmarshal ports_of text_of marshal q.id
            (send_to_agent wire encode decode q c.world.relay.daemon)
            c.world.relay in
        let socket =
          daemon_socket net wire encode decode unmarshal ports_of text_of marshal in_time in
        in_time relay ≡ prompt
        → resp ≡ r
        → r.error ≡ []
        → parse_result r.result ≡ some e
        → Carried net wire encode decode unmarshal ports_of text_of marshal in_time codec q resp
        → let (status, c') = exec_command socket codec say parse_result bad command c in
          Printed prompt e (say read_daemon) status c c'
  Printed-exec true say parse_result bad command c r e in_30_s same fine parsed carried =
      let q = new_request codec (codes "exec") (with_cmd command) in
      let socket =
        daemon_socket net wire encode decode unmarshal ports_of text_of marshal in_time in
      let (got, _) =
        send_to_daemon-relayed net wire encode decode unmarshal ports_of text_of marshal in_time
          codec q c.world (exec-ForAgent command) carried in_30_s in
      let run =
        exec_command-ok socket codec say parse_result bad command c r e
          (got ∙ ap (λ (x : Response). ok x) same) fine parsed in
      (
        ap (λ (x : Result ℤ (Unit {0}) × Console (Served V)). x.0) run,
        ap (λ (x : Result ℤ (Unit {0}) × Console (Served V)). x.1.stdout) run,
        ap (λ (x : Result ℤ (Unit {0}) × Console (Served V)). x.1.stderr) run,
      )
  Printed-exec false say parse_result bad command c r e late same fine parsed carried =
      let q = new_request codec (codes "exec") (with_cmd command) in
      let socket =
        daemon_socket net wire encode decode unmarshal ports_of text_of marshal in_time in
      let (got, _) =
        send_to_daemon-late net wire encode decode unmarshal ports_of text_of marshal in_time codec
          q c.world (exec-ForAgent command) carried late in
      let run = exec_command-err socket codec say parse_result bad command c read_daemon got in
      (
        ap (λ (x : Result ℤ (Unit {0}) × Console (Served V)). x.0) run,
        ap (λ (x : Result ℤ (Unit {0}) × Console (Served V)). x.1.stdout) run,
        ap (λ (x : Result ℤ (Unit {0}) × Console (Served V)). x.1.stderr) run,
      )

  -- With an agent that answers in order, and when no answer is left over, `aetheria exec` gets the agent's
  -- answer to this very request: the request to the agent succeeds, the response has no error, and the
  -- texts of both directions are lines of less than 64 KiB that are read as what was written. If the answer
  -- reaches the command before its deadline, it prints the outputs and ends with the exit code of the
  -- result that the answer decodes to; and else it prints the error of its read and ends with 1, though the
  -- agent has answered.
  pub exec_command-answer :
      (answer : Bytes → Bytes) (unread : V → List Bytes)
      → InOrder wire answer unread
      → (say : ClientError → Bytes) (parse_result : Bytes → Option ExecResult) (bad : Bytes → Bytes)
        (command : Bytes) (c : Console (Served V)) (r : Response) (e : ExecResult)
      → let q = new_request codec (codes "exec") (with_cmd command) in
        let d = c.world.relay.daemon in
        let socket =
          daemon_socket net wire encode decode unmarshal ports_of text_of marshal in_time in
        let relay =
          (relayed net wire encode decode unmarshal ports_of text_of marshal q.id
            (send_to_agent wire encode decode q d)
            c.world.relay).1 in
        unread d.world ≡ []
        → (send_to_agent wire encode decode q d).0 ≡ ok r
        → r.error ≡ []
        → parse_result r.result ≡ some e
        → Carried net wire encode decode unmarshal ports_of text_of marshal in_time codec q r
        → let (status, c') = exec_command socket codec say parse_result bad command c in
          ((text : Bytes) × (encode (record q { id = d.id_counter + 1 }) ≡ some text)
            × (decode (answer (text ++ b'\n' ∷ [])) ≡ some r))
          × Printed (in_time relay) e (say read_daemon) status c c'
  exec_command-answer answer unread laws say parse_result bad command c r e none_left sent fine
        parsed carried =
      let q = new_request codec (codes "exec") (with_cmd command) in
      let d = c.world.relay.daemon in
      let (text, encoded, read_as, _) =
        send_to_agent-answer wire encode decode answer unread laws q d r none_left sent in
      let same_response =
        relayed-ok q.id (send_to_agent wire encode decode q d) c.world.relay r sent in
      (
        (text, encoded, read_as),
        Printed-exec _ say parse_result bad command c r e refl same_response fine parsed (
            subst
              (Carried net wire encode decode unmarshal ports_of text_of marshal in_time codec q)
              (sym same_response) carried),
      )
