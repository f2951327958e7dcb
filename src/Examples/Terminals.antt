-- ===== src/Examples/Terminals.antt =====
-- Runs of `aetheria shell`, of a command that is not known, and of a daemon whose
-- agent connects again.
use aetheria.Prelude.{
  ◌+◌, ◌≡◌, refl, true, false, none, some, List, [], ◌∷◌, ◌++◌, Bytes, codes, ok, Exec, bytes_dec,
  append-nil, ap, sym, ◌∙◌,
}
use aetheria.Prelude.Int.{ℤ, pos}
use aetheria.Examples.Echo.{echo, echo-InOrder, method_only, text_only}
use aetheria.Host.Daemon.Answers.{InOrder}
use aetheria.Host.Daemon.{Daemon, Request, Response, send_to_agent, exchange}
use aetheria.Host.Client.{ClientError, ClientJson, Socket}
use aetheria.Host.Client.Plain.{Console}
use aetheria.Host.Client.Terminal.{Termios, Tty, shell_command}
use aetheria.Host.Client.Terminal.Restored.{TtyLaws, shell_command-current}
use aetheria.Host.Main.{Readers, main_command}
use aetheria.Host.Main.Quiet.{Refuses, is_wrong, main_command-Refuses}
use aetheria.Host.Run.{AgentConns, Agents, accept_agent, replace_agent, serve_clients}
use aetheria.Host.Run.Clients.{AllOk, OwnAnswers, serve_clients-OwnAnswers}
use aetheria.Host.Run.Reconnected.{Fresh, accept_agent-answer}

-- The state is that of the terminal; the daemon answers with an empty line.
abbrev daemon : Socket Termios
daemon = record {
  dial = λ w. (true, w);
  write = λ s w. (true, w);
  receive = λ w. ((b'\n' ∷ [], false), w);
  read_some = λ w. (true, w);
  close = λ w. w;
}

abbrev tty : Tty Termios
tty = record {
  get = λ w. (some w, w);
  set = λ t w. (true, t);
  raw_error = [];
  sleep = λ w. w;
  dial = λ w. (some 7, w);
  write = λ c s w. w;
  copy = λ c w. w;
  close = λ c w. w;
}

tty-TtyLaws : TtyLaws tty daemon (λ w. w) true
tty-TtyLaws = record {
  got = λ w. refl;
  set_ok = λ t w. refl;
  set_current = λ t w. refl;
  sleeping = λ w. refl;
  dialling = λ w. refl;
  writing = λ c s w. refl;
  copying = λ c w. refl;
  closing = λ c w. refl;
  socket_dial = λ w. refl;
  socket_write = λ s w. refl;
  socket_receive = λ w. refl;
  socket_close = λ w. refl;
}

abbrev empty_response : Response
empty_response = record { result = []; error = []; id = pos 0 }

abbrev codec : ClientJson
codec = record { json = λ p. []; encode = λ q. some q.method; decode = λ line. some empty_response }

abbrev cooked : Termios
cooked = record { iflag = 0x300; oflag = 3; cflag = 0x4b00; lflag = 0x5cb; cc = λ i. 4 }

abbrev at_prompt : Console Termios
at_prompt = record { world = cooked; stdout = []; stderr = [] }

abbrev no_text : ClientError → Bytes
no_text e = []

shell_command-current_example :
    (shell_command tty daemon codec no_text (codes "web") at_prompt).1.world ≡ cooked
shell_command-current_example =
    shell_command-current tty daemon codec no_text (λ w. w) true tty-TtyLaws (codes "web") at_prompt

abbrev readers : Readers
readers = record {
  info_of = λ s. none;
  result_of = λ s. none;
  rows_of = λ s. none;
  images_of = λ s. none;
  listed_of = λ s. none;
  logs_of = λ s. none;
  bad = λ s. [];
  cause_of = no_text;
  scan_float = λ s. none;
  cpu_positive = λ n. false;
  refusal = λ e. [];
}

abbrev no_run : Exec (Console Termios) ℤ Unit
no_run c = (ok tt, c)

restart_unknown : is_wrong (codes "restart") (codes "web" ∷ []) ≡ true
unfolding is_wrong bytes_dec
restart_unknown = refl

main_command-Refuses_example :
    Refuses
      (main_command daemon codec no_text tty readers no_run (codes "restart" ∷ codes "web" ∷ []))
main_command-Refuses_example =
    main_command-Refuses daemon codec no_text tty readers no_run (codes "restart")
      (codes "web" ∷ []) restart_unknown

abbrev conns : AgentConns (List Bytes)
conns = record { close = λ c w. w; set_conn = λ c w. w; new_reader = λ c w. [] }

-- All that was answered is in the buffer of the reader.
abbrev no_way : List Bytes → List Bytes
no_way w = []

conns-Fresh : Fresh conns no_way (λ w. w)
conns-Fresh = record {
  nothing_sent = λ c w. refl;
  same_buffer = λ c w. refl;
  empty_buffer = λ c w. refl;
  same_way = λ c w. refl;
}

echo-buffered : InOrder echo (λ line. line) (λ w. w ++ no_way w)
echo-buffered = record {
  written = λ line w h. append-nil (w ++ line ∷ []) ∙ ap (λ v. v ++ line ∷ []) (sym (append-nil w));
  read = λ w line h.
      append-nil w
      ∙ echo-InOrder.read w line h
      ∙ ap (λ v. line ∷ v) (sym (append-nil (echo.read_line w).1));
  late = λ w h. append-nil (echo.read_line w).1 ∙ echo-InOrder.late w h ∙ sym (append-nil w);
}

abbrev said : Bytes → Response
said line = record { result = line; error = []; id = pos 0 }

abbrev info : Request
info = record { method = codes "info"; params = []; id = 0 }

abbrev behind : Agents (List Bytes)
behind = record {
  daemon = record { connected = true; id_counter = 4; world = codes "old" ∷ [] };
  agent_conn = some 5;
}

pinged : (accept_agent conns echo method_only text_only 6 behind).0 ≡ ok (said (codes "ping\n"))
unfolding accept_agent replace_agent send_to_agent exchange
pinged = refl

informed :
    (send_to_agent echo method_only text_only info
      (accept_agent conns echo method_only text_only 6 behind).1.daemon).0
    ≡ ok (said (codes "info\n"))
unfolding accept_agent replace_agent send_to_agent exchange
informed = refl

accept_agent-answer_example :
    let d = (accept_agent conns echo method_only text_only 6 behind).1.daemon in
    (d.world ++ [] ≡ [])
    × ((text : Bytes) × (method_only (record info { id = d.id_counter + 1 }) ≡ some text)
        × (text_only (text ++ b'\n' ∷ []) ≡ some (said (codes "info\n"))))
accept_agent-answer_example =
    accept_agent-answer conns echo method_only text_only (λ line. line) no_way (λ w. w)
      echo-buffered conns-Fresh 6 behind (said (codes "ping\n")) info (said (codes "info\n")) pinged
      informed

abbrev connected : Daemon (List Bytes)
connected = record { connected = true; id_counter = 4; world = [] }

both_served : AllOk (serve_clients conns echo method_only text_only (info ∷ info ∷ []) connected).0
unfolding serve_clients send_to_agent exchange
both_served = tt

serve_clients-OwnAnswers_example :
    OwnAnswers conns echo method_only text_only
      (λ line. line)
      (λ w. w)
      echo-InOrder
      4
      (info ∷ info ∷ [])
      (serve_clients conns echo method_only text_only (info ∷ info ∷ []) connected).0
serve_clients-OwnAnswers_example =
    serve_clients-OwnAnswers conns echo method_only text_only (λ line. line) (λ w. w) echo-InOrder
      (info ∷ info ∷ []) connected both_served refl
