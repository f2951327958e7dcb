-- ===== src/Examples/Clients.antt =====
-- A command line that talks to a daemon whose agent answers every line with that line.
use aetheria.Prelude.{
  ◌≡◌, refl, Bool, true, false, Option, none, some, List, [], ◌∷◌, ◌++◌, arith, Bytes, codes, ok,
  err, ℕ, zero, suc, length, bytes_dec,
}
use aetheria.Prelude.Int.{pos}
use aetheria.Text.{Lacks, trim_suffix, has_suffix}
use aetheria.Agent.Types.{PortMapping}
use aetheria.Examples.Echo.{echo, echo-InOrder, method_only, text_only}
use aetheria.Host.Daemon.{Request, Response, SendError, send_to_agent, exchange}
use aetheria.Host.Relay.{Listeners, Relay}
use aetheria.Host.Client.{ClientJson, Socket, with_cmd, new_request, token_too_long, send_to_daemon}
use aetheria.Host.Client.Plain.{Console, ExecResult, exec_command}
use aetheria.Host.Client.Through.{Served, IsLine, Carried, daemon_socket}
use aetheria.Host.Client.Whole.{Printed, exec_command-answer}
use aetheria.Host.Client.Scans.{send_to_daemon-too_long}

-- A daemon that answers every request with `n` bytes and a line end
abbrev repeated : ℕ → Bytes
repeated zero = []
repeated (suc n) = b'x' ∷ repeated n

abbrev verbose : ℕ → Socket ℕ
verbose n = record {
  dial = λ w. (true, w);
  write = λ s w. (true, w);
  receive = λ w. ((repeated n ++ b'\n' ∷ [], false), w);
  read_some = λ w. (true, w);
  close = λ w. w;
}

length-repeated : (n : ℕ) → length (repeated n) ≡ n
length-repeated zero = refl
length-repeated (suc n) = ground (arith, length-repeated n)

Lacks-repeated : (n : ℕ) → Lacks b'\n' (repeated n)
Lacks-repeated zero = tt
Lacks-repeated (suc n) = ((λ e. omega arith), Lacks-repeated n)

abbrev exec_response : Response
exec_response = record { result = codes "exec\n"; error = []; id = pos 0 }

abbrev codec : ClientJson
codec = record { json = λ p. []; encode = method_only; decode = λ line. some exec_response }

abbrev exec_request : Request
exec_request = new_request codec (codes "exec") (with_cmd (codes "uname"))

send_to_daemon-too_long_example :
    (send_to_daemon (verbose 65536) codec exec_request 0).0 ≡ err token_too_long
send_to_daemon-too_long_example =
    send_to_daemon-too_long (verbose 65536) codec exec_request 0 (codes "exec") (repeated 65536)
      (b'\n' ∷ []) refl refl refl refl (Lacks-repeated 65536) (omega (arith, length-repeated 65536))

abbrev no_listeners : Listeners (List Bytes)
no_listeners = record { listen = λ address w. (none, w); close = λ ln w. w }

abbrev as_exec : Bytes → Option Request
as_exec line = some exec_request

abbrev no_ports : Bytes → Option (List PortMapping)
no_ports params = none

abbrev failure : SendError → Bytes
failure e = codes "error"

abbrev fast : Relay (List Bytes) → Bool
fast relay = true

abbrev as_done : Response → Option Bytes
as_done r = some (codes "done")

abbrev uname_result : ExecResult
uname_result = record { stdout = codes "Linux\n"; stderr = []; exit_code = pos 3 }

abbrev parsed : Bytes → Option ExecResult
parsed text = some uname_result

abbrev at_prompt : Console (Served (List Bytes))
at_prompt = record {
  world = record {
    relay = record {
      daemon = record { connected = true; id_counter = 4; world = [] };
      listeners = [];
    };
    arrived = [];
  };
  stdout = [];
  stderr = [];
}

exec_sent :
    (send_to_agent echo method_only text_only exec_request at_prompt.world.relay.daemon).0
    ≡ ok exec_response
unfolding send_to_agent exchange
exec_sent = refl

exec-IsLine : IsLine (codes "exec")
unfolding trim_suffix has_suffix bytes_dec
exec-IsLine = record {
  one_line =
      ((λ e. omega arith), ((λ e. omega arith), ((λ e. omega arith), ((λ e. omega arith), tt))));
  short = omega arith;
  no_cr = refl;
}

done-IsLine : IsLine (codes "done")
unfolding trim_suffix has_suffix bytes_dec
done-IsLine = record {
  one_line =
      ((λ e. omega arith), ((λ e. omega arith), ((λ e. omega arith), ((λ e. omega arith), tt))));
  short = omega arith;
  no_cr = refl;
}

exec-Carried :
    Carried no_listeners echo method_only text_only as_exec no_ports failure as_done fast codec
      exec_request exec_response
exec-Carried = record {
  text = codes "exec";
  out = codes "done";
  encoded = refl;
  text_line = exec-IsLine;
  read_as = refl;
  written = refl;
  out_line = done-IsLine;
  decoded = refl;
}

exec_command-answer_example :
    let socket =
      daemon_socket no_listeners echo method_only text_only as_exec no_ports failure as_done fast in
    let (status, c') =
      exec_command socket codec (λ e. []) parsed (λ s. []) (codes "uname") at_prompt in
    ((text : Bytes) × (method_only (record exec_request { id = 5 }) ≡ some text)
      × (text_only (text ++ b'\n' ∷ []) ≡ some exec_response))
    × Printed true uname_result [] status at_prompt c'
exec_command-answer_example =
    exec_command-answer no_listeners echo method_only text_only as_exec no_ports failure as_done
      fast codec (λ line. line) (λ w. w) echo-InOrder (λ e. []) parsed (λ s. []) (codes "uname")
      at_prompt exec_response uname_result refl exec_sent refl refl exec-Carried
