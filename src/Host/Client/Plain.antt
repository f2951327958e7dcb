-- ===== src/Host/Client/Plain.antt =====
-- The commands that make one request (main.go): cmdPing, cmdInfo, cmdExec, cmdStop, cmdContainerAction,
-- cmdContainerLogs, cmdContainerExec and cmdImagePull.
use aetheria.Prelude.{
  ◌-◌, ℕ, zero, suc, Bool, true, false, Option, none, some, List, [], ◌∷◌, ◌++◌, Bytes, codes,
  if◌then◌else◌, ◌==◌, length, same, Result, ok, err, Exec, pure, raise, ◌>>=◌, ◌>>◌,
}
use aetheria.Prelude.Int.{ℤ, pos}
use aetheria.Text.{trim_both}
use aetheria.Host.Daemon.{Response}
use aetheria.Host.Client.{
  Params, no_params, with_cmd, with_name, with_lines, with_command, ClientError, Socket, ClientJson,
  new_request, send_to_daemon,
}

-- A process of the command line: what it has printed on its two outputs.
pub record Console (W : Type 0) : Type 0 where
  pub world : W
  pub stdout : Bytes
  pub stderr : Bytes

-- ExecResult
pub record ExecResult : Type 0 where
  pub stdout : Bytes
  pub stderr : Bytes
  pub exit_code : ℤ

-- A command that fails with a number calls os.Exit with it, and one that returns ends with 0.
abbrev pub exit_status : Result ℤ (Unit {0}) → ℤ
exit_status (ok u) = pos 0
exit_status (err code) = code

unfoldable pub spaces : ℕ → Bytes
spaces zero = []
spaces (suc n) = b' ' ∷ spaces n

-- The verb `%-ns`, for ASCII text
unfoldable pub pad_right : ℕ → Bytes → Bytes
pad_right n s = s ++ spaces (n - length s)

unfoldable pub trim_quotes : Bytes → Bytes
trim_quotes s = trim_both (λ c. c == b'"') s

module _ {W : Type 0} where
  unfoldable pub print : Bytes → Exec (Console W) ℤ Unit
  print s c = (ok tt, record c { stdout = c.stdout ++ s })

  unfoldable pub eprint : Bytes → Exec (Console W) ℤ Unit
  eprint s c = (ok tt, record c { stderr = c.stderr ++ s })

  -- A message on the error output and os.Exit(1)
  unfoldable pub die : {A : Type 0} → Bytes → Exec (Console W) ℤ A
  die s = eprint (s ++ codes "\n") >> raise (pos 1)

module _ {W : Type 0} (socket : Socket W) (codec : ClientJson) (text_of : ClientError → Bytes) where
  abbrev pub accepted : Bytes → Response → Exec (Console W) ℤ Response
  accepted refusal resp =
      let refused : Exec (Console W) ℤ Response = die (refusal ++ resp.error) in
      if same resp.error [] then pure resp else refused

  abbrev pub replied : Bytes → Bytes → Result ClientError Response × W → Exec (Console W) ℤ Response
  replied failure refusal (err e, w) c = die (failure ++ text_of e) (record c { world = w })
  replied failure refusal (ok resp, w) c = accepted refusal resp (record c { world = w })

  -- sendToDaemon with the two tests that stand behind it in every command
  unfoldable pub ask : Bytes → Bytes → Bytes → Params → Exec (Console W) ℤ Response
  ask failure refusal method p c =
      replied failure refusal (send_to_daemon socket codec (new_request codec method p) c.world) c

  abbrev pub ask_plain : Bytes → Params → Exec (Console W) ℤ Response
  ask_plain = ask [] (codes "error: ")

  -- cmdPing
  unfoldable pub ping_command : Exec (Console W) ℤ Unit
  ping_command =
      ask_plain (codes "ping") no_params >>= λ resp. print (trim_quotes resp.result ++ codes "\n")

  abbrev pub print_entries : List (Bytes × Bytes) → Exec (Console W) ℤ Unit
  print_entries [] = pure tt
  print_entries ((k, v) ∷ entries) =
      print (pad_right 12 (k ++ codes ":") ++ codes " " ++ v ++ codes "\n") >> print_entries entries

  abbrev pub or_die : {A : Type 0} → Bytes → Option A → Exec (Console W) ℤ A
  or_die message none = die message
  or_die message (some a) = pure a

  -- cmdInfo: `parse_info` yields the entries as they are printed, in the order of the loop, which Go
  -- leaves open; `none` is an error, and `bad` is the message of it.
  unfoldable pub info_command :
      (Bytes → Option (List (Bytes × Bytes))) → (Bytes → Bytes) → Exec (Console W) ℤ Unit
  info_command parse_info bad = ask_plain (codes "info") no_params >>= λ resp.
      or_die (codes "parse info: " ++ bad resp.result) (parse_info resp.result) >>= print_entries

  unfoldable pub print_result : ExecResult → Exec (Console W) ℤ Unit
  print_result r =
      (if same r.stdout [] then pure tt else print r.stdout)
      >> ((if same r.stderr [] then pure tt else eprint r.stderr) >> raise r.exit_code)

  -- cmdExec
  unfoldable pub exec_command :
      (Bytes → Option ExecResult) → (Bytes → Bytes) → Bytes → Exec (Console W) ℤ Unit
  exec_command parse_result bad command = ask_plain (codes "exec") (with_cmd command) >>= λ resp.
      or_die (codes "parse exec result: " ++ bad resp.result) (parse_result resp.result)
      >>= print_result

  -- cmdContainerExec
  unfoldable pub container_exec_command :
      (Bytes → Option ExecResult) → (Bytes → Bytes) → Bytes → Bytes → Exec (Console W) ℤ Unit
  container_exec_command parse_result bad name command =
      ask_plain (codes "container.exec") (with_command name command) >>= λ resp.
      or_die (codes "parse: " ++ bad resp.result) (parse_result resp.result) >>= print_result

  -- `cause_of` is the text of the library's error, which sendToDaemon puts behind one of its own.
  module _ (cause_of : ClientError → Bytes) where
    abbrev pub stop_answer : Bool × W → Exec (Console W) ℤ Unit
    stop_answer (true, w) c =
        print (codes "Shutdown signal sent\n") (record c { world = socket.close w })
    stop_answer (false, w) c =
        print (codes "VM shutting down...\n") (record c { world = socket.close w })

    abbrev pub stop_sent : Bool × W → Exec (Console W) ℤ Unit
    stop_sent (true, w) c = stop_answer (socket.read_some w) c
    stop_sent (false, w) c =
        die (codes "send shutdown: " ++ cause_of ClientError.send_daemon) (record c { world = w })

    abbrev pub stop_encoded : Option Bytes → Exec (Console W) ℤ Unit
    stop_encoded none c = die (codes "marshal: " ++ cause_of ClientError.marshal_request) c
    stop_encoded (some text) c = stop_sent (socket.write (text ++ b'\n' ∷ []) c.world) c

    abbrev pub stop_dialled : Bool × W → Exec (Console W) ℤ Unit
    stop_dialled (true, w) c =
        stop_encoded (codec.encode (new_request codec (codes "exec") (with_cmd (codes "poweroff"))))
          (record c { world = w })
    stop_dialled (false, w) c = die (cause_of ClientError.connect_daemon) (record c { world = w })

    -- cmdStop: os.Exit leaves the connection to the operating system.
    unfoldable pub stop_command : Exec (Console W) ℤ Unit
    stop_command c = stop_dialled (socket.dial c.world) c

  -- cmdContainerAction
  unfoldable pub action_command : Bytes → Bytes → Exec (Console W) ℤ Unit
  action_command method name =
      ask_plain method (with_name name) >>= λ resp. print (trim_quotes resp.result ++ codes "\n")

  abbrev pub or_empty : Option Bytes → Bytes
  or_empty none = []
  or_empty (some s) = s

  -- cmdContainerLogs, which does not look at the error of the decoding
  unfoldable pub logs_command : (Bytes → Option Bytes) → Bytes → ℤ → Exec (Console W) ℤ Unit
  logs_command parse_text name lines =
      ask_plain (codes "container.logs") (with_lines name lines) >>= λ resp.
      print (or_empty (parse_text resp.result))

  -- cmdImagePull
  unfoldable pub pull_command : Bytes → Exec (Console W) ℤ Unit
  pull_command name = do
    print (codes "Pulling " ++ name ++ codes "...\n")
    ask_plain (codes "image.pull") (with_name name)
    print (codes "Image " ++ name ++ codes " ready.\n")
