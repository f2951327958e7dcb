-- ===== src/Host/Main.antt =====
-- The command line (main.go): main with its switch.
pub mod Quiet
use aetheria.Prelude.{
  ℕ, Bool, true, false, Option, none, some, List, [], ◌∷◌, ◌++◌, Bytes, codes, if◌then◌else◌, same,
  Result, ok, err, Exec, raise, ◌>>=◌, ◌>>◌,
}
use aetheria.Prelude.Int.{ℤ, pos}
use aetheria.Text.{join}
use aetheria.Text.Scan.{scan_int64}
use aetheria.Agent.Types.{PortMapping}
use aetheria.Host.Values.{CliError}
use aetheria.Host.Options.{CreateOptions, create_options, or_old}
use aetheria.Host.Usage.{usage_text}
use aetheria.Host.Client.{ClientError, Socket, ClientJson}
use aetheria.Host.Client.Plain.{
  Console, ExecResult, eprint, die, ping_command, info_command, exec_command, stop_command,
  action_command, logs_command, pull_command,
}
use aetheria.Host.Client.Tables.{Row, list_command, images_command}
use aetheria.Host.Client.Terminal.{Tty, shell_command}
use aetheria.Host.Client.Create.{create_command, rm_command}

-- The decoding of results by encoding/json with the texts of its errors, reading a float64 by
-- fmt.Sscanf, the test `> 0` on it, the message about an argument of create that is
-- not accepted, and the text of the error behind each one of sendToDaemon.
pub record Readers : Type 0 where
  pub info_of : Bytes → Option (List (Bytes × Bytes))
  pub result_of : Bytes → Option ExecResult
  pub rows_of : Bytes → Option (List Row)
  pub images_of : Bytes → Option (List (Bytes × Bytes × Bytes))
  pub listed_of : Bytes → Option (List (Bytes × List PortMapping))
  pub logs_of : Bytes → Option Bytes
  pub bad : Bytes → Bytes
  pub cause_of : ClientError → Bytes
  pub scan_float : Bytes → Option ℕ
  pub cpu_positive : ℕ → Bool
  pub refusal : CliError → Bytes

-- The loop over the arguments of `logs`, with the number of lines so far
unfoldable pub log_lines : ℤ → List Bytes → ℤ
log_lines lines [] = lines
log_lines lines (a ∷ []) = lines
log_lines lines (a ∷ v ∷ rest) =
    let with_value = log_lines (or_old (scan_int64 v) lines) rest in
    let without = log_lines lines (v ∷ rest) in if same a (codes "-n") then with_value else without

module _ {W : Type 0} (socket : Socket W) (codec : ClientJson) (text_of : ClientError → Bytes)
    (tty : Tty W) (readers : Readers) (run_command : Exec (Console W) ℤ Unit) where
  abbrev Program : Type 0
  Program = Exec (Console W) ℤ Unit

  unfoldable pub usage : Program
  usage = eprint usage_text >> raise (pos 1)

  abbrev pub with_argument : Bytes → (Bytes → List Bytes → Program) → List Bytes → Program
  with_argument synopsis f [] = die (codes "usage: aetheria " ++ synopsis)
  with_argument synopsis f (a ∷ rest) = f a rest

  abbrev pub created : Result CliError CreateOptions → Program
  created (err e) = die (readers.refusal e)
  created (ok o) = create_command socket codec text_of readers.cpu_positive o

  abbrev pub create_synopsis : Bytes
  create_synopsis =
      codes "create <distro> [name] [--net=host|bridge|none] [-p host:container] [--memory=512m] "
      ++ codes "[--cpus=1.0] [--pids=1024] [--restart=always]"

  -- The commands that need an argument
  unfoldable pub run_with_argument : Bytes → List Bytes → Program
  run_with_argument command args =
      if same command (codes "exec")
      then with_argument (codes "exec <command>")
          (λ a rest.
            exec_command socket codec text_of readers.result_of readers.bad
              (join (a ∷ rest) (codes " ")))
          args
      else if same command (codes "create")
      then with_argument create_synopsis
          (λ image rest. created (create_options readers.scan_float image rest)) args
      else if same command (codes "start")
      then with_argument (codes "start <name>")
          (λ name rest. action_command socket codec text_of (codes "container.start") name) args
      else if same command (codes "shell")
      then with_argument (codes "shell <name>")
          (λ name rest. shell_command tty socket codec text_of name) args
      else if same command (codes "logs")
      then with_argument (codes "logs <name> [-n lines]")
          (λ name rest.
            logs_command socket codec text_of readers.logs_of name (log_lines (pos 100) rest))
          args
      else if same command (codes "rm")
      then with_argument (codes "rm <name>")
          (λ name rest. rm_command socket codec text_of readers.listed_of name) args
      else if same command (codes "pull")
      then with_argument (codes "pull <distro>")
          (λ name rest. pull_command socket codec text_of name) args
      else usage

  -- The switch of main
  unfoldable pub run_named : Bytes → List Bytes → Program
  run_named command args =
      if same command (codes "run")
      then run_command
      else if same command (codes "ping")
      then ping_command socket codec text_of
      else if same command (codes "info")
      then info_command socket codec text_of readers.info_of readers.bad
      else if same command (codes "stop")
      then stop_command socket codec text_of readers.cause_of
      else if same command (codes "ls")
      then list_command socket codec text_of readers.rows_of readers.bad
      else if same command (codes "images")
      then images_command socket codec text_of readers.images_of
      else run_with_argument command args

  -- main, on the arguments behind the name of the program
  unfoldable pub main_command : List Bytes → Program
  main_command [] = usage
  main_command (command ∷ args) = run_named command args
