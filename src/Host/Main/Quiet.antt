-- ===== src/Host/Main/Quiet.antt =====
-- Arguments that the command line does not take (main.go): main and usage.
use aetheria.Prelude.{
  ℕ, ◌≡◌, refl, Bool, true, false, ◌||◌, List, [], ◌∷◌, ◌++◌, arith, Bytes, codes, if◌then◌else◌,
  same, not, err, Exec,
}
use aetheria.Prelude.Int.{ℤ, pos}
use aetheria.Host.Usage.{usage_text}
use aetheria.Host.Client.{ClientError, Socket, ClientJson}
use aetheria.Host.Client.Plain.{Console, eprint, die}
use aetheria.Host.Client.Terminal.{Tty}
use aetheria.Host.Main.{Readers, usage, run_with_argument, run_named, main_command}

abbrev pub member : Bytes → List Bytes → Bool
member s [] = false
member s (x ∷ xs) = same s x || member s xs

abbrev pub argument_commands : List Bytes
argument_commands =
    codes "exec"
    ∷ codes "create"
    ∷ codes "start"
    ∷ codes "shell"
    ∷ codes "logs"
    ∷ codes "rm"
    ∷ codes "pull"
    ∷ []

abbrev pub plain_commands : List Bytes
plain_commands =
    codes "run" ∷ codes "ping" ∷ codes "info" ∷ codes "stop" ∷ codes "ls" ∷ codes "images" ∷ []

-- A command that is not known, or one that needs an argument and has none
unfoldable pub is_wrong : Bytes → List Bytes → Bool
is_wrong command [] = not (member command plain_commands)
is_wrong command (a ∷ rest) =
    not (member command plain_commands || member command argument_commands)

-- The program ends with exit code 1, and does nothing but print something on the error output.
pub record Refuses {W : Type 0} (m : Exec (Console W) ℤ Unit) : Type 0 where
  pub code : (c : Console W) → (m c).0 ≡ err (pos 1)
  pub world : (c : Console W) → (m c).1.world ≡ c.world
  pub stdout : (c : Console W) → (m c).1.stdout ≡ c.stdout
  pub stderr : (c : Console W) → (b : ℕ) × (text : Bytes) × ((m c).1.stderr ≡ c.stderr ++ b ∷ text)

module _ {W : Type 0} where
  Refuses-die : (b : ℕ) (s : Bytes) → Refuses {W = W} (die (b ∷ s))
  unfolding die eprint
  Refuses-die b s = record {
    code = λ c. refl;
    world = λ c. refl;
    stdout = λ c. refl;
    stderr = λ c. (b, s ++ codes "\n", refl);
  }

  Refuses-if :
      (b : Bool) (m n : Exec (Console W) ℤ Unit)
      → Refuses m
      → Refuses n
      → Refuses (if b then m else n)
  Refuses-if true m n hm hn = hm
  Refuses-if false m n hm hn = hn

  Refuses-skip :
      (b : Bool) (m n : Exec (Console W) ℤ Unit)
      → b ≡ false
      → Refuses n
      → Refuses (if b then m else n)
  Refuses-skip b m n h hn = rw h hn

module _ {W : Type 0} (socket : Socket W) (codec : ClientJson) (text_of : ClientError → Bytes)
    (tty : Tty W) (readers : Readers) (run_command : Exec (Console W) ℤ Unit) where
  Refuses-usage : Refuses (usage socket codec text_of tty readers run_command)
  unfolding usage eprint usage_text
  Refuses-usage = record {
    code = λ c. refl;
    world = λ c. refl;
    stdout = λ c. refl;
    stderr = λ c. (b'a', _, refl);
  }

  missing-Refuses :
      (command : Bytes)
      → Refuses (run_with_argument socket codec text_of tty readers run_command command [])
  unfolding run_with_argument
  missing-Refuses command = search (Refuses-die, Refuses-if, Refuses-usage) depth 10

  unknown-Refuses :
      (command : Bytes) (args : List Bytes)
      → member command argument_commands ≡ false
      → Refuses (run_with_argument socket codec text_of tty readers run_command command args)
  unfolding run_with_argument
  unknown-Refuses command args h = Refuses-skip (same command (codes "exec")) _ _ (ground arith) (
      Refuses-skip (same command (codes "create")) _ _ (ground arith) (
        Refuses-skip (same command (codes "start")) _ _ (ground arith) (
          Refuses-skip (same command (codes "shell")) _ _ (ground arith) (
            Refuses-skip (same command (codes "logs")) _ _ (ground arith) (
              Refuses-skip (same command (codes "rm")) _ _ (ground arith)
                (Refuses-skip (same command (codes "pull")) _ _ (ground arith) Refuses-usage))))))

  run_named-Refuses :
      (command : Bytes) (args : List Bytes)
      → member command plain_commands ≡ false
      → Refuses (run_with_argument socket codec text_of tty readers run_command command args)
      → Refuses (run_named socket codec text_of tty readers run_command command args)
  unfolding run_named
  run_named-Refuses command args h refuses =
      Refuses-skip (same command (codes "run")) _ _ (ground arith) (
        Refuses-skip (same command (codes "ping")) _ _ (ground arith) (
          Refuses-skip (same command (codes "info")) _ _ (ground arith) (
            Refuses-skip (same command (codes "stop")) _ _ (ground arith) (
              Refuses-skip (same command (codes "ls")) _ _ (ground arith)
                (Refuses-skip (same command (codes "images")) _ _ (ground arith) refuses)))))

  -- A command that is not known, or one that needs an argument and has none, ends with exit code 1,
  -- sends nothing, prints nothing on the standard output, and prints something on the error output.
  pub main_command-Refuses :
      (command : Bytes) (args : List Bytes)
      → is_wrong command args ≡ true
      → Refuses (main_command socket codec text_of tty readers run_command (command ∷ args))
  unfolding main_command is_wrong
  main_command-Refuses command [] h =
      run_named-Refuses command [] (ground arith) (missing-Refuses command)
  main_command-Refuses command (a ∷ rest) h =
      run_named-Refuses command (a ∷ rest) (ground arith)
        (unknown-Refuses command (a ∷ rest) (ground arith))
