-- ===== src/Host/Client/Terminal.antt =====
-- `aetheria shell` (main.go): cmdShell with makeRaw and restoreTerminal.
pub mod Restored
use Prim.Native.Nat.{bit_and, bit_or, bit_xor}
use aetheria.Prelude.{
  ℕ, zero, suc, ◌+◌, Bool, true, false, Option, none, some, [], ◌∷◌, ◌++◌, Bytes, codes, ◌==◌,
  if◌then◌else◌, Result, ok, err, Exec, pure, raise, ◌>>=◌, ◌>>◌,
}
use aetheria.Prelude.Int.{ℤ}
use aetheria.Host.Client.{with_shell, ClientError, Socket, ClientJson}
use aetheria.Host.Client.Plain.{Console, ask, die}

-- syscall.Termios: the flag words and the control characters
pub record Termios : Type 0 where
  pub iflag : ℕ
  pub oflag : ℕ
  pub cflag : ℕ
  pub lflag : ℕ
  pub cc : ℕ → ℕ

-- The operator `&^`
unfoldable pub and_not : ℕ → ℕ → ℕ
and_not x mask = bit_xor x (bit_and x mask)

-- The constants of package syscall on macOS: IGNBRK, BRKINT, PARMRK, ISTRIP, INLCR, IGNCR, ICRNL, IXON
abbrev pub input_bits : ℕ
input_bits = 0x1 + 0x2 + 0x8 + 0x20 + 0x40 + 0x80 + 0x100 + 0x200

-- ECHO, ECHONL, ICANON, ISIG, IEXTEN
abbrev pub local_bits : ℕ
local_bits = 0x8 + 0x10 + 0x100 + 0x80 + 0x400

-- CSIZE and PARENB
abbrev pub control_bits : ℕ
control_bits = 0x300 + 0x1000

-- VMIN is 16 and VTIME is 17.
abbrev pub raw_cc : (ℕ → ℕ) → ℕ → ℕ
raw_cc cc i = if i == 17 then 0 else if i == 16 then 1 else cc i

-- What makeRaw sets: OPOST is 1 and CS8 is 0x300.
unfoldable pub raw_of : Termios → Termios
raw_of old = record {
  iflag = and_not old.iflag input_bits;
  oflag = and_not old.oflag 0x1;
  cflag = bit_or (and_not old.cflag control_bits) 0x300;
  lflag = and_not old.lflag local_bits;
  cc = raw_cc old.cc;
}

-- The two ioctls on the standard input, time.Sleep, net.DialTimeout of the daemon's socket for terminals,
-- conn.Write, the copying in both directions until the output has ended, and conn.Close. `none` and
-- `false` are errors, and `raw_error` is the text of that of an ioctl.
pub record Tty (W : Type 0) : Type 0 where
  pub get : W → Option Termios × W
  pub set : Termios → W → Bool × W
  pub raw_error : Bytes
  pub sleep : W → W
  pub dial : W → Option ℕ × W
  pub write : ℕ → Bytes → W → W
  pub copy : ℕ → W → W
  pub close : ℕ → W → W

module _ {W : Type 0} (tty : Tty W) where
  abbrev pub kept : Termios → Bool × W → Option Termios × W
  kept old (true, w) = (some old, w)
  kept old (false, w) = (none, w)

  abbrev pub with_old : Option Termios × W → Option Termios × W
  with_old (none, w) = (none, w)
  with_old (some old, w) = kept old (tty.set (raw_of old) w)

  -- makeRaw, which yields the old state
  unfoldable pub make_raw : W → Option Termios × W
  make_raw w = with_old (tty.get w)

  -- restoreTerminal
  unfoldable pub restore_terminal : Termios → W → W
  restore_terminal old w = (tty.set old w).1

  abbrev pub or_dial : (W → Option ℕ × W) → Option ℕ × W → Option ℕ × W
  or_dial again (some conn, w) = (some conn, w)
  or_dial again (none, w) = again w

  unfoldable pub pty_dials : ℕ → W → Option ℕ × W
  pty_dials zero w = (none, w)
  pty_dials (suc n) w = or_dial (pty_dials n) (tty.dial (tty.sleep w))

  -- What cmdShell does between two states of the terminal, with its deferred calls
  abbrev pub session : ℕ → Termios → W → W
  session conn old w = tty.close conn (restore_terminal old (tty.close conn (tty.copy conn w)))

  abbrev pub in_raw : ℕ → Option Termios × W → Exec (Console W) ℤ Unit
  in_raw conn (none, w) c = die (codes "raw mode: " ++ tty.raw_error) (record c { world = w })
  in_raw conn (some old, w) c = (ok tt, record c { world = session conn old w })

  abbrev pub on_stream : Bytes → Option ℕ × W → Exec (Console W) ℤ Unit
  on_stream name (none, w) c = die (codes "connect pty: timed out") (record c { world = w })
  on_stream name (some conn, w) c = in_raw conn (make_raw (tty.write conn (name ++ codes "\n") w)) c

  -- cmdShell behind the request
  unfoldable pub attach : Bytes → Exec (Console W) ℤ Unit
  attach name c = on_stream name (pty_dials 20 c.world) c

  -- cmdShell
  unfoldable pub shell_command :
      Socket W → ClientJson → (ClientError → Bytes) → Bytes → Exec (Console W) ℤ Unit
  shell_command socket codec text_of name =
      ask socket codec text_of (codes "shell: ") (codes "shell: ") (codes "container.shell")
        (with_shell name 24 80)
      >> attach name
