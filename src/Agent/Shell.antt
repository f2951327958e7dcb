-- ===== src/Agent/Shell.antt =====
-- Interactive shells in containers (shell.go, pty.go).
pub mod Files
pub mod Sessions
use aetheria.Prelude.{
  ℕ, ◌<◌, Bool, true, false, ◌&&◌, ◌||◌, same, Option, none, some, List, [], ◌∷◌, ◌++◌, Bytes,
  codes, map, if◌then◌else◌, ltb, Result, ok, err, Exec, pure, raise, ◌>>=◌, ◌>>◌, Dict, lookup,
  insert, erase,
}
use aetheria.Text.Decimal.{decimal}
use aetheria.Agent.Types.{
  Container, NetworkMode, net_bridge, net_none, ShellSession, Error, not_found, not_running,
  invalid_params, open_ptmx, unlock_pty, pty_number, open_slave, open_pty_failed, start_process,
  start_shell_failed,
}
use aetheria.Agent.Os.{Guest}
use aetheria.Agent.Container.{Manager, is_running}
use aetheria.Agent.Connection.{Vsock, dial_vsock, host_cid}

-- os.OpenFile, the two ioctls, TIOCSWINSZ, os.File.Close, exec.Cmd.Start with a terminal as its standard
-- files, and conn.Write. `none` and `false` are errors. A file is named by a number that no other open
-- file has.
pub record Pty (W : Type 0) : Type 0 where
  pub open_file : Bytes → W → Option ℕ × W
  pub unlock : ℕ → W → Bool × W
  pub number : ℕ → W → Option ℕ × W
  pub set_size : ℕ → ℕ → ℕ → W → W
  pub close : ℕ → W → W
  pub start : List Bytes → ℕ → W → Option ℕ × W
  pub write : ℕ → Bytes → W → W

abbrev pub pty_port : ℕ
pty_port = 1025

-- ContainerShellParams; the sizes are uint16, 0 where they are missing.
pub record ShellParams : Type 0 where
  pub name : Bytes
  pub rows : ℕ
  pub cols : ℕ

-- The shell in the namespaces of a container's process
unfoldable pub shell_argv : ℕ → NetworkMode → List Bytes
shell_argv pid network =
    map codes ("nsenter" ∷ "-t" ∷ [])
    ++ decimal pid ∷ map codes ("-p" ∷ "-m" ∷ "-u" ∷ "-i" ∷ [])
    ++ (if same network net_bridge || same network net_none then codes "-n" ∷ [] else [])
    ++ map codes ("--" ∷ "/bin/sh" ∷ "-l" ∷ [])

module _ {W : Type 0} where
  abbrev pub needed : {A : Type 0} → Error → Option A × W → Result Error A × W
  needed e (none, w) = (err e, w)
  needed e (some a, w) = (ok a, w)

  abbrev pub checked : Error → Bool × W → Result Error (Unit {0}) × W
  checked e (true, w) = (ok tt, w)
  checked e (false, w) = (err e, w)

  abbrev pub on_error : {A : Type 0} → (W → W) → Result Error A × W → Result Error A × W
  on_error f (ok a, w) = (ok a, w)
  on_error f (err e, w) = (err e, f w)

module _ {W : Type 0} (pty : Pty W) where
  -- The slave side of a master that is open
  unfoldable pub open_slave_of : ℕ → Exec W Error ℕ
  open_slave_of master = do
    (λ w. checked unlock_pty (pty.unlock master w))
    n ← (λ w. needed pty_number (pty.number master w))
    (λ w. needed (open_slave n) (pty.open_file (codes "/dev/pts/" ++ decimal n) w))

  -- openPTY: the master is closed on every error after it was opened. The first TIOCGPTN, with no place
  -- for its answer, does nothing.
  unfoldable pub open_pty : Exec W Error (ℕ × ℕ)
  open_pty = (λ w. needed open_ptmx (pty.open_file (codes "/dev/ptmx") w)) >>= λ master.
      (λ w. on_error (pty.close master) (open_slave_of master w)) >>= λ slave. pure (master, slave)

  abbrev pub started_shell :
      Bytes → ℕ → NetworkMode → ℕ → ℕ → Option ℕ × W → Result Error ShellSession × W
  started_shell name pid network master slave (none, w) =
      (err start_process, pty.close slave (pty.close master w))
  started_shell name pid network master slave (some p, w) = (
    ok (record {
      container_name = name;
      pid = pid;
      network = network;
      master = master;
      process = p;
    }),
    pty.close slave w,
  )

  abbrev pub run_shell : Bytes → ℕ → NetworkMode → ℕ × ℕ → Exec W Error ShellSession
  run_shell name pid network (master, slave) w =
      started_shell name pid network master slave
        (pty.start (shell_argv pid network) slave (pty.set_size master 24 80 w))

  abbrev pub pty_error : {A : Type 0} → Result Error A × W → Result Error A × W
  pty_error (ok a, w) = (ok a, w)
  pty_error (err e, w) = (err (open_pty_failed e), w)

  -- StartShell
  unfoldable pub start_shell : Bytes → ℕ → NetworkMode → Exec W Error ShellSession
  start_shell name pid network = (λ w. pty_error (open_pty w)) >>= run_shell name pid network

  -- Resize, which handleShellRPC calls where both sizes are given
  unfoldable pub resize : ShellSession → ℕ → ℕ → W → W
  resize s rows cols w = if ltb 0 rows && ltb 0 cols then pty.set_size s.master rows cols w else w

  abbrev pub close_old : Option ShellSession → W → W
  close_old none w = w
  close_old (some old) w = pty.close old.master w

  -- What handleShellRPC does under the lock before it starts a shell.
  unfoldable pub close_stale : Bytes → Guest W → Guest W
  close_stale name g = record g {
    world = close_old (lookup name g.sessions) g.world;
    sessions = erase name g.sessions;
  }

  abbrev pub opened_shell :
      ShellParams → Guest W → Result Error ShellSession × W → Result Error ℕ × Guest W
  opened_shell p g (err e, w) = (err (start_shell_failed e), record g { world = w })
  opened_shell p g (ok s, w) = (
    ok pty_port,
    record g { world = resize s p.rows p.cols w; sessions = insert p.name s g.sessions },
  )

  abbrev pub shell_at : ShellParams → Container → Guest W → Result Error ℕ × Guest W
  shell_at p c g =
      let g₁ = close_stale p.name g in
      opened_shell p g₁ (start_shell p.name c.pid c.network g₁.world)

  -- handleShellRPC, behind the decoding: the answer is the port of the stream. The goroutine that it
  -- starts makes the two steps below.
  unfoldable pub handle_shell : Manager → ShellParams → Exec (Guest W) Error ℕ
  handle_shell m p g = elim (lookup p.name m.containers) [
    | none ↦ (err (not_found p.name), g)
    | some ptr ↦
        if is_running (m.heap ptr) then shell_at p (m.heap ptr) g else (err (not_running p.name), g)
  ]

  module _ (vsock : Vsock W) where
    -- connectShellStream up to StreamTo: whether there is a connection to stream over
    unfoldable pub connect_stream : ShellSession → W → Option ℕ × W
    connect_stream s w =
        let (r, w₁) = dial_vsock vsock host_cid pty_port w in
        elim r [
          | none ↦ (none, w₁)
          | some c ↦ (some c, pty.write c (s.container_name ++ codes "\n") w₁)
        ]

    -- What follows when the copying in StreamTo has stopped: both ends are closed, and the entry of the
    -- session's container is deleted.
    unfoldable pub end_stream : ShellSession → ℕ → Guest W → Guest W
    end_stream s c g = record g {
      world = vsock.close c (pty.close s.master g.world);
      sessions = erase s.container_name g.sessions;
    }
